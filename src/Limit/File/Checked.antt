-- ===== src/Limit/File/Checked.antt =====
-- What a reload of the configuration (src/pacer_limit.c) may use: only a private regular file of the
-- user that did not change while it was read.
use mathlib.Core.List.{append_assoc, append-nil}
use frame_pacer.Common.{
  ℕ, zero, suc, ◌+◌, ◌-◌, ◌/◌, ◌%◌, ◌≤◌, ◌≡◌, arith, Bool, true, false, Bytes, List, [], ◌∷◌, ◌++◌,
  length, length-append, refl, ap, sym, ◌∙◌, Option, none, some,
}
use frame_pacer.Limit.Config.{Status, Reason, config_max_bytes}
use frame_pacer.Limit.File.{
  FileStat, FileSystem, ReadResult, chunk, interrupted, read_error, Answer, errno, answer,
  same_file, take, read_complete, metadata_failure, Attempt, got, gave_up, ◌>>=◌, check, found,
  looked_up, accepted, opened, open_config, read_opened, read_config,
}

-- The file may be trusted with settings: the user's own, of one name, closed to others, of a sane size.
pub record IsPrivate (user : ℕ) (st : FileStat) : Type 0 where
  pub regular : st.mode / 0o10000 % 0o20 ≡ 0o10
  pub owner : st.uid ≡ user
  pub one_link : st.nlink ≡ 1
  pub closed : st.mode % 0o100 ≡ 0
  pub not_empty : 1 ≤ st.size
  pub bounded : st.size ≤ config_max_bytes

pub metadata_failure_iff :
    (user : ℕ) (st : FileStat) → metadata_failure user st ≡ none → IsPrivate user st
unfolding metadata_failure
metadata_failure_iff user st e = ground arith

same_file_eq : (left right : FileStat) → same_file left right ≡ true → right ≡ left
unfolding same_file
same_file_eq left right e =
    let uid : right.uid ≡ left.uid = ground (arith, e) in
    let dev : right.dev ≡ left.dev = ground (arith, e) in
    let ino : right.ino ≡ left.ino = ground (arith, e) in
    let nlink : right.nlink ≡ left.nlink = ground (arith, e) in
    let mode : right.mode ≡ left.mode = ground (arith, e) in
    let size : right.size ≡ left.size = ground (arith, e) in
    let mtim_sec : right.mtim_sec ≡ left.mtim_sec = ground (arith, e) in
    let mtim_nsec : right.mtim_nsec ≡ left.mtim_nsec = ground (arith, e) in
    let ctim_sec : right.ctim_sec ≡ left.ctim_sec = ground (arith, e) in
    let ctim_nsec : right.ctim_nsec ≡ left.ctim_nsec = ground (arith, e) in cc

length-take : (n : ℕ) (s : Bytes) → length (take n s) ≤ n
unfolding take
length-take zero s = omega arith
length-take (suc n) [] = omega arith
length-take (suc n) (c ∷ cs) = omega (arith, length-take n cs)

-- A complete read gives exactly the bytes asked for, behind those that were there.
read_complete-length :
    (reads : List ReadResult) (remaining : ℕ) (text : Bytes) {all : Bytes}
    → read_complete remaining reads text ≡ some all
    → length all ≡ length text + remaining
unfolding read_complete
read_complete-length reads zero text e = ground arith
read_complete-length [] (suc remaining) text e = cc
read_complete-length (interrupted ∷ reads) (suc remaining) text e =
    read_complete-length reads (suc remaining) text e
read_complete-length (read_error ∷ reads) (suc remaining) text e = cc
read_complete-length (chunk [] ∷ reads) (suc remaining) text e = cc
read_complete-length (chunk (c ∷ cs) ∷ reads) (suc remaining) text e = omega (
  arith,
  read_complete-length reads (remaining - length (take remaining cs))
      (text ++ (c ∷ take remaining cs)) e,
  length-append text (c ∷ take remaining cs),
  length-take remaining cs,
)

-- The bytes that the calls of `read` give, in order, up to an error or the end of the file.
abbrev pub bytes_of : List ReadResult → Bytes
bytes_of [] = []
bytes_of (interrupted ∷ reads) = bytes_of reads
bytes_of (read_error ∷ reads) = []
bytes_of (chunk [] ∷ reads) = []
bytes_of (chunk (c ∷ cs) ∷ reads) = c ∷ (cs ++ bytes_of reads)

-- The first bytes of two texts: those of the first, then what is left to take of the second.
take-append : (n : ℕ) (s t : Bytes) → take n (s ++ t) ≡ take n s ++ take (n - length (take n s)) t
unfolding take
take-append zero s t = refl
take-append (suc n) [] t =
    let all_left : suc n ≡ suc n - 0 = omega arith in ap (λ k. take k t) all_left
take-append (suc n) (c ∷ cs) t =
    let one_less : n - length (take n cs) ≡ suc n - suc (length (take n cs)) = omega arith in
    ap (λ x. c ∷ x) (take-append n cs t ∙ ap (λ k. take n cs ++ take k t) one_less)

-- A complete read appends the first bytes that are read, in order.
read_complete-bytes :
    (reads : List ReadResult) (remaining : ℕ) (text : Bytes) {all : Bytes}
    → read_complete remaining reads text ≡ some all
    → all ≡ text ++ take remaining (bytes_of reads)
unfolding read_complete take
read_complete-bytes reads zero text {all} e =
    let same : text ≡ all = cc in sym same ∙ sym (append-nil text)
read_complete-bytes [] (suc remaining) text e = cc
read_complete-bytes (interrupted ∷ reads) (suc remaining) text e =
    read_complete-bytes reads (suc remaining) text e
read_complete-bytes (read_error ∷ reads) (suc remaining) text e = cc
read_complete-bytes (chunk [] ∷ reads) (suc remaining) text e = cc
read_complete-bytes (chunk (c ∷ cs) ∷ reads) (suc remaining) text e =
    let first = c ∷ take remaining cs in
    let left = remaining - length (take remaining cs) in
    read_complete-bytes reads left (text ++ first) e
    ∙ append_assoc text first (take left (bytes_of reads))
    ∙ ap (λ x. text ++ (c ∷ x)) (sym (take-append remaining cs (bytes_of reads)))

module _ {A B P : Type 0} where
  -- A success of two steps is one of each.
  bind-then :
      (m : Attempt A) (f : A → Attempt B) {b : B}
      → (m >>= f) ≡ got b
      → ((a : A) → m ≡ got a → f a ≡ got b → P)
      → P
  unfolding ◌>>=◌
  bind-then (got a) f e k = k a refl e
  bind-then (gave_up s r) f e k = absurd cc

  found-then :
      (o : Option A) (why : Reason) (f : A → Attempt B) {b : B}
      → (found o why >>= f) ≡ got b
      → ((a : A) → o ≡ some a → f a ≡ got b → P)
      → P
  unfolding found ◌>>=◌
  found-then none why f e k = absurd cc
  found-then (some a) why f e k = k a refl e

module _ {B P : Type 0} where
  check-then :
      (c : Bool) (why : Reason) (f : Unit {0} → Attempt B) {b : B}
      → (check c why >>= f) ≡ got b
      → (c ≡ true → f tt ≡ got b → P)
      → P
  unfolding check ◌>>=◌
  check-then true why f e k = k refl e
  check-then false why f e k = absurd cc

  accepted-then :
      (o : Option (Status × Reason)) (f : Unit {0} → Attempt B) {b : B}
      → (accepted o >>= f) ≡ got b
      → (o ≡ none → f tt ≡ got b → P)
      → P
  unfolding accepted ◌>>=◌
  accepted-then none f e k = k refl e
  accepted-then (some (s, r)) f e k = absurd cc

looked_up-got : (r : Answer FileStat) {st : FileStat} → looked_up r ≡ got st → r ≡ answer st
unfolding looked_up
looked_up-got (answer st) e = cc
looked_up-got (errno n) e = ground arith

-- The file as it was opened.
record IsOpened (fs : FileSystem) (st : FileStat) : Type 0 where
  before : FileStat
  looked : fs.lstat ≡ answer st
  private : IsPrivate fs.user st
  opened_as : fs.fstat_before ≡ some before
  same_before : before ≡ st

open_config-IsOpened :
    (capacity : ℕ) (fs : FileSystem) {st : FileStat}
    → open_config capacity fs ≡ got st
    → IsOpened fs st
unfolding open_config
open_config-IsOpened capacity fs {st} e = bind-then (looked_up fs.lstat) _ e λ found_st e1 e.
    accepted-then (metadata_failure fs.user found_st) _ e λ e2 e.
      bind-then (opened fs.open_errno) _ e λ _ e3 e. found-then fs.fstat_before _ _ e λ before e4 e.
        check-then (same_file found_st before) _ _ e λ e5 e. bind-then _ _ e λ _ e6 e.
          let same : found_st ≡ st = cc in
          record {
            before = before;
            looked = looked_up-got fs.lstat e1 ∙ ap answer same;
            private = metadata_failure_iff fs.user st (rw (← same) e2);
            opened_as = e4;
            same_before = same_file_eq found_st before e5 ∙ same;
          }

-- A text that was read: it is that of a private file, the same before and behind the read, whole, and the
-- bytes that `read` gave in their order.
pub record IsRead (fs : FileSystem) (text : Bytes) : Type 0 where
  pub st : FileStat
  pub before : FileStat
  pub after : FileStat
  pub looked : fs.lstat ≡ answer st
  pub private : IsPrivate fs.user st
  pub opened_as : fs.fstat_before ≡ some before
  pub same_before : before ≡ st
  pub whole : length text ≡ st.size
  pub in_order : text ≡ take st.size (bytes_of fs.reads)
  pub closed_as : fs.fstat_after ≡ some after
  pub same_after : after ≡ st

pub read_config-IsRead :
    (capacity : ℕ) (fs : FileSystem) {text : Bytes}
    → read_config capacity fs ≡ got text
    → IsRead fs text
unfolding read_config read_opened
read_config-IsRead capacity fs {text} e = bind-then (open_config capacity fs) _ e λ st e1 e.
    found-then (read_complete st.size fs.reads []) _ _ e λ all e2 e.
      found-then fs.fstat_after _ _ e λ after e3 e. check-then (same_file st after) _ _ e λ e4 e.
        bind-then _ _ e λ _ e5 e.
          let o = open_config-IsOpened capacity fs e1 in
          let same : all ≡ text = cc in
          record {
            st = st;
            before = o.before;
            after = after;
            looked = o.looked;
            private = o.private;
            opened_as = o.opened_as;
            same_before = o.same_before;
            whole = omega (arith, ap length same, read_complete-length fs.reads st.size [] e2);
            in_order = sym same ∙ read_complete-bytes fs.reads st.size [] e2;
            closed_as = e3;
            same_after = same_file_eq st after e4;
          }
