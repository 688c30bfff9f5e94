-- ===== src/Log/Retention/Meaning.antt =====
-- What the tests of src/log_retention.c mean, apart from their code.
use frame_pacer.Common.{
  ℕ, ◌≤◌, ◌<◌, ◌≡◌, ◌⊎◌, ◌↔◌, inl, inr, Bool, true, false, Bool-cases, arith, ◌&&◌, ◌==◌, Bytes,
  All, [], ◌∷◌, ◌++◌, length, Option, none, some, codes, refl, ap, same_bytes, same_bytes_iff,
  same_bytes_refl,
}
use frame_pacer.Log.Retention.{
  LogCandidate, Entry, is_digit, digits_then_log, matches_log_name, after_bytes, newer_than,
  is_candidate, same_name, retention_limit,
}

-- Behind `b` in the order of the dictionary.
abbrev pub IsAfter : Bytes → Bytes → Type 0
IsAfter [] b = ⊥
IsAfter (c ∷ a) [] = Unit
IsAfter (c ∷ a) (d ∷ b) = (d < c) ⊎ ((c ≡ d) × IsAfter a b)

-- Changed later, or at the same time and with a name behind the other.
abbrev pub IsNewer : LogCandidate → LogCandidate → Type 0
IsNewer a b =
    (b.seconds < a.seconds)
    ⊎ ((a.seconds ≡ b.seconds)
        × ((b.nanoseconds < a.nanoseconds)
            ⊎ ((a.nanoseconds ≡ b.nanoseconds) × IsAfter a.name b.name)))

after_bytes_iff : (a b : Bytes) → (after_bytes a b ≡ true) ↔ IsAfter a b
unfolding after_bytes
after_bytes_iff [] b = (λ e. absurd cc, λ h. absurd h)
after_bytes_iff (c ∷ a) [] = (λ e. tt, λ h. refl)
after_bytes_iff (c ∷ a) (d ∷ b) =
    let ih = after_bytes_iff a b in
    elim (Bool-cases (c == d)) [
      | inl e ↦
          let same : c ≡ d = ground (arith, e) in
          rw e (
            λ k. inr (same, ih.0 k),
            λ h. elim h [ inl lt ↦ absurd (omega (arith, lt, same)) | inr k ↦ ih.1 k.1 ],
          )
      | inr e ↦ rw e (
        λ k. inl (ground (arith, k)),
        λ h. elim h [ inl lt ↦ ground (arith, lt) | inr k ↦ absurd (ground (arith, e, k.0)) ],
      )
    ]

pub newer_than_iff : (a b : LogCandidate) → (newer_than a b ≡ true) ↔ IsNewer a b
unfolding newer_than
newer_than_iff a b = let names = after_bytes_iff a.name b.name in grind (arith, names)

pub newer_than-false : (a b : LogCandidate) → newer_than a b ≡ false → IsNewer a b → ⊥
newer_than-false a b e h = let t = (newer_than_iff a b).1 h in cc

abbrev pub IsDigit : ℕ → Type 0
IsDigit c = (b'0' ≤ c) × (c ≤ b'9')

-- The prefix, at least one digit, and `.log`.
pub record IsLogName (name prefix : Bytes) : Type 0 where
  pub digits : Bytes
  pub some_digits : 1 ≤ length digits
  pub all_digits : All IsDigit digits
  pub whole : name ≡ prefix ++ (digits ++ codes ".log")

-- Digits, at least one unless there were some before.
record IsRest (some_before : Bool) (name : Bytes) : Type 0 where
  digits : Bytes
  some_digits : (some_before ≡ true) ⊎ (1 ≤ length digits)
  all_digits : All IsDigit digits
  whole : name ≡ digits ++ codes ".log"

digits_then_log-IsRest :
    (some_before : Bool) (name : Bytes)
    → digits_then_log some_before name ≡ true
    → IsRest some_before name
unfolding digits_then_log
digits_then_log-IsRest some_before [] e = absurd cc
digits_then_log-IsRest some_before (c ∷ cs) e = elim (Bool-cases (is_digit c)) [
  | inl digit ↦
      let h = digits_then_log-IsRest true cs (rw digit at e) in
      record {
        digits = c ∷ h.digits;
        some_digits = inr (omega arith);
        all_digits = ((ground (arith, digit), ground (arith, digit)), h.all_digits);
        whole = ap (λ x. c ∷ x) h.whole;
      }
  | inr other ↦
      let k : some_before && same_bytes (c ∷ cs) (codes ".log") ≡ true = rw other at e in
      record {
        digits = [];
        some_digits = inl (ground (arith, k));
        all_digits = tt;
        whole = (same_bytes_iff (c ∷ cs) (codes ".log")).0 (ground (arith, k));
      }
]

IsRest-digits_then_log :
    (some_before : Bool) (digits : Bytes)
    → (some_before ≡ true) ⊎ (1 ≤ length digits)
    → All IsDigit digits
    → digits_then_log some_before (digits ++ codes ".log") ≡ true
unfolding digits_then_log same_bytes
IsRest-digits_then_log some_before [] (inl e) h = rw e refl
IsRest-digits_then_log some_before [] (inr e) h = absurd (omega (arith, e))
IsRest-digits_then_log some_before (c ∷ digits) some_digits h =
    let digit : is_digit c ≡ true = ground (arith, h.0) in
    rw digit (IsRest-digits_then_log true digits (inl refl) h.1)

digits_then_log_iff : (name : Bytes) → (digits_then_log false name ≡ true) ↔ IsLogName name []
digits_then_log_iff name = (
  λ e.
      let h = digits_then_log-IsRest false name e in
      record {
        digits = h.digits;
        some_digits = elim h.some_digits [ inl k ↦ absurd cc | inr k ↦ k ];
        all_digits = h.all_digits;
        whole = h.whole;
      },
  λ h. rw h.whole (IsRest-digits_then_log false h.digits (inr h.some_digits) h.all_digits),
)

IsLogName-below :
    (c p : ℕ) (name prefix : Bytes)
    → c ≡ p
    → IsLogName name prefix
    → IsLogName (c ∷ name) (p ∷ prefix)
IsLogName-below c p name prefix e h = record {
  digits = h.digits;
  some_digits = h.some_digits;
  all_digits = h.all_digits;
  whole = rw (e, h.whole) refl;
}

IsLogName-rest :
    (c p : ℕ) (name prefix : Bytes)
    → IsLogName (c ∷ name) (p ∷ prefix)
    → (c ≡ p) × IsLogName name prefix
IsLogName-rest c p name prefix h = (
  (let w = h.whole in cc),
  record {
    digits = h.digits;
    some_digits = h.some_digits;
    all_digits = h.all_digits;
    whole = (let w = h.whole in cc);
  },
)

some_name : (digits : Bytes) → [] ≡ digits ++ codes ".log" → ⊥
some_name [] e = cc
some_name (c ∷ digits) e = cc

pub matches_log_name_iff :
    (name prefix : Bytes) → (matches_log_name name prefix ≡ true) ↔ IsLogName name prefix
unfolding matches_log_name
matches_log_name_iff [] [] = (λ e. absurd cc, λ h. absurd (some_name h.digits h.whole))
matches_log_name_iff [] (p ∷ prefix) = (λ e. absurd cc, λ h. let w = h.whole in absurd cc)
matches_log_name_iff (c ∷ name) [] = digits_then_log_iff (c ∷ name)
matches_log_name_iff (c ∷ name) (p ∷ prefix) =
    let ih = matches_log_name_iff name prefix in
    (
      λ e. IsLogName-below c p name prefix (ground (arith, e)) (ih.0 (ground (arith, e))),
      λ h.
          let k = IsLogName-rest c p name prefix h in
          let same : c ≡ p = k.0 in let rest = ih.1 k.1 in ground (arith, same, rest),
    )

same_name_iff :
    (protected : Option Bytes) (name : Bytes)
    → (same_name protected name ≡ true) ↔ (protected ≡ some name)
same_name_iff none name = (λ e. absurd cc, λ e. absurd cc)
same_name_iff (some p) name = (
  λ e. rw ((same_bytes_iff name p).0 e) refl,
  λ e. let same : p ≡ name = cc in rw (same, same_bytes_refl name) refl,
)

-- A log of the prefix that may go: not the protected one, and a file of the user's.
pub record IsPrunable (prefix : Bytes) (protected : Option Bytes) (entry : Entry) : Type 0 where
  pub not_protected : (protected ≡ some entry.candidate.name) → ⊥
  pub log_name : IsLogName entry.candidate.name prefix
  pub user_file : entry.is_user_file ≡ true

pub is_candidate_iff :
    (prefix : Bytes) (protected : Option Bytes) (entry : Entry)
    → (is_candidate prefix protected entry ≡ true) ↔ IsPrunable prefix protected entry
unfolding is_candidate
is_candidate_iff prefix protected entry =
    let name = entry.candidate.name in
    let same = same_name_iff protected name in
    let log = matches_log_name_iff name prefix in
    (
      λ e. record {
        not_protected = λ p. let t = same.1 p in absurd (ground (arith, e, t));
        log_name = log.0 (ground (arith, e));
        user_file = ground (arith, e);
      },
      λ h. elim (Bool-cases (same_name protected name)) [
        | inl e ↦ absurd (h.not_protected (same.0 e))
        | inr e ↦ rw (e, log.1 h.log_name, h.user_file) refl
      ],
    )

-- The protected name is that of a log of the prefix, and of a file of the user's.
pub record IsProtectedLog (prefix : Bytes) (protected : Option Bytes) (is_file : Bool)
    : Type 0 where
  pub name : Bytes
  pub named : protected ≡ some name
  pub log_name : IsLogName name prefix
  pub user_file : is_file ≡ true

-- The logs that may be retained: ten, the protected one among them.
abbrev pub IsRoom : Bytes → Option Bytes → Bool → ℕ → Type 0
IsRoom prefix protected is_file room =
    (IsProtectedLog prefix protected is_file × (room ≡ 9))
    ⊎ ((IsProtectedLog prefix protected is_file → ⊥) × (room ≡ 10))

pub retention_limit-IsRoom :
    (prefix : Bytes) (protected : Option Bytes) (is_file : Bool)
    → IsRoom prefix protected is_file (retention_limit prefix protected is_file)
unfolding retention_limit
retention_limit-IsRoom prefix none is_file = inr ((λ h. let e = h.named in absurd cc), refl)
retention_limit-IsRoom prefix (some p) is_file =
    let log = matches_log_name_iff p prefix in
    elim (Bool-cases (matches_log_name p prefix && is_file)) [
      | inl e ↦ rw e (
          inl (
            record {
              name = p;
              named = refl;
              log_name = log.0 (ground (arith, e));
              user_file = ground (arith, e);
            },
            refl,
          ))
      | inr e ↦ rw e (
          inr (
            (λ h.
                let same : p ≡ h.name = (let n = h.named in cc) in
                let t = log.1 (rw same h.log_name) in
                let u = h.user_file in absurd (ground (arith, e, t, u))),
            refl,
          ))
    ]
