-- ===== src/Log/Retention.antt =====
-- src/log_retention.c: the newest logs of a directory.
-- An entry carries what `fstatat` says of it; its time of change is behind 1970. `retained`, an array with
-- a count, is a list of at most `limit` candidates, and the index of the scan is the place in it.
pub mod Order
pub mod Settled
pub mod Newest
pub mod Meaning
pub mod Scanned
pub mod Pruned
mod Tests
use frame_pacer.Common.{
  ℕ, zero, suc, ◌+◌, ◌-◌, Bool, true, false, not, ◌&&◌, ◌||◌, ltb, leb, ◌==◌, if◌then◌else◌, Bytes,
  List, [], ◌∷◌, Option, none, some, length, same_bytes, codes,
}

abbrev pub log_retention : ℕ
log_retention = 10

pub record LogCandidate : Type 0 where
  pub name : Bytes
  pub seconds : ℕ
  pub nanoseconds : ℕ

-- A name of the directory; `is_user_file`: `regular_user_file` holds of it.
pub record Entry : Type 0 where
  pub candidate : LogCandidate
  pub is_user_file : Bool

abbrev pub is_digit : ℕ → Bool
is_digit c = leb b'0' c && leb c b'9'

-- Digits, one at least unless there were some before, and `.log` behind them.
pub digits_then_log : Bool → Bytes → Bool
digits_then_log some_before [] = false
digits_then_log some_before (c ∷ cs) =
    let rest = digits_then_log true cs in
    if is_digit c then rest else some_before && same_bytes (c ∷ cs) (codes ".log")

pub matches_log_name : Bytes → Bytes → Bool
matches_log_name [] prefix = false
matches_log_name name [] = digits_then_log false name
matches_log_name (c ∷ name) (p ∷ prefix) = c == p && matches_log_name name prefix

-- `strcmp(left, right) > 0`
pub after_bytes : Bytes → Bytes → Bool
after_bytes [] right = false
after_bytes (c ∷ left) [] = true
after_bytes (c ∷ left) (d ∷ right) =
    let rest = after_bytes left right in if c == d then rest else ltb d c

pub newer_than : LogCandidate → LogCandidate → Bool
newer_than left right =
    if not (left.seconds == right.seconds)
    then ltb right.seconds left.seconds
    else if not (left.nanoseconds == right.nanoseconds)
    then ltb right.nanoseconds left.nanoseconds
    else after_bytes left.name right.name

abbrev pub take : ℕ → List LogCandidate → List LogCandidate
take zero xs = []
take (suc n) [] = []
take (suc n) (x ∷ xs) = x ∷ take n xs

-- The candidate goes before the first retained one that it is newer than, or to the end; the last one is
-- dropped for it if there is no room.
pub insert : ℕ → LogCandidate → List LogCandidate → List LogCandidate
insert zero candidate retained = []
insert (suc room) candidate [] = candidate ∷ []
insert (suc room) candidate (x ∷ retained) =
    let rest = insert room candidate retained in
    if newer_than candidate x then candidate ∷ take room (x ∷ retained) else x ∷ rest

-- The first scan of the directory.
pub retain : ℕ → List LogCandidate → List LogCandidate → List LogCandidate
retain limit [] retained = retained
retain limit (c ∷ candidates) retained = retain limit candidates (insert limit c retained)

abbrev pub same_name : Option Bytes → Bytes → Bool
same_name none name = false
same_name (some protected) name = same_bytes name protected

-- What both scans ask of an entry. Its name fits, as `d_name` is no longer than the candidate's.
pub is_candidate : Bytes → Option Bytes → Entry → Bool
is_candidate prefix protected entry =
    not (same_name protected entry.candidate.name)
    && matches_log_name entry.candidate.name prefix
    && entry.is_user_file

pub candidates_of : Bytes → Option Bytes → List Entry → List LogCandidate
candidates_of prefix protected [] = []
candidates_of prefix protected (entry ∷ entries) =
    let rest = candidates_of prefix protected entries in
    if is_candidate prefix protected entry then entry.candidate ∷ rest else rest

-- `protected_is_file`: `regular_user_file` holds of the protected name.
pub retention_limit : Bytes → Option Bytes → Bool → ℕ
retention_limit prefix none protected_is_file = log_retention
retention_limit prefix (some protected) protected_is_file =
    if matches_log_name protected prefix && protected_is_file
    then log_retention - 1
    else log_retention

pub is_retained : Bytes → List LogCandidate → Bool
is_retained name [] = false
is_retained name (x ∷ retained) = same_bytes name x.name || is_retained name retained

pub retained_logs : Bytes → Option Bytes → Bool → List Entry → List LogCandidate
retained_logs prefix protected protected_is_file entries =
    retain (retention_limit prefix protected protected_is_file)
      (candidates_of prefix protected entries) []

-- The second scan unlinks the entry.
pub unlinks : Bytes → Option Bytes → List LogCandidate → Entry → Bool
unlinks prefix protected retained entry =
    is_candidate prefix protected entry && not (is_retained entry.candidate.name retained)

pub scan_again : Bytes → Option Bytes → List LogCandidate → List Entry → List Entry
scan_again prefix protected retained [] = []
scan_again prefix protected retained (entry ∷ entries) =
    let rest = scan_again prefix protected retained entries in
    if unlinks prefix protected retained entry then rest else entry ∷ rest

-- The entries that remain if the directory can be opened and locked, and nothing else changes it.
pub prune_logs : Bytes → Option Bytes → Bool → List Entry → List Entry
prune_logs prefix protected protected_is_file entries =
    scan_again prefix protected (retained_logs prefix protected protected_is_file entries) entries
