-- ===== src/Log/Retention/Tests.antt =====
-- Directories of src/log_retention.c with concrete entries.
use frame_pacer.Common.{
  ℕ, ◌≡◌, true, false, refl, none, some, Bytes, List, [], ◌∷◌, codes, same_bytes,
}
use frame_pacer.Log.Retention.{
  LogCandidate, Entry, digits_then_log, matches_log_name, after_bytes, newer_than, insert, retain,
  is_candidate, candidates_of, retention_limit, is_retained, retained_logs, unlinks, scan_again,
  prune_logs,
}

abbrev log : Bytes → ℕ → LogCandidate
log name seconds = record { name = name; seconds = seconds; nanoseconds = 0 }

abbrev entry : Bytes → ℕ → Entry
entry name seconds = record { candidate = log name seconds; is_user_file = true }

abbrev entries : List Entry
entries =
    entry (codes "vk-1.log") 5
    ∷ entry (codes "vk-2.log") 9
    ∷ entry (codes "vk-x.log") 1
    ∷ entry (codes "vk-3.log") 7
    ∷ []

newest_two :
    retain 2 (candidates_of (codes "vk-") none entries) []
    ≡ log (codes "vk-2.log") 9 ∷ log (codes "vk-3.log") 7 ∷ []
unfolding same_bytes digits_then_log matches_log_name after_bytes newer_than insert retain
    is_candidate candidates_of
newest_two = refl

all_fit : prune_logs (codes "vk-") none false entries ≡ entries
unfolding same_bytes digits_then_log matches_log_name after_bytes newer_than insert retain
    is_candidate candidates_of retention_limit is_retained retained_logs unlinks scan_again
    prune_logs
all_fit = refl

abbrev crowded : List Entry
crowded =
    entry (codes "vk-0.log") 20
    ∷ entry (codes "vk-1.log") 5
    ∷ entry (codes "vk-2.log") 9
    ∷ entry (codes "vk-3.log") 7
    ∷ entry (codes "vk-4.log") 30
    ∷ entry (codes "vk-5.log") 31
    ∷ entry (codes "vk-6.log") 32
    ∷ entry (codes "vk-7.log") 33
    ∷ entry (codes "vk-8.log") 34
    ∷ entry (codes "vk-9.log") 35
    ∷ entry (codes "vk-10.log") 36
    ∷ []

-- Nine stay besides the protected log, and the oldest goes.
oldest_goes :
    is_retained
      (codes "vk-1.log")
      (retained_logs (codes "vk-") (some (codes "vk-3.log")) true crowded)
    ≡ false
unfolding same_bytes digits_then_log matches_log_name after_bytes newer_than insert retain
    is_candidate candidates_of retention_limit is_retained retained_logs
oldest_goes = refl
