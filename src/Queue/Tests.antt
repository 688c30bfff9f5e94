-- ===== src/Queue/Tests.antt =====
-- Runs of src/pacer_queue.c at concrete states.
use frame_pacer.Common.{◌≤◌, ◌<◌, ◌+◌, ◌≡◌, ◌↔◌, true, false, refl, arith, [], ◌∷◌, List, ℕ}
use frame_pacer.Queue.{
  QueueState, present_quiet_ns, note_present, needs_fallback, fallback_after, count_submit,
}
use frame_pacer.Queue.Laws.{needed_iff, entries, submit_all, entries-submit_all}

-- A present at 100 ms.
abbrev presented : QueueState
presented = record {
  last_present_ns = 100000000;
  submits_since_present = 7;
  has_present = true;
  fallback_active = false;
}

quiet_after_51_ms :
    (needs_fallback (note_present presented) 151000000).1
    ≡ record { needed = true; entered = true; submits = 1 }
unfolding needs_fallback fallback_after count_submit note_present
quiet_after_51_ms = refl

abbrev times : List ℕ
times = 120000000 ∷ 151000000 ∷ 160000000 ∷ []

needed_iff_example :
    ((needs_fallback presented 151000000).1.needed ≡ true)
    ↔ ((presented.has_present ≡ true) × (presented.last_present_ns + present_quiet_ns < 151000000))
needed_iff_example = needed_iff presented 151000000 (omega arith) (omega arith)

entries-submit_all_example : entries (submit_all presented times) ≤ 1
entries-submit_all_example = entries-submit_all times presented
