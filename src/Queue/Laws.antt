-- ===== src/Queue/Laws.antt =====
-- What the present-quiet fallback of src/pacer_queue.c guarantees.
use frame_pacer.Common.{
  ℕ, ◌+◌, ◌≤◌, ◌<◌, ◌≡◌, ◌↔◌, true, false, arith, uint64_max, List, [], ◌∷◌, refl, All, length,
  if◌then◌else◌,
}
use frame_pacer.Queue.{
  QueueState, present_quiet_ns, note_present, count_submit, needs_fallback, fallback_after,
  Fallback,
}

-- The fallback is needed exactly when a present was seen and more than 50 ms have passed since.
pub needed_iff :
    (s : QueueState) (now_ns : ℕ)
    → s.last_present_ns ≤ uint64_max
    → now_ns ≤ uint64_max
    → ((needs_fallback s now_ns).1.needed ≡ true)
      ↔ ((s.has_present ≡ true) × (s.last_present_ns + present_quiet_ns < now_ns))
unfolding needs_fallback fallback_after count_submit
needed_iff s now_ns h k = ground arith

-- The submissions of a queue in order, with what each call reports.
pub submit_all : QueueState → List ℕ → List Fallback
submit_all s [] = []
submit_all s (now_ns ∷ rest) = let (s', f) = needs_fallback s now_ns in f ∷ submit_all s' rest

-- How often a sequence of calls reports that the fallback was entered.
pub entries : List Fallback → ℕ
entries [] = 0
entries (f ∷ fs) = (if f.entered then 1 else 0) + entries fs

active_stays :
    (s : QueueState) (now_ns : ℕ)
    → s.fallback_active ≡ true
    → ((needs_fallback s now_ns).1.entered ≡ false)
      × ((needs_fallback s now_ns).0.fallback_active ≡ true)
unfolding needs_fallback fallback_after count_submit
active_stays s now_ns h = ground arith

entered_activates :
    (s : QueueState) (now_ns : ℕ)
    → (needs_fallback s now_ns).1.entered ≡ true
    → (needs_fallback s now_ns).0.fallback_active ≡ true
unfolding needs_fallback fallback_after count_submit
entered_activates s now_ns h = ground arith

entries-active :
    (nows : List ℕ) (s : QueueState) → s.fallback_active ≡ true → entries (submit_all s nows) ≡ 0
unfolding entries submit_all
entries-active [] s h = refl
entries-active (now_ns ∷ rest) s h = ground (
  arith,
  active_stays s now_ns h,
  entries-active rest (needs_fallback s now_ns).0 (active_stays s now_ns h).1,
)

-- Between two presents the fallback is entered at most once, whatever the times of the submissions.
pub entries-submit_all : (nows : List ℕ) (s : QueueState) → entries (submit_all s nows) ≤ 1
unfolding entries submit_all
entries-submit_all [] s = omega arith
entries-submit_all (now_ns ∷ rest) s = ground (
  arith,
  entered_activates s now_ns,
  entries-submit_all rest (needs_fallback s now_ns).0,
  entries-active rest (needs_fallback s now_ns).0,
)

-- The state after a sequence of submissions.
pub after_all : QueueState → List ℕ → QueueState
after_all s [] = s
after_all s (now_ns ∷ rest) = after_all (needs_fallback s now_ns).0 rest

submits_step :
    (s : QueueState) (now_ns : ℕ)
    → s.has_present ≡ true
    → s.last_present_ns < now_ns
    → s.submits_since_present < uint64_max
    → let (s', f) = needs_fallback s now_ns in
      (f.submits ≡ s.submits_since_present + 1)
      × (s'.submits_since_present ≡ s.submits_since_present + 1)
      × (s'.has_present ≡ true)
      × (s'.last_present_ns ≡ s.last_present_ns)
unfolding needs_fallback fallback_after count_submit
submits_step s now_ns h k l = ground arith

submits_count :
    (nows : List ℕ) (s : QueueState)
    → s.has_present ≡ true
    → All (λ now_ns. s.last_present_ns < now_ns) nows
    → s.submits_since_present + length nows ≤ uint64_max
    → (after_all s nows).submits_since_present ≡ s.submits_since_present + length nows
unfolding after_all
submits_count [] s h later fits = omega arith
submits_count (now_ns ∷ rest) s h later fits =
    let (f, c, p, l) = submits_step s now_ns h later.0 (omega arith) in
    omega (arith, submits_count rest (needs_fallback s now_ns).0 p (rw l later.1) (omega arith))

-- After a present the counter is the number of submissions since, while they are later than the
-- last present and fewer than 2 ^ 64.
pub submits-note_present :
    (nows : List ℕ) (s : QueueState)
    → All (λ now_ns. s.last_present_ns < now_ns) nows
    → length nows ≤ uint64_max
    → (after_all (note_present s) nows).submits_since_present ≡ length nows
unfolding note_present
submits-note_present nows s later fits =
    omega (arith, submits_count nows (note_present s) refl later (omega arith))
