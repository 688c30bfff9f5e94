-- ===== src/Clock/Pacing.antt =====
-- Many frames through one clock (src/pacer_clock.c): the schedule never runs ahead of the rate.
use frame_pacer.Common.{
  ℕ, ◌+◌, ◌*◌, ◌/◌, ◌≤◌, ◌≡◌, min, uint64_max, arith, List, [], ◌∷◌, some, length, All,
}
use frame_pacer.Clock.{Clock, Decision, second_ns, wait}
use frame_pacer.Clock.Deadline.{IsRunning, wait-Paced}

-- One frame: the time that `now_fn` gives, and what its sleeps return.
pub record Frame : Type 0 where
  pub now_ns : ℕ
  pub results : List ℕ

-- The frames of a game at one rate, in the order in which they hold the mutex.
pub data Runs (fps : ℕ) : Clock → List Frame → Clock → List Decision → Type 0 where
  done : {c : Clock} → Runs fps c [] c []
  frame :
      {c c' last : Clock} {d : Decision} {f : Frame} {fs : List Frame} {ds : List Decision}
      → wait c fps f.now_ns f.results ≡ some (c', d)
      → Runs fps c' fs last ds
      → Runs fps c (f ∷ fs) last (d ∷ ds)

-- Each deadline is at least an interval after the one before it, or is UINT64_MAX.
pub data Spaced (interval_ns : ℕ) : ℕ → List Decision → Type 0 where
  none_left : {from : ℕ} → Spaced interval_ns from []
  next :
      {from : ℕ} {d : Decision} {ds : List Decision}
      → from ≤ d.deadline_ns
      → Spaced interval_ns (min uint64_max (d.deadline_ns + interval_ns)) ds
      → Spaced interval_ns from (d ∷ ds)

abbrev FrameFits : Frame → Type 0
FrameFits f = f.now_ns ≤ uint64_max

-- The deadlines of a running clock are spaced by the interval of its rate, whatever the times of
-- the frames and however the sleeps are interrupted.
pub Runs-Spaced :
    {fps : ℕ} {c last : Clock} {fs : List Frame} {ds : List Decision}
    → IsRunning c fps
    → All (λ (f : Frame). f.now_ns ≤ uint64_max) fs
    → Runs fps c fs last ds
    → Spaced (second_ns / fps) c.next_deadline_ns ds
Runs-Spaced r small done = none_left
Runs-Spaced {fps} r small (frame {c} {c'} {last} {d} {f} {fs} e rest) =
    let (p, m, n, r') = wait-Paced c fps f.now_ns f.results r small.0 e in
    next p.not_before (rw n at (Runs-Spaced r' small.1 rest))

-- `n` frames use up `n` intervals of the schedule: after them the clock's next deadline is at least
-- that much later, unless the schedule has reached UINT64_MAX.
pub Runs-budget :
    {fps : ℕ} {c last : Clock} {fs : List Frame} {ds : List Decision}
    → IsRunning c fps
    → All (λ (f : Frame). f.now_ns ≤ uint64_max) fs
    → Runs fps c fs last ds
    → min uint64_max (c.next_deadline_ns + length fs * (second_ns / fps)) ≤ last.next_deadline_ns
Runs-budget r small done = omega arith
Runs-budget {fps} r small (frame {c} {c'} {last} {d} {f} {fs} e rest) =
    let (p, m, n, r') = wait-Paced c fps f.now_ns f.results r small.0 e in
    let ih = Runs-budget r' small.1 rest in omega (arith, p.not_before)
