-- ===== src/Clock/Tests.antt =====
-- Runs of src/pacer_clock.c at concrete times, at 100 frames per second.
use frame_pacer.Common.{
  ◌*◌, ◌+◌, ◌/◌, ◌%◌, ◌^◌, ◌≤◌, ◌≡◌, min, uint64_max, true, false, refl, arith, [], ◌∷◌, ◌++◌,
  length, some, leb,
}
use frame_pacer.Clock.{
  Clock, Decision, second_ns, destroy, wait, pace, catch_up, add_intervals, sleep_loop, eintr,
  no_decision,
}
use frame_pacer.Clock.Deadline.{IsRunning, Paced, wait-Paced, wait_returns}
use frame_pacer.Clock.Pacing.{Frame, Runs, done, frame, Spaced, Runs-Spaced, Runs-budget}

abbrev running : Clock
running = record { initialized = true; started = true; fps = 100; next_deadline_ns = 50000000 }

running-IsRunning : IsRunning running 100
running-IsRunning = record {
  live = refl;
  running = refl;
  rate = refl;
  low = omega arith;
  high = omega arith;
  in_range = omega arith;
}

-- 25 ms late: two intervals and a half, so the third deadline from the missed one is waited for.
abbrev behind : Decision
behind = record {
  observed_ns = 75000000;
  deadline_ns = 80000000;
  interruptions = 1;
  first = false;
  missed = true;
}

abbrev next_clock : Clock
next_clock = record running { next_deadline_ns = 90000000 }

late_frame : wait running 100 75000000 (eintr ∷ 0 ∷ []) ≡ some (next_clock, behind)
unfolding wait pace catch_up add_intervals sleep_loop
late_frame = refl

wait-Paced_example :
    Paced 50000000 (second_ns / 100) 75000000 behind.deadline_ns
    × (behind.missed ≡ leb running.next_deadline_ns 75000000)
    × (next_clock.next_deadline_ns ≡ min uint64_max (behind.deadline_ns + second_ns / 100))
    × IsRunning next_clock 100
wait-Paced_example =
    wait-Paced running 100 75000000 (eintr ∷ 0 ∷ []) running-IsRunning (omega arith) late_frame

wait_returns_example :
    (c : Clock) × (d : Decision) × (wait running 100 75000000 ((eintr ∷ eintr ∷ []) ++ (0 ∷ []))
      ≡ some (c, d))
    × (d.interruptions ≡ length (eintr ∷ eintr ∷ []) % 2 ^ 32)
wait_returns_example =
    wait_returns running 100 75000000 (eintr ∷ eintr ∷ []) 0 [] running-IsRunning (refl, (refl, tt))
      (omega arith)

abbrev late : Frame
late = record { now_ns = 75000000; results = eintr ∷ 0 ∷ [] }

one_frame : Runs 100 running (late ∷ []) next_clock (behind ∷ [])
one_frame = frame late_frame done

Runs-Spaced_example : Spaced (second_ns / 100) running.next_deadline_ns (behind ∷ [])
Runs-Spaced_example = Runs-Spaced running-IsRunning (omega arith, tt) one_frame

Runs-budget_example :
    min uint64_max (running.next_deadline_ns + length (late ∷ []) * (second_ns / 100))
    ≤ next_clock.next_deadline_ns
Runs-budget_example = Runs-budget running-IsRunning (omega arith, tt) one_frame

-- A destroyed clock lets every frame through at once.
destroyed : wait (destroy running) 100 75000000 [] ≡ some (destroy running, no_decision)
unfolding destroy wait
destroyed = refl
