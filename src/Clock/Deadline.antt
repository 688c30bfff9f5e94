-- ===== src/Clock/Deadline.antt =====
-- One call of `frame_pacer_clock_wait` (src/pacer_clock.c): which deadline it waits for, what it
-- leaves behind, and that it returns.
use frame_pacer.Common.{
  ℕ, ◌+◌, ◌*◌, ◌/◌, ◌%◌, ◌^◌, ◌≤◌, ◌<◌, ◌≡◌, ◌≢◌, min, uint64_max, arith, leb, inl, inr, ◌⊎◌,
  Bool-cases, true, false, leb→le, leb-false→lt, List, [], ◌∷◌, ◌++◌, some, refl, add32, All, ap,
  ◌∙◌, length,
}
use frame_pacer.Clock.{
  Clock, Decision, add_intervals, second_ns, catch_up, wait, pace, stop, restart, sleep_loop, eintr,
  no_decision,
}
use frame_pacer.Clock.Intervals.{
  add_intervals-eq-min, missed_count, missed_count_bounds, catch_up-early, catch_up-late,
  interval-pos,
}

-- What a paced call promises of its deadline, for the deadline `next` that the clock held.
pub record Paced (next interval_ns now_ns deadline : ℕ) : Type 0 where
  pub not_before : next ≤ deadline
  pub future : (now_ns < deadline) ⊎ (deadline ≡ uint64_max)
  pub soon : (deadline ≤ now_ns + interval_ns) ⊎ (deadline ≡ next)
  pub in_phase : (k : ℕ) × (deadline ≡ min uint64_max (next + k * interval_ns))

pub catch_up-Paced :
    (next interval_ns now_ns : ℕ)
    → 1 < interval_ns
    → next ≤ uint64_max
    → now_ns ≤ uint64_max
    → Paced next interval_ns now_ns (catch_up next interval_ns now_ns)
catch_up-Paced next interval_ns now_ns pos fits small = elim (Bool-cases (leb next now_ns)) [
  | inl late ↦
      let e = catch_up-late next interval_ns now_ns pos small (leb→le _ _ late) in
      let b = missed_count_bounds next interval_ns now_ns (omega arith) (leb→le _ _ late) in
      record {
        not_before = ground arith;
        future = ground arith;
        soon = ground arith;
        in_phase = (missed_count next interval_ns now_ns, e);
      }
  | inr early ↦
      let e = catch_up-early next interval_ns now_ns (leb-false→lt _ _ early) in
      let h = leb-false→lt next now_ns early in
      record {
        not_before = ground arith;
        future = ground arith;
        soon = ground arith;
        in_phase = (0, ground arith);
      }
]

-- A clock that has started at a valid rate.
pub record IsRunning (c : Clock) (fps : ℕ) : Type 0 where
  pub live : c.initialized ≡ true
  pub running : c.started ≡ true
  pub rate : c.fps ≡ fps
  pub low : 1 ≤ fps
  pub high : fps ≤ 999
  pub in_range : c.next_deadline_ns ≤ uint64_max

wait-pace :
    (c : Clock) (fps now_ns : ℕ) (results : List ℕ)
    → IsRunning c fps
    → wait c fps now_ns results ≡ pace c (second_ns / fps) now_ns results
unfolding wait
wait-pace c fps now_ns results r = ground arith

pace_deadline :
    (c : Clock) (interval_ns now_ns : ℕ) (results : List ℕ) {c' : Clock} {d : Decision}
    → pace c interval_ns now_ns results ≡ some (c', d)
    → (d.deadline_ns ≡ catch_up c.next_deadline_ns interval_ns now_ns)
      × (d.observed_ns ≡ now_ns)
      × (d.missed ≡ leb c.next_deadline_ns now_ns)
      × (c'.next_deadline_ns
          ≡ add_intervals (catch_up c.next_deadline_ns interval_ns now_ns) interval_ns 1)
      × (c'.started ≡ c.started)
      × (c'.fps ≡ c.fps)
      × (c'.initialized ≡ c.initialized)
      × (d.first ≡ false)
unfolding pace
pace_deadline c interval_ns now_ns results e = ground arith

-- A frame of a running clock waits for a deadline that is in the future, no more than one interval
-- away unless it was already set, in phase with the earlier deadlines and not before the one that
-- was set; the miss is reported exactly when that one had passed; and the next deadline is one
-- interval later. At UINT64_MAX the schedule stays.
pub wait-Paced :
    (c : Clock) (fps now_ns : ℕ) (results : List ℕ) {c' : Clock} {d : Decision}
    → IsRunning c fps
    → now_ns ≤ uint64_max
    → wait c fps now_ns results ≡ some (c', d)
    → Paced c.next_deadline_ns (second_ns / fps) now_ns d.deadline_ns
      × (d.missed ≡ leb c.next_deadline_ns now_ns)
      × (c'.next_deadline_ns ≡ min uint64_max (d.deadline_ns + second_ns / fps))
      × IsRunning c' fps
wait-Paced c fps now_ns results {c'} {d} r small e =
    let (dl, ob, ms, nx, st, fp, ini, fi) =
      pace_deadline c (second_ns / fps) now_ns results
        (rw (wait-pace c fps now_ns results r) at e) in
    let big = interval-pos fps r.low r.high in
    let p =
      catch_up-Paced c.next_deadline_ns (second_ns / fps) now_ns (omega arith) r.in_range small in
    let bound : catch_up c.next_deadline_ns (second_ns / fps) now_ns ≤ uint64_max =
      omega (arith, p.in_phase.1) in
    let sat =
      add_intervals-eq-min (catch_up c.next_deadline_ns (second_ns / fps) now_ns) (second_ns / fps)
        1 (omega arith) bound in
    (
      rw dl p,
      ms,
      omega arith,
      record {
        live = ini ∙ r.live;
        running = st ∙ r.running;
        rate = fp ∙ r.rate;
        low = r.low;
        high = r.high;
        in_range = omega arith;
      },
    )

-- The first frame at a rate never sleeps, and sets its deadline one interval ahead.
pub wait-first :
    (c : Clock) (fps now_ns : ℕ) (results : List ℕ)
    → c.initialized ≡ true
    → 1 ≤ fps
    → fps ≤ 999
    → now_ns ≤ uint64_max
    → (c.started ≡ false) ⊎ (c.fps ≢ fps)
    → (c' : Clock) × (d : Decision) × (wait c fps now_ns results ≡ some (c', d))
      × (d.first ≡ true)
      × (d.deadline_ns ≡ 0)
      × (c'.next_deadline_ns ≡ min uint64_max (now_ns + second_ns / fps))
      × IsRunning c' fps
unfolding wait restart
wait-first c fps now_ns results live low high small fresh =
    let big = interval-pos fps low high in
    let sat = add_intervals-eq-min now_ns (second_ns / fps) 1 (omega arith) small in
    (
      restart c fps now_ns,
      record no_decision { observed_ns = now_ns; first = true },
      ground arith,
      refl,
      refl,
      omega arith,
      record {
        live = live;
        running = refl;
        rate = refl;
        low = low;
        high = high;
        in_range = omega arith;
      },
    )

-- A rate out of range stops the clock: it neither reads the time nor sleeps, and the next frame at
-- a valid rate is a first frame.
pub wait-off :
    (c : Clock) (fps now_ns : ℕ) (results : List ℕ)
    → c.initialized ≡ true
    → (fps ≡ 0) ⊎ (999 < fps)
    → (c' : Clock) × (wait c fps now_ns results ≡ some (c', no_decision))
      × (c'.started ≡ false)
      × (c'.next_deadline_ns ≡ 0)
unfolding wait stop
wait-off c fps now_ns results live out = (stop c, ground arith, refl, refl)

-- The loop leaves at the first result other than EINTR, having counted those before it.
sleep_loop-interrupted :
    (interrupted : List ℕ) (r : ℕ) (rest : List ℕ) (n : ℕ)
    → All (λ x. x ≡ eintr) interrupted
    → r ≢ eintr
    → n < 2 ^ 32
    → sleep_loop (interrupted ++ (r ∷ rest)) n ≡ some ((n + length interrupted) % 2 ^ 32)
unfolding sleep_loop
sleep_loop-interrupted [] r rest n h ne small = ground arith
sleep_loop-interrupted (x ∷ xs) r rest n h ne small = rw (h.0) (
    sleep_loop-interrupted xs r rest (add32 n 1) h.1 ne (omega arith)
    ∙ ap (λ (k : ℕ). some k) (omega arith))

pace_returns :
    (c : Clock) (interval_ns now_ns n : ℕ) (results : List ℕ)
    → sleep_loop results 0 ≡ some n
    → (c' : Clock) × (d : Decision) × (pace c interval_ns now_ns results ≡ some (c', d))
      × (d.interruptions ≡ n)
unfolding pace
pace_returns c interval_ns now_ns n results e = (
  record c {
    next_deadline_ns = add_intervals (catch_up c.next_deadline_ns interval_ns now_ns) interval_ns 1;
  },
  record {
    observed_ns = now_ns;
    deadline_ns = catch_up c.next_deadline_ns interval_ns now_ns;
    interruptions = n;
    first = false;
    missed = leb c.next_deadline_ns now_ns;
  },
  ground arith,
  refl,
)

-- A frame of a running clock returns once a sleep ends other than by a signal, and counts the
-- interruptions before that modulo 2 ^ 32.
pub wait_returns :
    (c : Clock) (fps now_ns : ℕ) (interrupted : List ℕ) (r : ℕ) (rest : List ℕ)
    → IsRunning c fps
    → All (λ x. x ≡ eintr) interrupted
    → r ≢ eintr
    → (c' : Clock) × (d : Decision) × (wait c fps now_ns (interrupted ++ (r ∷ rest)) ≡ some (c', d))
      × (d.interruptions ≡ length interrupted % 2 ^ 32)
wait_returns c fps now_ns interrupted r rest run h ne =
    let (c', d, e, n) =
      pace_returns c (second_ns / fps) now_ns ((0 + length interrupted) % 2 ^ 32)
        (interrupted ++ (r ∷ rest))
        (sleep_loop-interrupted interrupted r rest 0 h ne (omega arith)) in
    (c', d, wait-pace c fps now_ns (interrupted ++ (r ∷ rest)) run ∙ e, omega (arith, n))
