-- ===== src/Clock/Intervals.antt =====
-- `add_intervals` of src/pacer_clock.c never wraps: it adds, or stays at UINT64_MAX.
use native.Mathlib.Nat.{
  le-div_iff_mul-le, div-lt_iff_lt-mul, lt-mul-div-succ, div-mul-le_self, mul_comm,
}
use frame_pacer.Common.{
  ℕ, ◌+◌, ◌-◌, ◌*◌, ◌/◌, ◌^◌, ◌≤◌, ◌<◌, ◌≡◌, min, uint64_max, arith, ltb, inl, inr, Bool-cases,
  ltb→lt, ltb-false→le, sub64,
}
use frame_pacer.Clock.{add_intervals, second_ns, catch_up}

fits :
    (value interval count : ℕ)
    → 0 < interval
    → value ≤ uint64_max
    → count ≤ (uint64_max - value) / interval
    → value + count * interval ≤ uint64_max
fits value interval count pos small h =
    omega (arith, (le-div_iff_mul-le {x = count} {y = uint64_max - value} pos).0 h)

exceeds :
    (value interval count : ℕ)
    → 0 < interval
    → value ≤ uint64_max
    → (uint64_max - value) / interval < count
    → uint64_max ≤ value + count * interval
exceeds value interval count pos small h =
    omega (arith, (div-lt_iff_lt-mul {x = uint64_max - value} {y = count} pos).0 h)

-- Saturating addition of `count` intervals.
pub add_intervals-eq-min :
    (value interval count : ℕ)
    → 0 < interval
    → value ≤ uint64_max
    → add_intervals value interval count ≡ min uint64_max (value + count * interval)
unfolding add_intervals
add_intervals-eq-min value interval count pos small =
    elim (Bool-cases (ltb ((uint64_max - value) / interval) count)) [
      | inl over ↦ rw over (omega (arith, exceeds value interval count pos small (ltb→lt _ _ over)))
      | inr fine ↦
          rw fine (omega (arith, fits value interval count pos small (ltb-false→le _ _ fine)))
    ]

-- The number of intervals that a late frame is moved on by.
abbrev pub missed_count : ℕ → ℕ → ℕ → ℕ
missed_count next interval_ns now_ns = (now_ns - next) / interval_ns + 1

-- The multiple of the interval that `catch_up` adds is the first one past `now_ns`.
pub missed_count_bounds :
    (next interval_ns now_ns : ℕ)
    → 0 < interval_ns
    → next ≤ now_ns
    → (now_ns < next + missed_count next interval_ns now_ns * interval_ns)
      × (next + missed_count next interval_ns now_ns * interval_ns ≤ now_ns + interval_ns)
missed_count_bounds next interval_ns now_ns pos late = omega (
  arith,
  lt-mul-div-succ (now_ns - next) pos,
  div-mul-le_self (now_ns - next) interval_ns,
  mul_comm interval_ns ((now_ns - next) / interval_ns + 1),
)

small_quotient : (a b : ℕ) → 1 < b → a ≤ uint64_max → a / b + 1 ≤ uint64_max
small_quotient a b h k =
    omega (arith, (div-lt_iff_lt-mul {k = b} {x = a} {y = 2 ^ 63} (omega arith)).1 (grind arith))

sub64-le :
    (now_ns next : ℕ) → next ≤ now_ns → now_ns ≤ uint64_max → sub64 now_ns next ≡ now_ns - next
sub64-le now_ns next h k = omega arith

pub catch_up-early :
    (next interval_ns now_ns : ℕ) → now_ns < next → catch_up next interval_ns now_ns ≡ next
unfolding catch_up
catch_up-early next interval_ns now_ns h = ground arith

pub catch_up-late :
    (next interval_ns now_ns : ℕ)
    → 1 < interval_ns
    → now_ns ≤ uint64_max
    → next ≤ now_ns
    → catch_up next interval_ns now_ns
      ≡ min uint64_max (next + missed_count next interval_ns now_ns * interval_ns)
unfolding catch_up
catch_up-late next interval_ns now_ns pos small late = ground (
  arith,
  sub64-le now_ns next late small,
  small_quotient (now_ns - next) interval_ns pos (omega arith),
  add_intervals-eq-min next interval_ns (missed_count next interval_ns now_ns) (omega arith)
      (omega arith),
)

-- At a rate of 1 to 999 frames the interval is at least 1,001,001 ns.
pub interval-pos : (fps : ℕ) → 1 ≤ fps → fps ≤ 999 → 1001001 ≤ second_ns / fps
interval-pos fps h k = (le-div_iff_mul-le {k = fps} {x = 1001001} {y = second_ns} h).1 (omega arith)
