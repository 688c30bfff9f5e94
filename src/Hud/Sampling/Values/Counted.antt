-- ===== src/Hud/Sampling/Values/Counted.antt =====
-- The times of the processor that src/hud_metrics.c reads fit 64 bits.
use frame_pacer.Common.{
  OnSome, OnSome-and_then, and_then-OnSome, ℕ, ◌+◌, ◌-◌, ◌^◌, ◌<◌, inl, inr, Bool-cases, arith, ltb,
  behind_prefix, Bytes, List, [], ◌∷◌, get_or, length, codes, add64, uint64_max,
}
use frame_pacer.Hud.Sampling.Values.{
  read_values, only_fields, sum_values, cpu_times, skip_digits, begins_blank, after_values,
  parse_cpu,
}

abbrev pub AreWords : ℕ × ℕ → Type 0
AreWords (total, idle) = (total < 2 ^ 64) × (idle < 2 ^ 64)

sum_values-lt :
    (values : List ℕ) (sum : ℕ) → sum < 2 ^ 64 → OnSome (λ n. n < 2 ^ 64) (sum_values values sum)
unfolding sum_values
sum_values-lt [] sum h = h
sum_values-lt (value ∷ values) sum h = elim (Bool-cases (ltb (uint64_max - sum) value)) [
  | inl e ↦ rw e tt
  | inr e ↦ rw e (sum_values-lt values (add64 sum value) (omega arith))
]

cpu_times-AreWords : (values : List ℕ) → OnSome AreWords (cpu_times values)
unfolding cpu_times
cpu_times-AreWords values =
    OnSome-and_then (λ n. n < 2 ^ 64) AreWords (sum_values values 0) _
      (sum_values-lt values 0 (omega arith))
      (λ total small. elim (Bool-cases (ltb (uint64_max - get_or values 3 0) (get_or values 4 0))) [
        | inl e ↦ rw e tt
        | inr e ↦ rw e (small, omega arith)
      ])

after_values-AreWords : (step : List ℕ × Bytes) → OnSome AreWords (after_values step)
after_values-AreWords (values, rest) = elim (Bool-cases (only_fields (length rest + 1) rest)) [
  | inl e ↦ rw e (cpu_times-AreWords values)
  | inr e ↦ rw e tt
]

pub parse_cpu-AreWords : (line : Bytes) → OnSome AreWords (parse_cpu line)
unfolding parse_cpu
parse_cpu-AreWords line = and_then-OnSome AreWords (behind_prefix (codes "cpu") line) _ (λ name.
    elim (Bool-cases (begins_blank (skip_digits name))) [
      | inl e ↦ rw e (
          and_then-OnSome AreWords (read_values 8 (skip_digits name)) after_values
            after_values-AreWords)
      | inr e ↦ rw e tt
    ])
