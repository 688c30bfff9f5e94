-- ===== src/Hud/Sampling/Values.antt =====
-- The lines that src/hud_metrics.c reads from procfs and sysfs. A text is what `fgets` gives.
pub mod Counted
mod Fuel
mod Tests
use frame_pacer.Common.{
  ℕ, zero, suc, ◌+◌, ◌-◌, ◌/◌, Bool, true, false, not, ◌&&◌, ◌||◌, ltb, leb, ◌==◌, if◌then◌else◌,
  and_then, behind_prefix, Bytes, List, [], ◌∷◌, get_or, length, Option, none, some, codes, add64,
  uint64_max,
}
use frame_pacer.Limit.Text.{is_digit}
use frame_pacer.Hud.Drm.Clients.{skip_blank, only_space, number64, is_blank}

abbrev pub celsius : ℕ × Bytes → Option ℕ
celsius (millidegrees, rest) =
    if not (only_space rest) || ltb 200000 millidegrees
    then none
    else some ((millidegrees + 500) / 1000)

-- `parse_uint64` is `number64`.
unfoldable pub parse_temperature : Bytes → Option ℕ
parse_temperature text = and_then (number64 text) celsius

abbrev at_break : Bytes → Bool
at_break [] = true
at_break (c ∷ cs) = is_blank c || c == 13 || c == 10

-- A number must end at a break.
unfoldable pub field : Bytes → Option (ℕ × Bytes)
field text = and_then (number64 text) (λ step. if at_break step.1 then some step else none)

abbrev pub put_value : ℕ → Option (List ℕ × Bytes) → Option (List ℕ × Bytes)
put_value value none = none
put_value value (some (values, rest)) = some (value ∷ values, rest)

-- The first loop, of `count` rounds.
unfoldable pub read_values : ℕ → Bytes → Option (List ℕ × Bytes)
read_values zero text = some ([], text)
read_values (suc count) text =
    and_then (field (skip_blank text)) (λ step. put_value step.0 (read_values count step.1))

abbrev skip_byte : ℕ → Bytes → Bytes
skip_byte byte [] = []
skip_byte byte (c ∷ cs) = if c == byte then cs else c ∷ cs

-- The start of a round of the second loop.
unfoldable pub skip_break : Bytes → Bytes
skip_break text = skip_byte 10 (skip_byte 13 (skip_blank text))

-- The second loop, on fuel: a round takes at least one byte.
unfoldable pub only_fields : ℕ → Bytes → Bool
only_fields zero text = false
only_fields (suc fuel) text = elim (skip_break text) [
  | [] ↦ true
  | c ∷ cs ↦ elim (field (c ∷ cs)) [ none ↦ false | some step ↦ only_fields fuel step.1 ]
]

-- The third loop.
unfoldable pub sum_values : List ℕ → ℕ → Option ℕ
sum_values [] sum = some sum
sum_values (value ∷ values) sum =
    let rest = sum_values values (add64 sum value) in
    if ltb (uint64_max - sum) value then none else rest

-- The total and the idle time.
unfoldable pub cpu_times : List ℕ → Option (ℕ × ℕ)
cpu_times values = and_then (sum_values values 0) (λ total.
    if ltb (uint64_max - get_or values 3 0) (get_or values 4 0)
    then none
    else some (total, add64 (get_or values 3 0) (get_or values 4 0)))

unfoldable pub skip_digits : Bytes → Bytes
skip_digits [] = []
skip_digits (c ∷ cs) = if is_digit c then skip_digits cs else c ∷ cs

abbrev pub begins_blank : Bytes → Bool
begins_blank [] = false
begins_blank (c ∷ cs) = is_blank c

abbrev pub after_values : List ℕ × Bytes → Option (ℕ × ℕ)
after_values (values, rest) = if only_fields (length rest + 1) rest then cpu_times values else none

unfoldable pub parse_cpu : Bytes → Option (ℕ × ℕ)
parse_cpu line = and_then (behind_prefix (codes "cpu") line) (λ name.
    if begins_blank (skip_digits name)
    then and_then (read_values 8 (skip_digits name)) after_values
    else none)

-- The value of a key.
unfoldable pub parse_cpu_stat : Bytes → Bytes → Option ℕ
parse_cpu_stat line [] = none
parse_cpu_stat line (k ∷ ey) = and_then (behind_prefix (k ∷ ey) line) (λ rest.
    if begins_blank rest
    then and_then (number64 (skip_blank rest))
        (λ step. if only_space step.1 then some step.0 else none)
    else none)
