-- ===== src/Limit/Values.antt =====
-- The values of single keys in src/pacer_limit.c. A failed parse is `none`; the out-parameters of the
-- source are then not read.
pub mod Digits
pub mod Accepted
mod Tests
use frame_pacer.Common.{
  ℕ, ◌-◌, Bool, true, false, not, ltb, ◌==◌, if◌then◌else◌, Bytes, [], ◌∷◌, same_bytes, codes,
  Option, none, some, add64, mul64, map_some,
}
use frame_pacer.Limit.Text.{is_digit, last_byte, drop_last}

-- The loop of `parse_fps` and `parse_thread_cpu_quota`: the value of the leading digits and what is
-- left, unless the value passes `limit`.
unfoldable pub digits_loop : ℕ → Bytes → ℕ → Option (ℕ × Bytes)
digits_loop limit [] value = some (value, [])
digits_loop limit (c ∷ cs) value =
    let value' = add64 (mul64 value 10) (c - b'0') in
    let rest = digits_loop limit cs value' in
    if not (is_digit c) then some (value, c ∷ cs) else if ltb limit value' then none else rest

-- Behind the loop: nothing may be left, and the value is at least 1.
abbrev at_end : Option (ℕ × Bytes) → Option ℕ
at_end none = none
at_end (some (value, [])) = if ltb value 1 then none else some value
at_end (some (value, c ∷ cs)) = none

unfoldable pub parse_fps : Bytes → Option ℕ
parse_fps [] = none
parse_fps (c ∷ cs) = if not (is_digit c) then none else at_end (digits_loop 999 (c ∷ cs) 0)

-- With the flag `explicit_off`.
unfoldable pub parse_fps_limit : Bytes → Option (ℕ × Bool)
parse_fps_limit s =
    if same_bytes s (codes "off")
    then some (0, true)
    else map_some (λ fps. (fps, false)) (parse_fps s)

abbrev percent_of : Bytes → Option ℕ
percent_of [] = none
percent_of (c ∷ cs) = if not (is_digit c) then none else at_end (digits_loop 100 (c ∷ cs) 0)

-- The flag is `enabled`.
unfoldable pub parse_thread_cpu_quota : Bytes → Option (Bool × ℕ)
parse_thread_cpu_quota s =
    if same_bytes s (codes "off")
    then some (false, 0)
    else if not (last_byte s == b'%')
    then none
    else map_some (λ quota. (true, quota)) (percent_of (drop_last s))

unfoldable pub parse_hud_enabled : Bytes → Option Bool
parse_hud_enabled s =
    if same_bytes s (codes "on")
    then some true
    else if same_bytes s (codes "off")
    then some false
    else none
