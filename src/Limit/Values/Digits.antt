-- ===== src/Limit/Values/Digits.antt =====
-- Which values the numbers of src/pacer_limit.c accept: decimal numbers in range, and nothing else.
use frame_pacer.Common.{
  ℕ, ◌+◌, ◌-◌, ◌*◌, ◌≤◌, ◌≡◌, arith, true, inl, inr, Bool-cases, Bytes, [], ◌∷◌, All, refl, some,
  add64, mul64,
}
use frame_pacer.Limit.Text.{is_digit}
use frame_pacer.Limit.Values.{digits_loop}

abbrev pub AllDigits : Bytes → Type 0
AllDigits s = All (λ c. is_digit c ≡ true) s

-- The number that digits stand for, behind the digits of `value`.
pub decimal : ℕ → Bytes → ℕ
decimal value [] = value
decimal value (c ∷ cs) = decimal (value * 10 + (c - b'0')) cs

decimal-ge : (value : ℕ) (s : Bytes) → value ≤ decimal value s
unfolding decimal
decimal-ge value [] = omega arith
decimal-ge value (c ∷ cs) = omega (arith, decimal-ge (value * 10 + (c - b'0')) cs)

no_wrap :
    (value c : ℕ)
    → value ≤ 999
    → is_digit c ≡ true
    → add64 (mul64 value 10) (c - b'0') ≡ value * 10 + (c - b'0')
unfolding is_digit
no_wrap value c small d = ground arith

pub digits_loop_complete :
    (limit : ℕ) (s : Bytes) (value : ℕ)
    → limit ≤ 999
    → AllDigits s
    → decimal value s ≤ limit
    → digits_loop limit s value ≡ some (decimal value s, [])
unfolding digits_loop decimal
digits_loop_complete limit [] value l d h = refl
digits_loop_complete limit (c ∷ cs) value l d h =
    let mono = decimal-ge (value * 10 + (c - b'0')) cs in
    let same = no_wrap value c (omega arith) d.0 in
    rw (same, d.0) (ground (arith, digits_loop_complete limit cs (value * 10 + (c - b'0')) l d.1 h))

pub digits_loop_sound :
    (limit : ℕ) (s : Bytes) (value r : ℕ)
    → limit ≤ 999
    → value ≤ limit
    → digits_loop limit s value ≡ some (r, [])
    → AllDigits s × (decimal value s ≡ r) × (r ≤ limit)
unfolding digits_loop decimal
digits_loop_sound limit [] value r l small e = ground arith
digits_loop_sound limit (c ∷ cs) value r l small e = elim (Bool-cases (is_digit c)) [
  | inl d ↦
      let same = no_wrap value c (omega arith) d in
      let ih = digits_loop_sound limit cs (value * 10 + (c - b'0')) r l in
      let e' = rw (same, d) at e in ground arith
  | inr other ↦ let e' = rw other at e in cc
]
