-- ===== src/Hud/Sampling/Values/Fuel.antt =====
-- The fuel of the second loop of `frame_pacer_metrics_parse_cpu` is enough.
use frame_pacer.Common.{
  OnSome, OnSome-and_then, ℕ, zero, suc, ◌+◌, ◌-◌, ◌/◌, ◌≤◌, ◌<◌, ◌≡◌, inl, inr, Bool, true, false,
  Bool-cases, Option-cases, arith, not, ltb, ◌==◌, Bytes, [], ◌∷◌, length, Option, none, some,
  add64, mul64, uint64_max, refl,
}
use mathlib.Core.Path.{subst}
use frame_pacer.Limit.Text.{is_digit}
use frame_pacer.Hud.Drm.Clients.{skip_blank, is_blank, digits64, number64}
use frame_pacer.Hud.Sampling.Values.{at_break, field, skip_byte, skip_break, only_fields}

-- `n` bytes at most are left.
abbrev Left : ℕ → Option (ℕ × Bytes) → Type 0
Left n o = OnSome (λ step. length step.1 ≤ n) o

Left-weaken : (n m : ℕ) (o : Option (ℕ × Bytes)) → n ≤ m → Left n o → Left m o
Left-weaken n m none h k = tt
Left-weaken n m (some step) h k = omega (arith, k)

digits64-le : (text : Bytes) (parsed : ℕ) → Left (length text) (digits64 text parsed)
unfolding digits64
digits64-le [] parsed = omega arith
digits64-le (c ∷ cs) parsed = elim (Bool-cases (not (is_digit c))) [
  | inl e ↦ rw e (omega arith)
  | inr e ↦ rw e (elim (Bool-cases (ltb ((uint64_max - (c - b'0')) / 10) parsed)) [
    | inl big ↦ rw big tt
    | inr fits ↦ rw fits (
        Left-weaken (length cs) (suc (length cs)) _ (omega arith)
          (digits64-le cs (add64 (mul64 parsed 10) (c - b'0'))))
  ])
]

number64-lt : (c : ℕ) (cs : Bytes) → Left (length cs) (number64 (c ∷ cs))
unfolding number64 digits64
number64-lt c cs = elim (Bool-cases (is_digit c)) [
  | inl e ↦ rw e (elim (Bool-cases (ltb ((uint64_max - (c - b'0')) / 10) 0)) [
    | inl big ↦ rw big tt
    | inr fits ↦ rw fits (digits64-le cs _)
  ])
  | inr e ↦ rw e tt
]

skip_blank-le : (text : Bytes) → length (skip_blank text) ≤ length text
unfolding skip_blank
skip_blank-le [] = omega arith
skip_blank-le (c ∷ cs) = elim (Bool-cases (is_blank c)) [
  | inl e ↦ rw e (omega (arith, skip_blank-le cs))
  | inr e ↦ rw e (omega arith)
]

skip_byte-le : (byte : ℕ) (text : Bytes) → length (skip_byte byte text) ≤ length text
skip_byte-le byte [] = omega arith
skip_byte-le byte (c ∷ cs) = elim (Bool-cases (c == byte)) [
  | inl e ↦ rw e (omega arith)
  | inr e ↦ rw e (omega arith)
]

skip_break-le : (text : Bytes) → length (skip_break text) ≤ length text
unfolding skip_break
skip_break-le text = omega (
  arith,
  skip_blank-le text,
  skip_byte-le 13 (skip_blank text),
  skip_byte-le 10 (skip_byte 13 (skip_blank text)),
)

field-lt : (c : ℕ) (cs : Bytes) → Left (length cs) (field (c ∷ cs))
unfolding field
field-lt c cs =
    OnSome-and_then (λ step. length step.1 ≤ length cs) (λ step. length step.1 ≤ length cs)
      (number64 (c ∷ cs)) _ (number64-lt c cs)
      (λ step le. elim (Bool-cases (at_break step.1)) [ inl e ↦ rw e le | inr e ↦ rw e tt ])

abbrev fields_round : ℕ → Bytes → Bool
fields_round fuel [] = true
fields_round fuel (c ∷ cs) = elim (field (c ∷ cs)) [
  | none ↦ false
  | some step ↦ only_fields fuel step.1
]

-- One round, on the rest of the text.
round_same :
    (fuel more : ℕ) (next : Bytes)
    → ((text : Bytes)
        → length text < fuel
        → length text < more
        → only_fields fuel text ≡ only_fields more text)
    → length next < fuel + 1
    → length next < more + 1
    → fields_round fuel next ≡ fields_round more next
round_same fuel more [] ih h k = refl
round_same fuel more (c ∷ cs) ih h k = elim (Option-cases (field (c ∷ cs))) [
  | inl e ↦ rw (fields_round, e) refl
  | inr (step, e) ↦
      let le : length step.1 ≤ length cs =
        subst (OnSome (λ s. length s.1 ≤ length cs)) e (field-lt c cs) in
      rw (fields_round, e) (ih step.1 (omega arith) (omega arith))
]

-- With more fuel than bytes, the loop gives the same result whatever the fuel.
only_fields-fuel :
    (fuel more : ℕ) (text : Bytes)
    → length text < fuel
    → length text < more
    → only_fields fuel text ≡ only_fields more text
unfolding only_fields
only_fields-fuel zero more text h k = absurd (omega arith)
only_fields-fuel (suc fuel) zero text h k = absurd (omega arith)
only_fields-fuel (suc fuel) (suc more) text h k =
    let le = skip_break-le text in
    round_same fuel more (skip_break text) (only_fields-fuel fuel more) (omega arith) (omega arith)
