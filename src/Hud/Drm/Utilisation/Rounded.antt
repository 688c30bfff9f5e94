-- ===== src/Hud/Drm/Utilisation/Rounded.antt =====
-- The percentage of src/hud_drm_fdinfo.c is the exact quotient, rounded, in spite of the fixed width.
use native.Mathlib.Nat.{mul-le-mul_right, mul-le-mul_left, div-add-mod}
use frame_pacer.Common.{
  OnSome, ℕ, zero, suc, ◌+◌, ◌-◌, ◌*◌, ◌/◌, ◌%◌, ◌^◌, ◌≤◌, ◌<◌, ◌≡◌, ◌⊎◌, ◌↔◌, inl, inr, true,
  Bool-cases, arith, ◌||◌, ltb, ◌==◌, none, some, sub64, refl, ap,
}
use frame_pacer.Hud.Drm.Utilisation.{threshold, percent_loop, utilisation}

split_product : (e m : ℕ) → e * m ≡ 200 * (e / 200 * m) + e % 200 * m
split_product e m = omega (arith, ap (λ x. x * m) (div-add-mod e 200))

-- Nothing wraps: the threshold is the quotient, rounded up.
threshold_exact :
    (elapsed_ns candidate : ℕ)
    → elapsed_ns < 2 ^ 64
    → candidate ≤ 100
    → threshold elapsed_ns candidate
      ≡ elapsed_ns / 200 * (candidate * 2 - 1)
        + (elapsed_ns % 200 * (candidate * 2 - 1) + 199) / 200
unfolding threshold
threshold_exact e c small le =
    let m = c * 2 - 1 in
    let low : e % 200 * m ≤ 199 * m = mul-le-mul_right m (omega arith) in
    let high : e / 200 * m ≤ e / 200 * 199 = mul-le-mul_left (e / 200) (omega arith) in omega arith

-- Below the threshold is below the half.
ltb-threshold_iff :
    (delta elapsed_ns candidate : ℕ)
    → elapsed_ns < 2 ^ 64
    → candidate ≤ 100
    → (ltb delta (threshold elapsed_ns candidate) ≡ true)
      ↔ (200 * delta < elapsed_ns * (candidate * 2 - 1))
ltb-threshold_iff delta e c small le =
    rw (threshold_exact e c small le) (ground (arith, split_product e (c * 2 - 1)))

-- The nearest whole number of percent, a half rounded up, and 100 above.
pub record IsRounded (delta elapsed_ns percent : ℕ) : Type 0 where
  pub percent_le : percent ≤ 100
  pub reached : (percent ≡ 0) ⊎ (elapsed_ns * (percent * 2 - 1) ≤ 200 * delta)
  pub nearest : (percent ≡ 100) ⊎ (200 * delta < elapsed_ns * (percent * 2 + 1))

percent_loop-IsRounded :
    (rounds delta elapsed_ns percent : ℕ)
    → elapsed_ns < 2 ^ 64
    → percent + rounds ≡ 100
    → (percent ≡ 0) ⊎ (elapsed_ns * (percent * 2 - 1) ≤ 200 * delta)
    → IsRounded delta elapsed_ns (percent_loop delta elapsed_ns rounds (percent + 1) percent)
unfolding percent_loop
percent_loop-IsRounded zero delta e p small sum low = record {
  percent_le = omega arith;
  reached = low;
  nearest = inl (omega arith);
}
percent_loop-IsRounded (suc rounds) delta e p small sum low =
    let test = ltb-threshold_iff delta e (p + 1) small (omega arith) in
    let odd : (p + 1) * 2 - 1 ≡ p * 2 + 1 = omega arith in
    let same : e * ((p + 1) * 2 - 1) ≡ e * (p * 2 + 1) = ap (λ x. e * x) odd in
    elim (Bool-cases (ltb delta (threshold e (p + 1)))) [
      | inl below ↦ rw below (record {
        percent_le = omega arith;
        reached = low;
        nearest = inr (omega (arith, test.0 below, same));
      })
      | inr above ↦ rw above (
          percent_loop-IsRounded rounds delta e (p + 1) small (omega arith)
            (inr (ground (arith, test, above))))
    ]

-- The percentage exists exactly for an elapsed time and a counter that did not go back, and is then a
-- hundred times the quotient of the two differences, rounded to the nearest whole number, a half upwards,
-- but at most 100.
pub utilisation-IsRounded :
    (previous_ns render_ns elapsed_ns : ℕ)
    → render_ns < 2 ^ 64
    → elapsed_ns < 2 ^ 64
    → (((elapsed_ns ≡ 0) ⊎ (render_ns < previous_ns))
        × (utilisation previous_ns render_ns elapsed_ns ≡ none))
      ⊎ ((percent : ℕ) × (utilisation previous_ns render_ns elapsed_ns ≡ some percent)
          × (1 ≤ elapsed_ns)
          × (previous_ns ≤ render_ns)
          × IsRounded (render_ns - previous_ns) elapsed_ns percent)
unfolding utilisation
utilisation-IsRounded previous r e small_r small_e = elim (Bool-cases (e == 0 || ltb r previous)) [
  | inl wrong ↦ inl (ground arith, ground arith)
  | inr right ↦
      let order : previous ≤ r = ground arith in
      let exact : sub64 r previous ≡ r - previous = omega arith in
      inr (
        percent_loop (sub64 r previous) e 100 1 0,
        ground arith,
        ground arith,
        order,
        rw exact (percent_loop-IsRounded 100 (r - previous) e 0 small_e refl (inl refl)),
      )
]

percent_loop-le :
    (rounds delta elapsed_ns candidate percent : ℕ)
    → percent ≤ 100
    → candidate + rounds ≤ 101
    → percent_loop delta elapsed_ns rounds candidate percent ≤ 100
unfolding percent_loop
percent_loop-le zero delta e c p h k = h
percent_loop-le (suc rounds) delta e c p h k = elim (Bool-cases (ltb delta (threshold e c))) [
  | inl below ↦ rw below h
  | inr above ↦ rw above (percent_loop-le rounds delta e (c + 1) c (omega arith) (omega arith))
]

pub utilisation-le :
    (previous_ns render_ns elapsed_ns : ℕ)
    → OnSome (λ percent. percent ≤ 100) (utilisation previous_ns render_ns elapsed_ns)
unfolding utilisation
utilisation-le previous r e = elim (Bool-cases (e == 0 || ltb r previous)) [
  | inl wrong ↦ rw wrong tt
  | inr right ↦ rw right (percent_loop-le 100 (sub64 r previous) e 1 0 (omega arith) (omega arith))
]
