-- ===== src/Limit/Values/Accepted.antt =====
-- Exactly which texts src/pacer_limit.c accepts as the values of its keys.
use mathlib.Core.Path.{subst}
use frame_pacer.Common.{
  ==_iff, map_some-eq-some, ℕ, ◌≤◌, ◌≡◌, ◌≢◌, ◌↔◌, ◌⊎◌, arith, Bool, true, false, inl, inr,
  Bool-cases, Bytes, [], ◌∷◌, ◌++◌, All, refl, sym, ap, ◌∙◌, Option, none, some, same_bytes,
  same_bytes_iff, codes, ◌==◌,
}
use frame_pacer.Limit.Text.{is_digit, last_byte, drop_last}
use frame_pacer.Limit.Values.{
  digits_loop, at_end, parse_fps, percent_of, parse_fps_limit, parse_thread_cpu_quota,
}
use frame_pacer.Limit.Values.Digits.{AllDigits, decimal, digits_loop_complete, digits_loop_sound}

-- The text is a decimal number from 1 to `limit`; leading zeros are allowed.
pub record IsNumber (limit : ℕ) (s : Bytes) (n : ℕ) : Type 0 where
  pub not_empty : s ≢ []
  pub digits : All (λ c. is_digit c ≡ true) s
  pub value : decimal 0 s ≡ n
  pub low : 1 ≤ n
  pub high : n ≤ limit

at_end-eq-some : (o : Option (ℕ × Bytes)) {n : ℕ} → at_end o ≡ some n → (o ≡ some (n, [])) × (1 ≤ n)
at_end-eq-some none e = cc
at_end-eq-some (some (v, [])) e = ground arith
at_end-eq-some (some (v, c ∷ cs)) e = cc

IsNumber-sound :
    (limit c : ℕ) (cs : Bytes) (n : ℕ)
    → limit ≤ 999
    → at_end (digits_loop limit (c ∷ cs) 0) ≡ some n
    → IsNumber limit (c ∷ cs) n
IsNumber-sound limit c cs n l e =
    let (found, low) = at_end-eq-some (digits_loop limit (c ∷ cs) 0) e in
    let (digits, value, high) = digits_loop_sound limit (c ∷ cs) 0 n l (omega arith) found in
    record { not_empty = λ h. cc; digits = digits; value = value; low = low; high = high }

IsNumber-complete :
    (limit c : ℕ) (cs : Bytes) (n : ℕ)
    → limit ≤ 999
    → IsNumber limit (c ∷ cs) n
    → at_end (digits_loop limit (c ∷ cs) 0) ≡ some n
IsNumber-complete limit c cs n l v =
    let e = digits_loop_complete limit (c ∷ cs) 0 l v.digits (omega (arith, v.value, v.high)) in
    rw e (ground (arith, v.value, v.low))

-- `parse_fps` accepts the decimal numbers from 1 to 999, and gives their value.
pub parse_fps_iff : (s : Bytes) (n : ℕ) → (parse_fps s ≡ some n) ↔ IsNumber 999 s n
unfolding parse_fps
parse_fps_iff [] n = (λ e. cc, λ v. absurd (v.not_empty refl))
parse_fps_iff (c ∷ cs) n = elim (Bool-cases (is_digit c)) [
  | inl d ↦
      rw d (IsNumber-sound 999 c cs n (omega arith), IsNumber-complete 999 c cs n (omega arith))
  | inr other ↦ rw other (λ e. cc, λ v. absurd (ground (arith, v.digits)))
]

percent_of_iff : (s : Bytes) (n : ℕ) → (percent_of s ≡ some n) ↔ IsNumber 100 s n
percent_of_iff [] n = (λ e. cc, λ v. absurd (v.not_empty refl))
percent_of_iff (c ∷ cs) n = elim (Bool-cases (is_digit c)) [
  | inl d ↦
      rw d (IsNumber-sound 100 c cs n (omega arith), IsNumber-complete 100 c cs n (omega arith))
  | inr other ↦ rw other (λ e. cc, λ v. absurd (ground (arith, v.digits)))
]

off_not_digits : (s : Bytes) → AllDigits s → same_bytes s (codes "off") ≡ false
unfolding is_digit
off_not_digits s d = elim (Bool-cases (same_bytes s (codes "off"))) [
  | inl e ↦ absurd (ground (arith, (subst AllDigits ((same_bytes_iff s (codes "off")).0 e) d).0))
  | inr h ↦ h
]

-- An FPS limit is the word `off`, which means 0, or a number from 1 to 999.
pub parse_fps_limit_iff :
    (s : Bytes) (n : ℕ) (off : Bool)
    → (parse_fps_limit s ≡ some (n, off))
      ↔ ((s ≡ codes "off") × (n ≡ 0) × (off ≡ true) ⊎ IsNumber 999 s n × (off ≡ false))
unfolding parse_fps_limit
parse_fps_limit_iff s n off = elim (Bool-cases (same_bytes s (codes "off"))) [
  | inl word ↦ rw word (
    λ e. inl ((same_bytes_iff s (codes "off")).0 word, ground arith, ground arith),
    λ h. elim h [
      | inl (w, z, t) ↦ ground arith
      | inr (v, f) ↦ let e = off_not_digits s v.digits in cc
    ],
  )
  | inr other ↦ rw other (
    λ e. inr (numeric (map_some-eq-some (λ (fps : ℕ). (fps, false)) (parse_fps s) e)),
    λ h. elim h [
      | inl (w, z, t) ↦ let e = (same_bytes_iff s (codes "off")).1 w in cc
      | inr (v, f) ↦ rw ((parse_fps_iff s n).1 v, f) refl
    ],
  )
]
  where
    numeric :
        (fps : ℕ) × (parse_fps s ≡ some fps) × (◌≡◌ {A = ℕ × Bool} (fps, false) (n, off))
        → IsNumber 999 s n × (off ≡ false)
    numeric (fps, e, p) = ((parse_fps_iff s n).0 (e ∙ cc), cc)

ends_in_last : (s : Bytes) (c : ℕ) → last_byte s ≡ c → c ≢ 0 → s ≡ drop_last s ++ (c ∷ [])
unfolding last_byte drop_last
ends_in_last [] c e ne = absurd (ne (sym e))
ends_in_last (x ∷ []) c e ne = cc
ends_in_last (x ∷ y ∷ s) c e ne = ap (λ t. x ∷ t) (ends_in_last (y ∷ s) c e ne)

last_byte-concat : (s : Bytes) (c : ℕ) → last_byte (s ++ (c ∷ [])) ≡ c
unfolding last_byte
last_byte-concat [] c = refl
last_byte-concat (x ∷ []) c = refl
last_byte-concat (x ∷ y ∷ s) c = last_byte-concat (y ∷ s) c

drop_last-concat : (s : Bytes) (c : ℕ) → drop_last (s ++ (c ∷ [])) ≡ s
unfolding drop_last
drop_last-concat [] c = refl
drop_last-concat (x ∷ []) c = refl
drop_last-concat (x ∷ y ∷ s) c = ap (λ t. x ∷ t) (drop_last-concat (y ∷ s) c)

last_byte-off : last_byte (codes "off") ≡ b'f'
unfolding last_byte
last_byte-off = refl

-- A percentage: a number from 1 to 100 and the sign.
abbrev pub IsPercent : Bytes → ℕ → Type 0
IsPercent s n = (body : Bytes) × (s ≡ body ++ (b'%' ∷ [])) × IsNumber 100 body n

IsPercent-sound :
    (s : Bytes) (n : ℕ) → last_byte s ≡ b'%' → percent_of (drop_last s) ≡ some n → IsPercent s n
IsPercent-sound s n l e =
    (drop_last s, ends_in_last s b'%' l (omega arith), (percent_of_iff (drop_last s) n).0 e)

IsPercent-complete :
    (s : Bytes) (n : ℕ) → IsPercent s n → (last_byte s ≡ b'%') × (percent_of (drop_last s) ≡ some n)
IsPercent-complete s n (body, shape, v) = (
  rw shape (last_byte-concat body b'%'),
  rw shape (rw drop_last-concat ((percent_of_iff body n).1 v)),
)

-- A thread CPU limit is the word `off`, which disables it, or a percentage from 1% to 100%.
pub parse_thread_cpu_quota_iff :
    (s : Bytes) (enabled : Bool) (n : ℕ)
    → (parse_thread_cpu_quota s ≡ some (enabled, n))
      ↔ ((s ≡ codes "off") × (enabled ≡ false) × (n ≡ 0) ⊎ IsPercent s n × (enabled ≡ true))
unfolding parse_thread_cpu_quota
parse_thread_cpu_quota_iff s enabled n = elim (Bool-cases (same_bytes s (codes "off"))) [
  | inl word ↦ rw word (
    λ e. inl ((same_bytes_iff s (codes "off")).0 word, ground arith, ground arith),
    λ h. elim h [
      | inl (w, f, z) ↦ ground arith
      | inr (p, t) ↦
          let (l, e) = IsPercent-complete s n p in
          absurd
            (ground (arith, ap last_byte ((same_bytes_iff s (codes "off")).0 word), last_byte-off))
    ],
  )
  | inr other ↦ rw other (elim (Bool-cases (last_byte s == b'%')) [
    | inl sign ↦ rw sign (
      λ e.
          inr (numeric sign (map_some-eq-some (λ (q : ℕ). (true, q)) (percent_of (drop_last s)) e)),
      λ h. elim h [
        | inl (w, f, z) ↦ let e = (same_bytes_iff s (codes "off")).1 w in cc
        | inr (p, t) ↦ rw ((IsPercent-complete s n p).1, t) refl
      ],
    )
    | inr bare ↦ rw bare (
      λ e. cc,
      λ h. elim h [
        | inl (w, f, z) ↦ let e = (same_bytes_iff s (codes "off")).1 w in cc
        | inr (p, t) ↦ absurd (ground (arith, (IsPercent-complete s n p).0))
      ],
    )
  ])
]
  where
    numeric :
        last_byte s == b'%' ≡ true
        → (q : ℕ) × (percent_of (drop_last s) ≡ some q)
          × (◌≡◌ {A = Bool × ℕ} (true, q) (enabled, n))
        → IsPercent s n × (enabled ≡ true)
    numeric sign (q, e, p) = (IsPercent-sound s n ((==_iff _ _).0 sign) (e ∙ cc), cc)
