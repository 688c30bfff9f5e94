-- ===== src/ThreadCpu/Protocol/RoundTrip.antt =====
-- The formats and parsers of src/thread_cpu_protocol.c are inverse to each other.
use frame_pacer.Common.{
  behind_prefix, behind_prefix-append, behind_prefix_sound, ℕ, ◌+◌, ◌-◌, ◌*◌, ◌/◌, ◌%◌, ◌≤◌, ◌≡◌,
  ◌↔◌, arith, Bool, true, false, ltb, if◌then◌else◌, Bytes, [], ◌∷◌, ◌++◌, length, refl, sym, ap,
  ◌∙◌, Option, none, some, same_bytes, same_bytes_iff, codes, add32, mul32, map_some,
}
use frame_pacer.ThreadCpu.Protocol.{
  quota_loop, check_quota, parse_digits, parse_quota, parse_behind, print_digits, print_u32,
  state_text, status_text, format_state, parse_state, parse_confirmation,
}

-- The digits of a number up to 100.
abbrev small_text : ℕ → Bytes
small_text n =
    if ltb n 10
    then (b'0' + n) ∷ []
    else if ltb n 100
    then (b'0' + n / 10) ∷ (b'0' + n % 10) ∷ []
    else (b'0' + n / 100) ∷ (b'0' + n / 10 % 10) ∷ (b'0' + n % 10) ∷ []

print_u32-small : (n : ℕ) → n ≤ 100 → print_u32 n ≡ small_text n
unfolding print_digits
print_u32-small n h = ground arith

parse_digits-small : (n : ℕ) → 1 ≤ n → n ≤ 100 → parse_digits (small_text n ++ codes "\n") ≡ some n
unfolding parse_digits quota_loop check_quota same_bytes
parse_digits-small n low high = ground arith

quota_loop-ge :
    (s : Bytes) (value r : ℕ) {rest : Bytes} → quota_loop s value ≡ some (r, rest) → value ≤ r
unfolding quota_loop
quota_loop-ge [] value r e = ground arith
quota_loop-ge (c ∷ cs) value r {rest} e =
    ground (arith, quota_loop-ge cs (add32 (mul32 value 10) (c - b'0')) r {rest = rest})

check_quota_sound :
    (found : Option (ℕ × Bytes)) {n : ℕ}
    → check_quota found ≡ some n
    → (found ≡ some (n, codes "\n")) × (1 ≤ n) × (n ≤ 100)
unfolding check_quota
check_quota_sound none e = absurd cc
check_quota_sound (some (value, rest)) {n} e = ground (arith, same_bytes_iff rest (codes "\n"))

-- A number that is past 100 already is not accepted, and one from 10 on has at most one digit more.
loop_stop :
    (s : Bytes) (value : ℕ) {n : ℕ}
    → quota_loop s value ≡ some (n, codes "\n")
    → n ≤ 100
    → 11 ≤ value
    → (s ≡ codes "\n") × (n ≡ value)
unfolding quota_loop
loop_stop [] value e high low = ground arith
loop_stop (c ∷ cs) value {n} e high low =
    ground (arith, quota_loop-ge cs (add32 (mul32 value 10) (c - b'0')) n {rest = codes "\n"})

parse_digits_sound :
    (text : Bytes) {n : ℕ}
    → parse_digits text ≡ some n
    → (text ≡ small_text n ++ codes "\n") × (1 ≤ n) × (n ≤ 100)
unfolding parse_digits quota_loop
parse_digits_sound [] e = absurd cc
parse_digits_sound (c ∷ []) {n} e =
    ground (arith, check_quota_sound (quota_loop (c ∷ []) 0) {n = n})
parse_digits_sound (c ∷ d ∷ []) {n} e =
    ground (arith, check_quota_sound (quota_loop (c ∷ d ∷ []) 0) {n = n})
parse_digits_sound (c ∷ d ∷ f ∷ cs) {n} e =
    let high = check_quota_sound (quota_loop (c ∷ d ∷ f ∷ cs) 0) {n = n} in
    let stop = loop_stop cs (((c - b'0') * 10 + (d - b'0')) * 10 + (f - b'0')) {n = n} in
    ground (arith, high, stop)

-- What a number behind a prefix is printed as.
abbrev IsPrinted : Bytes → ℕ → Type 0
IsPrinted text n = (text ≡ print_u32 n ++ codes "\n") × (1 ≤ n) × (n ≤ 100)

parse_digits_iff : (text : Bytes) (n : ℕ) → (parse_digits text ≡ some n) ↔ IsPrinted text n
parse_digits_iff text n = (
  (λ e.
      let found = parse_digits_sound text {n = n} e in
      (
        found.0 ∙ ap (λ digits. digits ++ codes "\n") (sym (print_u32-small n found.2)),
        found.1,
        found.2,
      )),
  (λ h.
      ap parse_digits (h.0 ∙ ap (λ digits. digits ++ codes "\n") (print_u32-small n h.2))
      ∙ parse_digits-small n h.1 h.2),
)

parse_behind-then :
    (found : Option Bytes) {n : ℕ} {C : Type 0}
    → parse_behind found ≡ some n
    → ((rest : Bytes) → found ≡ some rest → parse_digits rest ≡ some n → C)
    → C
unfolding parse_behind
parse_behind-then none e k = absurd cc
parse_behind-then (some rest) e k = k rest refl e

parse_quota_sound :
    (prefix text : Bytes) (n : ℕ)
    → parse_quota text prefix ≡ some n
    → (text ≡ prefix ++ (print_u32 n ++ codes "\n")) × (1 ≤ n) × (n ≤ 100)
unfolding parse_quota
parse_quota_sound prefix text n e =
    parse_behind-then (behind_prefix prefix text) e (λ rest found parsed.
      let printed = (parse_digits_iff rest n).0 parsed in
      (
        behind_prefix_sound prefix text found ∙ ap (λ s. prefix ++ s) printed.0,
        printed.1,
        printed.2,
      ))

parse_quota_complete :
    (prefix : Bytes) (n : ℕ)
    → 1 ≤ n
    → n ≤ 100
    → parse_quota (prefix ++ (print_u32 n ++ codes "\n")) prefix ≡ some n
unfolding parse_quota parse_behind
parse_quota_complete prefix n low high =
    ap parse_behind (behind_prefix-append prefix (print_u32 n ++ codes "\n"))
    ∙ (parse_digits_iff (print_u32 n ++ codes "\n") n).1 (refl, low, high)

parse_quota_iff :
    (prefix text : Bytes) (n : ℕ)
    → (parse_quota text prefix ≡ some n)
      ↔ ((text ≡ prefix ++ (print_u32 n ++ codes "\n")) × (1 ≤ n) × (n ≤ 100))
parse_quota_iff prefix text n = (
  parse_quota_sound prefix text n,
  (λ h. ap (λ s. parse_quota s prefix) h.0 ∙ parse_quota_complete prefix n h.1 h.2),
)

-- A setting: off with no quota, or on with a quota from 1 to 100.
abbrev pub IsSetting : Bool → ℕ → Type 0
IsSetting false quota = quota ≡ 0
IsSetting true quota = (1 ≤ quota) × (quota ≤ 100)

mark_on_inv :
    (o : Option ℕ) {enabled : Bool} {quota : ℕ}
    → map_some {B = Bool × ℕ} (λ q. (true, q)) o ≡ some (enabled, quota)
    → (enabled ≡ true) × (o ≡ some quota)
mark_on_inv none e = absurd cc
mark_on_inv (some q) e = ground arith

-- `parse_state` accepts exactly the lines that are printed for settings, and reads the setting back:
-- the result is a flag and a quota if and only if they are a setting and the text is its line.
pub parse_state_iff :
    (text : Bytes) (enabled : Bool) (quota : ℕ)
    → (parse_state text ≡ some (enabled, quota))
      ↔ (IsSetting enabled quota × (text ≡ state_text enabled quota))
unfolding parse_state
parse_state_iff text false quota = ground (
  arith,
  same_bytes_iff text (codes "off\n"),
  mark_on_inv (parse_quota text (codes "on ")) {enabled = false} {quota = quota},
)
parse_state_iff text true quota = ground (
  arith,
  same_bytes_iff text (codes "off\n"),
  mark_on_inv (parse_quota text (codes "on ")) {enabled = true} {quota = quota},
  parse_quota_iff (codes "on ") text quota,
)

-- `parse_confirmation` holds exactly of a quota from 1 to 100 and the line that confirms it.
pub parse_confirmation_iff :
    (text : Bytes) (quota : ℕ)
    → (parse_confirmation text quota ≡ true)
      ↔ ((1 ≤ quota) × (quota ≤ 100) × (text ≡ status_text true quota))
unfolding parse_confirmation
parse_confirmation_iff text quota = grind (arith, parse_quota_iff (codes "confirmed ") text quota)

length-print_u32 : (n : ℕ) → n ≤ 100 → length (print_u32 n ++ codes "\n") ≤ 4
length-print_u32 n h = rw (print_u32-small n h) (ground arith)

state_fits :
    (size quota : ℕ)
    → 8 ≤ size
    → IsSetting true quota
    → format_state size true quota ≡ some (state_text true quota)
unfolding format_state
state_fits size quota large setting = ground (arith, length-print_u32 quota setting.1)

-- A line of at least eight bytes takes every setting, and what is written there is read back.
pub parse_state-format_state :
    (size : ℕ) (enabled : Bool) (quota : ℕ)
    → 8 ≤ size
    → IsSetting enabled quota
    → (format_state size enabled quota ≡ some (state_text enabled quota))
      × (parse_state (state_text enabled quota) ≡ some (enabled, quota))
unfolding format_state
parse_state-format_state size false quota large setting =
    (ground arith, (parse_state_iff (state_text false quota) false quota).1 (setting, refl))
parse_state-format_state size true quota large setting = (
  state_fits size quota large setting,
  (parse_state_iff (state_text true quota) true quota).1 (setting, refl),
)
