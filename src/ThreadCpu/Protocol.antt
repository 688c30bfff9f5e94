-- ===== src/ThreadCpu/Protocol.antt =====
-- src/thread_cpu_protocol.c: the lines that the layer and the thread CPU controller exchange.
-- A text is its bytes before the NUL; an out-parameter that is not written is `none`. A null pointer
-- among the arguments is not represented.
pub mod RoundTrip
mod Tests
use frame_pacer.Common.{
  ℕ, zero, suc, ◌+◌, ◌-◌, ◌*◌, ◌/◌, ◌%◌, ◌^◌, Bool, true, false, not, ◌&&◌, ◌||◌, ltb, leb, ◌==◌,
  if◌then◌else◌, behind_prefix, Bytes, List, [], ◌∷◌, ◌++◌, same_bytes, codes, length, Option, none,
  some, uint32_max, add32, mul32, map_some,
}

abbrev is_digit : ℕ → Bool
is_digit c = leb b'0' c && leb c b'9'

-- The `do` loop: the value of the digits and what follows them, unless it passes UINT32_MAX.
pub quota_loop : Bytes → ℕ → Option (ℕ × Bytes)
quota_loop [] value = some (value, [])
quota_loop (c ∷ cs) value =
    let digit = c - b'0' in
    let rest = quota_loop cs (add32 (mul32 value 10) digit) in
    if not (is_digit c)
    then some (value, c ∷ cs)
    else if ltb ((uint32_max - digit) / 10) value
    then none
    else rest

abbrev starts_digit : Bytes → Bool
starts_digit [] = false
starts_digit (c ∷ cs) = is_digit c

-- A digit, and no zero in front of another digit.
abbrev starts_number : Bytes → Bool
starts_number [] = false
starts_number (c ∷ cs) = is_digit c && not (c == b'0' && starts_digit cs)

-- Behind the number stands the end of the line, and of the text.
pub check_quota : Option (ℕ × Bytes) → Option ℕ
check_quota none = none
check_quota (some (value, rest)) =
    if leb 1 value && leb value 100 && same_bytes rest (codes "\n") then some value else none

pub parse_digits : Bytes → Option ℕ
parse_digits text = if starts_number text then check_quota (quota_loop text 0) else none

pub parse_behind : Option Bytes → Option ℕ
parse_behind none = none
parse_behind (some rest) = parse_digits rest

pub parse_quota : Bytes → Bytes → Option ℕ
parse_quota text prefix = parse_behind (behind_prefix prefix text)

-- `%u`; ten digits are enough for 32 bits.
pub print_digits : ℕ → ℕ → Bytes
print_digits zero n = []
print_digits (suc fuel) n =
    let more = print_digits fuel (n / 10) ++ ((b'0' + n % 10) ∷ []) in
    if ltb n 10 then (b'0' + n) ∷ [] else more

abbrev print_u32 : ℕ → Bytes
print_u32 = print_digits 10

abbrev in_range : ℕ → Bool
in_range quota = leb 1 quota && leb quota 100

-- `snprintf` into `size` bytes, which succeeds if the text and its terminator fit.
abbrev fitting : ℕ → Bytes → Option Bytes
fitting size text = if ltb (length text) size then some text else none

abbrev pub state_text : Bool → ℕ → Bytes
state_text enabled quota =
    if enabled then codes "on " ++ (print_u32 quota ++ codes "\n") else codes "off\n"

abbrev pub status_text : Bool → ℕ → Bytes
status_text confirmed quota =
    if confirmed then codes "confirmed " ++ (print_u32 quota ++ codes "\n") else codes "off\n"

pub format_state : ℕ → Bool → ℕ → Option Bytes
format_state size enabled quota =
    if size == 0 || enabled && not (in_range quota)
    then none
    else fitting size (state_text enabled quota)

-- The flag is `enabled`.
pub parse_state : Bytes → Option (Bool × ℕ)
parse_state text =
    if same_bytes text (codes "off\n")
    then some (false, 0)
    else map_some (λ quota. (true, quota)) (parse_quota text (codes "on "))

pub format_status : ℕ → Bool → ℕ → Option Bytes
format_status size confirmed quota =
    if size == 0 || confirmed && not (in_range quota)
    then none
    else fitting size (status_text confirmed quota)

abbrev is_value : Option ℕ → ℕ → Bool
is_value none quota = false
is_value (some parsed) quota = parsed == quota

pub parse_confirmation : Bytes → ℕ → Bool
parse_confirmation text quota =
    in_range quota && is_value (parse_quota text (codes "confirmed ")) quota
