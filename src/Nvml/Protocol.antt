-- ===== src/Nvml/Protocol.antt =====
-- src/hud_nvml_protocol.c: the 24 bytes of a message, written and read.
-- Bytes stand in a list, and an index past its end reads 0, which no reading behind the check of the
-- size does. Null pointers are not represented, but for the message that is encoded.
pub mod Fields
pub mod RoundTrip
mod Tests
use frame_pacer.Common.{
  ℕ, ◌+◌, ◌*◌, ◌/◌, ◌%◌, ◌^◌, Bool, true, false, not, ◌&&◌, ◌||◌, ltb, leb, ◌==◌, if◌then◌else◌,
  Bytes, List, [], ◌∷◌, ◌++◌, get_or, length, Option, none, some, sub32,
}

abbrev pub protocol_size : ℕ
protocol_size = 24

abbrev pub protocol_magic : ℕ
protocol_magic = 1280134726

abbrev pub protocol_version : ℕ
protocol_version = 1

pub record Message : Type 0 where
  pub sequence : ℕ
  pub available : ℕ
  pub gpu_use_percent : ℕ
  pub gpu_temp_celsius : ℕ

pub put_u16 : ℕ → Bytes
put_u16 value = value % 256 ∷ value / 256 % 256 ∷ []

pub put_u32 : ℕ → Bytes
put_u32 value = value % 256 ∷ value / 256 % 256 ∷ value / 65536 % 256 ∷ value / 16777216 % 256 ∷ []

pub get_u16 : Bytes → ℕ → ℕ
get_u16 input at = get_or input at 0 + get_or input (at + 1) 0 * 256

pub get_u32 : Bytes → ℕ → ℕ
get_u32 input at =
    get_or input at 0
    + get_or input (at + 1) 0 * 256
    + get_or input (at + 2) 0 * 65536
    + get_or input (at + 3) 0 * 16777216

-- A message of nothing is all zeros.
pub encode : Option Message → Bytes
encode none = put_u32 0 ++ (put_u32 0 ++ (put_u32 0 ++ (put_u32 0 ++ (put_u32 0 ++ put_u32 0))))
encode (some message) =
    put_u32 protocol_magic
    ++ (put_u16 protocol_version
        ++ (put_u16 protocol_size
            ++ (put_u32 message.sequence
                ++ (put_u32 message.available
                    ++ (put_u32 message.gpu_use_percent ++ put_u32 message.gpu_temp_celsius)))))

-- `(int32_t)(sequence - previous) <= 0`
pub is_old : ℕ → ℕ → Bool
is_old sequence previous = let ahead = sub32 sequence previous in ahead == 0 || leb (2 ^ 31) ahead

-- The checks of the first eight bytes.
pub has_header : Bytes → Bool
has_header input =
    length input == protocol_size
    && get_u32 input 0 == protocol_magic
    && get_u16 input 4 == protocol_version
    && get_u16 input 6 == protocol_size

pub has_fields : Message → Option ℕ → Bool
has_fields message previous =
    not (message.sequence == 0)
    && not (elim previous [ none ↦ false | some p ↦ is_old message.sequence p ])
    && ltb message.available 4
    && leb message.gpu_use_percent 100
    && leb message.gpu_temp_celsius 200

pub read_fields : Bytes → Message
read_fields input = record {
  sequence = get_u32 input 8;
  available = get_u32 input 12;
  gpu_use_percent = get_u32 input 16;
  gpu_temp_celsius = get_u32 input 20;
}

-- The previous sequence number is `none` without `have_previous`.
pub decode : Bytes → Option ℕ → Option Message
decode input previous =
    let message = read_fields input in
    if has_header input && has_fields message previous then some message else none
