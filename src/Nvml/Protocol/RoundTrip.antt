-- ===== src/Nvml/Protocol/RoundTrip.antt =====
-- Messages sent and accepted (src/hud_nvml_protocol.c).
use frame_pacer.Common.{
  ℕ, ◌^◌, ◌≤◌, ◌<◌, ◌≡◌, ◌↔◌, true, arith, Bytes, length, Option, none, some, sub32,
}
use frame_pacer.Nvml.Protocol.{
  Message, get_u16, get_u32, encode, decode, has_header, has_fields, read_fields, is_old,
  protocol_size, protocol_magic, protocol_version,
}
use frame_pacer.Nvml.Protocol.Fields.{read_fields-encode, has_header-encode}

-- The sequence number comes behind the previous one, by less than half of the range.
abbrev pub Follows : ℕ → Option ℕ → Type 0
Follows sequence none = Unit
Follows sequence (some previous) =
    (1 ≤ sub32 sequence previous) × (sub32 sequence previous < 2 ^ 31)

-- What a sample may say: known flags, at most 100 percent and 200 degrees.
pub record IsSample (message : Message) : Type 0 where
  pub numbered : 1 ≤ message.sequence
  pub available_le : message.available ≤ 3
  pub use_le : message.gpu_use_percent ≤ 100
  pub temp_le : message.gpu_temp_celsius ≤ 200

has_fields_iff :
    (message : Message) (previous : Option ℕ)
    → (has_fields message previous ≡ true) ↔ (IsSample message × Follows message.sequence previous)
unfolding has_fields is_old
has_fields_iff message none = ground arith
has_fields_iff message (some p) = ground arith

-- A message is accepted exactly if the input has the 24 bytes of a message's header and fields, and the
-- message read from the fields says what a sample may say and follows the previous sequence number.
pub decode_iff :
    (input : Bytes) (previous : Option ℕ) (message : Message)
    → (decode input previous ≡ some message) ↔ (
        (length input ≡ protocol_size)
        × (get_u32 input 0 ≡ protocol_magic)
        × (get_u16 input 4 ≡ protocol_version)
        × (get_u16 input 6 ≡ protocol_size)
        × (message ≡ read_fields input)
        × IsSample message
        × Follows message.sequence previous)
unfolding decode has_header
decode_iff input previous message = grind (arith, has_fields_iff (read_fields input) previous)

-- A sample is read back from its message if it follows the previous sequence number, which is one of 32 bits.
pub decode-encode :
    (message : Message) (previous : Option ℕ)
    → message.sequence < 2 ^ 32
    → IsSample message
    → Follows message.sequence previous
    → decode (encode (some message)) previous ≡ some message
unfolding decode
decode-encode message previous small sample follows =
    ground (
      arith,
      read_fields-encode message,
      has_header-encode message,
      has_fields_iff message previous,
    )
