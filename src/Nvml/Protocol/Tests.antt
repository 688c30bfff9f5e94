-- ===== src/Nvml/Protocol/Tests.antt =====
-- Messages of src/hud_nvml_protocol.c on concrete bytes.
use frame_pacer.Common.{◌≡◌, ◌↔◌, refl, none, some, arith, length}
use frame_pacer.Nvml.Protocol.{
  Message, put_u16, put_u32, get_u16, get_u32, encode, is_old, has_header, has_fields, read_fields,
  decode, protocol_size, protocol_magic, protocol_version,
}
use frame_pacer.Nvml.Protocol.RoundTrip.{IsSample, Follows, decode_iff, decode-encode}

abbrev warm : Message
warm = record { sequence = 1; available = 3; gpu_use_percent = 97; gpu_temp_celsius = 64 }

warm-IsSample : IsSample warm
warm-IsSample = record {
  numbered = omega arith;
  available_le = omega arith;
  use_le = omega arith;
  temp_le = omega arith;
}

-- The sequence number passes the end of its range.
wraps : decode (encode (some warm)) (some 4294967295) ≡ some warm
unfolding put_u16 put_u32 get_u16 get_u32 encode is_old has_header has_fields read_fields decode
wraps = refl

repeats : decode (encode (some warm)) (some 1) ≡ none
unfolding put_u16 put_u32 get_u16 get_u32 encode is_old has_header has_fields read_fields decode
repeats = refl

nothing : decode (encode none) none ≡ none
unfolding put_u16 put_u32 get_u16 get_u32 encode is_old has_header has_fields read_fields decode
nothing = refl

decode_iff_example : (decode (encode (some warm)) none ≡ some warm) ↔ (
    (length (encode (some warm)) ≡ protocol_size)
    × (get_u32 (encode (some warm)) 0 ≡ protocol_magic)
    × (get_u16 (encode (some warm)) 4 ≡ protocol_version)
    × (get_u16 (encode (some warm)) 6 ≡ protocol_size)
    × (warm ≡ read_fields (encode (some warm)))
    × IsSample warm
    × Follows 1 none)
decode_iff_example = decode_iff (encode (some warm)) none warm

decode-encode_example : decode (encode (some warm)) (some 4294967295) ≡ some warm
decode-encode_example =
    decode-encode warm (some 4294967295) (omega arith) warm-IsSample (omega arith, omega arith)
