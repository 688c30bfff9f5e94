-- ===== src/Nvml/Protocol/Fields.antt =====
-- The fields of a message (src/hud_nvml_protocol.c): what is put is got again.
use frame_pacer.Common.{ℕ, ◌+◌, ◌*◌, ◌/◌, ◌%◌, ◌^◌, ◌<◌, ◌≡◌, true, arith, some, refl}
use frame_pacer.Nvml.Protocol.{
  Message, get_u16, get_u32, put_u16, put_u32, encode, has_header, read_fields,
}

pub put_u32-get_u32 :
    (n : ℕ)
    → n < 2 ^ 32
    → n % 256 + n / 256 % 256 * 256 + n / 65536 % 256 * 65536 + n / 16777216 % 256 * 16777216 ≡ n
put_u32-get_u32 n h = omega arith

pub read_fields-encode :
    (m : Message)
    → m.sequence < 2 ^ 32
    → m.available < 2 ^ 32
    → m.gpu_use_percent < 2 ^ 32
    → m.gpu_temp_celsius < 2 ^ 32
    → read_fields (encode (some m)) ≡ m
unfolding read_fields encode put_u32 put_u16 get_u32
read_fields-encode m a b c d = ground (
  arith,
  put_u32-get_u32 m.sequence a,
  put_u32-get_u32 m.available b,
  put_u32-get_u32 m.gpu_use_percent c,
  put_u32-get_u32 m.gpu_temp_celsius d,
)

pub has_header-encode : (m : Message) → has_header (encode (some m)) ≡ true
unfolding has_header encode put_u32 put_u16 get_u32 get_u16
has_header-encode m = refl
