-- ===== src/Report.antt =====
-- src/effective_config_report.c: how a text of the configuration stands in a line of the report. A text is
-- without its end.
pub mod Encoded
mod Tests
use frame_pacer.Common.{
  ℕ, zero, suc, ◌+◌, ◌-◌, ◌/◌, ◌%◌, Bool, true, false, ◌&&◌, ◌||◌, ltb, leb, ◌==◌, if◌then◌else◌,
  Bytes, List, [], ◌∷◌, ◌++◌, length, codes,
}

-- `ENCODED_TEXT_LIMIT`
abbrev pub text_limit : ℕ
text_limit = 72

-- A digit of `hexadecimal`.
unfoldable pub hex_digit : ℕ → ℕ
hex_digit n = if ltb n 10 then b'0' + n else b'A' + (n - 10)

unfoldable pub escaped_byte : ℕ → Bytes
escaped_byte byte =
    if byte == 34 || byte == 92
    then 92 ∷ byte ∷ []
    else if leb 32 byte && leb byte 126
    then byte ∷ []
    else 92 ∷ b'x' ∷ hex_digit (byte / 16) ∷ hex_digit (byte % 16) ∷ []

abbrev pub room_for_dots : Bytes → ℕ
room_for_dots [] = 0
room_for_dots (c ∷ cs) = 3

-- The loop from an offset of the output on, with the dots behind it.
unfoldable pub encode_loop : Bytes → ℕ → Bytes
encode_loop [] output_offset = []
encode_loop (c ∷ cs) output_offset =
    let encoded = escaped_byte c in
    let rest = encode_loop cs (output_offset + length encoded) in
    if ltb text_limit (output_offset + length encoded + room_for_dots cs)
    then codes "..."
    else encoded ++ rest

unfoldable pub encode_text : Bytes → Bytes
encode_text input = encode_loop input 0

-- In quotes, or the word for an absent text.
unfoldable pub format_text_field : Bytes → Bytes → Bytes
format_text_field [] absent = absent
format_text_field (c ∷ cs) absent = 34 ∷ ((c ∷ cs) ++ (34 ∷ []))
