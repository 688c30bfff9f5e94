-- ===== src/Report/Encoded.antt =====
-- The texts in the report of src/effective_config_report.c are short and printable.
use mathlib.Core.List.{append_assoc}
use frame_pacer.Common.{
  ℕ, ◌+◌, ◌/◌, ◌%◌, ◌≤◌, ◌<◌, ◌≡◌, ◌⊎◌, inl, inr, Bool-cases, arith, ◌&&◌, ◌||◌, ltb, leb, ◌==◌,
  All, All-append, Bytes, [], ◌∷◌, ◌++◌, length, length-append, codes, refl, ap, sym, ◌∙◌,
}
use frame_pacer.Report.{
  text_limit, hex_digit, escaped_byte, room_for_dots, encode_loop, encode_text,
}

abbrev pub IsPrintable : ℕ → Type 0
IsPrintable c = (32 ≤ c) × (c ≤ 126)

abbrev pub escape_all : Bytes → Bytes
escape_all [] = []
escape_all (c ∷ cs) = escaped_byte c ++ escape_all cs

abbrev pub IsByte : ℕ → Type 0
IsByte c = c < 256

hex_digit-IsPrintable : (n : ℕ) → n < 16 → IsPrintable (hex_digit n)
unfolding hex_digit
hex_digit-IsPrintable n h = elim (Bool-cases (ltb n 10)) [
  | inl e ↦ rw e (omega arith, ground (arith, e))
  | inr e ↦ rw e (omega arith, omega arith)
]

escaped_byte-IsPrintable : (byte : ℕ) → IsByte byte → All IsPrintable (escaped_byte byte)
unfolding escaped_byte
escaped_byte-IsPrintable byte h = elim (Bool-cases (byte == 34 || byte == 92)) [
  | inl e ↦ rw e ((omega arith, omega arith), ((ground (arith, e), ground (arith, e)), tt))
  | inr e ↦ rw e (elim (Bool-cases (leb 32 byte && leb byte 126)) [
    | inl plain ↦ rw plain ((ground (arith, plain), ground (arith, plain)), tt)
    | inr other ↦ rw other (
      (omega arith, omega arith),
      (
        (omega arith, omega arith),
        (
          hex_digit-IsPrintable (byte / 16) (omega arith),
          (hex_digit-IsPrintable (byte % 16) (omega arith), tt),
        ),
      ),
    )
  ])
]

-- Room for what is to come, or for the dots.
abbrev Room : Bytes → ℕ → Type 0
Room [] output_offset = output_offset ≤ text_limit
Room (c ∷ cs) output_offset = output_offset + 3 ≤ text_limit

Room-after :
    (cs : Bytes) (output_offset : ℕ)
    → output_offset + room_for_dots cs ≤ text_limit
    → Room cs output_offset
Room-after [] o h = omega arith
Room-after (c ∷ cs) o h = omega arith

Room-start : (text : Bytes) → Room text 0
Room-start [] = omega arith
Room-start (c ∷ cs) = omega arith

encode_loop-le :
    (text : Bytes) (output_offset : ℕ)
    → Room text output_offset
    → output_offset + length (encode_loop text output_offset) ≤ text_limit
unfolding encode_loop
encode_loop-le [] o h = omega arith
encode_loop-le (c ∷ cs) o h =
    let n = length (escaped_byte c) in
    elim (Bool-cases (ltb text_limit (o + n + room_for_dots cs))) [
      | inl full ↦ rw full (omega arith)
      | inr fits ↦ rw fits (
          let rest = encode_loop-le cs (o + n) (Room-after cs (o + n) (ground (arith, fits))) in
          omega (arith, rest, length-append (escaped_byte c) (encode_loop cs (o + n))))
    ]

dots-IsPrintable : All IsPrintable (codes "...")
dots-IsPrintable =
    ((omega arith, omega arith), ((omega arith, omega arith), ((omega arith, omega arith), tt)))

encode_loop-IsPrintable :
    (text : Bytes) (output_offset : ℕ)
    → All IsByte text
    → All IsPrintable (encode_loop text output_offset)
unfolding encode_loop
encode_loop-IsPrintable [] o h = tt
encode_loop-IsPrintable (c ∷ cs) o h =
    let n = length (escaped_byte c) in
    elim (Bool-cases (ltb text_limit (o + n + room_for_dots cs))) [
      | inl full ↦ rw full dots-IsPrintable
      | inr fits ↦ rw fits (
          All-append IsPrintable (escaped_byte c) (encode_loop cs (o + n))
            (escaped_byte-IsPrintable c h.0) (encode_loop-IsPrintable cs (o + n) h.1))
    ]

-- All of a text, escaped, or a part from its beginning with dots.
abbrev pub IsPart : Bytes → Bytes → Type 0
IsPart text output =
    (output ≡ escape_all text)
    ⊎ ((kept : Bytes) × (left : Bytes) × (text ≡ kept ++ left)
        × (1 ≤ length left)
        × (output ≡ escape_all kept ++ codes "..."))

encode_loop-IsPart :
    (text : Bytes) (output_offset : ℕ) → IsPart text (encode_loop text output_offset)
unfolding encode_loop
encode_loop-IsPart [] o = inl refl
encode_loop-IsPart (c ∷ cs) o =
    let n = length (escaped_byte c) in
    elim (Bool-cases (ltb text_limit (o + n + room_for_dots cs))) [
      | inl full ↦ rw full (inr ([], c ∷ cs, refl, omega arith, refl))
      | inr fits ↦ rw fits (elim (encode_loop-IsPart cs (o + n)) [
        | inl whole ↦ inl (ap (λ x. escaped_byte c ++ x) whole)
        | inr (kept, left, e, some_left, f) ↦ inr (
          c ∷ kept,
          left,
          ap (λ x. c ∷ x) e,
          some_left,
          ap (λ x. escaped_byte c ++ x) f
              ∙ sym (append_assoc (escaped_byte c) (escape_all kept) (codes "...")),
        )
      ])
    ]

-- A text of bytes is written with at most 72 bytes, all of them printable; they are the text, escaped, or the beginning
-- of it, escaped, with three dots.
pub encode_text-IsPart :
    (text : Bytes)
    → All IsByte text
    → (length (encode_text text) ≤ 72)
      × All IsPrintable (encode_text text)
      × IsPart text (encode_text text)
unfolding encode_text
encode_text-IsPart text h = (
  omega (arith, encode_loop-le text 0 (Room-start text)),
  encode_loop-IsPrintable text 0 h,
  encode_loop-IsPart text 0,
)
