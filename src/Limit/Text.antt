-- ===== src/Limit/Text.antt =====
-- The work on bytes that src/pacer_limit.c leaves to the C library (in the C locale), and `trim`.
use frame_pacer.Common.{
  ℕ, zero, suc, ◌+◌, Bool, true, false, ◌&&◌, ◌||◌, leb, ◌==◌, if◌then◌else◌, Bytes, List, [], ◌∷◌,
  same_bytes, Option, none, some,
}

-- `isspace`, and `maps_space`.
unfoldable pub is_space : ℕ → Bool
is_space c = c == b' ' || leb 9 c && leb c 13

-- `isdigit`
unfoldable pub is_digit : ℕ → Bool
is_digit c = leb b'0' c && leb c b'9'

-- `tolower`
unfoldable pub lower : ℕ → ℕ
lower c = if leb b'A' c && leb c b'Z' then c + 32 else c

unfoldable pub lowered : Bytes → Bytes
lowered [] = []
lowered (c ∷ cs) = lower c ∷ lowered cs

-- `strcasecmp(a, b) == 0`
unfoldable pub same_nocase : Bytes → Bytes → Bool
same_nocase a b = same_bytes (lowered a) (lowered b)

unfoldable pub skip_space : Bytes → Bytes
skip_space [] = []
skip_space (c ∷ cs) = if is_space c then skip_space cs else c ∷ cs

-- One byte put in front of a text that has lost its trailing space.
abbrev keep_byte : ℕ → Bytes → Bytes
keep_byte c [] = if is_space c then [] else c ∷ []
keep_byte c (x ∷ xs) = c ∷ x ∷ xs

unfoldable pub drop_space_end : Bytes → Bytes
drop_space_end [] = []
drop_space_end (c ∷ cs) = keep_byte c (drop_space_end cs)

unfoldable pub trim : Bytes → Bytes
trim s = drop_space_end (skip_space s)

-- `end[-1]`; no caller asks for it at an empty text.
unfoldable pub last_byte : Bytes → ℕ
last_byte [] = 0
last_byte (c ∷ []) = c
last_byte (c ∷ d ∷ cs) = last_byte (d ∷ cs)

unfoldable pub drop_last : Bytes → Bytes
drop_last [] = []
drop_last (c ∷ []) = []
drop_last (c ∷ d ∷ cs) = c ∷ drop_last (d ∷ cs)

unfoldable pub drop : ℕ → Bytes → Bytes
drop zero s = s
drop (suc n) [] = []
drop (suc n) (c ∷ cs) = drop n cs

-- `memchr`, as the parts before and after the first occurrence.
unfoldable pub split_at : ℕ → Bytes → Option (Bytes × Bytes)
split_at sep [] = none
split_at sep (c ∷ cs) =
    if c == sep
    then some ([], cs)
    else elim (split_at sep cs) [ none ↦ none | some (a, b) ↦ some (c ∷ a, b) ]

abbrev pub contains : ℕ → Bytes → Bool
contains sep s = elim (split_at sep s) [ none ↦ false | some p ↦ true ]

abbrev pub onto_first : ℕ → List Bytes → List Bytes
onto_first c [] = (c ∷ []) ∷ []
onto_first c (l ∷ ls) = (c ∷ l) ∷ ls

-- The pieces that a loop visits which looks for `sep` from its offset on, and stops behind the last
-- byte: a separator at the end opens no further piece.
unfoldable pub pieces : ℕ → Bytes → List Bytes
pieces sep [] = []
pieces sep (c ∷ cs) = if c == sep then [] ∷ pieces sep cs else onto_first c (pieces sep cs)
