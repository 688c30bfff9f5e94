-- ===== src/Common/Lists.antt =====
-- Lists measured and indexed by native numbers, and byte strings.
use Prim.Native.Char.{code}
use Prim.Native.String.{String}
use Prim.Native.Nat.{ℕ, zero, suc, ◌+◌}
use mathlib.Core.Path.{◌≡◌, refl}
use mathlib.Core.Logic.{◌↔◌, ◌⊎◌}
use mathlib.Core.Bool.{Bool, true, false, ◌&&◌}
use mathlib.Core.List.{List, [], ◌∷◌, ◌++◌}
use mathlib.Core.Option.{Option, none, some}
use native.Mathlib.Omega.{arith}
use frame_pacer.Common.Tests.{◌==◌, if◌then◌else◌}

abbrev pub Bytes : Type 0
Bytes = List ℕ

-- The code points of a text: its bytes, if it is ASCII.
abbrev pub codes : String → Bytes
codes String.[] = []
codes (String.◌∷◌ c s) = code c ∷ codes s

module _ {ℓ} {A : Type ℓ} where
  abbrev pub length : List A → ℕ
  length [] = 0
  length (x ∷ xs) = suc (length xs)

  abbrev pub get_elem? : List A → ℕ → Option A
  get_elem? [] i = none
  get_elem? (x ∷ xs) zero = some x
  get_elem? (x ∷ xs) (suc i) = get_elem? xs i

  abbrev pub get_or : List A → ℕ → A → A
  get_or [] i d = d
  get_or (x ∷ xs) zero d = x
  get_or (x ∷ xs) (suc i) d = get_or xs i d

  pub length-append : (xs ys : List A) → length (xs ++ ys) ≡ length xs + length ys
  length-append [] ys = omega arith
  length-append (x ∷ xs) ys = omega (arith, length-append xs ys)

-- `strcmp(a, b) == 0`, or `memcmp` over equal lengths.
unfoldable pub same_bytes : Bytes → Bytes → Bool
same_bytes [] [] = true
same_bytes (x ∷ xs) (y ∷ ys) = x == y && same_bytes xs ys
same_bytes _ _ = false

pub same_bytes_iff : (a b : Bytes) → (same_bytes a b ≡ true) ↔ (a ≡ b)
unfolding same_bytes
same_bytes_iff (x ∷ a) (y ∷ b) = ground (arith, same_bytes_iff a b)
same_bytes_iff _ _ = ground arith

pub same_bytes_refl : (a : Bytes) → same_bytes a a ≡ true
same_bytes_refl a = (same_bytes_iff a a).1 refl

-- Every element satisfies `P`.
abbrev pub All {ℓ κ} : {A : Type ℓ} → (A → Type κ) → List A → Type κ
All P [] = Unit
All P (x ∷ xs) = P x × All P xs

pub All-append {ℓ κ} :
    {A : Type ℓ} (P : A → Type κ) (xs ys : List A) → All P xs → All P ys → All P (xs ++ ys)
All-append P [] ys h k = k
All-append P (x ∷ xs) ys h k = (h.0, All-append P xs ys h.1 k)

-- `strncmp(text, prefix, strlen(prefix)) == 0`, with what follows the prefix.
unfoldable pub behind_prefix : Bytes → Bytes → Option Bytes
behind_prefix [] text = some text
behind_prefix (p ∷ prefix) [] = none
behind_prefix (p ∷ prefix) (c ∷ text) = if p == c then behind_prefix prefix text else none

pub behind_prefix-append : (prefix text : Bytes) → behind_prefix prefix (prefix ++ text) ≡ some text
unfolding behind_prefix
behind_prefix-append [] text = refl
behind_prefix-append (p ∷ prefix) text = ground (arith, behind_prefix-append prefix text)

pub behind_prefix_sound :
    (prefix text : Bytes) {rest : Bytes}
    → behind_prefix prefix text ≡ some rest
    → text ≡ prefix ++ rest
unfolding behind_prefix
behind_prefix_sound [] text e = cc
behind_prefix_sound (p ∷ prefix) [] e = cc
behind_prefix_sound (p ∷ prefix) (c ∷ text) {rest} e =
    ground (arith, behind_prefix_sound prefix text {rest = rest})

-- The element occurs in the list.
abbrev pub Mem : {A : Type 0} → A → List A → Type 0
Mem y [] = ⊥
Mem y (x ∷ xs) = (y ≡ x) ⊎ Mem y xs
