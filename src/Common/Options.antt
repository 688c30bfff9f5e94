-- ===== src/Common/Options.antt =====
-- Results that may be missing: carried on, and what holds of them if they are there.
use mathlib.Core.Option.{Option, none, some}

module _ {ℓ κ} {A : Type ℓ} {B : Type κ} where
  -- The next step on a result, a failure kept.
  unfoldable pub and_then : Option A → (A → Option B) → Option B
  and_then none f = none
  and_then (some a) f = f a

-- `P` holds of the result, if there is one.
abbrev pub OnSome {ℓ κ} : {A : Type ℓ} → (A → Type κ) → Option A → Type κ
OnSome P none = Unit
OnSome P (some a) = P a

pub OnSome-and_then {ℓ κ μ ν} :
    {A : Type ℓ} {B : Type κ} (P : A → Type μ) (Q : B → Type ν) (o : Option A) (f : A → Option B)
    → OnSome P o
    → ((a : A) → P a → OnSome Q (f a))
    → OnSome Q (and_then o f)
unfolding and_then
OnSome-and_then P Q none f h k = tt
OnSome-and_then P Q (some a) f h k = k a h

pub and_then-OnSome {ℓ κ ν} :
    {A : Type ℓ} {B : Type κ} (Q : B → Type ν) (o : Option A) (f : A → Option B)
    → ((a : A) → OnSome Q (f a))
    → OnSome Q (and_then o f)
unfolding and_then
and_then-OnSome Q none f k = tt
and_then-OnSome Q (some a) f k = k a
