-- ===== src/Log/Retention/Settled.antt =====
-- What one insertion of src/log_retention.c keeps: the order, and that what is dropped is no loss.
use frame_pacer.Common.{
  Mem, ℕ, zero, suc, ◌≤◌, ◌≡◌, ◌⊎◌, inl, inr, false, Bool-cases, arith, List, [], ◌∷◌, All, length,
  refl,
}
use frame_pacer.Log.Retention.{LogCandidate, newer_than, take, insert}
use frame_pacer.Log.Retention.Order.{newer_than_trans, newer_than_asym}

-- None of the list is older than `y`.
abbrev pub NoneOlder : LogCandidate → List LogCandidate → Type 0
NoneOlder y xs = All (λ x. newer_than y x ≡ false) xs

-- Newest first.
abbrev pub Sorted : List LogCandidate → Type 0
Sorted [] = Unit
Sorted (x ∷ xs) = All (λ y. newer_than y x ≡ false) xs × Sorted xs

-- Retained, or none of `limit` retained ones is older.
abbrev pub IsSettled : ℕ → List LogCandidate → LogCandidate → Type 0
IsSettled limit retained y = Mem y retained ⊎ ((length retained ≡ limit) × NoneOlder y retained)

All-take :
    (P : LogCandidate → Type 0) (n : ℕ) (xs : List LogCandidate) → All P xs → All P (take n xs)
All-take P zero xs h = tt
All-take P (suc n) [] h = tt
All-take P (suc n) (x ∷ xs) h = (h.0, All-take P n xs h.1)

pub Sorted-take : (n : ℕ) (xs : List LogCandidate) → Sorted xs → Sorted (take n xs)
Sorted-take zero xs h = tt
Sorted-take (suc n) [] h = tt
Sorted-take (suc n) (x ∷ xs) h =
    (All-take (λ y. newer_than y x ≡ false) n xs h.0, Sorted-take n xs h.1)

length-take-le : (n : ℕ) (xs : List LogCandidate) → length (take n xs) ≤ n
length-take-le zero xs = omega arith
length-take-le (suc n) [] = omega arith
length-take-le (suc n) (x ∷ xs) = omega (arith, length-take-le n xs)

-- What is not newer than `x` is not newer than what `x` is not newer than.
NoneOlder-trans :
    (y x : LogCandidate) (xs : List LogCandidate)
    → newer_than y x ≡ false
    → NoneOlder x xs
    → NoneOlder y xs
NoneOlder-trans y x [] h k = tt
NoneOlder-trans y x (z ∷ xs) h k = (newer_than_trans y x z h k.0, NoneOlder-trans y x xs h k.1)

pub All-insert :
    (P : LogCandidate → Type 0) (n : ℕ) (c : LogCandidate) (xs : List LogCandidate)
    → P c
    → All P xs
    → All P (insert n c xs)
unfolding insert
All-insert P zero c xs p h = tt
All-insert P (suc n) c [] p h = (p, tt)
All-insert P (suc n) c (x ∷ xs) p h = elim (Bool-cases (newer_than c x)) [
  | inl e ↦ rw e (p, All-take P n (x ∷ xs) h)
  | inr e ↦ rw e (h.0, All-insert P n c xs p h.1)
]

pub length-insert-le :
    (n : ℕ) (c : LogCandidate) (xs : List LogCandidate) → length (insert n c xs) ≤ n
unfolding insert
length-insert-le zero c xs = omega arith
length-insert-le (suc n) c [] = omega arith
length-insert-le (suc n) c (x ∷ xs) =
    ground (arith, length-take-le n (x ∷ xs), length-insert-le n c xs)

-- What is not newer than `x` is not newer than `c`, if `x` is not.
AllOlder-trans :
    (c x : LogCandidate) (xs : List LogCandidate)
    → newer_than x c ≡ false
    → All (λ y. newer_than y x ≡ false) xs
    → All (λ y. newer_than y c ≡ false) xs
AllOlder-trans c x [] e h = tt
AllOlder-trans c x (y ∷ xs) e h = (newer_than_trans y x c h.0 e, AllOlder-trans c x xs e h.1)

pub Sorted-insert :
    (n : ℕ) (c : LogCandidate) (xs : List LogCandidate) → Sorted xs → Sorted (insert n c xs)
unfolding insert
Sorted-insert zero c xs h = tt
Sorted-insert (suc n) c [] h = (tt, tt)
Sorted-insert (suc n) c (x ∷ xs) h = elim (Bool-cases (newer_than c x)) [
  | inl e ↦
      let older = newer_than_asym c x e in
      rw e (
        All-take (λ y. newer_than y c ≡ false) n (x ∷ xs) (older, AllOlder-trans c x xs older h.0),
        Sorted-take n (x ∷ xs) h,
      )
  | inr e ↦ rw e (All-insert (λ y. newer_than y x ≡ false) n c xs e h.0, Sorted-insert n c xs h.1)
]

-- Behind one more candidate that is not older, and in a room of one more.
IsSettled-below :
    (n : ℕ) (x y : LogCandidate) (r : List LogCandidate)
    → newer_than y x ≡ false
    → IsSettled n r y
    → IsSettled (suc n) (x ∷ r) y
IsSettled-below n x y r e (inl m) = inl (inr m)
IsSettled-below n x y r e (inr full) = inr (omega (arith, full.0), (e, full.1))

newer_than_irrefl : (x : LogCandidate) → newer_than x x ≡ false
newer_than_irrefl x = elim (Bool-cases (newer_than x x)) [
  | inl e ↦ newer_than_asym x x e
  | inr e ↦ e
]

Mem-first :
    (y x : LogCandidate) (xs : List LogCandidate)
    → All (λ z. newer_than z x ≡ false) xs
    → Mem y xs
    → newer_than y x ≡ false
Mem-first y x [] h m = absurd m
Mem-first y x (z ∷ xs) h (inl e) = rw e h.0
Mem-first y x (z ∷ xs) h (inr m) = Mem-first y x xs h.1 m

-- What is settled at the head's room is not newer than the head, and is the head or settled behind it.
IsSettled-split :
    (n : ℕ) (x y : LogCandidate) (xs : List LogCandidate)
    → Sorted (x ∷ xs)
    → IsSettled (suc n) (x ∷ xs) y
    → (newer_than y x ≡ false) × ((y ≡ x) ⊎ IsSettled n xs y)
IsSettled-split n x y xs h (inl (inl e)) = (rw e (newer_than_irrefl x), inl e)
IsSettled-split n x y xs h (inl (inr m)) = (Mem-first y x xs h.0 m, inr (inl m))
IsSettled-split n x y xs h (inr full) = (full.1.0, inr (inr (omega (arith, full.0), full.1.1)))

-- What a prefix loses is settled by what it keeps.
IsSettled-take :
    (n : ℕ) (x y : LogCandidate) (xs : List LogCandidate)
    → Sorted (x ∷ xs)
    → IsSettled (suc n) (x ∷ xs) y
    → IsSettled n (take n (x ∷ xs)) y
IsSettled-take zero x y xs h k = inr (refl, tt)
IsSettled-take (suc n) x y [] h k = elim (IsSettled-split (suc n) x y [] h k).1 [
  | inl e ↦ inl (inl e)
  | inr (inl m) ↦ absurd m
  | inr (inr full) ↦ absurd (omega (arith, full.0))
]
IsSettled-take (suc n) x y (z ∷ xs) h k =
    let split = IsSettled-split (suc n) x y (z ∷ xs) h k in
    elim split.1 [
      | inl e ↦ inl (inl e)
      | inr rest ↦
          IsSettled-below n x y (take n (z ∷ xs)) split.0 (IsSettled-take n z y xs h.1 rest)
    ]

-- An insertion leaves settled what was, and settles the candidate.
pub IsSettled-insert :
    (n : ℕ) (c y : LogCandidate) (xs : List LogCandidate)
    → Sorted xs
    → IsSettled n xs y
    → IsSettled n (insert n c xs) y
unfolding insert
IsSettled-insert zero c y xs h k = inr (refl, tt)
IsSettled-insert (suc n) c y [] h (inl m) = absurd m
IsSettled-insert (suc n) c y [] h (inr full) = absurd (omega (arith, full.0))
IsSettled-insert (suc n) c y (x ∷ xs) h k =
    let split = IsSettled-split n x y xs h k in
    elim (Bool-cases (newer_than c x)) [
      | inl e ↦
          let older = newer_than_trans y x c split.0 (newer_than_asym c x e) in
          rw e (IsSettled-below n c y (take n (x ∷ xs)) older (IsSettled-take n x y xs h k))
      | inr e ↦ rw e (elim split.1 [
        | inl same ↦ inl (inl same)
        | inr rest ↦
            IsSettled-below n x y (insert n c xs) split.0 (IsSettled-insert n c y xs h.1 rest)
      ])
    ]

pub insert-IsSettled :
    (n : ℕ) (c : LogCandidate) (xs : List LogCandidate) → IsSettled n (insert n c xs) c
unfolding insert
insert-IsSettled zero c xs = inr (refl, tt)
insert-IsSettled (suc n) c [] = inl (inl refl)
insert-IsSettled (suc n) c (x ∷ xs) = elim (Bool-cases (newer_than c x)) [
  | inl e ↦ rw e (inl (inl refl))
  | inr e ↦ rw e (IsSettled-below n x c (insert n c xs) e (insert-IsSettled n c xs))
]
