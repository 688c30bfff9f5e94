-- ===== src/Log/Retention/Scanned.antt =====
-- The second scan of src/log_retention.c: which entries it unlinks, and which stay.
use frame_pacer.Common.{
  Mem, ℕ, ◌≡◌, ◌⊎◌, inl, inr, true, false, Bool-cases, arith, Bytes, Option, List, [], ◌∷◌, All,
  length, refl, sym, same_bytes_refl,
}
use mathlib.Core.Path.{subst}
use frame_pacer.Log.Retention.{
  LogCandidate, Entry, is_candidate, candidates_of, is_retained, unlinks, scan_again,
}
use frame_pacer.Log.Retention.Settled.{NoneOlder, IsSettled}

pub is_retained-Mem :
    (c : LogCandidate) (retained : List LogCandidate)
    → Mem c retained
    → is_retained c.name retained ≡ true
unfolding is_retained
is_retained-Mem c [] m = absurd m
is_retained-Mem c (x ∷ retained) (inl e) = rw (e, same_bytes_refl x.name) refl
is_retained-Mem c (x ∷ retained) (inr m) = ground (arith, is_retained-Mem c retained m)

-- The entry is a log of this prefix, not the protected one, and the retained logs fill their room, none of
-- them older than the entry.
pub record IsExcess (prefix : Bytes) (protected : Option Bytes) (limit : ℕ)
    (retained : List LogCandidate) (entry : Entry) : Type 0 where
  pub candidate : is_candidate prefix protected entry ≡ true
  pub full : length retained ≡ limit
  pub oldest : NoneOlder entry.candidate retained

unlinks-IsExcess :
    (prefix : Bytes) (protected : Option Bytes) (limit : ℕ) (retained : List LogCandidate)
    (entry : Entry)
    → (is_candidate prefix protected entry ≡ true → IsSettled limit retained entry.candidate)
    → unlinks prefix protected retained entry ≡ true
    → IsExcess prefix protected limit retained entry
unfolding unlinks
unlinks-IsExcess prefix protected limit retained entry settled e =
    let candidate : is_candidate prefix protected entry ≡ true = ground (arith, e) in
    elim (settled candidate) [
      | inl m ↦ absurd (ground (arith, e, is_retained-Mem entry.candidate retained m))
      | inr full ↦ record { candidate = candidate; full = full.0; oldest = full.1 }
    ]

pub All-candidates_of :
    (P : LogCandidate → Type 0) (prefix : Bytes) (protected : Option Bytes) (entries : List Entry)
    → All P (candidates_of prefix protected entries)
    → All (λ entry. is_candidate prefix protected entry ≡ true → P entry.candidate) entries
unfolding candidates_of
All-candidates_of P prefix protected [] h = tt
All-candidates_of P prefix protected (entry ∷ entries) h =
    elim (Bool-cases (is_candidate prefix protected entry)) [
      | inl e ↦
          let kept = rw e at h in
          ((λ candidate. kept.0), All-candidates_of P prefix protected entries kept.1)
      | inr e ↦
          let kept = rw e at h in
          ((λ candidate. absurd cc), All-candidates_of P prefix protected entries kept)
    ]

abbrev pub IsEntry : Entry → List Entry → Type 0
IsEntry entry [] = ⊥
IsEntry entry (x ∷ entries) = (entry ≡ x) ⊎ IsEntry entry entries

module _ (prefix : Bytes) (protected : Option Bytes) (retained : List LogCandidate) where
  -- The entry is still there, or it was unlinked.
  abbrev pub Stays : List Entry → Entry → Type 0
  Stays remaining entry = IsEntry entry remaining ⊎ (unlinks prefix protected retained entry ≡ true)

  Stays-below :
      (x : Entry) (remaining entries : List Entry)
      → All (Stays remaining) entries
      → All (Stays (x ∷ remaining)) entries
  Stays-below x remaining [] h = tt
  Stays-below x remaining (entry ∷ entries) h =
      (elim h.0 [ inl m ↦ inl (inr m) | inr e ↦ inr e ], Stays-below x remaining entries h.1)

  scan_again-unlinked :
      (entry : Entry) (entries : List Entry)
      → unlinks prefix protected retained entry ≡ true
      → scan_again prefix protected retained (entry ∷ entries)
        ≡ scan_again prefix protected retained entries
  unfolding scan_again
  scan_again-unlinked entry entries e = rw e

  scan_again-left :
      (entry : Entry) (entries : List Entry)
      → unlinks prefix protected retained entry ≡ false
      → scan_again prefix protected retained (entry ∷ entries)
        ≡ entry ∷ scan_again prefix protected retained entries
  unfolding scan_again
  scan_again-left entry entries e = rw e

  pub scan_again-Stays :
      (entries : List Entry) → All (Stays (scan_again prefix protected retained entries)) entries
  scan_again-Stays [] = tt
  scan_again-Stays (entry ∷ entries) =
      let rest = scan_again prefix protected retained entries in
      elim (Bool-cases (unlinks prefix protected retained entry)) [
        | inl e ↦
            subst (λ remaining. All (Stays remaining) (entry ∷ entries))
              (sym (scan_again-unlinked entry entries e)) (inr e, scan_again-Stays entries)
        | inr e ↦
            subst (λ remaining. All (Stays remaining) (entry ∷ entries))
              (sym (scan_again-left entry entries e))
              (inl (inl refl), Stays-below entry rest entries (scan_again-Stays entries))
      ]

  unlinks_not :
      (entry : Entry)
      → unlinks prefix protected retained entry ≡ false
      → is_candidate prefix protected entry ≡ true
      → is_retained entry.candidate.name retained ≡ true
  unfolding unlinks
  unlinks_not entry e candidate = ground (arith, e, candidate)

  -- What is unlinked is gone.
  pub scan_again-kept :
      (entries : List Entry)
      → All
          (λ entry.
            is_candidate prefix protected entry ≡ true
            → is_retained entry.candidate.name retained ≡ true)
          (scan_again prefix protected retained entries)
  unfolding scan_again
  scan_again-kept [] = tt
  scan_again-kept (entry ∷ entries) = elim (Bool-cases (unlinks prefix protected retained entry)) [
    | inl e ↦ rw e (scan_again-kept entries)
    | inr e ↦ rw e (unlinks_not entry e, scan_again-kept entries)
  ]

module _ (prefix : Bytes) (protected : Option Bytes) (limit : ℕ)
    (retained : List LogCandidate) where
  pub Stays-IsExcess :
      (remaining entries : List Entry)
      → All (Stays prefix protected retained remaining) entries
      → All
          (λ entry.
            is_candidate prefix protected entry ≡ true → IsSettled limit retained entry.candidate)
          entries
      → All
          (λ entry. IsEntry entry remaining ⊎ IsExcess prefix protected limit retained entry)
          entries
  Stays-IsExcess remaining [] h k = tt
  Stays-IsExcess remaining (entry ∷ entries) h k = (
    elim h.0 [
      | inl m ↦ inl m
      | inr e ↦ inr (unlinks-IsExcess prefix protected limit retained entry k.0 e)
    ],
    Stays-IsExcess remaining entries h.1 k.1,
  )

IsEntry-weaken :
    (x : Entry) (ys xs : List Entry) → All (λ y. IsEntry y xs) ys → All (λ y. IsEntry y (x ∷ xs)) ys
IsEntry-weaken x [] xs h = tt
IsEntry-weaken x (y ∷ ys) xs h = (inr h.0, IsEntry-weaken x ys xs h.1)

-- Nothing comes into the directory.
pub scan_again-IsEntry :
    (prefix : Bytes) (protected : Option Bytes) (retained : List LogCandidate)
    (entries : List Entry)
    → All (λ entry. IsEntry entry entries) (scan_again prefix protected retained entries)
unfolding scan_again
scan_again-IsEntry prefix protected retained [] = tt
scan_again-IsEntry prefix protected retained (entry ∷ entries) =
    let rest =
      IsEntry-weaken entry (scan_again prefix protected retained entries) entries
        (scan_again-IsEntry prefix protected retained entries) in
    elim (Bool-cases (unlinks prefix protected retained entry)) [
      | inl e ↦ rw e rest
      | inr e ↦ rw e (inl refl, rest)
    ]

-- A retained entry stays.
pub unlinks-Mem :
    (prefix : Bytes) (protected : Option Bytes) (retained : List LogCandidate) (entry : Entry)
    → Mem entry.candidate retained
    → unlinks prefix protected retained entry ≡ false
unfolding unlinks
unlinks-Mem prefix protected retained entry m =
    let t = is_retained-Mem entry.candidate retained m in ground (arith, t)

-- An entry that is a log of the prefix, and may go, with this candidate.
abbrev pub Comes : Bytes → Option Bytes → List Entry → LogCandidate → Type 0
Comes prefix protected entries c =
    (entry : Entry) × IsEntry entry entries
    × (entry.candidate ≡ c)
    × (is_candidate prefix protected entry ≡ true)

from_below :
    (prefix : Bytes) (protected : Option Bytes) (entry : Entry) (entries : List Entry)
    (cs : List LogCandidate)
    → All (Comes prefix protected entries) cs
    → All (Comes prefix protected (entry ∷ entries)) cs
from_below prefix protected entry entries [] h = tt
from_below prefix protected entry entries (c ∷ cs) h =
    ((h.0.0, inr h.0.1, h.0.2, h.0.3), from_below prefix protected entry entries cs h.1)

-- Where a candidate comes from.
pub candidates_of-from :
    (prefix : Bytes) (protected : Option Bytes) (entries : List Entry)
    → All (Comes prefix protected entries) (candidates_of prefix protected entries)
unfolding candidates_of
candidates_of-from prefix protected [] = tt
candidates_of-from prefix protected (entry ∷ entries) =
    let rest =
      from_below prefix protected entry entries (candidates_of prefix protected entries)
        (candidates_of-from prefix protected entries) in
    elim (Bool-cases (is_candidate prefix protected entry)) [
      | inl e ↦ rw e ((entry, inl refl, refl, e), rest)
      | inr e ↦ rw e rest
    ]
