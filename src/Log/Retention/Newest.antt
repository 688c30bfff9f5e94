-- ===== src/Log/Retention/Newest.antt =====
-- The scan of src/log_retention.c retains the newest logs.
use frame_pacer.Common.{Mem, ℕ, ◌≤◌, inl, inr, arith, List, [], ◌∷◌, All, length, refl}
use frame_pacer.Log.Retention.{LogCandidate, insert, retain}
use frame_pacer.Log.Retention.Settled.{
  Sorted, IsSettled, All-insert, length-insert-le, Sorted-insert, IsSettled-insert,
  insert-IsSettled,
}

retain-Sorted : (limit : ℕ) (cs r : List LogCandidate) → Sorted r → Sorted (retain limit cs r)
unfolding retain
retain-Sorted limit [] r h = h
retain-Sorted limit (c ∷ cs) r h =
    retain-Sorted limit cs (insert limit c r) (Sorted-insert limit c r h)

length-retain :
    (limit : ℕ) (cs r : List LogCandidate) → length r ≤ limit → length (retain limit cs r) ≤ limit
unfolding retain
length-retain limit [] r h = h
length-retain limit (c ∷ cs) r h =
    length-retain limit cs (insert limit c r) (length-insert-le limit c r)

retain-settles :
    (limit : ℕ) (cs r : List LogCandidate) (y : LogCandidate)
    → Sorted r
    → IsSettled limit r y
    → IsSettled limit (retain limit cs r) y
unfolding retain
retain-settles limit [] r y h k = k
retain-settles limit (c ∷ cs) r y h k =
    retain-settles limit cs (insert limit c r) y (Sorted-insert limit c r h)
      (IsSettled-insert limit c y r h k)

retain-IsSettled :
    (limit : ℕ) (cs r : List LogCandidate) → Sorted r → All (IsSettled limit (retain limit cs r)) cs
unfolding retain
retain-IsSettled limit [] r h = tt
retain-IsSettled limit (c ∷ cs) r h =
    let kept = Sorted-insert limit c r h in
    (
      retain-settles limit cs (insert limit c r) c kept (insert-IsSettled limit c r),
      retain-IsSettled limit cs (insert limit c r) kept,
    )

All-retain :
    (P : LogCandidate → Type 0) (limit : ℕ) (cs r : List LogCandidate)
    → All P cs
    → All P r
    → All P (retain limit cs r)
unfolding retain
All-retain P limit [] r h k = k
All-retain P limit (c ∷ cs) r h k =
    All-retain P limit cs (insert limit c r) h.1 (All-insert P limit c r h.0 k)

All-weaken :
    (x : LogCandidate) (ys xs : List LogCandidate)
    → All (λ y. Mem y xs) ys
    → All (λ y. Mem y (x ∷ xs)) ys
All-weaken x [] xs h = tt
All-weaken x (y ∷ ys) xs h = (inr h.0, All-weaken x ys xs h.1)

All-Mem : (cs : List LogCandidate) → All (λ y. Mem y cs) cs
All-Mem [] = tt
All-Mem (c ∷ cs) = (inl refl, All-weaken c cs cs (All-Mem cs))

-- The `limit` newest of the candidates.
pub record IsNewest (limit : ℕ) (candidates retained : List LogCandidate) : Type 0 where
  pub few : length retained ≤ limit
  pub sorted : Sorted retained
  pub from : All (λ y. Mem y candidates) retained
  pub settled : All (IsSettled limit retained) candidates

-- The scan retains the newest of the candidates: at most `limit`, all of them candidates, newest first, and
-- a candidate that is not among them is no newer than any of them, which are then exactly `limit`.
pub retain-IsNewest :
    (limit : ℕ) (candidates : List LogCandidate)
    → IsNewest limit candidates (retain limit candidates [])
retain-IsNewest limit cs = record {
  few = length-retain limit cs [] (omega arith);
  sorted = retain-Sorted limit cs [] tt;
  from = All-retain (λ y. Mem y cs) limit cs [] (All-Mem cs) tt;
  settled = retain-IsSettled limit cs [] tt;
}
