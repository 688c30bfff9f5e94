-- ===== src/Hud/Drm/Clients/Merged.antt =====
-- The clients that src/hud_drm_fdinfo.c has merged: each identity once, in at most 64 slots.
use frame_pacer.Common.{
  ℕ, ◌-◌, ◌≤◌, ◌≡◌, ◌≢◌, inl, inr, Bool-cases, Option-cases, arith, ◌==◌, List, [], ◌∷◌, All,
  length, OnSome, some, map_some-eq-some,
}
use mathlib.Core.Path.{subst}
use frame_pacer.Hud.Drm.Clients.{Client, merge_engines, merge_into, merge_client, max_clients}

-- No client is `id`.
abbrev pub IsAbsent : ℕ → List Client → Type 0
IsAbsent id cs = All (λ c. c.client_id ≢ id) cs

abbrev pub Distinct : List Client → Type 0
Distinct [] = Unit
Distinct (c ∷ cs) = IsAbsent c.client_id cs × Distinct cs

merge_into-IsAbsent :
    (id room : ℕ) (cs : List Client) (candidate : Client) {merged : List Client}
    → candidate.client_id ≢ id
    → IsAbsent id cs
    → merge_into room cs candidate ≡ some merged
    → IsAbsent id merged
unfolding merge_into
merge_into-IsAbsent id room [] candidate other h e = ground arith
merge_into-IsAbsent id room (c ∷ cs) candidate other h e =
    elim (Bool-cases (c.client_id == candidate.client_id)) [
      | inl same ↦ let e' = rw same at e in ground (arith, e', h.0, h.1)
      | inr differ ↦
          let e' = rw differ at e in
          let found = map_some-eq-some (λ (merged : List Client). c ∷ merged) _ e' in
          let below = merge_into-IsAbsent id (room - 1) cs candidate other h.1 found.1 in
          subst (λ m. IsAbsent id m) found.2 (h.0, below)
    ]

merge_into-Distinct :
    (room : ℕ) (cs : List Client) (candidate : Client) {merged : List Client}
    → Distinct cs
    → length cs ≤ room
    → merge_into room cs candidate ≡ some merged
    → Distinct merged × (length merged ≤ room)
unfolding merge_into
merge_into-Distinct room [] candidate h fits e = ground arith
merge_into-Distinct room (c ∷ cs) candidate {merged} h fits e =
    elim (Bool-cases (c.client_id == candidate.client_id)) [
      | inl same ↦
          let e' = rw same at e in
          let updated : List Client =
            record c { engines = merge_engines c.engines candidate.engines } ∷ cs in
          let equal : updated ≡ merged = cc in
          subst (λ m. Distinct m × (length m ≤ room)) equal (h, fits)
      | inr differ ↦
          let e' = rw differ at e in
          let found = map_some-eq-some (λ (merged : List Client). c ∷ merged) _ e' in
          let below = merge_into-Distinct (room - 1) cs candidate h.1 (omega arith) found.1 in
          let other : candidate.client_id ≢ c.client_id = ground arith in
          let absent = merge_into-IsAbsent c.client_id (room - 1) cs candidate other h.0 found.1 in
          subst (λ m. Distinct m × (length m ≤ room)) found.2
            ((absent, below.0), omega (arith, below.1))
    ]

-- Merging keeps the identities apart and the slots enough.
pub merge_client-Distinct :
    (cs : List Client) (candidate : Client)
    → Distinct cs × (length cs ≤ max_clients)
    → OnSome (λ merged. Distinct merged × (length merged ≤ max_clients)) (merge_client cs candidate)
unfolding merge_client
merge_client-Distinct cs candidate h = elim (Option-cases (merge_into max_clients cs candidate)) [
  | inl e ↦ rw e tt
  | inr (merged, e) ↦ rw e (merge_into-Distinct max_clients cs candidate h.0 h.1 e)
]
