-- ===== src/Hud/Drm/Sample/Committed.antt =====
-- What a sample of src/hud_drm_fdinfo.c leaves behind.
use mathlib.Core.Path.{subst}
use frame_pacer.Common.{
  ℕ, ◌-◌, ◌≤◌, ◌≡◌, inl, inr, Bool, true, Bool-cases, arith, ltb, List, [], ◌∷◌, All, Option, none,
  some, uint64_max, OnSome, OnSome-and_then, refl, sym,
}
use frame_pacer.Hud.Drm.Clients.{Client, Engines}
use frame_pacer.Hud.Drm.Sample.{
  Total, previous_client, commit_engine, slot, engines_of, commit_client, add_client,
  commit_clients,
}

-- A counter that is present before and after has not gone back.
abbrev pub NotBelow : Option ℕ → Option ℕ → Type 0
NotBelow none new = Unit
NotBelow (some old) none = Unit
NotBelow (some old) (some new) = old ≤ new

abbrev pub NoneBelow : Engines (Option ℕ) → Engines (Option ℕ) → Type 0
NoneBelow old new =
    NotBelow old.render new.render × NotBelow old.gfx new.gfx × NotBelow old.compute new.compute

commit_engine-NotBelow :
    (previous current : Option ℕ) (total : Total)
    → OnSome (λ next. NotBelow previous next.0) (commit_engine true previous current total)
unfolding commit_engine
commit_engine-NotBelow none none total = tt
commit_engine-NotBelow (some high) none total = tt
commit_engine-NotBelow none (some current) total = tt
commit_engine-NotBelow (some high) (some current) total = elim (Bool-cases (ltb current high)) [
  | inl e ↦ rw e (omega arith)
  | inr e ↦ rw e (elim (Bool-cases (ltb (uint64_max - total.delta) (current - high))) [
    | inl f ↦ rw f tt
    | inr f ↦ rw f (ground (arith, e))
  ])
]

abbrev pub Keeps : Client → Engines (Option ℕ) → Client × Engines Total → Type 0
Keeps observed before next =
    (next.0.client_id ≡ observed.client_id) × NoneBelow before next.0.engines

-- The slot is the client's, with no baseline lower than before.
slot-Keeps :
    (observed : Client) (before : Engines (Option ℕ)) (r g c : Option (Option ℕ × Total))
    → OnSome (λ n. NotBelow before.render n.0) r
    → OnSome (λ n. NotBelow before.gfx n.0) g
    → OnSome (λ n. NotBelow before.compute n.0) c
    → OnSome (Keeps observed before) (slot observed r g c)
slot-Keeps observed before none g c hr hg hc = tt
slot-Keeps observed before (some r) none c hr hg hc = tt
slot-Keeps observed before (some r) (some g) none hr hg hc = tt
slot-Keeps observed before (some r) (some g) (some c) hr hg hc = (refl, (hr, hg, hc))

commit_client-Keeps :
    (previous : Option Client) (observed : Client) (totals : Engines Total)
    → OnSome (Keeps observed (engines_of previous)) (commit_client true previous observed totals)
unfolding commit_client
commit_client-Keeps previous observed totals =
    let before = engines_of previous in
    slot-Keeps observed before _ _ _
      (commit_engine-NotBelow before.render observed.engines.render totals.render)
      (commit_engine-NotBelow before.gfx observed.engines.gfx totals.gfx)
      (commit_engine-NotBelow before.compute observed.engines.compute totals.compute)

-- No slot of `next` has a baseline lower than that of its client in `clients`.
abbrev pub IsMonotone : List Client → List Client → Type 0
IsMonotone clients next =
    All (λ c. NoneBelow (engines_of (previous_client clients c.client_id)) c.engines) next

add_client-IsMonotone :
    (clients : List Client) (c : Client) (o : Option (List Client × Engines Total))
    → NoneBelow (engines_of (previous_client clients c.client_id)) c.engines
    → OnSome (λ n. IsMonotone clients n.0) o
    → OnSome (λ n. IsMonotone clients n.0) (add_client c o)
add_client-IsMonotone clients c none h k = tt
add_client-IsMonotone clients c (some n) h k = (h, k)

pub commit_clients-IsMonotone :
    (clients observed : List Client) (totals : Engines Total)
    → OnSome (λ n. IsMonotone clients n.0) (commit_clients true clients observed totals)
unfolding commit_clients
commit_clients-IsMonotone clients [] totals = tt
commit_clients-IsMonotone clients (o ∷ rest) totals =
    OnSome-and_then (Keeps o (engines_of (previous_client clients o.client_id)))
      (λ n. IsMonotone clients n.0)
      (commit_client true (previous_client clients o.client_id) o totals) _
      (commit_client-Keeps (previous_client clients o.client_id) o totals)
      (λ step h.
        add_client-IsMonotone clients step.0 (commit_clients true clients rest step.1)
          (subst (λ id. NoneBelow (engines_of (previous_client clients id)) step.0.engines)
            (sym h.0) h.1)
          (commit_clients-IsMonotone clients rest step.1))

slot-ids :
    (observed : Client) (r g c : Option (Option ℕ × Total))
    → OnSome (λ next. next.0.client_id ≡ observed.client_id) (slot observed r g c)
slot-ids observed none g c = tt
slot-ids observed (some r) none c = tt
slot-ids observed (some r) (some g) none = tt
slot-ids observed (some r) (some g) (some c) = refl

pub commit_client-ids :
    (elapsed_valid : Bool) (previous : Option Client) (observed : Client) (totals : Engines Total)
    → OnSome
        (λ next. next.0.client_id ≡ observed.client_id)
        (commit_client elapsed_valid previous observed totals)
unfolding commit_client
commit_client-ids elapsed_valid previous observed totals = slot-ids observed _ _ _
