-- ===== src/Hud/Drm/Sample/Gathered.antt =====
-- The clients that src/hud_drm_fdinfo.c gathers and stores are different ones, and a peak is at most 100.
use mathlib.Core.Path.{subst}
use frame_pacer.Common.{
  ℕ, ◌≤◌, ◌≡◌, inl, inr, Bool, Bool-cases, arith, ltb, List, [], ◌∷◌, length, Option, none, some,
  OnSome, OnSome-and_then, sym,
}
use frame_pacer.Hud.Drm.Utilisation.Rounded.{utilisation-le}
use frame_pacer.Hud.Drm.Clients.{
  Client, Engines, max_clients, FdinfoResult, skipped, invalid, valid, read_fdinfo,
}
use frame_pacer.Hud.Drm.Clients.Merged.{Distinct, IsAbsent, merge_client-Distinct}
use frame_pacer.Hud.Drm.Sample.{
  Total, previous_client, commit_client, commit_clients, add_client, raise_peak, higher_peak,
  peak_of, Descriptor, after_read, collect_clients,
}
use frame_pacer.Hud.Drm.Sample.Committed.{commit_client-ids}

-- The same identities in the same order.
abbrev pub SameIds : List Client → List Client → Type 0
SameIds [] [] = Unit
SameIds (c ∷ cs) (d ∷ ds) = (c.client_id ≡ d.client_id) × SameIds cs ds
SameIds _ _ = ⊥

IsAbsent-SameIds : (id : ℕ) (cs ds : List Client) → SameIds cs ds → IsAbsent id ds → IsAbsent id cs
IsAbsent-SameIds id [] [] s h = tt
IsAbsent-SameIds id (c ∷ cs) (d ∷ ds) s h =
    (ground (arith, s.0, h.0), IsAbsent-SameIds id cs ds s.1 h.1)
IsAbsent-SameIds id [] (d ∷ ds) s h = absurd s
IsAbsent-SameIds id (c ∷ cs) [] s h = absurd s

pub Distinct-SameIds : (cs ds : List Client) → SameIds cs ds → Distinct ds → Distinct cs
Distinct-SameIds [] [] s h = tt
Distinct-SameIds (c ∷ cs) (d ∷ ds) s h = (
  subst (λ id. IsAbsent id cs) (sym s.0) (IsAbsent-SameIds d.client_id cs ds s.1 h.0),
  Distinct-SameIds cs ds s.1 h.1,
)
Distinct-SameIds [] (d ∷ ds) s h = absurd s
Distinct-SameIds (c ∷ cs) [] s h = absurd s

pub length-SameIds : (cs ds : List Client) → SameIds cs ds → length cs ≡ length ds
length-SameIds [] [] s = omega arith
length-SameIds (c ∷ cs) (d ∷ ds) s = omega (arith, length-SameIds cs ds s.1)
length-SameIds [] (d ∷ ds) s = absurd s
length-SameIds (c ∷ cs) [] s = absurd s

add_client-SameIds :
    (observed c : Client) (rest : List Client) (o : Option (List Client × Engines Total))
    → c.client_id ≡ observed.client_id
    → OnSome (λ n. SameIds n.0 rest) o
    → OnSome (λ n. SameIds n.0 (observed ∷ rest)) (add_client c o)
add_client-SameIds observed c rest none h k = tt
add_client-SameIds observed c rest (some n) h k = (h, k)

pub commit_clients-SameIds :
    (elapsed_valid : Bool) (clients observed : List Client) (totals : Engines Total)
    → OnSome (λ n. SameIds n.0 observed) (commit_clients elapsed_valid clients observed totals)
unfolding commit_clients
commit_clients-SameIds elapsed_valid clients [] totals = tt
commit_clients-SameIds elapsed_valid clients (o ∷ rest) totals =
    OnSome-and_then (λ step. step.0.client_id ≡ o.client_id) (λ n. SameIds n.0 (o ∷ rest))
      (commit_client elapsed_valid (previous_client clients o.client_id) o totals) _
      (commit_client-ids elapsed_valid (previous_client clients o.client_id) o totals)
      (λ step h.
        add_client-SameIds o step.0 rest (commit_clients elapsed_valid clients rest step.1) h
          (commit_clients-SameIds elapsed_valid clients rest step.1))

-- What `collect_clients` may gather.
abbrev pub IsGathered : List Client → Type 0
IsGathered cs = Distinct cs × (length cs ≤ max_clients)

after_read-IsGathered :
    (r : FdinfoResult) (cs : List Client) → IsGathered cs → OnSome IsGathered (after_read r cs)
after_read-IsGathered skipped cs h = h
after_read-IsGathered invalid cs h = tt
after_read-IsGathered (valid c) cs h = merge_client-Distinct cs c h

pub collect_clients-IsGathered :
    (ds : List Descriptor) (cs : List Client)
    → IsGathered cs
    → OnSome IsGathered (collect_clients ds cs)
unfolding collect_clients
collect_clients-IsGathered [] cs h = h
collect_clients-IsGathered (d ∷ ds) cs h = elim (Bool-cases d.matches) [
  | inl e ↦ rw e (
      OnSome-and_then IsGathered IsGathered (after_read (read_fdinfo d.file) cs) _
        (after_read-IsGathered (read_fdinfo d.file) cs h)
        (λ next k. collect_clients-IsGathered ds next k))
  | inr e ↦ rw e (collect_clients-IsGathered ds cs h)
]

higher_peak-le :
    (peak percent : Option ℕ)
    → OnSome (λ p. p ≤ 100) peak
    → OnSome (λ p. p ≤ 100) percent
    → OnSome (λ p. p ≤ 100) (higher_peak peak percent)
higher_peak-le peak none h k = h
higher_peak-le none (some percent) h k = k
higher_peak-le (some highest) (some percent) h k = elim (Bool-cases (ltb highest percent)) [
  | inl e ↦ rw e k
  | inr e ↦ rw e h
]

raise_peak-le :
    (peak : Option ℕ) (total : Total) (elapsed_ns : ℕ)
    → OnSome (λ p. p ≤ 100) peak
    → OnSome (λ p. p ≤ 100) (raise_peak peak total elapsed_ns)
unfolding raise_peak
raise_peak-le peak total elapsed_ns h = elim (Bool-cases total.comparable) [
  | inl e ↦ rw e (higher_peak-le peak _ h (utilisation-le 0 total.delta elapsed_ns))
  | inr e ↦ rw e h
]

pub peak_of-le :
    (totals : Engines Total) (elapsed_ns : ℕ) → OnSome (λ p. p ≤ 100) (peak_of totals elapsed_ns)
unfolding peak_of
peak_of-le totals elapsed_ns =
    raise_peak-le _ totals.compute elapsed_ns
      (raise_peak-le _ totals.gfx elapsed_ns (raise_peak-le none totals.render elapsed_ns tt))
