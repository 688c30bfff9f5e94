-- ===== src/Hud/Drm/Sample/Followed.antt =====
-- A sample of src/hud_drm_fdinfo.c follows the last one, or leaves its baselines alone.
use mathlib.Core.Path.{subst}
use frame_pacer.Common.{
  ℕ, ◌≤◌, ◌<◌, ◌≡◌, ◌⊎◌, inl, inr, Bool, true, false, Bool-cases, Option-cases, arith, ltb,
  if◌then◌else◌, List, [], ◌∷◌, length, Option, none, some, sub64, OnSome, refl, sym,
}
use frame_pacer.Hud.Drm.Clients.{Client, Engines, max_clients}
use frame_pacer.Hud.Drm.Clients.Merged.{Distinct}
use frame_pacer.Hud.Drm.Sample.{
  DrmFdinfo, Total, no_total, previous_client, commit_clients, committed, sampled, unavailable,
  or_zero, is_some, peak_of, commit_sample, Directory, collect_clients, sample_from_root,
}
use frame_pacer.Hud.Drm.Sample.Committed.{IsMonotone, commit_clients-IsMonotone}
use frame_pacer.Hud.Drm.Sample.Gathered.{
  SameIds, IsGathered, Distinct-SameIds, length-SameIds, commit_clients-SameIds,
  collect_clients-IsGathered, peak_of-le,
}

-- The baselines are of different clients, few enough for the slots, and none before a first sample.
pub record IsTracked (state : DrmFdinfo) : Type 0 where
  pub distinct : Distinct state.clients
  pub few : length state.clients ≤ max_clients
  pub fresh : state.started ≡ false → state.clients ≡ []
  pub percent_le : state.cached_use_percent ≤ 100

-- The baselines are left as they were.
abbrev pub Kept : DrmFdinfo → DrmFdinfo → Type 0
Kept state next =
    (next.clients ≡ state.clients)
    × (next.previous_sample_ns ≡ state.previous_sample_ns)
    × (next.started ≡ state.started)

-- The baselines are those of a later sample, and none is lower for the same client and engine.
abbrev pub Advanced : DrmFdinfo → ℕ → DrmFdinfo → Type 0
Advanced state now_ns next =
    IsMonotone state.clients next.clients
    × (next.previous_sample_ns ≡ now_ns)
    × (next.started ≡ true)
    × (state.started ≡ true → state.previous_sample_ns < now_ns)

-- A percentage that is given is that of the state.
abbrev pub IsGiven : DrmFdinfo → ℕ → Type 0
IsGiven next percent =
    (percent ≤ 100) × (next.cached_use_percent ≡ percent) × (next.available ≡ true)

pub record IsSample (state : DrmFdinfo) (now_ns : ℕ) (result : DrmFdinfo × Option ℕ) : Type 0 where
  pub followed : Kept state result.0 ⊎ Advanced state now_ns result.0
  pub tracked : IsTracked result.0
  pub given : OnSome (IsGiven result.0) result.1

OnSome-both {ℓ κ μ} :
    {A : Type ℓ} (P : A → Type κ) (Q : A → Type μ) (o : Option A)
    → OnSome P o
    → OnSome Q o
    → OnSome (λ a. P a × Q a) o
OnSome-both P Q none h k = tt
OnSome-both P Q (some a) h k = (h, k)

first-IsMonotone : (next : List Client) → IsMonotone [] next
unfolding previous_client
first-IsMonotone [] = tt
first-IsMonotone (c ∷ next) = ((tt, tt, tt), first-IsMonotone next)

OnSome-all {ℓ κ} : {A : Type ℓ} (P : A → Type κ) (o : Option A) → ((a : A) → P a) → OnSome P o
OnSome-all P none h = tt
OnSome-all P (some a) h = h a

or_zero-le : (peak : Option ℕ) → OnSome (λ p. p ≤ 100) peak → or_zero peak ≤ 100
or_zero-le none h = omega arith
or_zero-le (some p) h = h

IsGiven-peak :
    (next : List Client) (now_ns : ℕ) (peak : Option ℕ)
    → OnSome (λ p. p ≤ 100) peak
    → OnSome
        (IsGiven (record {
          clients = next;
          previous_sample_ns = now_ns;
          cached_use_percent = or_zero peak;
          started = true;
          available = is_some peak;
        }))
        peak
IsGiven-peak next now_ns none h = tt
IsGiven-peak next now_ns (some p) h = (h, refl, refl)

committed-IsSample :
    (state : DrmFdinfo) (observed : List Client) (now_ns : ℕ) (elapsed_valid : Bool)
    (o : Option (List Client × Engines Total))
    → IsGathered observed
    → (state.started ≡ true → state.previous_sample_ns < now_ns)
    → OnSome (λ n. IsMonotone state.clients n.0 × SameIds n.0 observed) o
    → OnSome (IsSample state now_ns) (committed state now_ns elapsed_valid o)
committed-IsSample state observed now_ns elapsed_valid none g later h = tt
committed-IsSample state observed now_ns elapsed_valid (some (next, totals)) g later h =
    let elapsed_ns = sub64 now_ns state.previous_sample_ns in
    let peak = if elapsed_valid then peak_of totals elapsed_ns else none in
    let low : OnSome (λ p. p ≤ 100) peak = elim (Bool-cases elapsed_valid) [
      | inl e ↦ rw e (peak_of-le totals elapsed_ns)
      | inr e ↦ rw e tt
    ] in
    record {
      followed = inr (h.0, refl, refl, later);
      tracked = record {
        distinct = Distinct-SameIds next observed h.1 g.0;
        few = omega (arith, length-SameIds next observed h.1, g.1);
        fresh = λ e. absurd cc;
        percent_le = or_zero-le peak low;
      };
      given = IsGiven-peak next now_ns peak low;
    }

abbrev zeros : Engines Total
zeros = record { render = no_total; gfx = no_total; compute = no_total }

commit_sample-later :
    (state : DrmFdinfo) (observed : List Client) (now_ns : ℕ)
    → state.started ≡ true
    → ltb state.previous_sample_ns now_ns ≡ true
    → commit_sample state observed now_ns
      ≡ committed state now_ns true (commit_clients true state.clients observed zeros)
unfolding commit_sample
commit_sample-later state observed now_ns old later = rw (old, later)

commit_sample-early :
    (state : DrmFdinfo) (observed : List Client) (now_ns : ℕ)
    → state.started ≡ true
    → ltb state.previous_sample_ns now_ns ≡ false
    → commit_sample state observed now_ns ≡ none
unfolding commit_sample
commit_sample-early state observed now_ns old early = rw (old, early)

commit_sample-first :
    (state : DrmFdinfo) (observed : List Client) (now_ns : ℕ)
    → state.started ≡ false
    → commit_sample state observed now_ns
      ≡ committed state now_ns false (commit_clients false state.clients observed zeros)
unfolding commit_sample
commit_sample-first state observed now_ns new = rw new

commit_sample-IsSample :
    (state : DrmFdinfo) (observed : List Client) (now_ns : ℕ)
    → IsTracked state
    → IsGathered observed
    → OnSome (IsSample state now_ns) (commit_sample state observed now_ns)
commit_sample-IsSample state observed now_ns t g =
    let cs = state.clients in
    elim (Bool-cases state.started) [
      | inl old ↦ elim (Bool-cases (ltb state.previous_sample_ns now_ns)) [
        | inl later ↦
            subst (OnSome (IsSample state now_ns))
              (sym (commit_sample-later state observed now_ns old later))
              (committed-IsSample state observed now_ns true _ g (λ e. ground (arith, later))
                (OnSome-both (λ n. IsMonotone cs n.0) (λ n. SameIds n.0 observed)
                  (commit_clients true cs observed zeros)
                  (commit_clients-IsMonotone cs observed zeros)
                  (commit_clients-SameIds true cs observed zeros)))
        | inr early ↦
            subst (OnSome (IsSample state now_ns))
              (sym (commit_sample-early state observed now_ns old early)) tt
      ]
      | inr new ↦
          subst (OnSome (IsSample state now_ns))
            (sym (commit_sample-first state observed now_ns new))
            (committed-IsSample state observed now_ns false _ g
              (λ e. absurd (ground (arith, e, new)))
              (OnSome-both (λ n. IsMonotone cs n.0) (λ n. SameIds n.0 observed)
                (commit_clients false cs observed zeros)
                (OnSome-all (λ n. IsMonotone cs n.0) (commit_clients false cs observed zeros)
                  (λ n.
                    subst (λ old. IsMonotone old n.0) (sym (t.fresh new)) (first-IsMonotone n.0)))
                (commit_clients-SameIds false cs observed zeros)))
    ]

unavailable-IsSample :
    (state next : DrmFdinfo) (now_ns : ℕ) (given : Option ℕ)
    → IsSample state now_ns (next, given)
    → IsSample state now_ns (unavailable next, none)
unavailable-IsSample state next now_ns given h = record {
  followed = h.followed;
  tracked = record {
    distinct = h.tracked.distinct;
    few = h.tracked.few;
    fresh = h.tracked.fresh;
    percent_le = omega arith;
  };
  given = tt;
}

kept-IsSample :
    (state : DrmFdinfo) (now_ns : ℕ) → IsTracked state → IsSample state now_ns (state, none)
kept-IsSample state now_ns t = record { followed = inl (refl, refl, refl); tracked = t; given = tt }

sampled-IsSample :
    (state : DrmFdinfo) (now_ns : ℕ) (o : Option (DrmFdinfo × Option ℕ))
    → IsTracked state
    → OnSome (IsSample state now_ns) o
    → IsSample state now_ns (sampled state o)
sampled-IsSample state now_ns none t h =
    unavailable-IsSample state state now_ns none (kept-IsSample state now_ns t)
sampled-IsSample state now_ns (some (next, none)) t h =
    unavailable-IsSample state next now_ns none h
sampled-IsSample state now_ns (some (next, some p)) t h = h

-- Whatever the directory holds, a sample keeps the baselines of different clients in their 64 slots, and
-- either leaves them as they were or replaces them by those of a later time, none of them lower for the same
-- client and engine; and a percentage that it gives is at most 100 and the one that the state then holds.
pub sample_from_root-IsSample :
    (state : DrmFdinfo) (directory : Option Directory) (now_ns : ℕ)
    → IsTracked state
    → IsSample state now_ns (sample_from_root state directory now_ns)
unfolding sample_from_root
sample_from_root-IsSample state none now_ns t = kept-IsSample state now_ns t
sample_from_root-IsSample state (some directory) now_ns t =
    let failed = unavailable-IsSample state state now_ns none (kept-IsSample state now_ns t) in
    elim (Option-cases (collect_clients directory.descriptors [])) [
      | inl e ↦ rw (sample_from_root, e) failed
      | inr (clients, e) ↦
          let gathered : IsGathered clients =
            subst (OnSome IsGathered) e
              (collect_clients-IsGathered directory.descriptors [] (tt, omega arith)) in
          rw (sample_from_root, e)
            (elim (Bool-cases directory.ends) [
              | inl f ↦ rw f (
                  sampled-IsSample state now_ns _ t
                    (commit_sample-IsSample state clients now_ns t gathered))
              | inr f ↦ rw f failed
            ])
    ]
