-- ===== src/ThreadCpu/Quota/Reconciled.antt =====
-- When src/thread_cpu_quota.c confirms: with every thread limited.
use mathlib.Core.Path.{subst}
use frame_pacer.Common.{
  ℕ, ◌≤◌, ◌≡◌, inl, inr, Bool, false, Bool-cases, arith, not, ◌||◌, ◌==◌, All, List, [], ◌∷◌,
  length, Option, none, some, refl, ap,
}
use frame_pacer.ThreadCpu.Quota.{
  Attempt, done, gone, failed, too_long, Thread, Reconciliation, fatal, incomplete, confirmed,
  manage_one, manage, verify_one, verify, checked, managed_all, reconcile,
}

-- The cgroup was made, and then found with the thread and the quota in it.
abbrev pub IsLimited : Thread → Type 0
IsLimited t = (t.managed ≡ done) × (t.verified ≡ done)

-- Managed threads are not more, and if as many, all.
abbrev AllManaged : List Thread → Option (List Thread × Bool) → Type 0
AllManaged threads none = Unit
AllManaged threads (some (managed, others)) =
    (length managed ≤ length threads)
    × (length managed ≡ length threads → (managed ≡ threads) × All (λ t. t.managed ≡ done) threads)

manage-AllManaged : (threads : List Thread) → AllManaged threads (manage threads)
unfolding manage
manage-AllManaged [] = (omega arith, λ e. (refl, tt))
manage-AllManaged (t ∷ threads) = one t t.managed refl (manage threads) (manage-AllManaged threads)
  where
    one :
        (t : Thread) (a : Attempt)
        → t.managed ≡ a
        → (rest : Option (List Thread × Bool)) → AllManaged threads rest
        → AllManaged (t ∷ threads) (manage_one a t rest)
    one t done e none h = tt
    one t done e (some (managed, others)) h = (
      omega (arith, h.0),
      λ same. let rest = h.1 (omega (arith, same)) in (ap (λ x. t ∷ x) rest.0, (e, rest.1)),
    )
    one t gone e none h = tt
    one t gone e (some (managed, others)) h =
        (omega (arith, h.0), λ same. absurd (omega (arith, h.0, same)))
    one t failed e none h = tt
    one t failed e (some (managed, others)) h =
        (omega (arith, h.0), λ same. absurd (omega (arith, h.0, same)))
    one t too_long e rest h = tt

abbrev AllVerified : List Thread → List Thread × Bool → Type 0
AllVerified threads (verified, others) =
    (length verified ≤ length threads)
    × (length verified ≡ length threads → All (λ t. t.verified ≡ done) threads)

verify-AllVerified : (threads : List Thread) → AllVerified threads (verify threads)
unfolding verify
verify-AllVerified [] = (omega arith, λ e. tt)
verify-AllVerified (t ∷ threads) =
    one t t.verified refl (verify threads) (verify-AllVerified threads)
  where
    one :
        (t : Thread) (a : Attempt)
        → t.verified ≡ a
        → (rest : List Thread × Bool) → AllVerified threads rest
        → AllVerified (t ∷ threads) (verify_one a t rest)
    one t done e rest h = (omega (arith, h.0), λ same. (e, h.1 (omega (arith, same))))
    one t gone e rest h = (omega (arith, h.0), λ same. absurd (omega (arith, h.0, same)))
    one t failed e rest h = (omega (arith, h.0), λ same. absurd (omega (arith, h.0, same)))
    one t too_long e rest h = (omega (arith, h.0), λ same. absurd (omega (arith, h.0, same)))

both-IsLimited :
    (threads : List Thread)
    → All (λ t. t.managed ≡ done) threads
    → All (λ t. t.verified ≡ done) threads
    → All IsLimited threads
both-IsLimited [] h k = tt
both-IsLimited (t ∷ threads) h k = ((h.0, k.0), both-IsLimited threads h.1 k.1)

abbrev IfConfirmed : Type 0 → Reconciliation → Type 0
IfConfirmed P fatal = Unit
IfConfirmed P incomplete = Unit
IfConfirmed P confirmed = P

length-checked :
    (count : ℕ) (others : Bool) (rest : List Thread × Bool)
    → IfConfirmed (length rest.0 ≡ count) (checked count others rest)
length-checked count others ([], more) = tt
length-checked count others (t ∷ threads, more) =
    elim (Bool-cases ((others || more) || not (length (t ∷ threads) == count))) [
      | inl e ↦ rw e tt
      | inr e ↦ rw e (ground (arith, e))
    ]

IfConfirmed-map : (P Q : Type 0) (r : Reconciliation) → (P → Q) → IfConfirmed P r → IfConfirmed Q r
IfConfirmed-map P Q fatal f h = tt
IfConfirmed-map P Q incomplete f h = tt
IfConfirmed-map P Q confirmed f h = f h

managed_all-IsLimited :
    (threads : List Thread) (managed : Option (List Thread × Bool))
    → AllManaged threads managed
    → IfConfirmed (All IsLimited threads) (managed_all (length threads) managed)
managed_all-IsLimited threads none h = tt
managed_all-IsLimited threads (some ([], others)) h = tt
managed_all-IsLimited threads (some (t ∷ rest, others)) h =
    IfConfirmed-map _ _ _
      (λ same.
        let v = verify-AllVerified (t ∷ rest) in
        let m = h.1 (omega (arith, h.0, v.0, same)) in
        let all = v.1 (omega (arith, h.0, v.0, same)) in
        both-IsLimited threads m.1 (subst (All (λ x. x.verified ≡ done)) m.0 all))
      (length-checked (length threads) others (verify (t ∷ rest)))

pub reconcile-IsLimited :
    (overflow : Bool) (threads : List Thread)
    → reconcile overflow threads ≡ confirmed
    → (overflow ≡ false) × (1 ≤ length threads) × All IsLimited threads
unfolding reconcile
reconcile-IsLimited overflow threads e = elim (Bool-cases (overflow || length threads == 0)) [
  | inl bad ↦ let wrong : fatal ≡ confirmed = rw bad at e in absurd cc
  | inr good ↦
      let same : managed_all (length threads) (manage threads) ≡ confirmed = rw good at e in
      (
        ground (arith, good),
        ground (arith, good),
        subst (IfConfirmed (All IsLimited threads)) same
            (managed_all-IsLimited threads (manage threads) (manage-AllManaged threads)),
      )
]
