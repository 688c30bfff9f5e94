-- ===== src/ThreadCpu/Quota/Fresh.antt =====
-- The worker of src/thread_cpu_quota.c beside the calls on the quota: what a confirmation says.
use frame_pacer.Common.{
  ℕ, ◌≤◌, ◌≡◌, inl, inr, Bool, true, false, Bool-cases, arith, not, ◌&&◌, ◌||◌, ◌==◌, same_bool,
  if◌then◌else◌, All, List, length, none, some, refl, ap, sym, ◌∙◌,
}
use frame_pacer.ThreadCpu.Quota.{
  Quota, init, effective, publish, confirmed_percent, begin_destroy, leaves, cleans_up, works,
  next_turn, fail, note_answer, Thread, Reconciliation, fatal, incomplete, confirmed, reconcile,
}
use frame_pacer.ThreadCpu.Quota.Reconciled.{IsLimited, reconcile-IsLimited}

-- Where the worker is in a round: before its first section, with a quota to see to, and behind the write to
-- an external controller.
pub data Stage : Type 0 where
  idle left : Stage
  holds asks : (wanted : ℕ) → Stage

pub record System : Type 0 where
  pub quota : Quota
  pub stage : Stage
  pub active : Bool
  pub external : Bool
  pub last : ℕ

-- The end of a round with an answer of the controller.
abbrev pub answered : System → ℕ → Bool → System
answered s wanted answer = record s {
  quota = note_answer s.quota wanted answer;
  stage = idle;
  active = answer;
}

-- The end of a round by `reconcile`; a fatal one cleans up.
abbrev pub reconciled : System → ℕ → Reconciliation → System
reconciled s wanted fatal = record s { quota = fail s.quota; stage = idle; active = false }
reconciled s wanted incomplete = record s { quota = fail s.quota; stage = idle }
reconciled s wanted confirmed = record s {
  quota = note_answer s.quota wanted true;
  stage = idle;
  last = wanted;
}

abbrev pub started : System
started = record { quota = init true; stage = idle; active = false; external = false; last = 0 }

-- The courses of calls and of the worker's sections, in any order.
pub data Run : System → Type 0 where
  start : Run started
  publishes :
      (s : System) (enabled : Bool) (percent : ℕ)
      → Run s
      → Run (record s { quota = publish s.quota enabled percent })
  destroys : (s : System) → Run s → Run (record s { quota = begin_destroy s.quota })
  leave :
      (s : System)
      → s.stage ≡ idle
      → next_turn s.quota s.active ≡ leaves
      → Run s
      → Run (record s { stage = left })
  clean_up :
      (s : System)
      → s.stage ≡ idle
      → next_turn s.quota s.active ≡ cleans_up
      → Run s
      → Run (record s { active = false; external = false })
  begin :
      (s : System) (wanted : ℕ)
      → s.stage ≡ idle
      → next_turn s.quota s.active ≡ works wanted
      → Run s
      → Run (record s { stage = holds wanted })
  activate :
      (s : System) (wanted : ℕ) (external : Bool)
      → s.stage ≡ holds wanted
      → s.active ≡ false
      → Run s
      → Run (record s { active = true; external = external || s.external })
  stay_off :
      (s : System) (wanted : ℕ) (cleaned : Bool)
      → s.stage ≡ holds wanted
      → s.active ≡ false
      → Run s
      → Run (record s { quota = fail s.quota; stage = idle; external = s.external && not cleaned })
  write :
      (s : System) (wanted : ℕ)
      → s.stage ≡ holds wanted
      → s.active ≡ true
      → s.external ≡ true
      → s.last == wanted ≡ false
      → Run s
      → Run (record s { stage = asks wanted; last = wanted })
  fail_write :
      (s : System) (wanted : ℕ)
      → s.stage ≡ holds wanted
      → s.active ≡ true
      → s.external ≡ true
      → s.last == wanted ≡ false
      → Run s
      → Run (record s { quota = fail s.quota; stage = asks wanted })
  keep :
      (s : System) (wanted : ℕ)
      → s.stage ≡ holds wanted
      → s.active ≡ true
      → s.external ≡ true
      → s.last == wanted ≡ true
      → Run s
      → Run (record s { stage = asks wanted })
  answer :
      (s : System) (wanted : ℕ) (given : Bool)
      → s.stage ≡ asks wanted
      → Run s
      → Run (answered s wanted given)
  reconcile_all :
      (s : System) (wanted : ℕ) (overflow : Bool) (threads : List Thread)
      → s.stage ≡ holds wanted
      → s.active ≡ true
      → s.external ≡ false
      → Run s
      → Run (reconciled s wanted (reconcile overflow threads))

-- The last step that had to do with the confirmation confirmed `percent`: an answer of the controller, or a
-- round in which every thread of the process was put under the quota and found there. Behind it, the same request may
-- have come again, but no other one.
abbrev pub Fresh : (percent : ℕ) {s : System} → Run s → Type 0
Fresh percent start = ⊥
Fresh percent (publishes s enabled n r) = (effective enabled n ≡ (true, percent)) × Fresh percent r
Fresh percent (destroys s r) = ⊥
Fresh percent (leave s a b r) = Fresh percent r
Fresh percent (clean_up s a b r) = Fresh percent r
Fresh percent (begin s wanted a b r) = Fresh percent r
Fresh percent (activate s wanted external a b r) = Fresh percent r
Fresh percent (stay_off s wanted cleaned a b r) = ⊥
Fresh percent (write s wanted a b c d r) = Fresh percent r
Fresh percent (fail_write s wanted a b c d r) = ⊥
Fresh percent (keep s wanted a b c d r) = Fresh percent r
Fresh percent (answer s wanted given a r) = (given ≡ true) × (wanted ≡ percent)
Fresh percent (reconcile_all s wanted overflow threads a b c r) =
    (wanted ≡ percent) × (overflow ≡ false) × (1 ≤ length threads) × All IsLimited threads

some_injective : (m n : ℕ) → some m ≡ some n → m ≡ n
some_injective m n e = cc

-- The fields apart: of a request that stays confirmed, nothing has changed.
same_request :
    (initialized enabled kept requested_enabled : Bool) (requested n percent : ℕ)
    → (if initialized
          && (requested_enabled
              && (if not (same_bool enabled requested_enabled) || not (requested == n)
                  then false
                  else kept))
        then some n
        else none)
      ≡ some percent
    → (requested_enabled ≡ true)
      × (n ≡ percent)
      × ((if initialized && (enabled && kept) then some requested else none) ≡ some percent)
same_request false enabled kept asked requested n percent e = absurd cc
same_request true enabled kept false requested n percent e = absurd cc
same_request true false kept true requested n percent e = absurd cc
same_request true true kept true requested n percent e = elim (Bool-cases (requested == n)) [
  | inl same ↦
      let left : (if kept then some n else none) ≡ some percent = rw same at e in
      elim (Bool-cases kept) [
        | inl k ↦
            let whole : some n ≡ some percent = rw k at left in
            let again = some_injective n percent whole in
            let first : requested ≡ percent = ground (arith, same, again) in
            (refl, again, rw k (ap some first))
        | inr k ↦ let wrong : none ≡ some percent = rw k at left in absurd cc
      ]
  | inr other ↦ let wrong : none ≡ some percent = rw other at e in absurd cc
]

publish-again :
    (q : Quota) (enabled : Bool) (n percent : ℕ)
    → confirmed_percent (publish q enabled n) ≡ some percent
    → (effective enabled n ≡ (true, percent)) × (confirmed_percent q ≡ some percent)
unfolding publish confirmed_percent
publish-again q enabled n percent e = elim (Bool-cases q.initialized) [
  | inl on ↦
      let request = effective enabled n in
      let e' = rw on at e in
      let h =
        same_request true q.requested_enabled q.confirmed request.0 q.requested request.1 percent
          e' in
      (λ i. (h.0 i, h.1 i), rw on h.2)
  | inr off ↦ let wrong : none ≡ some percent = rw off at e in absurd cc
]

note_answer-again :
    (q : Quota) (wanted percent : ℕ) (given : Bool)
    → confirmed_percent (note_answer q wanted given) ≡ some percent
    → (given ≡ true) × (wanted ≡ percent)
unfolding note_answer confirmed_percent
note_answer-again q wanted percent given e =
    elim (Bool-cases (
      q.initialized
      && (q.requested_enabled && (given && (q.requested_enabled && q.requested == wanted))))) [
        | inl holds_now ↦
            let same : some q.requested ≡ some percent = rw holds_now at e in
            (ground (arith, holds_now), ground (arith, holds_now, some_injective _ _ same))
        | inr not_so ↦ let wrong : none ≡ some percent = rw not_so at e in absurd cc
      ]

fail-unconfirmed : (q : Quota) → confirmed_percent (fail q) ≡ none
unfolding fail confirmed_percent
fail-unconfirmed q = elim (Bool-cases (q.initialized && (q.requested_enabled && false))) [
  | inl e ↦ absurd (ground (arith, e))
  | inr e ↦ rw e refl
]

init-unconfirmed : (percent : ℕ) → ¬ (confirmed_percent (init true) ≡ some percent)
unfolding init confirmed_percent
init-unconfirmed percent e = absurd cc

destroy-unconfirmed :
    (q : Quota) (percent : ℕ) → ¬ (confirmed_percent (begin_destroy q) ≡ some percent)
unfolding begin_destroy confirmed_percent
destroy-unconfirmed q percent e = elim (Bool-cases q.initialized) [
  | inl on ↦
      let left = rw on at e in
      elim (Bool-cases (q.requested_enabled && false)) [
        | inl both ↦ absurd (ground (arith, both))
        | inr none_left ↦ let wrong : none ≡ some percent = rw none_left at left in absurd cc
      ]
  | inr off ↦ let wrong : none ≡ some percent = rw off at e in absurd cc
]

fail-absurd : (q : Quota) (percent : ℕ) → ¬ (confirmed_percent (fail q) ≡ some percent)
fail-absurd q percent e =
    let wrong : none ≡ some percent = sym (fail-unconfirmed q) ∙ e in absurd cc

reconciled-Fresh :
    (s : System) (wanted percent : ℕ) (r : Reconciliation)
    → confirmed_percent (reconciled s wanted r).quota ≡ some percent
    → (wanted ≡ percent) × (r ≡ confirmed)
reconciled-Fresh s wanted percent fatal e = absurd (fail-absurd s.quota percent e)
reconciled-Fresh s wanted percent incomplete e = absurd (fail-absurd s.quota percent e)
reconciled-Fresh s wanted percent confirmed e =
    ((note_answer-again s.quota wanted percent true e).1, refl)

-- Whatever the calls, the worker's sections and their order: a percentage that is reported as confirmed is
-- the one that the last round confirmed, with every thread under the quota or by the controller's word, and
-- since then no other request, failure or destruction has come.
pub Run-Fresh :
    (s : System) (r : Run s) (percent : ℕ)
    → confirmed_percent s.quota ≡ some percent
    → Fresh percent r
Run-Fresh _ start percent e = init-unconfirmed percent e
Run-Fresh _ (publishes s enabled n r) percent e =
    let again = publish-again s.quota enabled n percent e in
    (again.0, Run-Fresh s r percent again.1)
Run-Fresh _ (destroys s r) percent e = destroy-unconfirmed s.quota percent e
Run-Fresh _ (leave s a b r) percent e = Run-Fresh s r percent e
Run-Fresh _ (clean_up s a b r) percent e = Run-Fresh s r percent e
Run-Fresh _ (begin s wanted a b r) percent e = Run-Fresh s r percent e
Run-Fresh _ (activate s wanted external a b r) percent e = Run-Fresh s r percent e
Run-Fresh _ (stay_off s wanted cleaned a b r) percent e = fail-absurd s.quota percent e
Run-Fresh _ (write s wanted a b c d r) percent e = Run-Fresh s r percent e
Run-Fresh _ (fail_write s wanted a b c d r) percent e = fail-absurd s.quota percent e
Run-Fresh _ (keep s wanted a b c d r) percent e = Run-Fresh s r percent e
Run-Fresh _ (answer s wanted given a r) percent e = note_answer-again s.quota wanted percent given e
Run-Fresh _ (reconcile_all s wanted overflow threads a b c r) percent e =
    let result = reconciled-Fresh s wanted percent (reconcile overflow threads) e in
    let all = reconcile-IsLimited overflow threads result.1 in (result.0, all.0, all.1, all.2)
