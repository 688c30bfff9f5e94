-- ===== src/ThreadCpu/Quota/Tests.antt =====
-- src/thread_cpu_quota.c: a request that one round of the worker confirms, and one that comes again.
use frame_pacer.Common.{◌≡◌, refl, true, false, List, [], ◌∷◌}
use frame_pacer.ThreadCpu.Quota.{
  Thread, Attempt, done, failed, Reconciliation, incomplete, fatal, publish, confirmed_percent,
  reconcile, next_turn, note_answer,
}
use frame_pacer.ThreadCpu.Quota.Fresh.{
  System, Run, start, publishes, begin, activate, reconcile_all, holds, started, reconciled, Fresh,
  Run-Fresh,
}

abbrev one_thread : List Thread
one_thread = record { tid = 4; managed = done; verified = done } ∷ []

abbrev lost_thread : List Thread
lost_thread = record { tid = 4; managed = done; verified = failed } ∷ []

reconcile_lost : reconcile false lost_thread ≡ incomplete
unfolding reconcile frame_pacer.ThreadCpu.Quota.manage frame_pacer.ThreadCpu.Quota.verify
reconcile_lost = refl

abbrev asked : System
asked = record started { quota = publish started.quota true 50 }

abbrev held : System
held = record asked { stage = holds 50 }

abbrev local : System
local = record held { active = true; external = false }

abbrev settled : System
settled = reconciled local 50 (reconcile false one_thread)

local_round : Run settled
unfolding publish next_turn frame_pacer.ThreadCpu.Quota.init
local_round =
    reconcile_all local 50 false one_thread refl refl refl (
      activate held 50 false refl refl (begin asked 50 refl refl (publishes started true 50 start)))

Run-Fresh_example : Fresh 50 (publishes settled true 50 local_round)
unfolding publish confirmed_percent reconcile frame_pacer.ThreadCpu.Quota.manage
    frame_pacer.ThreadCpu.Quota.verify note_answer frame_pacer.ThreadCpu.Quota.init
Run-Fresh_example =
    Run-Fresh (record settled { quota = publish settled.quota true 50 })
      (publishes settled true 50 local_round) 50 refl
