-- ===== src/ThreadCpu/Quota.antt =====
-- src/thread_cpu_quota.c: the request for a quota, its confirmation, and the rounds of the worker that sees to
-- it. What the cgroups and the controller answer is an argument; `mutex` is held for a section at a time.
pub mod Reconciled
pub mod Fresh
mod Tests
use frame_pacer.Common.{
  ℕ, zero, suc, Bool, true, false, not, ◌&&◌, ◌||◌, ltb, leb, ◌==◌, same_bool, if◌then◌else◌, List,
  [], ◌∷◌, length, Option, none, some,
}

-- The fields that the worker shares.
pub record Quota : Type 0 where
  pub initialized : Bool
  pub requested_enabled : Bool
  pub requested : ℕ
  pub confirmed : Bool
  pub stop : Bool

-- As `init` leaves it, if mutex and condition could be made.
unfoldable pub init : Bool → Quota
init made = record {
  initialized = made;
  requested_enabled = false;
  requested = 0;
  confirmed = false;
  stop = false;
}

-- The request that is stored.
abbrev pub effective : Bool → ℕ → Bool × ℕ
effective enabled percent =
    if not enabled || ltb percent 1 || ltb 100 percent then (false, 0) else (enabled, percent)

unfoldable pub publish : Quota → Bool → ℕ → Quota
publish q enabled percent =
    let request = effective enabled percent in
    if not q.initialized then q else record q {
      confirmed =
          if not (same_bool q.requested_enabled request.0) || not (q.requested == request.1)
          then false
          else q.confirmed;
      requested_enabled = request.0;
      requested = request.1;
    }

-- `frame_pacer_thread_cpu_quota_confirmed`: the percentage, where it returns true.
unfoldable pub confirmed_percent : Quota → Option ℕ
confirmed_percent q =
    if q.initialized && (q.requested_enabled && q.confirmed) then some q.requested else none

-- The section of `destroy` before it joins the worker.
unfoldable pub begin_destroy : Quota → Quota
begin_destroy q = if not q.initialized then q else record q { stop = true; confirmed = false }

-- The first section of a round: the worker waits on, leaves, cleans up or sees to a quota.
pub data Turn : Type 0 where
  waits leaves cleans_up : Turn
  works : (wanted : ℕ) → Turn

unfoldable pub next_turn : Quota → Bool → Turn
next_turn q active =
    if q.stop
    then leaves
    else if q.requested_enabled
    then works q.requested
    else if active
    then cleans_up
    else waits

-- The sections that end a round.
unfoldable pub fail : Quota → Quota
fail q = record q { confirmed = false }

unfoldable pub note_answer : Quota → ℕ → Bool → Quota
note_answer q wanted answer = record q {
  confirmed = answer && (q.requested_enabled && q.requested == wanted);
}

-- How a step on one thread's cgroup ends: done, given up as the thread is gone, failed, or with a path that
-- is too long.
pub data Attempt : Type 0 where
  done gone failed too_long : Attempt

-- A thread, with the making of its cgroup and the check behind it.
pub record Thread : Type 0 where
  pub tid : ℕ
  pub managed : Attempt
  pub verified : Attempt

pub data Reconciliation : Type 0 where
  fatal incomplete confirmed : Reconciliation

abbrev pub put_thread : Thread → Option (List Thread × Bool) → Option (List Thread × Bool)
put_thread t none = none
put_thread t (some (threads, unfinished)) = some (t ∷ threads, unfinished)

abbrev pub unfinished : Option (List Thread × Bool) → Option (List Thread × Bool)
unfinished none = none
unfinished (some (threads, _)) = some (threads, true)

abbrev pub manage_one : Attempt → Thread → Option (List Thread × Bool) → Option (List Thread × Bool)
manage_one done t rest = put_thread t rest
manage_one gone t rest = rest
manage_one failed t rest = unfinished rest
manage_one too_long t rest = none

-- The first loop: the threads that are managed, and if others are not.
unfoldable pub manage : List Thread → Option (List Thread × Bool)
manage [] = some ([], false)
manage (t ∷ threads) = manage_one t.managed t (manage threads)

abbrev pub verify_one : Attempt → Thread → List Thread × Bool → List Thread × Bool
verify_one done t (threads, others) = (t ∷ threads, others)
verify_one gone t rest = rest
verify_one failed t (threads, others) = (threads, true)
verify_one too_long t (threads, others) = (threads, true)

-- The last loop, over the threads that are managed.
unfoldable pub verify : List Thread → List Thread × Bool
verify [] = ([], false)
verify (t ∷ threads) = verify_one t.verified t (verify threads)

abbrev pub checked : ℕ → Bool → List Thread × Bool → Reconciliation
checked count others ([], more) = incomplete
checked count others (t ∷ threads, more) =
    if (others || more) || not (length (t ∷ threads) == count) then incomplete else confirmed

abbrev pub managed_all : ℕ → Option (List Thread × Bool) → Reconciliation
managed_all count none = fatal
managed_all count (some ([], others)) = incomplete
managed_all count (some (t ∷ threads, others)) = checked count others (verify (t ∷ threads))

-- The threads are those of the process; `overflow`: there are more than 1024.
unfoldable pub reconcile : Bool → List Thread → Reconciliation
reconcile overflow threads =
    if overflow || length threads == 0 then fatal else managed_all (length threads) (manage threads)
