-- ===== src/Queue.antt =====
-- src/pacer_queue.c: when queue submissions must be paced because presents have gone quiet.
-- The out-parameters `entered` and `submits_since_present` are results; a null pointer among the
-- arguments is the early return of the source and is not represented.
pub mod Laws
mod Tests
use frame_pacer.Common.{
  ℕ, ◌+◌, ◌-◌, ◌%◌, ◌^◌, Bool, true, false, not, ◌&&◌, ◌||◌, ltb, leb, if◌then◌else◌, uint64_max,
  add64, sub64,
}

-- FRAME_PACER_PRESENT_QUIET_NS
abbrev pub present_quiet_ns : ℕ
present_quiet_ns = 50000000

pub record QueueState : Type 0 where
  pub last_present_ns : ℕ
  pub submits_since_present : ℕ
  pub has_present : Bool
  pub fallback_active : Bool

pub note_present : QueueState → QueueState
note_present s = record s { has_present = true; submits_since_present = 0; fallback_active = false }

-- `++` below UINT64_MAX.
pub count_submit : QueueState → QueueState
count_submit s =
    if ltb s.submits_since_present uint64_max
    then record s { submits_since_present = add64 s.submits_since_present 1 }
    else s

pub record Fallback : Type 0 where
  pub needed : Bool
  pub entered : Bool
  pub submits : ℕ

-- The part behind the early returns.
pub fallback_after : QueueState → ℕ → QueueState × Fallback
fallback_after s now_ns =
    let needed = ltb present_quiet_ns (sub64 now_ns s.last_present_ns) in
    if needed && not s.fallback_active
    then (
      record s { fallback_active = true },
      record { needed = needed; entered = true; submits = s.submits_since_present },
    )
    else (s, record { needed = needed; entered = false; submits = s.submits_since_present })

pub needs_fallback : QueueState → ℕ → QueueState × Fallback
needs_fallback s now_ns =
    if not s.has_present || leb now_ns s.last_present_ns
    then (s, record { needed = false; entered = false; submits = 0 })
    else fallback_after (count_submit s) now_ns
