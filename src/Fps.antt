-- ===== src/Fps.antt =====
-- src/hud_fps.c: the rate of accepted presents that the HUD shows.
-- The quotient that the code computes in `double` and rounds is the argument `rate`, of the intervals
-- and the nanoseconds they took. A call under the mutex is one step; null pointers are not represented.
pub mod Window
mod Tests
use frame_pacer.Common.{
  ℕ, ◌+◌, ◌-◌, ◌*◌, ◌^◌, ◌≤◌, Bool, true, false, not, ◌&&◌, ◌||◌, ltb, leb, ◌==◌, if◌then◌else◌,
  Option, none, some, uint32_max, uint64_max, sub64,
}

abbrev pub sample_ns : ℕ
sample_ns = 500000000

abbrev pub stale_ns : ℕ
stale_ns = 2000000000

pub record Tracker : Type 0 where
  pub initialized : Bool
  pub started : Bool
  pub valid : Bool
  pub sample_start_ns : ℕ
  pub last_present_ns : ℕ
  pub present_intervals : ℕ
  pub fps : ℕ

-- The argument: `pthread_mutex_init` succeeds.
pub init : Bool → Tracker
init made = record {
  initialized = made;
  started = false;
  valid = false;
  sample_start_ns = 0;
  last_present_ns = 0;
  present_intervals = 0;
  fps = 0;
}

pub destroy : Tracker → Tracker
destroy tracker =
    if not tracker.initialized then tracker else record tracker { initialized = false }

-- No present before this one, or one after it, or a pause.
pub restarts : Tracker → ℕ → Bool
restarts tracker now_ns =
    not tracker.started
    || ltb now_ns tracker.last_present_ns
    || ltb stale_ns (sub64 now_ns tracker.last_present_ns)

pub restart : Tracker → ℕ → Tracker
restart tracker now_ns = record tracker {
  started = true;
  valid = false;
  sample_start_ns = now_ns;
  last_present_ns = now_ns;
  present_intervals = 0;
}

-- One interval more, up to the largest `uint64_t`.
pub count_present : Tracker → ℕ → Tracker
count_present tracker now_ns = record tracker {
  last_present_ns = now_ns;
  present_intervals =
      if ltb tracker.present_intervals uint64_max
      then tracker.present_intervals + 1
      else tracker.present_intervals;
}

pub capped_rate : (ℕ → ℕ → ℕ) → ℕ → ℕ → ℕ
capped_rate rate intervals elapsed_ns =
    let fps = rate intervals elapsed_ns in if ltb uint32_max fps then uint32_max else fps

-- The sample, if the counted intervals are long enough for one.
pub take_sample : (ℕ → ℕ → ℕ) → Tracker → ℕ → Tracker × Option ℕ
take_sample rate tracker now_ns =
    let elapsed_ns = sub64 now_ns tracker.sample_start_ns in
    let fps = capped_rate rate tracker.present_intervals elapsed_ns in
    if leb sample_ns elapsed_ns
    then (
      record tracker { fps = fps; valid = true; sample_start_ns = now_ns; present_intervals = 0 },
      some fps,
    )
    else (tracker, none)

pub record_present : (ℕ → ℕ → ℕ) → Tracker → ℕ → Tracker × Option ℕ
record_present rate tracker now_ns =
    if not tracker.initialized || now_ns == 0
    then (tracker, none)
    else if restarts tracker now_ns
    then (restart tracker now_ns, none)
    else take_sample rate (count_present tracker now_ns) now_ns

pub snapshot : Tracker → Option ℕ
snapshot tracker = if tracker.initialized && tracker.valid then some tracker.fps else none
