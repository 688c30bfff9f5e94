-- ===== src/Clock.antt =====
-- src/pacer_clock.c: the deadline clock that spaces the frames of a process.
-- `now_fn` is the argument `now_ns`, and the codes that the calls of `sleep_fn` return, in order, are
-- the list `results`: it is finite, so `wait` returns `none` while a sleep has not yet returned. The
-- mutex makes each call one step; a null `now_fn`, `sleep_fn` or `decision` is not represented.
pub mod Intervals
pub mod Deadline
pub mod Pacing
mod Tests
use frame_pacer.Common.{
  ℕ, ◌+◌, ◌-◌, ◌/◌, ◌%◌, ◌^◌, Bool, true, false, not, ◌&&◌, ◌||◌, ltb, leb, ◌==◌, if◌then◌else◌,
  uint64_max, add64, sub64, mul64, add32, List, [], ◌∷◌, Option, none, some,
}

abbrev pub fps_limit_off : ℕ
fps_limit_off = 0

abbrev pub min_fps : ℕ
min_fps = 1

abbrev pub max_fps : ℕ
max_fps = 999

-- EINTR on Linux.
abbrev pub eintr : ℕ
eintr = 4

abbrev pub second_ns : ℕ
second_ns = 1000000000

pub record Clock : Type 0 where
  pub initialized : Bool
  pub started : Bool
  pub fps : ℕ
  pub next_deadline_ns : ℕ

pub record Decision : Type 0 where
  pub observed_ns : ℕ
  pub deadline_ns : ℕ
  pub interruptions : ℕ
  pub first : Bool
  pub missed : Bool

abbrev pub no_decision : Decision
no_decision = record {
  observed_ns = 0;
  deadline_ns = 0;
  interruptions = 0;
  first = false;
  missed = false;
}

pub add_intervals : ℕ → ℕ → ℕ → ℕ
add_intervals value interval count =
    if ltb ((uint64_max - value) / interval) count
    then uint64_max
    else add64 value (mul64 count interval)

-- The argument is whether `pthread_mutex_init` succeeded.
pub init : Bool → Clock
init mutex_ok = record { initialized = mutex_ok; started = false; fps = 0; next_deadline_ns = 0 }

pub destroy : Clock → Clock
destroy c = if not c.initialized then c else record c { initialized = false }

abbrev pub valid_fps : ℕ → Bool
valid_fps fps = not (ltb fps min_fps || ltb max_fps fps)

-- The branch for a rate that is off or out of range.
pub stop : Clock → Clock
stop c = record c { started = false; fps = fps_limit_off; next_deadline_ns = 0 }

-- The branch for the first frame at a rate.
pub restart : Clock → ℕ → ℕ → Clock
restart c fps now_ns = record c {
  started = true;
  fps = fps;
  next_deadline_ns = add_intervals now_ns (second_ns / fps) 1;
}

-- The deadline moved past `now_ns` if it was missed.
pub catch_up : ℕ → ℕ → ℕ → ℕ
catch_up next interval_ns now_ns =
    if leb next now_ns
    then add_intervals next interval_ns (add64 (sub64 now_ns next / interval_ns) 1)
    else next

-- `while (sleep_fn(...) == EINTR) ++decision->interruptions;`
pub sleep_loop : List ℕ → ℕ → Option ℕ
sleep_loop [] interruptions = none
sleep_loop (r ∷ rs) interruptions =
    if r == eintr then sleep_loop rs (add32 interruptions 1) else some interruptions

-- The locked part behind the first-frame branch.
pub pace : Clock → ℕ → ℕ → List ℕ → Option (Clock × Decision)
pace c interval_ns now_ns results =
    let deadline = catch_up c.next_deadline_ns interval_ns now_ns in
    elim (sleep_loop results 0) [
      | none ↦ none
      | some interruptions ↦ some (
        record c { next_deadline_ns = add_intervals deadline interval_ns 1 },
        record {
          observed_ns = now_ns;
          deadline_ns = deadline;
          interruptions = interruptions;
          first = false;
          missed = leb c.next_deadline_ns now_ns;
        },
      )
    ]

pub wait : Clock → ℕ → ℕ → List ℕ → Option (Clock × Decision)
wait c fps now_ns results =
    if not c.initialized
    then some (c, no_decision)
    else if not (valid_fps fps)
    then some (stop c, no_decision)
    else if not c.started || not (c.fps == fps)
    then some (restart c fps now_ns, record no_decision { observed_ns = now_ns; first = true })
    else pace c (second_ns / fps) now_ns results
