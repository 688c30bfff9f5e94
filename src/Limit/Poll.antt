-- ===== src/Limit/Poll.antt =====
-- The published state of the limiter (src/pacer_limit.c): polls, reloads, snapshots.
-- A call under the mutex is one step; `poll` reads the published time before it takes the mutex, so
-- that `refresh_limit` looks at it again. `FileSystem` is what the reload meets.
pub mod Published
pub mod Revisions
pub mod Recent
mod Tests
use frame_pacer.Common.{
  ℕ, ◌+◌, ◌-◌, ◌%◌, ◌^◌, Bool, true, false, not, ◌&&◌, ◌||◌, ltb, leb, ◌==◌, if◌then◌else◌,
  same_bool, same_bytes, Bytes, List, [], ◌∷◌, Option, none, some, add64, sub64,
}
use frame_pacer.Limit.Config.{
  Limit, EffectiveConfig, Status, Reason, Source, Status-discrete, Reason-discrete, Source-discrete,
  config_poll_ns,
}
use frame_pacer.Limit.Executable.{Proc, set_executable_candidates, first_candidate}
use frame_pacer.Limit.File.{FileSystem, effective_defaults, resolve_limit, next_capacity}
use mathlib.Core.Bool.{decide}

-- The all-zero configuration of `memset`.
abbrev zero_config : EffectiveConfig
zero_config = record {
  revision = 0;
  status = Status.valid;
  reason = Reason.no_reason;
  error_line = 0;
  fps_limit = 0;
  fps_source = Source.default;
  hud_enabled = false;
  hud_source = Source.default;
  thread_cpu_enabled = false;
  thread_cpu_percent = 0;
  thread_cpu_source = Source.default;
  renderer = [];
  matched_section = [];
  matched_executable = [];
}

-- `frame_pacer_limit_init` behind `memset`, if the mutex could be made; the path is that of `set_path`.
pub init : Bytes → Proc → Limit
init path proc =
    let candidates = set_executable_candidates proc in
    let blank : Limit = record {
      path = path;
      last_check_ns = 0;
      fps = 0;
      thread_cpu_quota = 0;
      hud_enabled = true;
      revision = 0;
      effective = zero_config;
      executable_candidates = candidates;
      executable = first_candidate candidates;
      config_buffer_capacity = 0;
      reporting_enabled = false;
      initialized = false;
    } in
    record blank { effective = effective_defaults blank; initialized = true }

-- The last check is recent: set, not in the future, and less than a second old.
pub is_fresh : Limit → ℕ → Bool
is_fresh limit now_ns =
    not (limit.last_check_ns == 0)
    && leb limit.last_check_ns now_ns
    && ltb (sub64 now_ns limit.last_check_ns) config_poll_ns

-- All fields but the revision.
pub same_effective : EffectiveConfig → EffectiveConfig → Bool
same_effective left right =
    decide (Status-discrete left.status right.status)
    && decide (Reason-discrete left.reason right.reason)
    && left.error_line == right.error_line
    && left.fps_limit == right.fps_limit
    && decide (Source-discrete left.fps_source right.fps_source)
    && same_bool left.hud_enabled right.hud_enabled
    && decide (Source-discrete left.hud_source right.hud_source)
    && same_bool left.thread_cpu_enabled right.thread_cpu_enabled
    && left.thread_cpu_percent == right.thread_cpu_percent
    && decide (Source-discrete left.thread_cpu_source right.thread_cpu_source)
    && same_bytes left.renderer right.renderer
    && same_bytes left.matched_section right.matched_section
    && same_bytes left.matched_executable right.matched_executable

-- The revision of a reload that found `next`.
pub next_revision : Limit → EffectiveConfig → ℕ
next_revision limit next =
    if limit.revision == 0 || not (same_effective limit.effective next)
    then add64 limit.revision 1
    else limit.revision

pub quota_of : EffectiveConfig → ℕ
quota_of next = if next.thread_cpu_enabled then next.thread_cpu_percent else 0

-- The stores of `refresh_limit`, for a reload that found `next`.
pub publish : Limit → EffectiveConfig → ℕ → ℕ → Limit
publish limit next capacity now_ns =
    let stored = record limit {
      fps = next.fps_limit;
      thread_cpu_quota = quota_of next;
      hud_enabled = next.hud_enabled;
      config_buffer_capacity = capacity;
      last_check_ns = now_ns;
    } in
    let revision = next_revision limit next in
    if limit.reporting_enabled
    then record stored { revision = revision; effective = record next { revision = revision } }
    else stored

pub refresh_limit : Limit → ℕ → FileSystem → Limit × ℕ
refresh_limit limit now_ns fs =
    if is_fresh limit now_ns
    then (limit, limit.fps)
    else let next = resolve_limit limit fs in
      (publish limit next (next_capacity limit fs) now_ns, next.fps_limit)

pub poll : Limit → ℕ → FileSystem → Limit × ℕ
poll limit now_ns fs =
    if not limit.initialized
    then (limit, 0)
    else if is_fresh limit now_ns
    then (limit, limit.fps)
    else refresh_limit limit now_ns fs

pub revision_of : Limit → ℕ
revision_of limit = if not limit.initialized then 0 else limit.revision

-- The copy, with whether it may be used.
pub snapshot : Limit → Option EffectiveConfig
snapshot limit =
    if not limit.initialized || limit.revision == 0
    then none
    else if not (limit.effective.revision == 0) && limit.effective.revision == limit.revision
    then some limit.effective
    else none

pub set_reporting_enabled : Limit → Bool → Limit
set_reporting_enabled limit enabled =
    if not limit.initialized
    then limit
    else record limit { reporting_enabled = enabled; revision = 0; last_check_ns = 0 }

-- The quota, with the flag `enabled`.
pub thread_cpu_quota_of : Limit → ℕ × Bool
thread_cpu_quota_of limit =
    if not limit.initialized
    then (0, false)
    else (limit.thread_cpu_quota, not (limit.thread_cpu_quota == 0))

pub hud_enabled_of : Limit → Bool
hud_enabled_of limit = if not limit.initialized then true else limit.hud_enabled

pub destroy : Limit → Limit
destroy limit =
    if limit.initialized
    then record limit { initialized = false; config_buffer_capacity = 0 }
    else limit
