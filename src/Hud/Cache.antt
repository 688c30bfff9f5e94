-- ===== src/Hud/Cache.antt =====
-- src/hud_metrics_cache.c: renderers ask for a snapshot, one worker thread takes the samples.
-- A section under the mutex is one step. `metrics` is none while `metrics_initialized` is false. The
-- sampler of src/hud_metrics.c is the argument `Sampler`; the hooks of FRAME_PACER_TEST are left out.
pub mod System
pub mod Requests
mod Tests
use frame_pacer.Common.{
  ℕ, ◌+◌, ◌-◌, ◌^◌, Bool, true, false, not, ◌&&◌, ◌||◌, ltb, leb, ◌==◌, if◌then◌else◌, Option, none,
  some, sub64,
}
use frame_pacer.Hud.Metrics.{Snapshot, no_metrics}

abbrev pub sample_ns : ℕ
sample_ns = 1000000000

abbrev pub reset_ns : ℕ
reset_ns = 5000000000

-- `frame_pacer_metrics_init`, `_reset_utilization` and `_sample`, with the state `M` that they work on.
pub record Sampler (M : Type 0) : Type 0 where
  pub create : ℕ → M
  pub reset : M → M
  pub sample : M → M × Snapshot

pub record Cache (M : Type 0) : Type 0 where
  pub metrics : Option M
  pub snapshot : Snapshot
  pub request_ns : ℕ
  pub process_id : ℕ
  pub initialized : Bool
  pub worker_started : Bool
  pub worker_failed : Bool
  pub stop : Bool
  pub request_pending : Bool
  pub reset_pending : Bool
  pub request_time_valid : Bool
  pub sample_in_progress : Bool

-- Where the worker thread stands: not created, before its wait, behind the first section with the reset
-- that it took, behind the sample, and returned.
pub data Worker : Type 0 where
  absent : Worker
  waiting : Worker
  sampling : (reset : Bool) → Worker
  measured : (found : Snapshot) → Worker
  finished : Worker

module _ {M : Type 0} where
  -- All zeros.
  pub blank : Cache M
  blank = record {
    metrics = none;
    snapshot = no_metrics;
    request_ns = 0;
    process_id = 0;
    initialized = false;
    worker_started = false;
    worker_failed = false;
    stop = false;
    request_pending = false;
    reset_pending = false;
    request_time_valid = false;
    sample_in_progress = false;
  }

  -- The flag: the mutex and the condition variable could be made.
  pub init : Bool → ℕ → Cache M
  init made process_id =
      if made then record blank { process_id = process_id; initialized = true } else blank

  pub needs_request : Cache M → ℕ → Bool
  needs_request cache now_ns =
      not cache.request_time_valid
      || ltb now_ns cache.request_ns
      || leb sample_ns (sub64 now_ns cache.request_ns)

  pub needs_reset : Cache M → ℕ → Bool
  needs_reset cache now_ns =
      cache.request_time_valid
      && (ltb now_ns cache.request_ns || leb reset_ns (sub64 now_ns cache.request_ns))

  -- `created`: `pthread_create` succeeds, if it is called; the result says if it is.
  pub start_worker : Cache M → Bool → Cache M × Bool
  start_worker cache created =
      if cache.worker_started || cache.worker_failed
      then (cache, false)
      else if created
      then (record cache { worker_started = true }, true)
      else (record cache { worker_failed = true; request_pending = false }, true)

  pub note_request : Cache M → ℕ → Cache M
  note_request cache now_ns = record cache {
    reset_pending = cache.reset_pending || needs_reset cache now_ns;
    request_ns = now_ns;
    request_time_valid = true;
    request_pending = true;
  }

  pub request : Cache M → ℕ → Bool → Cache M × Bool
  request cache now_ns created = start_worker (note_request cache now_ns) created

  -- The published snapshot is copied, which no request changes; with whether `pthread_create` was called.
  pub snapshot : Cache M → ℕ → Bool → Cache M × Snapshot × Bool
  snapshot cache now_ns created =
      let asked = request cache now_ns created in
      if not cache.initialized
      then (cache, no_metrics, false)
      else if needs_request cache now_ns
      then (asked.0, asked.0.snapshot, asked.1)
      else (cache, cache.snapshot, false)

  pub take_request : Cache M → Cache M
  take_request cache = record cache {
    request_pending = false;
    reset_pending = false;
    sample_in_progress = true;
  }

  -- The sampler's state, created for the first sample.
  abbrev pub or_create : Sampler M → ℕ → Option M → M
  or_create sampler process_id none = sampler.create process_id
  or_create sampler process_id (some metrics) = metrics

  -- The state that a sample starts from.
  pub ready : Sampler M → Cache M → Bool → M
  ready sampler cache reset =
      let metrics = or_create sampler cache.process_id cache.metrics in
      if reset then sampler.reset metrics else metrics

  -- The next section of the worker; without a request or a stop it stays in its wait.
  pub metrics_worker : Sampler M → Cache M → Worker → Cache M × Worker
  metrics_worker sampler cache absent = (cache, absent)
  metrics_worker sampler cache waiting =
      if cache.stop
      then (cache, finished)
      else if cache.request_pending
      then (take_request cache, sampling cache.reset_pending)
      else (cache, waiting)
  metrics_worker sampler cache (sampling reset) =
      let result = sampler.sample (ready sampler cache reset) in
      (record cache { metrics = some result.0 }, measured result.1)
  metrics_worker sampler cache (measured found) =
      (record cache { snapshot = found; sample_in_progress = false }, waiting)
  metrics_worker sampler cache finished = (cache, finished)

  -- The section of `destroy`, then, behind the join, its end.
  pub begin_destroy : Cache M → Cache M
  begin_destroy cache =
      if not cache.initialized then cache else record cache { initialized = false; stop = true }

  pub end_destroy : Cache M → Cache M
  end_destroy cache = blank
