-- ===== src/Hud/Cache/System.antt =====
-- The renderers' calls, the worker and `destroy` of src/hud_metrics_cache.c, in any order.
use mathlib.Core.Path.{subst}
use frame_pacer.Common.{
  ℕ, zero, suc, ◌≤◌, ◌≡◌, ◌⊎◌, Bool, true, false, ◌&&◌, arith, Option, none, some, refl, ap, ◌∙◌,
  if◌then◌else◌,
}
use frame_pacer.Hud.Metrics.{no_metrics}
use frame_pacer.Hud.Cache.{
  Sampler, Cache, Worker, absent, waiting, sampling, measured, finished, blank, init, snapshot,
  request, note_request, start_worker, take_request, or_create, ready, metrics_worker,
  begin_destroy, end_destroy,
}

abbrev pub is_created : Worker → Bool
is_created absent = false
is_created _ = true

abbrev pub is_busy : Worker → Bool
is_busy (sampling reset) = true
is_busy (measured found) = true
is_busy _ = false

abbrev pub is_finished : Worker → Bool
is_finished finished = true
is_finished _ = false

-- A thread that a call of `pthread_create` has made stands before its first wait.
abbrev pub appear : Worker → Bool → Worker
appear absent true = waiting
appear absent false = absent
appear (sampling reset) made = sampling reset
appear (measured found) made = measured found
appear waiting made = waiting
appear finished made = finished

-- The flags of the cache and the place of its worker agree.
pub record IsSystem {M : Type 0} (c : Cache M) (w : Worker) : Type 0 where
  pub started : c.worker_started ≡ is_created w
  pub busy : c.sample_in_progress ≡ is_busy w
  pub pending : c.request_pending ≡ true → (c.worker_started ≡ true) ⊎ (c.worker_failed ≡ true)
  pub failed : c.worker_failed ≡ true → c.worker_started ≡ false
  pub untimed :
      c.request_time_valid ≡ false → (c.worker_started ≡ false) × (c.reset_pending ≡ false)
  pub quiet : c.worker_started ≡ false → (c.metrics ≡ none) × (c.snapshot ≡ no_metrics)
  pub ended : is_finished w ≡ true → c.stop ≡ true
  pub alive : c.initialized ≡ true → c.stop ≡ false

pub data Reach {M : Type 0} (sampler : Sampler M) : Cache M → Worker → Type 0 where
  created : (made : Bool) (process_id : ℕ) → Reach sampler (init made process_id) absent
  called :
      {c : Cache M} {w : Worker} (now_ns : ℕ) (made : Bool)
      → Reach sampler c w
      → Reach sampler (snapshot c now_ns made).0 (appear w ((snapshot c now_ns made).2 && made))
  worked :
      {c : Cache M} {w : Worker}
      → Reach sampler c w
      → Reach sampler (metrics_worker sampler c w).0 (metrics_worker sampler c w).1
  stopped : {c : Cache M} {w : Worker} → Reach sampler c w → Reach sampler (begin_destroy c) w
  joined :
      {c : Cache M} {w : Worker}
      → c.stop ≡ true
      → (c.worker_started ≡ false) ⊎ (is_finished w ≡ true)
      → Reach sampler c w
      → Reach sampler (end_destroy c) absent

module _ {M : Type 0} (sampler : Sampler M) where
  snapshot-IsSystem :
      (c : Cache M) (w : Worker) (now_ns : ℕ) (made : Bool)
      → IsSystem c w
      → IsSystem (snapshot c now_ns made).0 (appear w ((snapshot c now_ns made).2 && made))
  unfolding snapshot request note_request start_worker
  snapshot-IsSystem c absent now_ns made h =
      ground (arith, h.started, h.busy, h.pending, h.failed, h.untimed, h.quiet, h.ended, h.alive)
  snapshot-IsSystem c waiting now_ns made h =
      ground (arith, h.started, h.busy, h.pending, h.failed, h.untimed, h.quiet, h.ended, h.alive)
  snapshot-IsSystem c (sampling reset) now_ns made h =
      ground (arith, h.started, h.busy, h.pending, h.failed, h.untimed, h.quiet, h.ended, h.alive)
  snapshot-IsSystem c (measured found) now_ns made h =
      ground (arith, h.started, h.busy, h.pending, h.failed, h.untimed, h.quiet, h.ended, h.alive)
  snapshot-IsSystem c finished now_ns made h =
      ground (arith, h.started, h.busy, h.pending, h.failed, h.untimed, h.quiet, h.ended, h.alive)

  metrics_worker-IsSystem :
      (c : Cache M) (w : Worker)
      → IsSystem c w
      → IsSystem (metrics_worker sampler c w).0 (metrics_worker sampler c w).1
  unfolding metrics_worker take_request
  metrics_worker-IsSystem c absent h = h
  metrics_worker-IsSystem c waiting h =
      ground (arith, h.started, h.busy, h.pending, h.failed, h.untimed, h.quiet, h.ended, h.alive)
  metrics_worker-IsSystem c (sampling reset) h =
      ground (arith, h.started, h.busy, h.pending, h.failed, h.untimed, h.quiet, h.ended, h.alive)
  metrics_worker-IsSystem c (measured found) h =
      ground (arith, h.started, h.busy, h.pending, h.failed, h.untimed, h.quiet, h.ended, h.alive)
  metrics_worker-IsSystem c finished h = h

  reached-IsSystem : {c : Cache M} {w : Worker} → Reach sampler c w → IsSystem c w
  unfolding init blank begin_destroy end_destroy
  reached-IsSystem (created made process_id) = ground arith
  reached-IsSystem (called {c} {w} now_ns made r) =
      snapshot-IsSystem c w now_ns made (reached-IsSystem r)
  reached-IsSystem (worked {c} {w} r) = metrics_worker-IsSystem c w (reached-IsSystem r)
  reached-IsSystem (stopped {c} {w} r) =
      let h = reached-IsSystem r in
      ground (arith, h.started, h.busy, h.pending, h.failed, h.untimed, h.quiet, h.ended, h.alive)
  reached-IsSystem (joined stopped_c done r) = ground arith

  snapshot-absent :
      (c : Cache M) (w : Worker) (now_ns : ℕ) (made : Bool)
      → IsSystem c w
      → (snapshot c now_ns made).2 ≡ true
      → w ≡ absent
  unfolding snapshot request note_request start_worker
  snapshot-absent c absent now_ns made h e = refl
  snapshot-absent c waiting now_ns made h e = ground (arith, h.started, e)
  snapshot-absent c (sampling reset) now_ns made h e = ground (arith, h.started, e)
  snapshot-absent c (measured found) now_ns made h e = ground (arith, h.started, e)
  snapshot-absent c finished now_ns made h e = ground (arith, h.started, e)

  -- In every state that is reached, the flags agree with the place of the worker: it exists, as a call of
  -- `pthread_create` has made it, if and only if `worker_started`, samples if and only if
  -- `sample_in_progress`, and has returned only behind `stop`; a request waits only for a worker that exists or
  -- could not be created; without a worker nothing was sampled, and what is published is all zeros; and a
  -- snapshot calls `pthread_create` only where there is no worker.
  pub Reach-IsSystem :
      {c : Cache M} {w : Worker}
      → Reach sampler c w
      → IsSystem c w × ((now_ns : ℕ) (made : Bool) → (snapshot c now_ns made).2 ≡ true → w ≡ absent)
  Reach-IsSystem {c} {w} r =
      let h = reached-IsSystem r in (h, λ now_ns made. snapshot-absent c w now_ns made h)

  -- The sampler's state, as it is or new.
  abbrev pub state_or_new : ℕ → Option M → M
  state_or_new process_id none = sampler.create process_id
  state_or_new process_id (some metrics) = metrics

  abbrev pub reset_if : Bool → M → M
  reset_if false metrics = metrics
  reset_if true metrics = sampler.reset metrics

  -- The sampler's state once a sample under way is done.
  abbrev pub state_before : Cache M → Worker → M
  state_before c (sampling reset) =
      (sampler.sample (reset_if reset (state_or_new c.process_id c.metrics))).0
  state_before c absent = state_or_new c.process_id c.metrics
  state_before c waiting = state_or_new c.process_id c.metrics
  state_before c (measured found) = state_or_new c.process_id c.metrics
  state_before c finished = state_or_new c.process_id c.metrics

  -- The next `n` sections of the worker, with no other step between.
  abbrev pub work : ℕ → Cache M × Worker → Cache M × Worker
  work zero s = s
  work (suc n) s = work n (metrics_worker sampler s.0 s.1)

  -- The request of `c`, with its reset, is answered in `s` by a sample from the state `metrics`.
  pub record IsServed (c : Cache M) (metrics : M) (s : Cache M × Worker) : Type 0 where
    pub waits : s.1 ≡ waiting
    pub request_done : s.0.request_pending ≡ false
    pub reset_done : s.0.reset_pending ≡ false
    pub published : s.0.snapshot ≡ (sampler.sample (reset_if c.reset_pending metrics)).1
    pub kept : s.0.metrics ≡ some (sampler.sample (reset_if c.reset_pending metrics)).0

  IsServed-same :
      (c d : Cache M) (metrics : M) (s : Cache M × Worker)
      → d.reset_pending ≡ c.reset_pending
      → IsServed d metrics s
      → IsServed c metrics s
  IsServed-same c d metrics s e h = record {
    waits = h.waits;
    request_done = h.request_done;
    reset_done = h.reset_done;
    published = h.published ∙ ap (λ b. (sampler.sample (reset_if b metrics)).1) e;
    kept = h.kept ∙ ap (λ b. some (sampler.sample (reset_if b metrics)).0) e;
  }

  takes :
      (c : Cache M)
      → c.stop ≡ false
      → c.request_pending ≡ true
      → metrics_worker sampler c waiting ≡ (take_request c, sampling c.reset_pending)
  unfolding metrics_worker
  takes c going asked = rw (going, asked)

  ready-eq :
      (c : Cache M) (reset : Bool)
      → ready sampler c reset ≡ reset_if reset (state_or_new c.process_id c.metrics)
  unfolding ready
  ready-eq c reset = same_state c.metrics reset
    where
      same_state :
          (metrics : Option M) (reset : Bool)
          → (if reset
              then sampler.reset (or_create sampler c.process_id metrics)
              else or_create sampler c.process_id metrics)
            ≡ reset_if reset (state_or_new c.process_id metrics)
      same_state none true = refl
      same_state none false = refl
      same_state (some m) true = refl
      same_state (some m) false = refl

  taken-IsServed :
      (c : Cache M)
      → IsServed c
          (state_or_new c.process_id c.metrics)
          (work 2 (take_request c, sampling c.reset_pending))
  unfolding metrics_worker take_request ready
  taken-IsServed c = record {
    waits = refl;
    request_done = refl;
    reset_done = refl;
    published = ap (λ m. (sampler.sample m).1) (ready-eq c c.reset_pending);
    kept = ap (λ m. some (sampler.sample m).0) (ready-eq c c.reset_pending);
  }

  waiting-IsServed :
      (c : Cache M)
      → c.stop ≡ false
      → c.request_pending ≡ true
      → IsServed c (state_or_new c.process_id c.metrics) (work 3 (c, waiting))
  waiting-IsServed c going asked = rw (work, takes c going asked) (taken-IsServed c)

  work-serves_at :
      (c : Cache M) (w : Worker)
      → IsSystem c w
      → c.stop ≡ false
      → c.worker_failed ≡ false
      → c.request_pending ≡ true
      → (n : ℕ) × (n ≤ 5) × IsServed c (state_before c w) (work n (c, w))
  unfolding metrics_worker
  work-serves_at c absent h going well asked = ground (arith, h.started, h.pending)
  work-serves_at c waiting h going well asked = (3, omega arith, waiting-IsServed c going asked)
  work-serves_at c (sampling reset) h going well asked = (
    5,
    omega arith,
    subst (λ m. IsServed c (sampler.sample m).0 (work 5 (c, sampling reset))) (ready-eq c reset)
        (IsServed-same c (work 2 (c, sampling reset)).0 (sampler.sample (ready sampler c reset)).0 _
          refl (waiting-IsServed (work 2 (c, sampling reset)).0 going asked)),
  )
  work-serves_at c (measured found) h going well asked = (
    4,
    omega arith,
    IsServed-same c (work 1 (c, measured found)).0 (state_or_new c.process_id c.metrics) _ refl
        (waiting-IsServed (work 1 (c, measured found)).0 going asked),
  )
  work-serves_at c finished h going well asked = ground (arith, h.ended)

  -- A request is answered: from every state that is reached, if no worker failed to be created and `stop` is not
  -- set, at most five sections of the worker end in its wait with the request done and a new sample
  -- published. It is taken from the sampler's state, behind a sample under way and new if there was none, and
  -- reset before if the request asks for that.
  pub work-serves :
      {c : Cache M} {w : Worker}
      → Reach sampler c w
      → c.stop ≡ false
      → c.worker_failed ≡ false
      → c.request_pending ≡ true
      → (n : ℕ) × (n ≤ 5) × IsServed c (state_before c w) (work n (c, w))
  work-serves {c} {w} r going well asked = work-serves_at c w (reached-IsSystem r) going well asked
