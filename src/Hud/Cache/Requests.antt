-- ===== src/Hud/Cache/Requests.antt =====
-- How often the worker of src/hud_metrics_cache.c takes a sample.
use frame_pacer.Common.{
  ℕ, ◌+◌, ◌*◌, ◌^◌, ◌≤◌, ◌<◌, ◌≡◌, Bool, true, false, arith, ◌&&◌, List, [], ◌∷◌, refl, ◌∙◌,
}
use frame_pacer.Hud.Cache.{
  Sampler, Cache, Worker, absent, waiting, sampling, measured, finished, snapshot, needs_request,
  request, note_request, start_worker, take_request, metrics_worker, sample_ns,
}
use frame_pacer.Hud.Cache.System.{appear}

-- A renderer's call, if a thread can be made as `made` says, or the next section of the worker.
pub data Event : Type 0 where
  called : (now_ns : ℕ) (made : Bool) → Event
  worked : Event

-- No call is earlier than the one before it, and all times fit 64 bits.
abbrev pub Ordered : ℕ → List Event → Type 0
Ordered from [] = Unit
Ordered from (called now_ns made ∷ events) =
    (from ≤ now_ns) × (now_ns < 2 ^ 64) × Ordered now_ns events
Ordered from (worked ∷ events) = Ordered from events

-- The time of the last call, or `from` without one.
abbrev pub last_of : ℕ → List Event → ℕ
last_of from [] = from
last_of from (called now_ns made ∷ events) = last_of now_ns events
last_of from (worked ∷ events) = last_of from events

-- If a section took the worker from its wait to a sample.
abbrev pub begins : Worker → Worker → ℕ
begins waiting (sampling reset) = 1
begins waiting absent = 0
begins waiting waiting = 0
begins waiting (measured found) = 0
begins waiting finished = 0
begins absent after = 0
begins (sampling reset) after = 0
begins (measured found) after = 0
begins finished after = 0

abbrev pub one_if : Bool → ℕ
one_if false = 0
one_if true = 1

module _ {M : Type 0} (sampler : Sampler M) where
  -- The cache and its worker behind the events, and how many samples were begun.
  abbrev pub run : Cache M → Worker → List Event → Cache M × Worker × ℕ
  run c w [] = (c, w, 0)
  run c w (called now_ns made ∷ events) =
      let step = snapshot c now_ns made in run step.0 (appear w (step.2 && made)) events
  run c w (worked ∷ events) =
      let step = metrics_worker sampler c w in
      let rest = run step.0 step.1 events in (rest.0, rest.1, begins w step.1 + rest.2)

  -- A request that is pending counts as a sample to come.
  snapshot-later :
      (c : Cache M) (now_ns : ℕ) (made : Bool)
      → c.request_time_valid ≡ true
      → c.request_ns ≤ now_ns
      → now_ns < 2 ^ 64
      → ((snapshot c now_ns made).0.request_time_valid ≡ true)
        × ((snapshot c now_ns made).0.request_ns ≤ now_ns)
        × (c.request_ns + one_if (snapshot c now_ns made).0.request_pending * sample_ns
            ≤ (snapshot c now_ns made).0.request_ns + one_if c.request_pending * sample_ns)
  unfolding snapshot needs_request request note_request start_worker
  snapshot-later c now_ns made valid low small = ground arith

  metrics_worker-later :
      (c : Cache M) (w : Worker)
      → ((metrics_worker sampler c w).0.request_time_valid ≡ c.request_time_valid)
        × ((metrics_worker sampler c w).0.request_ns ≡ c.request_ns)
        × (begins w (metrics_worker sampler c w).1
              + one_if (metrics_worker sampler c w).0.request_pending
            ≤ one_if c.request_pending)
  unfolding metrics_worker take_request
  metrics_worker-later c absent = (refl, refl, omega arith)
  metrics_worker-later c waiting = ground arith
  metrics_worker-later c (sampling reset) = (refl, refl, omega arith)
  metrics_worker-later c (measured found) = (refl, refl, omega arith)
  metrics_worker-later c finished = (refl, refl, omega arith)

  run-requests :
      (events : List Event) (c : Cache M) (w : Worker) (from : ℕ)
      → c.request_time_valid ≡ true
      → c.request_ns ≤ from
      → Ordered from events
      → ((run c w events).0.request_ns ≤ last_of from events)
        × (c.request_ns + (run c w events).2 * sample_ns
            ≤ (run c w events).0.request_ns + one_if c.request_pending * sample_ns)
  run-requests [] c w from valid low order = (low, omega arith)
  run-requests (called now_ns made ∷ events) c w from valid low order =
      let step = snapshot-later c now_ns made valid (omega arith) order.1 in
      let rest =
        run-requests events (snapshot c now_ns made).0
          (appear w ((snapshot c now_ns made).2 && made)) now_ns step.0 step.1 order.2 in
      (rest.0, omega (arith, rest.1, step.2))
  run-requests (worked ∷ events) c w from valid low order =
      let step = metrics_worker-later c w in
      let next = metrics_worker sampler c w in
      let rest =
        run-requests events next.0 next.1 from (step.0 ∙ valid) (omega (arith, step.1, low))
          order in
      (rest.0, omega (arith, rest.1, step.1, step.2))

  -- Once a first request was made, the worker takes at most one sample per second, whatever the order of
  -- its sections and of calls whose times do not go back: the samples begun, a second each, fit between the
  -- last request before and the last of the calls, with one second more if that request is still pending.
  pub run-rate :
      (events : List Event) (c : Cache M) (w : Worker) (from : ℕ)
      → c.request_time_valid ≡ true
      → c.request_ns ≤ from
      → Ordered from events
      → c.request_ns + (run c w events).2 * sample_ns
        ≤ last_of from events + one_if c.request_pending * sample_ns
  run-rate events c w from valid low order =
      let bound = run-requests events c w from valid low order in omega (arith, bound.0, bound.1)
