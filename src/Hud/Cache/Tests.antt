-- ===== src/Hud/Cache/Tests.antt =====
-- Runs of src/hud_metrics_cache.c with a sampler that counts its samples.
use frame_pacer.Common.{
  ℕ, ◌+◌, ◌*◌, ◌≤◌, ◌≡◌, true, false, refl, List, [], ◌∷◌, arith, suc, Bool, ◌&&◌,
}
use frame_pacer.Hud.Metrics.{no_metrics}
use frame_pacer.Hud.Cache.{
  Sampler, Cache, absent, waiting, finished, blank, init, snapshot, needs_request, needs_reset,
  request, note_request, start_worker, take_request, ready, metrics_worker, begin_destroy,
  sample_ns,
}
use frame_pacer.Hud.Cache.System.{
  IsSystem, Reach, appear, created, called as has_called, work, state_before, IsServed,
  Reach-IsSystem, work-serves,
}
use frame_pacer.Hud.Cache.Requests.{Event, called, worked, run, last_of, one_if, run-rate}

abbrev counter : Sampler ℕ
counter = record {
  create = λ process_id. 0;
  reset = λ n. 0;
  sample = λ n. (suc n, record no_metrics { has_cpu_use = true; cpu_use_percent = n });
}

abbrev made : Cache ℕ
made = init true 7

abbrev asked : Cache ℕ
asked = (snapshot made 1000 true).0

second_sample :
    let later = (snapshot (work counter 4 (asked, waiting)).0 1000001000 true).0 in
    (work counter 3 (later, waiting)).0.snapshot.cpu_use_percent ≡ 1
unfolding init blank snapshot needs_request needs_reset request note_request start_worker
    take_request ready metrics_worker
second_sample = refl

reset_sample :
    let later = (snapshot (work counter 4 (asked, waiting)).0 6000001000 true).0 in
    (work counter 3 (later, waiting)).0.snapshot.cpu_use_percent ≡ 0
unfolding init blank snapshot needs_request needs_reset request note_request start_worker
    take_request ready metrics_worker
reset_sample = refl

returns : (work counter 2 (begin_destroy asked, waiting)).1 ≡ finished
unfolding init blank snapshot needs_request needs_reset request note_request start_worker
    metrics_worker begin_destroy
returns = refl

Reach-IsSystem_example :
    IsSystem (snapshot made 1000 false).0 (appear absent ((snapshot made 1000 false).2 && false))
    × ((now_ns : ℕ) (again : Bool)
        → (snapshot (snapshot made 1000 false).0 now_ns again).2 ≡ true
        → appear absent ((snapshot made 1000 false).2 && false) ≡ absent)
Reach-IsSystem_example = Reach-IsSystem counter (has_called 1000 false (created true 7))

asked-Reach : Reach counter asked waiting
unfolding init blank snapshot needs_request needs_reset request note_request start_worker
asked-Reach = has_called 1000 true (created true 7)

asked_flags : (asked.stop ≡ false) × (asked.worker_failed ≡ false) × (asked.request_pending ≡ true)
unfolding init blank snapshot needs_request needs_reset request note_request start_worker
asked_flags = (refl, refl, refl)

work-serves_example :
    (n : ℕ) × (n ≤ 5)
    × IsServed counter asked (state_before counter asked waiting) (work counter n (asked, waiting))
work-serves_example = work-serves counter asked-Reach asked_flags.0 asked_flags.1 asked_flags.2

asked_time : (asked.request_time_valid ≡ true) × (asked.request_ns ≤ 1000)
unfolding init blank snapshot needs_request needs_reset request note_request start_worker
asked_time = (refl, omega arith)

abbrev frames : List Event
frames =
    worked
    ∷ called 500000000 true
    ∷ worked
    ∷ called 1000001000 true
    ∷ worked
    ∷ worked
    ∷ called 1500000000 true
    ∷ []

run-rate_example :
    asked.request_ns + (run counter asked waiting frames).2 * sample_ns
    ≤ last_of 1000 frames + one_if asked.request_pending * sample_ns
run-rate_example =
    run-rate counter frames asked waiting 1000 asked_time.0 asked_time.1
      (omega arith, omega arith, (omega arith, omega arith, (omega arith, omega arith, tt)))
