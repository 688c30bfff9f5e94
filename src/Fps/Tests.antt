-- ===== src/Fps/Tests.antt =====
-- Presents of src/hud_fps.c at concrete times; the rate is rounded to the nearest whole number.
use frame_pacer.Common.{ℕ, ◌+◌, ◌*◌, ◌/◌, ◌≡◌, true, refl, none, some, List, [], ◌∷◌, arith, length}
use frame_pacer.Fps.{
  Tracker, init, destroy, restarts, restart, count_present, capped_rate, take_sample,
  record_present, snapshot,
}
use frame_pacer.Fps.Window.{
  present_all, IsOpen, IsTracker, IsCounted, next_count, created, presented, destroyed,
  present_all-window, Reach-IsTracker,
}

abbrev nearest : ℕ → ℕ → ℕ
nearest intervals elapsed_ns = (intervals * 1000000000 + elapsed_ns / 2) / elapsed_ns

abbrev first : Tracker
first = restart (init true) 1000

first-IsOpen : IsOpen first 1000 1000 0
unfolding init restart
first-IsOpen = record { ready = refl; going = refl; start = refl; last = refl; counted = refl }

abbrev slow_times : List ℕ
slow_times = 200001000 ∷ 400001000 ∷ []

shows_five :
    snapshot (present_all nearest (init true) (1000 ∷ 200001000 ∷ 400001000 ∷ 600001000 ∷ [])).0
    ≡ some 5
unfolding init restarts restart count_present capped_rate take_sample record_present snapshot
shows_five = refl

shows_nothing :
    snapshot (destroy (present_all nearest (init true) (1000 ∷ 600001000 ∷ [])).0) ≡ none
unfolding init destroy restarts restart count_present capped_rate take_sample record_present
    snapshot
shows_nothing = refl

present_all-window_example :
    ((present_all nearest first slow_times).1 ≡ [])
    × ((record_present nearest (present_all nearest first slow_times).0 600001000).1
        ≡ some (capped_rate nearest (length slow_times + 1) 600000000))
    × IsOpen
        (record_present nearest (present_all nearest first slow_times).0 600001000).0
        600001000
        600001000
        0
present_all-window_example =
    present_all-window nearest slow_times 600001000 first-IsOpen (omega arith) (omega arith)
      (omega arith) (omega arith)
      (omega arith, omega arith, omega arith, (omega arith, omega arith, omega arith, tt))
      (omega arith) (omega arith)

Reach-IsTracker_example :
    IsTracker (destroy (record_present nearest (init true) 1000).0)
    × IsCounted
        (destroy (record_present nearest (init true) 1000).0)
        (next_count (init true) 1000 (record_present nearest (init true) 1000).1 0)
Reach-IsTracker_example =
    Reach-IsTracker nearest (destroyed (presented 1000 (omega arith) (created true)))
