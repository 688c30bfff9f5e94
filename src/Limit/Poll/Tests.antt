-- ===== src/Limit/Poll/Tests.antt =====
-- Polls (src/pacer_limit.c) of the test's limiter, last checked at 1 us.
use frame_pacer.Common.{◌≡◌, refl, true, false, some, [], ◌∷◌, arith}
use frame_pacer.Limit.File.{resolve_limit}
use frame_pacer.Limit.Fixtures.{limiter, files, process}
use frame_pacer.Limit.Poll.{
  init, is_fresh, refresh_limit, poll, snapshot, set_reporting_enabled, revision_of,
  thread_cpu_quota_of, hud_enabled_of, destroy,
}
use frame_pacer.Limit.Poll.Published.{
  IsPublished, start, later, polled, reporting, Reach-IsPublished,
}
use frame_pacer.Limit.Poll.Revisions.{snapshot-refresh_limit}
use frame_pacer.Limit.Poll.Recent.{IsRecent, start as at_first, polled as met, poll-IsRecent}

-- What a destroyed limiter answers.
destroyed : (poll (destroy limiter) 500 files).1 ≡ 0
unfolding destroy poll
destroyed = refl

destroyed_readers :
    (revision_of (destroy limiter) ≡ 0)
    × (thread_cpu_quota_of (destroy limiter) ≡ (0, false))
    × (hud_enabled_of (destroy limiter) ≡ true)
unfolding destroy revision_of thread_cpu_quota_of hud_enabled_of
destroyed_readers = (refl, refl, refl)

Reach-IsPublished_example :
    IsPublished (poll (set_reporting_enabled (init [] process) true) 5 files).0
Reach-IsPublished_example =
    Reach-IsPublished {path = []} {proc = process}
      (later (later start (reporting true)) (polled 5 files))

poll-IsRecent_example :
    IsRecent
      (record { at_ns = 1000000500; limit = (poll (init [] process) 500 files).0; files = files }
        ∷ record { at_ns = 500; limit = init [] process; files = files }
        ∷ [])
      1000000500
      (poll (poll (init [] process) 500 files).0 1000000500 files)
poll-IsRecent_example =
    poll-IsRecent {path = []} {proc = process} 1000000500 files (met 500 files at_first)
      (omega arith)

stale : is_fresh limiter 2000000000 ≡ false
unfolding is_fresh
stale = refl

snapshot-refresh_limit_example :
    snapshot (refresh_limit limiter 2000000000 files).0
    ≡ some (record (resolve_limit limiter files) {
      revision = (refresh_limit limiter 2000000000 files).0.revision;
    })
snapshot-refresh_limit_example =
    snapshot-refresh_limit limiter 2000000000 files refl refl (omega arith) stale
