-- ===== src/Limit/Poll/Published.antt =====
-- What other threads can read of the limiter at any time (src/pacer_limit.c).
use frame_pacer.Common.{ℕ, ◌≤◌, ◌≡◌, ◌≢◌, arith, Bool, false, inl, inr, Bool-cases, Bytes, refl}
use frame_pacer.Limit.Config.{Limit, EffectiveConfig}
use frame_pacer.Limit.Executable.{Proc}
use frame_pacer.Limit.Parser.State.{IsQuota}
use frame_pacer.Limit.File.{FileSystem}
use frame_pacer.Limit.File.Resolved.{IsBounded, resolve_limit-IsBounded}
use frame_pacer.Limit.Poll.{
  init, is_fresh, quota_of, publish, refresh_limit, poll, set_reporting_enabled,
}

-- The published values are in range, and while a revision is out, they are those of the effective
-- configuration, which carries that revision.
pub record IsPublished (l : Limit) : Type 0 where
  pub fps : l.fps ≤ 999
  pub quota : l.thread_cpu_quota ≤ 100
  pub silent : l.reporting_enabled ≡ false → l.revision ≡ 0
  pub coherent :
      l.revision ≢ 0
      → (l.effective.revision ≡ l.revision)
        × (l.effective.fps_limit ≡ l.fps)
        × (l.effective.hud_enabled ≡ l.hud_enabled)
        × (quota_of l.effective ≡ l.thread_cpu_quota)

quota_of-le :
    (next : EffectiveConfig)
    → IsQuota next.thread_cpu_enabled next.thread_cpu_percent
    → quota_of next ≤ 100
unfolding quota_of
quota_of-le next q = ground arith

publish-IsPublished :
    (l : Limit) (next : EffectiveConfig) (capacity now_ns : ℕ)
    → IsBounded next
    → IsPublished l
    → IsPublished (publish l next capacity now_ns)
unfolding publish quota_of
publish-IsPublished l next capacity now_ns b v = record {
  fps = ground (arith, b.fps_limit);
  quota = ground (arith, quota_of-le next b.quota);
  silent = ground (arith, v.silent);
  coherent = ground (arith, v.silent);
}

refresh_limit-IsPublished :
    (l : Limit) (now_ns : ℕ) (fs : FileSystem)
    → IsPublished l
    → IsPublished (refresh_limit l now_ns fs).0
unfolding refresh_limit
refresh_limit-IsPublished l now_ns fs v = elim (Bool-cases (is_fresh l now_ns)) [
  | inl fresh ↦ rw fresh v
  | inr stale ↦ rw stale (publish-IsPublished l _ _ now_ns (resolve_limit-IsBounded l fs) v)
]

poll-IsPublished :
    (l : Limit) (now_ns : ℕ) (fs : FileSystem) → IsPublished l → IsPublished (poll l now_ns fs).0
unfolding poll
poll-IsPublished l now_ns fs v = ground (arith, refresh_limit-IsPublished l now_ns fs v)

set_reporting_enabled-IsPublished :
    (l : Limit) (enabled : Bool) → IsPublished l → IsPublished (set_reporting_enabled l enabled)
unfolding set_reporting_enabled
set_reporting_enabled-IsPublished l enabled v = ground arith

-- One operation of some thread, each atomic under the mutex; `reload` is a `refresh_limit` that
-- another thread's reload may have come before.
pub data Step (l : Limit) : Limit → Type 0 where
  polled : (now_ns : ℕ) (fs : FileSystem) → Step l (poll l now_ns fs).0
  reload : (now_ns : ℕ) (fs : FileSystem) → Step l (refresh_limit l now_ns fs).0
  reporting : (enabled : Bool) → Step l (set_reporting_enabled l enabled)

-- The states that threads can reach from a freshly made limiter.
pub data Reach (path : Bytes) (proc : Proc) : Limit → Type 0 where
  start : Reach path proc (init path proc)
  later : {l m : Limit} → Reach path proc l → Step l m → Reach path proc m

init-IsPublished : (path : Bytes) (proc : Proc) → IsPublished (init path proc)
unfolding init
init-IsPublished path proc = record {
  fps = omega arith;
  quota = omega arith;
  silent = λ _. refl;
  coherent = λ ne. absurd (ne refl);
}

Step-IsPublished : {l m : Limit} → Step l m → IsPublished l → IsPublished m
Step-IsPublished (polled now_ns fs) v = poll-IsPublished _ now_ns fs v
Step-IsPublished (reload now_ns fs) v = refresh_limit-IsPublished _ now_ns fs v
Step-IsPublished (reporting enabled) v = set_reporting_enabled-IsPublished _ enabled v

-- In every state that polls, reloads and changes of reporting can reach, in any order and whatever
-- the files, the published limits are in range, and a published revision is that of an effective
-- configuration with the published values.
pub Reach-IsPublished : {path : Bytes} {proc : Proc} {l : Limit} → Reach path proc l → IsPublished l
Reach-IsPublished {path} {proc} start = init-IsPublished path proc
Reach-IsPublished (later r st) = Step-IsPublished st (Reach-IsPublished r)
