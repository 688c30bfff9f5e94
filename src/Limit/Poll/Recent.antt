-- ===== src/Limit/Poll/Recent.antt =====
-- How old a limit may be that a poll of src/pacer_limit.c gives.
use frame_pacer.Common.{
  ℕ, ◌+◌, ◌≤◌, ◌<◌, ◌≡◌, ◌≢◌, Mem, inl, inr, Bool, true, false, Bool-cases, arith, Bytes, List, [],
  ◌∷◌, refl, sym, ◌∙◌, uint64_max,
}
use frame_pacer.Limit.Config.{Limit, config_poll_ns}
use frame_pacer.Limit.Executable.{Proc}
use frame_pacer.Limit.File.{FileSystem, resolve_limit, next_capacity}
use frame_pacer.Limit.Poll.{
  init, is_fresh, quota_of, publish, refresh_limit, poll, set_reporting_enabled,
}
use frame_pacer.Limit.Poll.Revisions.{is_fresh_iff}

-- A poll, with the limiter and the files as they were.
pub record Met : Type 0 where
  pub at_ns : ℕ
  pub limit : Limit
  pub files : FileSystem

-- The polls of a limiter, and the changes of its reporting between them; newest first.
pub data Course (path : Bytes) (proc : Proc) : Limit → List Met → Type 0 where
  start : Course path proc (init path proc) []
  polled :
      {l : Limit} {met : List Met} (now_ns : ℕ) (files : FileSystem)
      → Course path proc l met
      → Course path proc
          (poll l now_ns files).0
          (record { at_ns = now_ns; limit = l; files = files } ∷ met)
  reports :
      {l : Limit} {met : List Met} (enabled : Bool)
      → Course path proc l met
      → Course path proc (set_reporting_enabled l enabled) met

-- What the file gave when this poll came is what the limiter holds.
pub record Holds (l : Limit) (e : Met) : Type 0 where
  pub fps : l.fps ≡ (resolve_limit e.limit e.files).fps_limit
  pub hud_enabled : l.hud_enabled ≡ (resolve_limit e.limit e.files).hud_enabled
  pub thread_cpu_quota : l.thread_cpu_quota ≡ quota_of (resolve_limit e.limit e.files)

-- In use, with the values of the last check, if there was one.
record IsChecked (l : Limit) (met : List Met) : Type 0 where
  live : l.initialized ≡ true
  checked : l.last_check_ns ≢ 0 → (e : Met) × Mem e met × (e.at_ns ≡ l.last_check_ns) × Holds l e

poll-kept :
    (l : Limit) (now_ns : ℕ) (files : FileSystem)
    → l.initialized ≡ true
    → is_fresh l now_ns ≡ true
    → poll l now_ns files ≡ (l, l.fps)
unfolding poll
poll-kept l now_ns files live fresh = ground arith

poll-reloaded :
    (l : Limit) (now_ns : ℕ) (files : FileSystem)
    → l.initialized ≡ true
    → is_fresh l now_ns ≡ false
    → poll l now_ns files ≡ (
      publish l (resolve_limit l files) (next_capacity l files) now_ns,
      (resolve_limit l files).fps_limit,
    )
unfolding poll refresh_limit
poll-reloaded l now_ns files live stale = ground arith

publish-Holds :
    (l : Limit) (now_ns : ℕ) (files : FileSystem)
    → Holds
        (publish l (resolve_limit l files) (next_capacity l files) now_ns)
        (record { at_ns = now_ns; limit = l; files = files })
      × ((publish l (resolve_limit l files) (next_capacity l files) now_ns).last_check_ns ≡ now_ns)
      × ((publish l (resolve_limit l files) (next_capacity l files) now_ns).initialized
          ≡ l.initialized)
unfolding publish
publish-Holds l now_ns files = elim (Bool-cases l.reporting_enabled) [
  | inl on ↦
      rw (publish, on)
        (record { fps = refl; hud_enabled = refl; thread_cpu_quota = refl }, refl, refl)
  | inr off ↦
      rw (publish, off)
        (record { fps = refl; hud_enabled = refl; thread_cpu_quota = refl }, refl, refl)
]

-- A poll of the course that the limiter behind the next poll holds, and how old it is.
pub record IsRecent (met : List Met) (now_ns : ℕ) (result : Limit × ℕ) : Type 0 where
  pub source : Met
  pub met_before : Mem source met
  pub not_later : source.at_ns ≤ now_ns
  pub recent : now_ns < source.at_ns + config_poll_ns
  pub holds : Holds result.0 source
  pub given : result.1 ≡ (resolve_limit source.limit source.files).fps_limit

poll-IsChecked :
    (l : Limit) (met : List Met) (now_ns : ℕ) (files : FileSystem)
    → IsChecked l met
    → IsChecked (poll l now_ns files).0 (record { at_ns = now_ns; limit = l; files = files } ∷ met)
poll-IsChecked l met now_ns files h = elim (Bool-cases (is_fresh l now_ns)) [
  | inl fresh ↦
      rw (poll-kept l now_ns files h.live fresh)
        (record { live = h.live; checked = λ ne. let k = h.checked ne in (k.0, inr k.1, k.2, k.3) })
  | inr stale ↦
      let p = publish-Holds l now_ns files in
      rw (poll-reloaded l now_ns files h.live stale) (record {
        live = p.2 ∙ h.live;
        checked =
            λ ne. (record { at_ns = now_ns; limit = l; files = files }, inl refl, sym p.1, p.0);
      })
]

Course-IsChecked :
    {path : Bytes} {proc : Proc} {l : Limit} {met : List Met}
    → Course path proc l met
    → IsChecked l met
unfolding init set_reporting_enabled
Course-IsChecked start = record { live = refl; checked = λ ne. absurd (ne refl) }
Course-IsChecked (polled {l} {met} now_ns files c) =
    poll-IsChecked l met now_ns files (Course-IsChecked c)
Course-IsChecked (reports {l} {met} enabled c) =
    let h = Course-IsChecked c in
    rw h.live (record { live = refl; checked = λ ne. absurd (ne refl) })

poll-IsRecent_at :
    (l : Limit) (met : List Met) (now_ns : ℕ) (files : FileSystem)
    → IsChecked l met
    → now_ns ≤ uint64_max
    → IsRecent
        (record { at_ns = now_ns; limit = l; files = files } ∷ met)
        now_ns
        (poll l now_ns files)
poll-IsRecent_at l met now_ns files h small = elim (Bool-cases (is_fresh l now_ns)) [
  | inl fresh ↦
      let when = (is_fresh_iff l now_ns small).0 fresh in
      let k = h.checked when.0 in
      rw (poll-kept l now_ns files h.live fresh) (record {
        source = k.0;
        met_before = inr k.1;
        not_later = omega (arith, k.2, when.1);
        recent = omega (arith, k.2, when.2);
        holds = k.3;
        given = k.3.fps;
      })
  | inr stale ↦
      let p = publish-Holds l now_ns files in
      rw (poll-reloaded l now_ns files h.live stale) (record {
        source = record { at_ns = now_ns; limit = l; files = files };
        met_before = inl refl;
        not_later = omega arith;
        recent = omega arith;
        holds = p.0;
        given = refl;
      })
]

-- Over any course of polls and changes of the reporting, with times in any order: the limit that a poll
-- returns is what the file gave at a poll less than a second before, or at this one, and the published limit,
-- HUD switch and thread quota are those of the same poll.
pub poll-IsRecent :
    {path : Bytes} {proc : Proc} {l : Limit} {met : List Met} (now_ns : ℕ) (files : FileSystem)
    → Course path proc l met
    → now_ns ≤ uint64_max
    → IsRecent
        (record { at_ns = now_ns; limit = l; files = files } ∷ met)
        now_ns
        (poll l now_ns files)
poll-IsRecent {path} {proc} {l} {met} now_ns files c small =
    poll-IsRecent_at l met now_ns files (Course-IsChecked c) small
