-- ===== src/Limit/Poll/Revisions.antt =====
-- When a last check is fresh, and how revisions count changes (src/pacer_limit.c).
use frame_pacer.Common.{
  &&_left, &&_right, ==_iff, ℕ, ◌+◌, ◌≤◌, ◌<◌, ◌≡◌, ◌≢◌, ◌↔◌, ◌&&◌, arith, Bool, true, false, inl,
  inr, Bool-cases, refl, uint64_max, same_bytes_iff, same_bool, some,
}
use frame_pacer.Limit.Config.{
  Limit, EffectiveConfig, Status-discrete, Reason-discrete, Source-discrete, config_poll_ns,
}
use frame_pacer.Limit.File.{FileSystem, resolve_limit}
use frame_pacer.Limit.Poll.{
  is_fresh, same_effective, next_revision, publish, refresh_limit, snapshot,
}
use mathlib.Core.Bool.{decide}

decide_iff {ℓ} : {A : Type ℓ} (d : Dec A) → (decide d ≡ true) ↔ A
unfolding decide
decide_iff (yes a) = (λ _. a, λ _. refl)
decide_iff (no n) = (λ e. cc, λ a. absurd (n a))

same_bool_iff : (a b : Bool) → (same_bool a b ≡ true) ↔ (a ≡ b)
same_bool_iff a b = ground arith

&&_iff :
    {A B : Type 0} {x y : Bool} → ((x ≡ true) ↔ A) → ((y ≡ true) ↔ B) → ((x && y) ≡ true) ↔ (A × B)
&&_iff {x = x} {y = y} f g =
    (λ e. (f.0 (&&_left x y e), g.0 (&&_right x y e)), λ p. both (f.1 p.0) (g.1 p.1))
  where
    both : x ≡ true → y ≡ true → (x && y) ≡ true
    both h k = ground arith

-- Equal in all fields but the revision.
abbrev pub IsSame : EffectiveConfig → EffectiveConfig → Type 0
IsSame a b =
    ((((((((((((a.status ≡ b.status) × (a.reason ≡ b.reason)) × (a.error_line ≡ b.error_line))
                      × (a.fps_limit ≡ b.fps_limit))
                    × (a.fps_source ≡ b.fps_source))
                  × (a.hud_enabled ≡ b.hud_enabled))
                × (a.hud_source ≡ b.hud_source))
              × (a.thread_cpu_enabled ≡ b.thread_cpu_enabled))
            × (a.thread_cpu_percent ≡ b.thread_cpu_percent))
          × (a.thread_cpu_source ≡ b.thread_cpu_source))
        × (a.renderer ≡ b.renderer))
      × (a.matched_section ≡ b.matched_section))
    × (a.matched_executable ≡ b.matched_executable)

pub same_effective_iff : (a b : EffectiveConfig) → (same_effective a b ≡ true) ↔ IsSame a b
unfolding same_effective
same_effective_iff a b =
    &&_iff
      (&&_iff
        (&&_iff
          (&&_iff
            (&&_iff
              (&&_iff
                (&&_iff
                  (&&_iff
                    (&&_iff
                      (&&_iff
                        (&&_iff
                          (&&_iff (decide_iff (Status-discrete _ _))
                            (decide_iff (Reason-discrete _ _)))
                          (==_iff _ _))
                        (==_iff _ _))
                      (decide_iff (Source-discrete _ _)))
                    (same_bool_iff _ _))
                  (decide_iff (Source-discrete _ _)))
                (same_bool_iff _ _))
              (==_iff _ _))
            (decide_iff (Source-discrete _ _)))
          (same_bytes_iff _ _))
        (same_bytes_iff _ _))
      (same_bytes_iff _ _)

-- The last check is fresh exactly if it was made, not in the future, within the last second.
pub is_fresh_iff :
    (l : Limit) (now_ns : ℕ)
    → now_ns ≤ uint64_max
    → (is_fresh l now_ns ≡ true) ↔ (
        (l.last_check_ns ≢ 0)
        × (l.last_check_ns ≤ now_ns)
        × (now_ns < l.last_check_ns + config_poll_ns))
unfolding is_fresh
is_fresh_iff l now_ns small = ground arith

-- The revision that a reload publishes is the old one exactly if there was one and the configuration
-- is the same in all but its revision.
pub next_revision_iff :
    (l : Limit) (next : EffectiveConfig)
    → l.revision ≤ uint64_max
    → (next_revision l next ≡ l.revision) ↔ ((l.revision ≢ 0) × IsSame l.effective next)
unfolding next_revision
next_revision_iff l next small = elim (Bool-cases (same_effective l.effective next)) [
  | inl same ↦ (
    λ e. ((λ z. absurd (ground arith)), (same_effective_iff l.effective next).0 same),
    λ p. let ne = p.0 in ground arith,
  )
  | inr differ ↦ (
    λ e. absurd (ground arith),
    λ p. let e = (same_effective_iff l.effective next).1 p.1 in absurd cc,
  )
]

-- Once a reporting limiter has reloaded, a snapshot gives the configuration that it found, under the
-- published revision; the 2 ^ 64th revision is the exception.
pub snapshot-refresh_limit :
    (l : Limit) (now_ns : ℕ) (fs : FileSystem)
    → l.initialized ≡ true
    → l.reporting_enabled ≡ true
    → l.revision < uint64_max
    → is_fresh l now_ns ≡ false
    → let m = (refresh_limit l now_ns fs).0 in
      snapshot m ≡ some (record (resolve_limit l fs) { revision = m.revision })
unfolding snapshot refresh_limit publish next_revision
snapshot-refresh_limit l now_ns fs live on small stale = ground arith
