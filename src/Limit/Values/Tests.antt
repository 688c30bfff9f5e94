-- ===== src/Limit/Values/Tests.antt =====
-- Values of keys (src/pacer_limit.c) at concrete texts.
use frame_pacer.Common.{ℕ, ◌≡◌, ◌↔◌, ◌⊎◌, refl, true, false, some, none, codes}
use frame_pacer.Limit.Text.{is_digit}
use frame_pacer.Limit.Values.{parse_fps, parse_fps_limit, parse_thread_cpu_quota, digits_loop}
use frame_pacer.Limit.Values.Accepted.{
  IsNumber, IsPercent, parse_fps_limit_iff, parse_thread_cpu_quota_iff,
}

too_fast : parse_fps (codes "1000") ≡ none
unfolding parse_fps digits_loop is_digit
too_fast = refl

parse_fps_limit_iff_example : (parse_fps_limit (codes "045") ≡ some (45, false)) ↔ (
    (codes "045" ≡ codes "off") × (◌≡◌ {A = ℕ} 45 0) × (false ≡ true)
    ⊎ IsNumber 999 (codes "045") 45 × (false ≡ false))
parse_fps_limit_iff_example = parse_fps_limit_iff (codes "045") 45 false

parse_thread_cpu_quota_iff_example : (parse_thread_cpu_quota (codes "50%") ≡ some (true, 50)) ↔ (
    (codes "50%" ≡ codes "off") × (true ≡ false) × (◌≡◌ {A = ℕ} 50 0)
    ⊎ IsPercent (codes "50%") 50 × (true ≡ true))
parse_thread_cpu_quota_iff_example = parse_thread_cpu_quota_iff (codes "50%") true 50
