-- ===== src/Hud/Drm/Utilisation.antt =====
-- `frame_pacer_drm_fdinfo_utilisation` of src/hud_drm_fdinfo.c.
pub mod Rounded
use frame_pacer.Common.{
  ℕ, zero, suc, ◌+◌, ◌-◌, ◌*◌, ◌/◌, ◌%◌, ◌^◌, Bool, true, false, not, ◌&&◌, ◌||◌, ltb, leb, ◌==◌,
  if◌then◌else◌, Option, none, some, add64, sub64, mul64,
}

-- The time from which on at least `candidate - 1/2` percent of `elapsed_ns` are used.
unfoldable pub threshold : ℕ → ℕ → ℕ
threshold elapsed_ns candidate =
    let numerator = candidate * 2 - 1 in
    add64 (mul64 (elapsed_ns / 200) numerator) ((elapsed_ns % 200 * numerator + 199) / 200)

-- The `for` loop from `candidate` on, with what is left of its hundred rounds.
unfoldable pub percent_loop : ℕ → ℕ → ℕ → ℕ → ℕ → ℕ
percent_loop delta elapsed_ns zero candidate percent = percent
percent_loop delta elapsed_ns (suc rounds) candidate percent =
    let rest = percent_loop delta elapsed_ns rounds (candidate + 1) candidate in
    if ltb delta (threshold elapsed_ns candidate) then percent else rest

unfoldable pub utilisation : ℕ → ℕ → ℕ → Option ℕ
utilisation previous_render_ns render_ns elapsed_ns =
    if elapsed_ns == 0 || ltb render_ns previous_render_ns
    then none
    else some (percent_loop (sub64 render_ns previous_render_ns) elapsed_ns 100 1 0)
