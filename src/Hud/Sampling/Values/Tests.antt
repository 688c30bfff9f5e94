-- ===== src/Hud/Sampling/Values/Tests.antt =====
-- src/hud_metrics.c: lines of procfs and sysfs.
use frame_pacer.Common.{◌≡◌, refl, none, some, codes}
use frame_pacer.Hud.Sampling.Values.{parse_temperature, parse_cpu, parse_cpu_stat}

parse_temperature_line : parse_temperature (codes "45500\n") ≡ some 46
unfolding parse_temperature frame_pacer.Common.and_then frame_pacer.Hud.Drm.Clients.number64
    frame_pacer.Limit.Text.is_digit frame_pacer.Hud.Drm.Clients.digits64
    frame_pacer.Hud.Drm.Clients.only_space frame_pacer.Limit.Text.is_space
parse_temperature_line = refl

parse_temperature_hot : parse_temperature (codes "200001") ≡ none
unfolding parse_temperature frame_pacer.Common.and_then frame_pacer.Hud.Drm.Clients.number64
    frame_pacer.Limit.Text.is_digit frame_pacer.Hud.Drm.Clients.digits64
    frame_pacer.Hud.Drm.Clients.only_space
parse_temperature_hot = refl

parse_cpu_line : parse_cpu (codes "cpu  1 2 3 4 5 6 7 8 9\n") ≡ some (36, 9)
unfolding parse_cpu frame_pacer.Common.and_then frame_pacer.Common.behind_prefix
    frame_pacer.Hud.Sampling.Values.skip_digits frame_pacer.Limit.Text.is_digit
    frame_pacer.Hud.Sampling.Values.read_values frame_pacer.Hud.Sampling.Values.field
    frame_pacer.Hud.Drm.Clients.number64 frame_pacer.Hud.Drm.Clients.skip_blank
    frame_pacer.Hud.Drm.Clients.digits64 frame_pacer.Hud.Sampling.Values.only_fields
    frame_pacer.Hud.Sampling.Values.skip_break frame_pacer.Hud.Sampling.Values.cpu_times
    frame_pacer.Hud.Sampling.Values.sum_values
parse_cpu_line = refl

parse_cpu_short : parse_cpu (codes "cpu 1 2 3 4 5 6 7\n") ≡ none
unfolding parse_cpu frame_pacer.Common.and_then frame_pacer.Common.behind_prefix
    frame_pacer.Hud.Sampling.Values.skip_digits frame_pacer.Limit.Text.is_digit
    frame_pacer.Hud.Sampling.Values.read_values frame_pacer.Hud.Sampling.Values.field
    frame_pacer.Hud.Drm.Clients.number64 frame_pacer.Hud.Drm.Clients.skip_blank
    frame_pacer.Hud.Drm.Clients.digits64
parse_cpu_short = refl

parse_cpu_stat_line : parse_cpu_stat (codes "usage_usec 120\n") (codes "usage_usec") ≡ some 120
unfolding parse_cpu_stat frame_pacer.Common.and_then frame_pacer.Common.behind_prefix
    frame_pacer.Hud.Drm.Clients.number64 frame_pacer.Hud.Drm.Clients.skip_blank
    frame_pacer.Limit.Text.is_digit frame_pacer.Hud.Drm.Clients.digits64
    frame_pacer.Hud.Drm.Clients.only_space frame_pacer.Limit.Text.is_space
parse_cpu_stat_line = refl
