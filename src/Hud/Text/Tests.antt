-- ===== src/Hud/Text/Tests.antt =====
-- Lines of src/hud_text.c for concrete metrics.
use frame_pacer.Common.{◌≡◌, true, false, refl, codes}
use frame_pacer.Hud.Metrics.{Snapshot, no_metrics}
use frame_pacer.Hud.Text.{
  format_column, format_unavailable, format_metric, format_fps_count, format_fps_limit, format_line,
  gpu_line, fps_line, text_format,
}
use frame_pacer.Hud.Text.Columns.{IsLaidOut, text_format-IsLaidOut}

abbrev busy : Snapshot
busy = record no_metrics { has_gpu_use = true; gpu_use_percent = 97 }

busy_gpu : (text_format busy true 60 0 false false 0).line0 ≡ codes "GPU  97%  N/A"
unfolding text_format gpu_line format_line format_metric format_column format_unavailable
busy_gpu = refl

limit_off : (text_format busy true 60 0 false false 0).line2 ≡ codes "FPS  60~  OFF"
unfolding text_format fps_line format_line format_fps_count format_fps_limit format_column
limit_off = refl

text_format-IsLaidOut_example : IsLaidOut true (text_format busy true 60 0 true true 50)
text_format-IsLaidOut_example = text_format-IsLaidOut busy true 60 0 true true 50
