-- ===== src/Hud.antt =====
-- The HUD's metrics and text: what is sampled (src/hud_metrics.h and .c, src/hud_drm_fdinfo.c), when
-- (src/hud_metrics_cache.c) and how it is written (src/hud_text.c).
pub mod Metrics
pub mod Cache
pub mod Text
pub mod Drm
pub mod Gpu
pub mod Sampling
