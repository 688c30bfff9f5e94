-- ===== src/Hud/Drm.antt =====
-- src/hud_drm_fdinfo.c: the share of the time that the GPU works for this process, from the counters of
-- the kernel. An engine that is not present, or not started, has no value. Null pointers are not represented.
pub mod Utilisation
pub mod Clients
pub mod Sample
