-- ===== src/Nvml.antt =====
-- The GPU's metrics of NVIDIA: the provider (src/hud_nvml_provider.c), and the helper's messages
-- (src/hud_nvml_protocol.c) with their client (src/hud_nvml_client.c).
pub mod Protocol
pub mod Client
pub mod Provider
