-- ===== src/Vulkan.antt =====
-- The Vulkan layer: what it remembers of the objects that it intercepts (src/vulkan_layer_registry.c).
pub mod Registry
