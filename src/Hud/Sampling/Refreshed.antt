-- ===== src/Hud/Sampling/Refreshed.antt =====
-- The search for a GPU in src/hud_metrics.c leaves all that is measured as it was.
use frame_pacer.Common.{
  ℕ, ◌≡◌, inl, inr, Bool, true, false, Bool-cases, not, ◌&&◌, ◌||◌, leb, ◌==◌, if◌then◌else◌, Bytes,
  length, sub64, refl,
}
use frame_pacer.Hud.Gpu.{Identity, nvidia}
use frame_pacer.Nvml.Provider.{Provider}
use frame_pacer.Hud.Sampling.{
  Metrics, World, find_gpu, select_device, is_searching, retry_gpu, take_client,
  refresh_gpu_provider,
}

-- What is measured, and if the sampler is in use.
pub record SameMeasures (m next : Metrics) : Type 0 where
  pub initialized : next.initialized ≡ m.initialized
  pub cpu_total : next.cpu_total ≡ m.cpu_total
  pub cpu_idle : next.cpu_idle ≡ m.cpu_idle
  pub cpu_started : next.cpu_started ≡ m.cpu_started
  pub threads : next.threads ≡ m.threads
  pub drm_fdinfo : next.drm_fdinfo ≡ m.drm_fdinfo

-- The search sets other fields.
searched-SameMeasures :
    (m : Metrics) (gpu : Identity) (path : Bytes) (retry_ns attempts : ℕ) (nvml : Provider)
    → SameMeasures m (record m {
      gpu = gpu;
      gpu_temp_path = path;
      nvml_retry_ns = retry_ns;
      nvml_select_attempts = attempts;
      nvml = nvml;
    })
searched-SameMeasures m gpu path retry_ns attempts nvml = record {
  initialized = refl;
  cpu_total = refl;
  cpu_idle = refl;
  cpu_started = refl;
  threads = refl;
  drm_fdinfo = refl;
}

pub take_client-SameMeasures :
    (m next : Metrics) (w : World) → SameMeasures m next → SameMeasures m (take_client next w)
unfolding take_client
take_client-SameMeasures m next w h =
    elim (Bool-cases (
      not next.nvml_external
      && next.gpu.vendor == nvidia
      && not (length next.gpu.pci_bus_id == 0)
      && (not next.nvml.started || next.nvml.device == 0 && leb 3 next.nvml_select_attempts))) [
        | inl e ↦ rw e (record {
          initialized = h.initialized;
          cpu_total = h.cpu_total;
          cpu_idle = h.cpu_idle;
          cpu_started = h.cpu_started;
          threads = h.threads;
          drm_fdinfo = h.drm_fdinfo;
        })
        | inr e ↦ rw e h
      ]

-- With or without a new look at the descriptors and at the devices.
retried : Bool → Bool → Metrics → World → Metrics
retried looks selects m w =
    let at : Metrics = record m { nvml_retry_ns = w.now_ns } in
    let found = if looks then find_gpu at w else at in
    if selects then select_device found w else found

retried-SameMeasures :
    (looks selects : Bool) (m : Metrics) (w : World) → SameMeasures m (retried looks selects m w)
unfolding retried
retried-SameMeasures true true m w = searched-SameMeasures m _ _ _ _ _
retried-SameMeasures true false m w = searched-SameMeasures m _ _ _ _ _
retried-SameMeasures false true m w = searched-SameMeasures m _ _ _ _ _
retried-SameMeasures false false m w = searched-SameMeasures m _ _ _ _ _

retry_gpu-SameMeasures : (m : Metrics) (w : World) → SameMeasures m (retry_gpu m w)
unfolding retry_gpu retried
retry_gpu-SameMeasures m w =
    elim (Bool-cases (
      (length m.gpu.render_node == 0 || is_searching m)
      && (m.nvml_retry_ns == 0 || leb 1000000000 (sub64 w.now_ns m.nvml_retry_ns)))) [
        | inl e ↦ rw e (retried-SameMeasures (length m.gpu.render_node == 0) (is_searching m) m w)
        | inr e ↦ rw e (searched-SameMeasures m _ _ _ _ _)
      ]

-- For a time that is read or not.
pub refresh-SameMeasures :
    (m : Metrics) (w : World)
    → SameMeasures m (if w.now_ns == 0 then m else refresh_gpu_provider m w)
unfolding refresh_gpu_provider
refresh-SameMeasures m w = elim (Bool-cases (w.now_ns == 0)) [
  | inl e ↦ rw e (searched-SameMeasures m _ _ _ _ _)
  | inr e ↦ rw e (take_client-SameMeasures m (retry_gpu m w) w (retry_gpu-SameMeasures m w))
]
