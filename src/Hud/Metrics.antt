-- ===== src/Hud/Metrics.antt =====
-- The samples of src/hud_metrics.h, with the flags of `enum frame_pacer_metric` as one field each.
use frame_pacer.Common.{ℕ, Bool, false}

pub record Snapshot : Type 0 where
  pub has_cpu_use : Bool
  pub has_cpu_temp : Bool
  pub has_gpu_use : Bool
  pub has_gpu_temp : Bool
  pub has_thread_cpu_use : Bool
  pub cpu_use_percent : ℕ
  pub thread_cpu_percent : ℕ
  pub cpu_temp_celsius : ℕ
  pub gpu_use_percent : ℕ
  pub gpu_temp_celsius : ℕ

-- All zeros.
abbrev pub no_metrics : Snapshot
no_metrics = record {
  has_cpu_use = false;
  has_cpu_temp = false;
  has_gpu_use = false;
  has_gpu_temp = false;
  has_thread_cpu_use = false;
  cpu_use_percent = 0;
  thread_cpu_percent = 0;
  cpu_temp_celsius = 0;
  gpu_use_percent = 0;
  gpu_temp_celsius = 0;
}
