-- ===== src/Hud/Sampling/Tests.antt =====
-- src/hud_metrics.c: two samples of a process without a GPU.
use frame_pacer.Common.{
  ℕ, ◌≡◌, ◌≤◌, ◌<◌, ◌⊎◌, refl, Bytes, List, [], Option, none, some, codes, true, false, and_then,
  arith,
}
use frame_pacer.Nvml.Provider.{Provider}
use frame_pacer.Hud.Sampling.{Metrics, World, init, metrics_sample}
use frame_pacer.Hud.Sampling.Values.{parse_cpu}
use frame_pacer.Hud.Sampling.Shown.{IsSampler, IsShown, start, take, Reach-IsShown}
use frame_pacer.Hud.Sampling.Processor.{IsUse, metrics_sample-IsUse}

abbrev world_at : ℕ → Option Bytes → World
world_at now_ns stat_line = record {
  now_ns = now_ns;
  targets = none;
  sysfs = λ node. record { vendor_file = none; device_link = none };
  monitors = λ node. [];
  device_count = none;
  devices = [];
  acquired = false;
  stat_line = stat_line;
  cgroup_line = none;
  directories = λ path. none;
  first_line = λ path. none;
  utilization = none;
  temperature = none;
  external =
      some (record { sequence = 1; available = 3; gpu_use_percent = 40; gpu_temp_celsius = 60 });
  descriptors = λ node. none;
}

abbrev first_world : World
first_world = world_at 1000 (some (codes "cpu 10 0 10 80 0 0 0 0\n"))

abbrev second_world : World
second_world = world_at 2000 (some (codes "cpu 35 0 10 155 0 0 0 0\n"))

abbrev no_provider : Provider
no_provider = record { started = false; device = 0; has_processes = false; has_pci = false }

abbrev new_sampler : Metrics
new_sampler = init 7 first_world [] no_provider

Reach-IsShown_example :
    IsSampler (metrics_sample new_sampler first_world).0
    × IsShown (metrics_sample (metrics_sample new_sampler first_world).0 second_world).1
Reach-IsShown_example =
    Reach-IsShown (metrics_sample new_sampler first_world).0 second_world
      (take new_sampler first_world (start 7 first_world [] no_provider)) (omega arith, omega arith)

metrics_sample-IsUse_example :
    (((metrics_sample (metrics_sample new_sampler first_world).0 second_world).1.has_cpu_use
        ≡ false)
      × ((200 ≤ 100) ⊎ (155 < 80)))
    ⊎ (((metrics_sample (metrics_sample new_sampler first_world).0 second_world).1.has_cpu_use
          ≡ true)
        × IsUse 100 80 200 155
            (metrics_sample
              (metrics_sample new_sampler first_world).0
              second_world).1.cpu_use_percent)
unfolding init and_then parse_cpu frame_pacer.Common.behind_prefix
    frame_pacer.Hud.Sampling.Values.skip_digits frame_pacer.Limit.Text.is_digit
    frame_pacer.Hud.Sampling.Values.read_values frame_pacer.Hud.Sampling.Values.field
    frame_pacer.Hud.Drm.Clients.number64 frame_pacer.Hud.Drm.Clients.skip_blank
    frame_pacer.Hud.Drm.Clients.digits64 frame_pacer.Hud.Sampling.Values.only_fields
    frame_pacer.Hud.Sampling.Values.skip_break frame_pacer.Hud.Sampling.Values.cpu_times
    frame_pacer.Hud.Sampling.Values.sum_values
metrics_sample-IsUse_example =
    metrics_sample-IsUse new_sampler first_world second_world 100 80 200 155 refl refl refl
