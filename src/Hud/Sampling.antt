-- ===== src/Hud/Sampling.antt =====
-- src/hud_metrics.c: one sample of all metrics. What the kernel's files, NVIDIA's library and its client hold
-- is an argument.
pub mod Values
pub mod Threads
pub mod Refreshed
pub mod Bounds
pub mod Shown
pub mod Processor
mod Tests
use frame_pacer.Common.{
  ℕ, zero, suc, ◌+◌, ◌-◌, ◌/◌, ◌%◌, min, Bool, true, false, not, ◌&&◌, ◌||◌, ltb, leb, ◌==◌,
  if◌then◌else◌, and_then, Bytes, List, [], ◌∷◌, length, same_bytes, Option, none, some, codes,
  sub64, add32,
}
use frame_pacer.Hud.Metrics.{Snapshot, no_metrics}
use frame_pacer.Hud.Gpu.{Identity, nvidia, Sysfs, Monitor, Sensor, find_process_gpu}
use frame_pacer.Hud.Drm.Utilisation.{utilisation}
use frame_pacer.Hud.Drm.Sample.{DrmFdinfo, Directory, sample_from_root}
use frame_pacer.Nvml.Protocol.{Message}
use frame_pacer.Nvml.Provider.{
  Provider, NvmlSample, no_sample, DeviceAnswer, select_process, sample_device,
}
use Values.{parse_temperature, parse_cpu}
use Threads.{ThreadSamples, Entry, invalidate_thread_cpu, sample_thread_cpu}

-- The paths are without their ends.
pub record Metrics : Type 0 where
  pub initialized : Bool
  pub cpu_total : ℕ
  pub cpu_idle : ℕ
  pub cpu_started : Bool
  pub threads : ThreadSamples
  pub cpu_temp_path : Bytes
  pub gpu : Identity
  pub gpu_temp_path : Bytes
  pub process_id : ℕ
  pub nvml_retry_ns : ℕ
  pub nvml_select_attempts : ℕ
  pub nvml_external : Bool
  pub drm_fdinfo : DrmFdinfo
  pub nvml : Provider

-- What one sample finds around it. `now_ns` is 0 if the clock fails; `first_line` is that of a file which
-- opens; `acquired`: the client is; `external`: what the client's snapshot gives; `descriptors`: for a
-- render node.
pub record World : Type 0 where
  pub now_ns : ℕ
  pub targets : Option (List (Option Bytes))
  pub sysfs : Bytes → Sysfs
  pub monitors : Bytes → List Monitor
  pub device_count : Option ℕ
  pub devices : List DeviceAnswer
  pub acquired : Bool
  pub stat_line : Option Bytes
  pub cgroup_line : Option Bytes
  pub directories : Bytes → Option (List Entry)
  pub first_line : Bytes → Option Bytes
  pub utilization : Option ℕ
  pub temperature : Option ℕ
  pub external : Option Message
  pub descriptors : Bytes → Option Directory

pub no_drm : DrmFdinfo
no_drm = record {
  clients = [];
  previous_sample_ns = 0;
  cached_use_percent = 0;
  started = false;
  available = false;
}

abbrev is_text : Bytes → Option Bytes → Bool
is_text word none = false
is_text word (some text) = same_bytes text word

-- The path of the package's sensor, unless it is too long.
unfoldable pub package_path : List Sensor → Bytes
package_path [] = []
package_path (s ∷ sensors) =
    let rest = package_path sensors in
    if is_text (codes "Package id 0") s.label && ltb (length s.path) 256 then s.path else rest

-- `find_cpu_temperature`: the sensors of a monitor are its inputs 1 to 16.
unfoldable pub find_cpu_temperature : List Monitor → Bytes
find_cpu_temperature [] = []
find_cpu_temperature (m ∷ monitors) =
    let path = package_path m.sensors in
    let rest = find_cpu_temperature monitors in
    if is_text (codes "coretemp") m.name && not (length path == 0) then path else rest

abbrev pub found_gpu : Metrics → Identity × Bytes → Metrics
found_gpu m (gpu, path) = record m { gpu = gpu; gpu_temp_path = path }

abbrev pub find_gpu : Metrics → World → Metrics
find_gpu m w =
    found_gpu m
      (find_process_gpu (m.gpu, m.gpu_temp_path) m.process_id w.targets w.sysfs w.monitors)

abbrev pub select_device : Metrics → World → Metrics
select_device m w = record m {
  nvml_select_attempts = add32 m.nvml_select_attempts 1;
  nvml = select_process m.nvml m.process_id w.device_count w.devices;
}

-- `cpu_monitors` are those of /sys/class/hwmon, `provider` is what the library's start leaves.
pub init : ℕ → World → List Monitor → Provider → Metrics
init process_id w cpu_monitors provider =
    let m : Metrics = record {
      initialized = true;
      cpu_total = 0;
      cpu_idle = 0;
      cpu_started = false;
      threads = invalidate_thread_cpu;
      cpu_temp_path = find_cpu_temperature cpu_monitors;
      gpu = record { render_node = []; pci_bus_id = []; vendor = 0 };
      gpu_temp_path = [];
      process_id = process_id;
      nvml_retry_ns = 0;
      nvml_select_attempts = 0;
      nvml_external = false;
      drm_fdinfo = no_drm;
      nvml = record { started = false; device = 0; has_processes = false; has_pci = false };
    } in
    let found = find_gpu m w in
    let next = record found { nvml = provider } in
    if process_id == 0 then m else if provider.started then select_device next w else next

pub reset_utilization : Metrics → Metrics
reset_utilization m = if not m.initialized then m else record m {
  cpu_total = 0;
  cpu_idle = 0;
  cpu_started = false;
  threads = invalidate_thread_cpu;
  drm_fdinfo = no_drm;
}

-- `frame_pacer_metrics_destroy`, but for the release of the client and the library.
pub destroy : Metrics → Metrics
destroy m = if not m.initialized then m else record m {
  initialized = false;
  nvml = record { started = false; device = 0; has_processes = false; has_pci = false };
}

-- A provider that has no device yet.
abbrev pub is_searching : Metrics → Bool
is_searching m = m.nvml.started && m.nvml.device == 0

-- At most once a second.
unfoldable pub retry_gpu : Metrics → World → Metrics
retry_gpu m w =
    let at : Metrics = record m { nvml_retry_ns = w.now_ns } in
    let found = if length m.gpu.render_node == 0 then find_gpu at w else at in
    if (length m.gpu.render_node == 0 || is_searching m)
      && (m.nvml_retry_ns == 0 || leb 1000000000 (sub64 w.now_ns m.nvml_retry_ns))
    then (if is_searching m then select_device found w else found)
    else m

unfoldable pub take_client : Metrics → World → Metrics
take_client m w =
    if not m.nvml_external
      && m.gpu.vendor == nvidia
      && not (length m.gpu.pci_bus_id == 0)
      && (not m.nvml.started || m.nvml.device == 0 && leb 3 m.nvml_select_attempts)
    then record m { nvml_external = w.acquired }
    else m

unfoldable pub refresh_gpu_provider : Metrics → World → Metrics
refresh_gpu_provider m w = take_client (retry_gpu m w) w

-- The use of the processor since the last reading.
unfoldable pub cpu_use : Metrics → ℕ × ℕ → Option ℕ
cpu_use m (total, idle) =
    let total_delta = sub64 total m.cpu_total in
    let idle_delta = sub64 idle m.cpu_idle in
    let bounded_idle = if ltb total_delta idle_delta then total_delta else idle_delta in
    if m.cpu_started && ltb m.cpu_total total && leb m.cpu_idle idle
    then utilisation 0 (sub64 total_delta bounded_idle) total_delta
    else none

unfoldable pub sample_cpu : Metrics → Option (ℕ × ℕ) → Metrics × Option ℕ
sample_cpu m none = (m, none)
sample_cpu m (some (total, idle)) =
    (record m { cpu_total = total; cpu_idle = idle; cpu_started = true }, cpu_use m (total, idle))

-- A path that is not set gives nothing.
unfoldable pub read_temperature : Bytes → World → Option ℕ
read_temperature [] w = none
read_temperature (c ∷ path) w = and_then (w.first_line (c ∷ path)) parse_temperature

-- `external_message.sample`
abbrev pub sample_of : Option Message → NvmlSample
sample_of none = no_sample
sample_of (some message) = record {
  has_use = message.available % 2 == 1;
  has_temp = message.available / 2 % 2 == 1;
  gpu_use_percent = message.gpu_use_percent;
  gpu_temp_celsius = message.gpu_temp_celsius;
}

unfoldable pub nvml_sample : Metrics → World → NvmlSample
nvml_sample m w =
    if not (m.nvml.device == 0)
    then sample_device m.nvml w.utilization w.temperature
    else if m.nvml_external
    then sample_of w.external
    else no_sample

abbrev pub if_some : Option ℕ → Bool
if_some none = false
if_some (some n) = true

abbrev pub or_zero : Option ℕ → ℕ
or_zero none = 0
or_zero (some n) = n

abbrev pub taken : Bool → ℕ → Option ℕ
taken has n = if has then some n else none

abbrev pub or_else : Option ℕ → Option ℕ → Option ℕ
or_else none other = other
or_else (some n) other = some n

-- Only where nothing else has the use of the GPU.
unfoldable pub sample_drm : Metrics → World → Option ℕ → Metrics × Option ℕ
sample_drm m w (some percent) = (m, some percent)
sample_drm m w none =
    let step = sample_from_root m.drm_fdinfo (w.descriptors m.gpu.render_node) w.now_ns in
    if length m.gpu.render_node == 0 || w.now_ns == 0
    then (m, none)
    else (record m { drm_fdinfo = step.0 }, step.1)

abbrev pub snapshot_of : Option ℕ → Option ℕ → Option ℕ → Option ℕ → Option ℕ → Snapshot
snapshot_of cpu cpu_temp gpu gpu_temp thread = record {
  has_cpu_use = if_some cpu;
  has_cpu_temp = if_some cpu_temp;
  has_gpu_use = if_some gpu;
  has_gpu_temp = if_some gpu_temp;
  has_thread_cpu_use = if_some thread;
  cpu_use_percent = or_zero cpu;
  thread_cpu_percent = or_zero thread;
  cpu_temp_celsius = or_zero cpu_temp;
  gpu_use_percent = or_zero gpu;
  gpu_temp_celsius = or_zero gpu_temp;
}

unfoldable pub metrics_sample : Metrics → World → Metrics × Snapshot
metrics_sample m w =
    let known = if w.now_ns == 0 then m else refresh_gpu_provider m w in
    let cpu = sample_cpu known (and_then w.stat_line parse_cpu) in
    let thread = sample_thread_cpu cpu.0.threads w.now_ns w.cgroup_line w.directories in
    let next = record cpu.0 { threads = thread.0 } in
    let gpu = nvml_sample next w in
    let gpu_temp =
      or_else (taken gpu.has_temp gpu.gpu_temp_celsius) (read_temperature next.gpu_temp_path w) in
    let drm = sample_drm next w (taken gpu.has_use gpu.gpu_use_percent) in
    if not m.initialized
    then (m, no_metrics)
    else (drm.0, snapshot_of cpu.1 (read_temperature next.cpu_temp_path w) drm.1 gpu_temp thread.1)
