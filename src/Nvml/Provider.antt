-- ===== src/Nvml/Provider.antt =====
-- src/hud_nvml_provider.c: the GPU of a process by NVIDIA's library, and a sample of it. The answers of the
-- library are arguments, its devices numbers with 0 for none.
use frame_pacer.Common.{
  ℕ, zero, suc, Bool, true, false, not, ◌&&◌, ◌||◌, ltb, leb, ◌==◌, if◌then◌else◌, List, [], ◌∷◌,
  Option, none, some,
}

-- `has_processes`: the functions that list devices and processes were found; `has_pci`: the one that finds a
-- device by its address.
pub record Provider : Type 0 where
  pub started : Bool
  pub device : ℕ
  pub has_processes : Bool
  pub has_pci : Bool

-- With the flags of `enum frame_pacer_nvml_metric` as one field each.
pub record NvmlSample : Type 0 where
  pub has_use : Bool
  pub has_temp : Bool
  pub gpu_use_percent : ℕ
  pub gpu_temp_celsius : ℕ

abbrev pub no_sample : NvmlSample
no_sample = record { has_use = false; has_temp = false; gpu_use_percent = 0; gpu_temp_celsius = 0 }

-- Of the device at an index: its handle, 0 where the call fails, the number of its processes, if they could
-- be allocated, and the processes that the second call gives.
pub record DeviceAnswer : Type 0 where
  pub handle : ℕ
  pub process_count : ℕ
  pub allocated : Bool
  pub processes : Option (List ℕ)

-- The search stops at the capacity.
unfoldable pub runs_on : ℕ → List ℕ → ℕ → Bool
runs_on zero processes process_id = false
runs_on (suc capacity) [] process_id = false
runs_on (suc capacity) (p ∷ processes) process_id =
    p == process_id || runs_on capacity processes process_id

abbrev pub is_device : DeviceAnswer → ℕ → Bool
is_device a process_id =
    not (a.handle == 0)
    && not (a.process_count == 0 || ltb 4096 a.process_count)
    && a.allocated
    && elim a.processes [
      | none ↦ false
      | some processes ↦ runs_on a.process_count processes process_id
    ]

unfoldable pub find_device_of : List DeviceAnswer → ℕ → ℕ
find_device_of [] process_id = 0
find_device_of (a ∷ answers) process_id =
    let rest = find_device_of answers process_id in
    if is_device a process_id then a.handle else rest

-- `count` is none where the library refuses it; the answers are those of the indices below it.
pub select_process : Provider → ℕ → Option ℕ → List DeviceAnswer → Provider
select_process p process_id none answers = p
select_process p process_id (some count) answers =
    if not p.started || not p.has_processes || process_id == 0 || ltb 64 count
    then p
    else record p { device = find_device_of answers process_id }

-- `found` is 0 where the library has no device at the address; `named`: the address is not empty.
pub select_pci : Provider → Bool → ℕ → Provider × Bool
select_pci p named found =
    if not p.started || not p.has_pci || not named || found == 0
    then (p, false)
    else (record p { device = found }, true)

abbrev pub with_utilization : Option ℕ → NvmlSample
with_utilization none = no_sample
with_utilization (some gpu) =
    if leb gpu 100 then record no_sample { has_use = true; gpu_use_percent = gpu } else no_sample

abbrev pub with_temperature : NvmlSample → Option ℕ → NvmlSample
with_temperature used none = used
with_temperature used (some celsius) = record used {
  has_temp = leb celsius 200;
  gpu_temp_celsius = celsius;
}

-- A utilization and a temperature that the library gives.
unfoldable pub sample_device : Provider → Option ℕ → Option ℕ → NvmlSample
sample_device p utilization temperature =
    if not p.started || p.device == 0
    then no_sample
    else with_temperature (with_utilization utilization) temperature
