-- ===== src/Hud/Sampling/Bounds.antt =====
-- The values that src/hud_metrics.c takes from its sources keep their bounds.
use frame_pacer.Common.{
  OnSome, and_then-OnSome, ℕ, ◌≤◌, ◌≡◌, inl, inr, Bool, true, false, Bool-cases, arith, not, ◌&&◌,
  ◌||◌, ltb, leb, ◌==◌, Bytes, [], ◌∷◌, Option, none, some, refl,
}
use frame_pacer.Hud.Drm.Clients.{number64, only_space}
use frame_pacer.Hud.Drm.Utilisation.Rounded.{utilisation-le}
use frame_pacer.Hud.Sampling.{
  Metrics, World, cpu_use, sample_cpu, read_temperature, sample_of, nvml_sample, taken,
}
use frame_pacer.Hud.Sampling.Values.{parse_temperature, celsius}
use frame_pacer.Nvml.Protocol.{Message}
use frame_pacer.Nvml.Provider.{
  Provider, NvmlSample, with_utilization, with_temperature, sample_device,
}

abbrev pub AtMost : ℕ → Option ℕ → Type 0
AtMost bound o = OnSome (λ n. n ≤ bound) o

-- What the client's messages promise, as their decoding checks it.
abbrev pub IsBounded : Option Message → Type 0
IsBounded = OnSome (λ message. (message.gpu_use_percent ≤ 100) × (message.gpu_temp_celsius ≤ 200))

celsius-le : (step : ℕ × Bytes) → AtMost 200 (celsius step)
celsius-le (millidegrees, rest) =
    elim (Bool-cases (not (only_space rest) || ltb 200000 millidegrees)) [
      | inl wrong ↦ rw wrong tt
      | inr right ↦ rw right (ground (arith, right))
    ]

parse_temperature-le : (text : Bytes) → AtMost 200 (parse_temperature text)
unfolding parse_temperature
parse_temperature-le text = and_then-OnSome (λ n. n ≤ 200) (number64 text) celsius celsius-le

pub read_temperature-le : (path : Bytes) (w : World) → AtMost 200 (read_temperature path w)
unfolding read_temperature
read_temperature-le [] w = tt
read_temperature-le (c ∷ path) w =
    and_then-OnSome (λ n. n ≤ 200) (w.first_line (c ∷ path)) parse_temperature parse_temperature-le

cpu_use-le : (m : Metrics) (reading : ℕ × ℕ) → AtMost 100 (cpu_use m reading)
unfolding cpu_use
cpu_use-le m (total, idle) =
    elim (Bool-cases (m.cpu_started && ltb m.cpu_total total && leb m.cpu_idle idle)) [
      | inl e ↦ rw e (utilisation-le 0 _ _)
      | inr e ↦ rw e tt
    ]

pub sample_cpu-le : (m : Metrics) (reading : Option (ℕ × ℕ)) → AtMost 100 (sample_cpu m reading).1
unfolding sample_cpu
sample_cpu-le m none = tt
sample_cpu-le m (some reading) = cpu_use-le m reading

-- A sample of NVIDIA's library or of its client.
abbrev pub IsSampleBounded : NvmlSample → Type 0
IsSampleBounded s =
    AtMost 100 (taken s.has_use s.gpu_use_percent)
    × AtMost 200 (taken s.has_temp s.gpu_temp_celsius)

taken-le : (has : Bool) (n bound : ℕ) → n ≤ bound → AtMost bound (taken has n)
taken-le true n bound h = h
taken-le false n bound h = tt

taken-leb : (n bound : ℕ) → AtMost bound (taken (leb n bound) n)
taken-leb n bound = elim (Bool-cases (leb n bound)) [
  | inl e ↦ rw e (ground (arith, e))
  | inr e ↦ rw e tt
]

with_temperature-IsSampleBounded :
    (used : NvmlSample) (temperature : Option ℕ)
    → AtMost 100 (taken used.has_use used.gpu_use_percent)
    → used.has_temp ≡ false
    → IsSampleBounded (with_temperature used temperature)
with_temperature-IsSampleBounded used none h e = (h, rw e tt)
with_temperature-IsSampleBounded used (some celsius) h e = (h, taken-leb celsius 200)

with_utilization_lem :
    (utilization : Option ℕ)
    → AtMost 100 (
        taken (with_utilization utilization).has_use (with_utilization utilization).gpu_use_percent)
      × ((with_utilization utilization).has_temp ≡ false)
with_utilization_lem none = (tt, refl)
with_utilization_lem (some gpu) = elim (Bool-cases (leb gpu 100)) [
  | inl e ↦ rw e (ground (arith, e), refl)
  | inr e ↦ rw e (tt, refl)
]

sample_device-IsSampleBounded :
    (p : Provider) (utilization temperature : Option ℕ)
    → IsSampleBounded (sample_device p utilization temperature)
unfolding sample_device
sample_device-IsSampleBounded p utilization temperature =
    elim (Bool-cases (not p.started || p.device == 0)) [
      | inl wrong ↦ rw wrong (tt, tt)
      | inr right ↦ rw right (
          with_temperature-IsSampleBounded _ temperature (with_utilization_lem utilization).0
            (with_utilization_lem utilization).1)
    ]

pub nvml_sample-IsSampleBounded :
    (m : Metrics) (w : World) → IsBounded w.external → IsSampleBounded (nvml_sample m w)
unfolding nvml_sample
nvml_sample-IsSampleBounded m w h = elim (Bool-cases (not (m.nvml.device == 0))) [
  | inl own ↦ rw own (sample_device-IsSampleBounded m.nvml w.utilization w.temperature)
  | inr none_own ↦ rw none_own (elim (Bool-cases m.nvml_external) [
    | inl client ↦ rw client (sample_of_lem w.external h)
    | inr alone ↦ rw alone (tt, tt)
  ])
]
  where
    sample_of_lem : (o : Option Message) → IsBounded o → IsSampleBounded (sample_of o)
    sample_of_lem none h = (tt, tt)
    sample_of_lem (some message) h = (taken-le _ _ 100 h.0, taken-le _ _ 200 h.1)
