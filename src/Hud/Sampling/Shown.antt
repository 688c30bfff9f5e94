-- ===== src/Hud/Sampling/Shown.antt =====
-- What src/hud_metrics.c puts into a snapshot, over any course of its calls.
use mathlib.Core.Path.{subst}
use frame_pacer.Common.{
  OnSome, ℕ, ◌≤◌, ◌≡◌, inl, inr, Bool, true, false, Bool-cases, arith, not, ◌||◌, ◌==◌,
  if◌then◌else◌, and_then, List, length, Option, none, some, refl, sym, ◌∙◌,
}
use frame_pacer.Hud.Metrics.{Snapshot}
use frame_pacer.Hud.Gpu.{Monitor}
use frame_pacer.Hud.Drm.Sample.{sample_from_root, DrmFdinfo}
use frame_pacer.Hud.Drm.Sample.Followed.{IsTracked, IsGiven, sample_from_root-IsSample}
use frame_pacer.Hud.Sampling.{
  Metrics, World, no_drm, init, reset_utilization, destroy, refresh_gpu_provider, sample_cpu,
  nvml_sample, if_some, or_zero, taken, or_else, sample_drm, snapshot_of, metrics_sample,
}
use frame_pacer.Hud.Sampling.Values.{parse_cpu}
use frame_pacer.Hud.Sampling.Bounds.{
  AtMost, IsBounded, read_temperature-le, sample_cpu-le, nvml_sample-IsSampleBounded,
}
use frame_pacer.Hud.Sampling.Refreshed.{refresh-SameMeasures}
use frame_pacer.Hud.Sampling.Threads.{invalidate_thread_cpu, sample_thread_cpu}
use frame_pacer.Hud.Sampling.Threads.Bounded.{IsThreads, sample_thread_cpu-IsThreads}
use frame_pacer.Nvml.Provider.{Provider}

-- A metric is shown with a value in its bounds, or is 0.
abbrev pub InBounds : Bool → ℕ → ℕ → Type 0
InBounds true value bound = value ≤ bound
InBounds false value bound = value ≡ 0

pub record IsShown (s : Snapshot) : Type 0 where
  pub cpu_use : InBounds s.has_cpu_use s.cpu_use_percent 100
  pub cpu_temp : InBounds s.has_cpu_temp s.cpu_temp_celsius 200
  pub gpu_use : InBounds s.has_gpu_use s.gpu_use_percent 100
  pub gpu_temp : InBounds s.has_gpu_temp s.gpu_temp_celsius 200
  pub thread_cpu : InBounds s.has_thread_cpu_use s.thread_cpu_percent 100

pub record IsSampler (m : Metrics) : Type 0 where
  pub threads : IsThreads m.threads
  pub drm : IsTracked m.drm_fdinfo

snapshot_of-IsShown :
    (cpu cpu_temp gpu gpu_temp thread : Option ℕ)
    → AtMost 100 cpu
    → AtMost 200 cpu_temp
    → AtMost 100 gpu
    → AtMost 200 gpu_temp
    → AtMost 100 thread
    → IsShown (snapshot_of cpu cpu_temp gpu gpu_temp thread)
snapshot_of-IsShown cpu cpu_temp gpu gpu_temp thread a b c d e = record {
  cpu_use = value-InBounds cpu 100 a;
  cpu_temp = value-InBounds cpu_temp 200 b;
  gpu_use = value-InBounds gpu 100 c;
  gpu_temp = value-InBounds gpu_temp 200 d;
  thread_cpu = value-InBounds thread 100 e;
}
  where
    value-InBounds :
        (o : Option ℕ) (bound : ℕ) → AtMost bound o → InBounds (if_some o) (or_zero o) bound
    value-InBounds none bound h = refl
    value-InBounds (some n) bound h = h

sample_cpu-kept :
    (m : Metrics) (reading : Option (ℕ × ℕ))
    → ((sample_cpu m reading).0.threads ≡ m.threads)
      × ((sample_cpu m reading).0.drm_fdinfo ≡ m.drm_fdinfo)
unfolding sample_cpu
sample_cpu-kept m none = (refl, refl)
sample_cpu-kept m (some reading) = (refl, refl)

sample_drm-IsSampler :
    (m : Metrics) (w : World) (used : Option ℕ)
    → IsSampler m
    → IsSampler (sample_drm m w used).0 × (AtMost 100 used → AtMost 100 (sample_drm m w used).1)
unfolding sample_drm
sample_drm-IsSampler m w (some percent) h = (h, λ le. le)
sample_drm-IsSampler m w none h =
    let one =
      sample_from_root-IsSample m.drm_fdinfo (w.descriptors m.gpu.render_node) w.now_ns h.drm in
    elim (Bool-cases (length m.gpu.render_node == 0 || w.now_ns == 0)) [
      | inl unread ↦ rw unread (h, λ le. tt)
      | inr read ↦ rw read (
        record { threads = h.threads; drm = one.tracked },
        λ le.
            given-le (sample_from_root m.drm_fdinfo (w.descriptors m.gpu.render_node) w.now_ns).0 _
              one.given,
      )
    ]
  where
    given-le : (next : DrmFdinfo) (o : Option ℕ) → OnSome (IsGiven next) o → AtMost 100 o
    given-le next none h = tt
    given-le next (some n) h = h.0

or_else-le :
    (bound : ℕ) (o other : Option ℕ)
    → AtMost bound o
    → AtMost bound other
    → AtMost bound (or_else o other)
or_else-le bound none other h k = k
or_else-le bound (some n) other h k = h

-- The sampler in the course of a sample: behind the search and the processor's times.
measured-IsSampler :
    (m : Metrics) (w : World) (reading : Option (ℕ × ℕ))
    → IsSampler m
    → IsSampler (sample_cpu (if w.now_ns == 0 then m else refresh_gpu_provider m w) reading).0
measured-IsSampler m w reading h =
    let known = if w.now_ns == 0 then m else refresh_gpu_provider m w in
    let same = refresh-SameMeasures m w in
    let kept = sample_cpu-kept known reading in
    record {
      threads = subst IsThreads (sym (kept.0 ∙ same.threads)) h.threads;
      drm = subst IsTracked (sym (kept.1 ∙ same.drm_fdinfo)) h.drm;
    }

metrics_sample-IsShown :
    (m : Metrics) (w : World)
    → IsSampler m
    → IsSampler (metrics_sample m w).0 × (IsBounded w.external → IsShown (metrics_sample m w).1)
unfolding metrics_sample
metrics_sample-IsShown m w h =
    let known = if w.now_ns == 0 then m else refresh_gpu_provider m w in
    let reading = and_then w.stat_line parse_cpu in
    let cpu = sample_cpu known reading in
    let measured = measured-IsSampler m w reading h in
    let threads =
      sample_thread_cpu-IsThreads cpu.0.threads w.now_ns w.cgroup_line w.directories
        measured.threads in
    let next : Metrics = record cpu.0 {
      threads = (sample_thread_cpu cpu.0.threads w.now_ns w.cgroup_line w.directories).0;
    } in
    let gpu = nvml_sample next w in
    let drm =
      sample_drm-IsSampler next w (taken gpu.has_use gpu.gpu_use_percent)
        (record { threads = threads.0; drm = measured.drm }) in
    elim (Bool-cases (not m.initialized)) [
      | inl off ↦ rw off (h, λ b. snapshot_of-IsShown none none none none none tt tt tt tt tt)
      | inr on ↦ rw on (
        drm.0,
        λ b.
            let bounded = nvml_sample-IsSampleBounded next w b in
            snapshot_of-IsShown _ _ _ _ _ (sample_cpu-le known reading)
              (read_temperature-le next.cpu_temp_path w) (drm.1 bounded.0)
              (or_else-le 200 _ _ bounded.1 (read_temperature-le next.gpu_temp_path w)) threads.1,
      )
    ]

-- The calls on a sampler, in any order, each with the world as it is then.
pub data Reach : Metrics → Type 0 where
  start :
      (process_id : ℕ) (w : World) (cpu_monitors : List Monitor) (provider : Provider)
      → Reach (init process_id w cpu_monitors provider)
  take : (m : Metrics) (w : World) → Reach m → Reach (metrics_sample m w).0
  reset : (m : Metrics) → Reach m → Reach (reset_utilization m)
  stop : (m : Metrics) → Reach m → Reach (destroy m)

unused-IsThreads : IsThreads invalidate_thread_cpu
unused-IsThreads = record {
  distinct = tt;
  few = omega arith;
  current = tt;
  percent_le = omega arith;
}

unused-IsTracked : IsTracked no_drm
unfolding no_drm
unused-IsTracked = record {
  distinct = tt;
  few = omega arith;
  fresh = λ e. refl;
  percent_le = omega arith;
}

init-IsSampler :
    (process_id : ℕ) (w : World) (cpu_monitors : List Monitor) (provider : Provider)
    → IsSampler (init process_id w cpu_monitors provider)
unfolding init
init-IsSampler process_id w cpu_monitors provider = elim (Bool-cases (process_id == 0)) [
  | inl alone ↦ rw alone (record { threads = unused-IsThreads; drm = unused-IsTracked })
  | inr set ↦ rw set (elim (Bool-cases provider.started) [
    | inl e ↦ rw e (record { threads = unused-IsThreads; drm = unused-IsTracked })
    | inr e ↦ rw e (record { threads = unused-IsThreads; drm = unused-IsTracked })
  ])
]

reset_utilization-IsSampler : (m : Metrics) → IsSampler m → IsSampler (reset_utilization m)
unfolding reset_utilization
reset_utilization-IsSampler m h = elim (Bool-cases (not m.initialized)) [
  | inl off ↦ rw off h
  | inr on ↦ rw on (record { threads = unused-IsThreads; drm = unused-IsTracked })
]

destroy-IsSampler : (m : Metrics) → IsSampler m → IsSampler (destroy m)
unfolding destroy
destroy-IsSampler m h = elim (Bool-cases (not m.initialized)) [
  | inl off ↦ rw off h
  | inr on ↦ rw on (record { threads = h.threads; drm = h.drm })
]

pub Reach-IsSampler : (m : Metrics) → Reach m → IsSampler m
Reach-IsSampler _ (start process_id w cpu_monitors provider) =
    init-IsSampler process_id w cpu_monitors provider
Reach-IsSampler _ (take m w r) = (metrics_sample-IsShown m w (Reach-IsSampler m r)).0
Reach-IsSampler _ (reset m r) = reset_utilization-IsSampler m (Reach-IsSampler m r)
Reach-IsSampler _ (stop m r) = destroy-IsSampler m (Reach-IsSampler m r)

-- After any calls on a sampler, the slots for threads are at most 1024, of different threads and of one
-- time, and the baselines of the engines well kept; and the next sample shows every percentage with at most 100 and every
-- temperature with at most 200, or as missing and 0, if a message of NVIDIA's client keeps these bounds.
pub Reach-IsShown :
    (m : Metrics) (w : World)
    → Reach m
    → IsBounded w.external
    → IsSampler m × IsShown (metrics_sample m w).1
Reach-IsShown m w r b = let h = Reach-IsSampler m r in (h, (metrics_sample-IsShown m w h).1 b)
