-- ===== src/Hud/Sampling/Processor.antt =====
-- The use of the processor that src/hud_metrics.c shows.
use frame_pacer.Common.{
  OnSome, and_then-OnSome, ℕ, ◌-◌, ◌^◌, ◌≤◌, ◌<◌, ◌≡◌, ◌⊎◌, inl, inr, min, true, false, Bool-cases,
  arith, ◌&&◌, ltb, leb, ◌==◌, if◌then◌else◌, and_then, length, ◌||◌, Option, none, some, sub64,
  refl, sym, ap, ◌∙◌,
}
use mathlib.Core.Path.{subst}
use frame_pacer.Hud.Drm.Utilisation.Rounded.{IsRounded, utilisation-IsRounded}
use frame_pacer.Hud.Sampling.{
  Metrics, World, refresh_gpu_provider, cpu_use, sample_cpu, sample_drm, if_some, or_zero,
  metrics_sample,
}
use frame_pacer.Hud.Sampling.Refreshed.{SameMeasures, refresh-SameMeasures}
use frame_pacer.Hud.Sampling.Values.{parse_cpu}
use frame_pacer.Hud.Sampling.Values.Counted.{AreWords, parse_cpu-AreWords}

-- The share of the time between two readings, of total and idle, that was not idle.
pub record IsUse (total idle later_total later_idle percent : ℕ) : Type 0 where
  pub forward : total < later_total
  pub idle_forward : idle ≤ later_idle
  pub rounded :
      IsRounded
        (later_total - total - min (later_idle - idle) (later_total - total))
        (later_total - total)
        percent

cpu_use-IsUse :
    (m : Metrics) (total idle : ℕ)
    → m.cpu_started ≡ true
    → total < 2 ^ 64
    → idle < 2 ^ 64
    → ((cpu_use m (total, idle) ≡ none) × ((total ≤ m.cpu_total) ⊎ (idle < m.cpu_idle)))
      ⊎ ((percent : ℕ) × (cpu_use m (total, idle) ≡ some percent)
          × IsUse m.cpu_total m.cpu_idle total idle percent)
unfolding cpu_use
cpu_use-IsUse m total idle s h k =
    elim (Bool-cases (m.cpu_started && ltb m.cpu_total total && leb m.cpu_idle idle)) [
      | inr e ↦ inl (rw e refl, ground (arith, s, e))
      | inl e ↦
          let total_delta = sub64 total m.cpu_total in
          let idle_delta = sub64 idle m.cpu_idle in
          let bounded_idle = if ltb total_delta idle_delta then total_delta else idle_delta in
          let forward : m.cpu_total < total = ground (arith, e) in
          let idle_forward : m.cpu_idle ≤ idle = ground (arith, e) in
          let exact : total_delta ≡ total - m.cpu_total = omega arith in
          let exact_idle : idle_delta ≡ idle - m.cpu_idle = omega arith in
          let busy : sub64 total_delta bounded_idle - 0
              ≡ total - m.cpu_total - min (idle - m.cpu_idle) (total - m.cpu_total) =
            rw (exact, exact_idle) (ground arith) in
          elim (utilisation-IsRounded 0 (sub64 total_delta bounded_idle) total_delta (omega arith)
            (omega arith)) [
              | inl (wrong, none_given) ↦ absurd (ground (arith, wrong, exact))
              | inr (percent, given, elapses, started, nearest) ↦ inr (
                percent,
                rw e given,
                record {
                  forward = forward;
                  idle_forward = idle_forward;
                  rounded =
                      subst (λ x. IsRounded x (total - m.cpu_total) percent) busy
                        (subst (λ x. IsRounded (sub64 total_delta bounded_idle - 0) x percent) exact
                          nearest);
                },
              )
            ]
    ]

cpu_use-same :
    (m next : Metrics) (reading : ℕ × ℕ)
    → SameMeasures m next
    → cpu_use next reading ≡ cpu_use m reading
unfolding cpu_use
cpu_use-same m next (total, idle) h = rw (h.cpu_total, h.cpu_idle, h.cpu_started) refl

-- The reading that the sampler compares the next one with.
pub record HasReading (m : Metrics) (total idle : ℕ) : Type 0 where
  pub initialized : m.initialized ≡ true
  pub cpu_started : m.cpu_started ≡ true
  pub cpu_total : m.cpu_total ≡ total
  pub cpu_idle : m.cpu_idle ≡ idle

sample_drm-HasReading :
    (m : Metrics) (w : World) (used : Option ℕ) (total idle : ℕ)
    → HasReading m total idle
    → HasReading (sample_drm m w used).0 total idle
unfolding sample_drm
sample_drm-HasReading m w (some percent) total idle h = h
sample_drm-HasReading m w none total idle h =
    elim (Bool-cases (length m.gpu.render_node == 0 || w.now_ns == 0)) [
      | inl e ↦ rw e h
      | inr e ↦ rw e (record {
        initialized = h.initialized;
        cpu_started = h.cpu_started;
        cpu_total = h.cpu_total;
        cpu_idle = h.cpu_idle;
      })
    ]

metrics_sample-HasReading :
    (m : Metrics) (w : World) (total idle : ℕ)
    → m.initialized ≡ true
    → and_then w.stat_line parse_cpu ≡ some (total, idle)
    → HasReading (metrics_sample m w).0 total idle
      × ((metrics_sample m w).1.has_cpu_use ≡ if_some (cpu_use m (total, idle)))
      × ((metrics_sample m w).1.cpu_use_percent ≡ or_zero (cpu_use m (total, idle)))
unfolding metrics_sample sample_cpu cpu_use
metrics_sample-HasReading m w total idle on e =
    let known = if w.now_ns == 0 then m else refresh_gpu_provider m w in
    let same = refresh-SameMeasures m w in
    let used = cpu_use-same m known (total, idle) same in
    rw (metrics_sample, sample_cpu, on, e)
      (
        sample_drm-HasReading _ w _ total idle (record {
          initialized = same.initialized ∙ on;
          cpu_started = refl;
          cpu_total = refl;
          cpu_idle = refl;
        }),
        ap if_some used,
        ap or_zero used,
      )

reading-IsWord :
    (w : World) (total idle : ℕ)
    → and_then w.stat_line parse_cpu ≡ some (total, idle)
    → AreWords (total, idle)
reading-IsWord w total idle e =
    subst (OnSome AreWords) e (and_then-OnSome AreWords w.stat_line parse_cpu parse_cpu-AreWords)

-- With a readable line of the processor's times in two samples in a row, the second shows a use of the processor
-- exactly if the total went up and the idle time not down, and then it is the share of the new time that was
-- not idle, rounded to the nearest percentage.
pub metrics_sample-IsUse :
    (m : Metrics) (first second : World) (total idle later_total later_idle : ℕ)
    → m.initialized ≡ true
    → and_then first.stat_line parse_cpu ≡ some (total, idle)
    → and_then second.stat_line parse_cpu ≡ some (later_total, later_idle)
    → (((metrics_sample (metrics_sample m first).0 second).1.has_cpu_use ≡ false)
        × ((later_total ≤ total) ⊎ (later_idle < idle)))
      ⊎ (((metrics_sample (metrics_sample m first).0 second).1.has_cpu_use ≡ true)
          × IsUse total idle later_total later_idle
              (metrics_sample (metrics_sample m first).0 second).1.cpu_use_percent)
metrics_sample-IsUse m first second total idle later_total later_idle on e f =
    let had = (metrics_sample-HasReading m first total idle on e).0 in
    let shown =
      metrics_sample-HasReading (metrics_sample m first).0 second later_total later_idle
        had.initialized f in
    let small = reading-IsWord second later_total later_idle f in
    elim (cpu_use-IsUse (metrics_sample m first).0 later_total later_idle had.cpu_started small.0
      small.1) [
        | inl (n, why) ↦ inl (shown.1 ∙ ap if_some n, rw (sym had.cpu_total, sym had.cpu_idle) why)
        | inr (percent, n, is_use) ↦
            inr
              (shown.1 ∙ ap if_some n, rw (shown.2, n, sym had.cpu_total, sym had.cpu_idle) is_use)
      ]
