-- ===== src/Hud/Sampling/Threads.antt =====
-- `sample_thread_cpu` of src/hud_metrics.c: the time of the threads in their cgroups. What the kernel's files
-- hold is an argument.
pub mod Bounded
use frame_pacer.Common.{
  ℕ, zero, suc, ◌+◌, ◌-◌, ◌/◌, Bool, true, false, not, ◌&&◌, ◌||◌, ltb, leb, ◌==◌, if◌then◌else◌,
  and_then, behind_prefix, Bytes, List, [], ◌∷◌, ◌++◌, length, Option, none, some, codes, sub64,
  mul64, uint64_max, uint32_max, map_some,
}
use frame_pacer.Hud.Drm.Utilisation.{utilisation}
use frame_pacer.Hud.Sampling.Values.{parse_cpu_stat}

abbrev pub max_slots : ℕ
max_slots = 1024

-- `struct frame_pacer_thread_cpu_sample` of a slot in use.
pub record Slot : Type 0 where
  pub tid : ℕ
  pub usage_usec : ℕ
  pub sample_ns : ℕ

-- The fields of the sampler for threads; the slots in use stand in a list.
pub record ThreadSamples : Type 0 where
  pub slots : List Slot
  pub sample_ns : ℕ
  pub percent : ℕ
  pub available : Bool

-- What stands before the first marker: `strstr`.
unfoldable pub before_marker : Bytes → Bytes → Option Bytes
before_marker marker [] = elim (behind_prefix marker []) [ none ↦ none | some rest ↦ some [] ]
before_marker marker (c ∷ cs) = elim (behind_prefix marker (c ∷ cs)) [
  | none ↦ map_some (λ before. c ∷ before) (before_marker marker cs)
  | some rest ↦ some []
]

-- From the first line of /proc/self/cgroup, if it is read whole. The result has PATH_MAX, 4096, bytes.
unfoldable pub thread_cgroup_root : Option Bytes → Option Bytes
thread_cgroup_root line = and_then line (λ text.
    and_then (behind_prefix (codes "0::/") text) (λ rest.
      and_then (before_marker (codes "/frame-pacer-thread-cpu/t-") (b'/' ∷ rest)) (λ scope.
        let root = codes "/sys/fs/cgroup" ++ (scope ++ codes "/frame-pacer-thread-cpu") in
        if ltb (length root) 4096 then some root else none)))

-- The first line of cpu.stat that has the time.
unfoldable pub child_usage_usec : Option (List Bytes) → Option ℕ
child_usage_usec none = none
child_usage_usec (some []) = none
child_usage_usec (some (line ∷ lines)) = elim (parse_cpu_stat line (codes "usage_usec")) [
  | none ↦ child_usage_usec (some lines)
  | some usage ↦ some usage
]

-- An entry of the root: if its name begins with `t-`, what `strtoul` makes of the rest and if that is the
-- whole rest, and the lines of its cpu.stat, if that file opens.
pub record Entry : Type 0 where
  pub is_thread : Bool
  pub number : ℕ
  pub whole : Bool
  pub cpu_stat : Option (List Bytes)

-- The thread and its time, for an entry that is not passed over.
unfoldable pub read_entry : Entry → Option (ℕ × ℕ)
read_entry e =
    if not e.is_thread || e.number == 0 || not e.whole || ltb uint32_max e.number
    then none
    else map_some (λ usage. (e.number, usage)) (child_usage_usec e.cpu_stat)

-- The slot of a thread.
unfoldable pub find_slot : List Slot → ℕ → Option Slot
find_slot [] tid = none
find_slot (s ∷ slots) tid = let rest = find_slot slots tid in if s.tid == tid then some s else rest

unfoldable pub put_slot : List Slot → Slot → List Slot
put_slot [] slot = slot ∷ []
put_slot (s ∷ slots) slot =
    let rest = put_slot slots slot in if s.tid == slot.tid then slot ∷ slots else s ∷ rest

-- `peak`, `available` and `reset`.
pub record Gathered : Type 0 where
  pub peak : ℕ
  pub available : Bool
  pub reset : Bool

abbrev pub with_percent : Gathered → Option ℕ → Gathered
with_percent g none = record g { available = false }
with_percent g (some percent) = record g {
  available = true;
  peak = if ltb g.peak percent then percent else g.peak;
}

-- The comparison of a thread's time with the last one.
unfoldable pub compare_usage : Gathered → Slot → ℕ → ℕ → Gathered
compare_usage g previous usage_usec now_ns =
    let elapsed = sub64 now_ns previous.sample_ns in
    let delta = sub64 usage_usec previous.usage_usec in
    if not (ltb previous.sample_ns now_ns)
    then g
    else if ltb usage_usec previous.usage_usec
    then record g { reset = true }
    else if ltb (uint64_max / 1000) delta
    then with_percent g (some 100)
    else with_percent g (utilisation 0 (mul64 delta 1000) elapsed)

abbrev pub compared : Gathered → Option Slot → ℕ → ℕ → Gathered
compared g none usage_usec now_ns = g
compared g (some previous) usage_usec now_ns = compare_usage g previous usage_usec now_ns

-- One entry; without a free slot it is passed over.
unfoldable pub take_entry : List Slot × Gathered → ℕ → Option (ℕ × ℕ) → List Slot × Gathered
take_entry (slots, g) now_ns none = (slots, g)
take_entry (slots, g) now_ns (some (tid, usage)) =
    let previous = find_slot slots tid in
    let slot : Slot = record { tid = tid; usage_usec = usage; sample_ns = now_ns } in
    let next : List Slot × Gathered = (put_slot slots slot, compared g previous usage now_ns) in
    elim previous [
      | none ↦ if ltb (length slots) max_slots then next else (slots, g)
      | some s ↦ next
    ]

unfoldable pub take_entries : List Slot × Gathered → ℕ → List Entry → List Slot × Gathered
take_entries state now_ns [] = state
take_entries state now_ns (e ∷ entries) =
    take_entries (take_entry state now_ns (read_entry e)) now_ns entries

unfoldable pub prune_thread_cpu_slots : List Slot → ℕ → List Slot
prune_thread_cpu_slots [] sample_ns = []
prune_thread_cpu_slots (s ∷ slots) sample_ns =
    let rest = prune_thread_cpu_slots slots sample_ns in
    if s.sample_ns == sample_ns then s ∷ rest else rest

abbrev pub invalidate_thread_cpu : ThreadSamples
invalidate_thread_cpu = record { slots = []; sample_ns = 0; percent = 0; available = false }

abbrev pub cached : ThreadSamples → Option ℕ
cached t = if t.available then some t.percent else none

abbrev pub gathered : ThreadSamples → ℕ → List Slot × Gathered → ThreadSamples × Option ℕ
gathered t now_ns (slots, g) =
    let left = prune_thread_cpu_slots slots now_ns in
    if g.reset || not g.available
    then (record t { slots = left; sample_ns = now_ns; available = false }, none)
    else (
      record { slots = left; sample_ns = now_ns; percent = g.peak; available = true },
      some g.peak,
    )

-- What the call adds to the snapshot is the second part; `directories` gives the entries of a directory that
-- opens.
unfoldable pub sample_thread_cpu :
    ThreadSamples → ℕ → Option Bytes → (Bytes → Option (List Entry)) → ThreadSamples × Option ℕ
sample_thread_cpu t now_ns line directories =
    if now_ns == 0 then (t, cached t) else elim (and_then (thread_cgroup_root line) directories) [
      | none ↦ (invalidate_thread_cpu, none)
      | some entries ↦
          if not (t.sample_ns == 0) && ltb (sub64 now_ns t.sample_ns) 1000000000
          then (t, cached t)
          else gathered t now_ns (
              take_entries (t.slots, record { peak = 0; available = false; reset = false }) now_ns
                entries)
    ]
