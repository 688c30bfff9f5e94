-- ===== src/Hud/Sampling/Threads/Bounded.antt =====
-- The slots of src/hud_metrics.c: one for each thread of the last sample, and a percentage.
use mathlib.Core.Path.{subst}
use frame_pacer.Common.{
  OnSome, ℕ, ◌+◌, ◌/◌, ◌≤◌, ◌≡◌, ◌⊎◌, inl, inr, false, Bool-cases, Option-cases, arith, not, ◌&&◌,
  ◌||◌, ltb, ◌==◌, and_then, Bytes, All, List, [], ◌∷◌, length, Option, none, some, sub64, mul64,
  refl, uint64_max,
}
use frame_pacer.Hud.Drm.Utilisation.Rounded.{utilisation-le}
use frame_pacer.Hud.Sampling.Threads.{
  max_slots, Slot, ThreadSamples, thread_cgroup_root, Entry, read_entry, find_slot, put_slot,
  Gathered, with_percent, compare_usage, compared, take_entry, take_entries, prune_thread_cpu_slots,
  cached, gathered, sample_thread_cpu,
}

-- No thread has two slots.
abbrev pub Distinct : List Slot → Type 0
Distinct [] = Unit
Distinct (s ∷ slots) = (find_slot slots s.tid ≡ none) × Distinct slots

abbrev Few : List Slot → Type 0
Few slots = Distinct slots × (length slots ≤ max_slots)

put_slot-other :
    (slots : List Slot) (slot : Slot) (tid : ℕ)
    → slot.tid == tid ≡ false
    → find_slot slots tid ≡ none
    → find_slot (put_slot slots slot) tid ≡ none
unfolding find_slot put_slot
put_slot-other [] slot tid h e = rw h refl
put_slot-other (s ∷ slots) slot tid h e =
    let head : s.tid == tid ≡ false = elim (Bool-cases (s.tid == tid)) [
      | inl same ↦ let wrong : some s ≡ none = rw same at e in absurd cc
      | inr other ↦ other
    ] in
    let tail : find_slot slots tid ≡ none = rw head at e in
    elim (Bool-cases (s.tid == slot.tid)) [
      | inl same ↦ rw (same, h) tail
      | inr other ↦ rw (other, head) (put_slot-other slots slot tid h tail)
    ]

put_slot-Distinct :
    (slots : List Slot) (slot : Slot) → Distinct slots → Distinct (put_slot slots slot)
unfolding find_slot put_slot
put_slot-Distinct [] slot d = (refl, tt)
put_slot-Distinct (s ∷ slots) slot d = elim (Bool-cases (s.tid == slot.tid)) [
  | inl same ↦ rw same (
      let one : s.tid ≡ slot.tid = ground (arith, same) in
      (subst (λ t. find_slot slots t ≡ none) one d.0, d.1))
  | inr other ↦ rw other (
    put_slot-other slots slot s.tid (ground (arith, other)) d.0,
    put_slot-Distinct slots slot d.1,
  )
]

length-put_slot :
    (slots : List Slot) (slot : Slot)
    → ((find_slot slots slot.tid ≡ none) × (length (put_slot slots slot) ≡ length slots + 1))
      ⊎ ((s : Slot) × (find_slot slots slot.tid ≡ some s)
          × (length (put_slot slots slot) ≡ length slots))
unfolding find_slot put_slot
length-put_slot [] slot = inl (refl, refl)
length-put_slot (s ∷ slots) slot = elim (Bool-cases (s.tid == slot.tid)) [
  | inl same ↦ inr (s, rw same refl, rw same refl)
  | inr other ↦
      rw (find_slot, put_slot, other)
        (elim (length-put_slot slots slot) [
          | inl (e, l) ↦ inl (e, omega (arith, l))
          | inr (t, e, l) ↦ inr (t, e, omega (arith, l))
        ])
]

with_percent-le :
    (g : Gathered) (o : Option ℕ)
    → g.peak ≤ 100
    → OnSome (λ percent. percent ≤ 100) o
    → (with_percent g o).peak ≤ 100
with_percent-le g none h k = h
with_percent-le g (some p) h k = elim (Bool-cases (ltb g.peak p)) [
  | inl above ↦ rw above k
  | inr below ↦ rw below h
]

compare_usage-le :
    (g : Gathered) (previous : Slot) (usage_usec now_ns : ℕ)
    → g.peak ≤ 100
    → (compare_usage g previous usage_usec now_ns).peak ≤ 100
unfolding compare_usage
compare_usage-le g previous u now h =
    let delta = sub64 u previous.usage_usec in
    elim (Bool-cases (not (ltb previous.sample_ns now))) [
      | inl early ↦ rw early h
      | inr later ↦ rw later (elim (Bool-cases (ltb u previous.usage_usec)) [
        | inl back ↦ rw back h
        | inr on ↦ rw on (elim (Bool-cases (ltb (uint64_max / 1000) delta)) [
          | inl large ↦ rw large (with_percent-le g (some 100) h (omega arith))
          | inr small ↦ rw small (
              with_percent-le g _ h
                (utilisation-le 0 (mul64 delta 1000) (sub64 now previous.sample_ns)))
        ])
      ])
    ]

-- What holds between the entries: distinct slots, not too many, and a percentage.
abbrev IsGathered : List Slot × Gathered → Type 0
IsGathered (slots, g) = Few slots × (g.peak ≤ 100)

compared-le :
    (g : Gathered) (previous : Option Slot) (usage_usec now_ns : ℕ)
    → g.peak ≤ 100
    → (compared g previous usage_usec now_ns).peak ≤ 100
compared-le g none u now h = h
compared-le g (some previous) u now h = compare_usage-le g previous u now h

take_entry-IsGathered :
    (state : List Slot × Gathered) (now_ns : ℕ) (entry : Option (ℕ × ℕ))
    → IsGathered state
    → IsGathered (take_entry state now_ns entry)
unfolding take_entry
take_entry-IsGathered (slots, g) now none h = h
take_entry-IsGathered (slots, g) now (some (tid, usage)) h =
    let slot : Slot = record { tid = tid; usage_usec = usage; sample_ns = now } in
    let d = put_slot-Distinct slots slot h.0.0 in
    let low = compared-le g (find_slot slots tid) usage now h.1 in
    elim (length-put_slot slots slot) [
      | inl (e, l) ↦ elim (Bool-cases (ltb (length slots) max_slots)) [
        | inl room ↦ rw (take_entry, e, room) ((d, ground (arith, l, room)), low)
        | inr full ↦ rw (take_entry, e, full) h
      ]
      | inr (s, e, l) ↦ rw (take_entry, e) ((d, omega (arith, l, h.0.1)), low)
    ]

take_entries-IsGathered :
    (state : List Slot × Gathered) (now_ns : ℕ) (entries : List Entry)
    → IsGathered state
    → IsGathered (take_entries state now_ns entries)
unfolding take_entries
take_entries-IsGathered state now [] h = h
take_entries-IsGathered state now (e ∷ entries) h =
    take_entries-IsGathered (take_entry state now (read_entry e)) now entries
      (take_entry-IsGathered state now (read_entry e) h)

prune-unused :
    (slots : List Slot) (sample_ns tid : ℕ)
    → find_slot slots tid ≡ none
    → find_slot (prune_thread_cpu_slots slots sample_ns) tid ≡ none
unfolding find_slot prune_thread_cpu_slots
prune-unused [] n tid e = refl
prune-unused (s ∷ slots) n tid e =
    let head : s.tid == tid ≡ false = elim (Bool-cases (s.tid == tid)) [
      | inl same ↦ let wrong : some s ≡ none = rw same at e in absurd cc
      | inr other ↦ other
    ] in
    let tail : find_slot slots tid ≡ none = rw head at e in
    elim (Bool-cases (s.sample_ns == n)) [
      | inl now ↦ rw (now, head) (prune-unused slots n tid tail)
      | inr old ↦ rw old (prune-unused slots n tid tail)
    ]

-- What is left is of the time of the sample.
prune-Few :
    (slots : List Slot) (sample_ns : ℕ)
    → Distinct slots
    → Distinct (prune_thread_cpu_slots slots sample_ns)
      × (length (prune_thread_cpu_slots slots sample_ns) ≤ length slots)
      × All (λ s. s.sample_ns ≡ sample_ns) (prune_thread_cpu_slots slots sample_ns)
unfolding prune_thread_cpu_slots
prune-Few [] n d = (tt, omega arith, tt)
prune-Few (s ∷ slots) n d =
    let ih = prune-Few slots n d.1 in
    elim (Bool-cases (s.sample_ns == n)) [
      | inl now ↦
          rw now (
            (prune-unused slots n s.tid d.0, ih.0),
            omega (arith, ih.1),
            (ground (arith, now), ih.2),
          )
      | inr old ↦ rw old (ih.0, omega (arith, ih.1), ih.2)
    ]

-- Between the samples: at most 1024 slots, one for each thread and all of the last sample's time, and a
-- percentage.
pub record IsThreads (t : ThreadSamples) : Type 0 where
  pub distinct : Distinct t.slots
  pub few : length t.slots ≤ max_slots
  pub current : All (λ s. s.sample_ns ≡ t.sample_ns) t.slots
  pub percent_le : t.percent ≤ 100

gathered-IsThreads :
    (t : ThreadSamples) (now_ns : ℕ) (state : List Slot × Gathered)
    → t.percent ≤ 100
    → IsGathered state
    → IsThreads (gathered t now_ns state).0
      × OnSome (λ percent. percent ≤ 100) (gathered t now_ns state).1
gathered-IsThreads t now (slots, g) low h =
    let left = prune-Few slots now h.0.0 in
    elim (Bool-cases (g.reset || not g.available)) [
      | inl lost ↦ rw lost (
        record {
          distinct = left.0;
          few = omega (arith, left.1, h.0.1);
          current = left.2;
          percent_le = low;
        },
        tt,
      )
      | inr kept ↦ rw kept (
        record {
          distinct = left.0;
          few = omega (arith, left.1, h.0.1);
          current = left.2;
          percent_le = h.1;
        },
        h.1,
      )
    ]

cached-le : (t : ThreadSamples) → t.percent ≤ 100 → OnSome (λ percent. percent ≤ 100) (cached t)
cached-le t h = elim (Bool-cases t.available) [ inl e ↦ rw e h | inr e ↦ rw e tt ]

pub sample_thread_cpu-IsThreads :
    (t : ThreadSamples) (now_ns : ℕ) (line : Option Bytes)
    (directories : Bytes → Option (List Entry))
    → IsThreads t
    → IsThreads (sample_thread_cpu t now_ns line directories).0
      × OnSome (λ percent. percent ≤ 100) (sample_thread_cpu t now_ns line directories).1
unfolding sample_thread_cpu
sample_thread_cpu-IsThreads t now line directories h = elim (Bool-cases (now == 0)) [
  | inl stopped ↦ rw stopped (h, cached-le t h.percent_le)
  | inr runs ↦ rw runs (elim (Option-cases (and_then (thread_cgroup_root line) directories)) [
    | inl e ↦
        rw (sample_thread_cpu, e)
          (record { distinct = tt; few = omega arith; current = tt; percent_le = omega arith }, tt)
    | inr (entries, e) ↦
        rw (sample_thread_cpu, e)
          (elim (Bool-cases (not (t.sample_ns == 0) && ltb (sub64 now t.sample_ns) 1000000000)) [
            | inl soon ↦ rw soon (h, cached-le t h.percent_le)
            | inr due ↦ rw due (
                gathered-IsThreads t now _ h.percent_le
                  (take_entries-IsGathered _ now entries ((h.distinct, h.few), omega arith)))
          ])
  ])
]
