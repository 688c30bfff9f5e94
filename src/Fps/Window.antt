-- ===== src/Fps/Window.antt =====
-- What a sample of src/hud_fps.c is taken over.
use frame_pacer.Common.{
  ℕ, ◌+◌, ◌-◌, ◌^◌, ◌≤◌, ◌<◌, ◌≡◌, Bool, true, arith, List, [], ◌∷◌, length, Option, none, some,
  uint32_max, uint64_max, refl, inl, inr, Bool-cases, false, not, ◌||◌, ltb, leb, ◌==◌,
  if◌then◌else◌, sub64, ◌∙◌,
}
use frame_pacer.Fps.{
  Tracker, init, destroy, restarts, restart, count_present, capped_rate, take_sample,
  record_present, sample_ns, stale_ns,
}

-- What every call keeps: a window that is open is shorter than a sample, and the rate fits 32 bits.
pub record IsTracker (t : Tracker) : Type 0 where
  pub valid_started : t.valid ≡ true → t.started ≡ true
  pub start_le : t.sample_start_ns ≤ t.last_present_ns
  pub window_lt : t.last_present_ns < t.sample_start_ns + sample_ns
  pub last_lt : t.last_present_ns < 2 ^ 64
  pub intervals_le : t.present_intervals ≤ uint64_max
  pub fps_le : t.fps ≤ uint32_max

record_present-IsTracker :
    (rate : ℕ → ℕ → ℕ) (t : Tracker) (now_ns : ℕ)
    → IsTracker t
    → now_ns < 2 ^ 64
    → IsTracker (record_present rate t now_ns).0
unfolding record_present restarts restart count_present take_sample capped_rate
record_present-IsTracker rate t now_ns h small = ground arith

abbrev add_sample : Option ℕ → List ℕ → List ℕ
add_sample none samples = samples
add_sample (some fps) samples = fps ∷ samples

-- The presents of a tracker, oldest first, and the samples they produce.
abbrev pub present_all : (ℕ → ℕ → ℕ) → Tracker → List ℕ → Tracker × List ℕ
present_all rate t [] = (t, [])
present_all rate t (now_ns ∷ times) =
    let step = record_present rate t now_ns in
    let rest = present_all rate step.0 times in (rest.0, add_sample step.1 rest.1)

-- Each time is that of the previous present or later, by two seconds at most, and before `end_ns`.
abbrev pub Steady : ℕ → ℕ → List ℕ → Type 0
Steady end_ns last_ns [] = Unit
Steady end_ns last_ns (now_ns ∷ times) =
    (last_ns ≤ now_ns)
    × (now_ns ≤ last_ns + stale_ns)
    × (now_ns < end_ns)
    × Steady end_ns now_ns times

-- `initialized` and `started`, with `intervals` presents counted since `start_ns`.
pub record IsOpen (t : Tracker) (start_ns last_ns intervals : ℕ) : Type 0 where
  pub ready : t.initialized ≡ true
  pub going : t.started ≡ true
  pub start : t.sample_start_ns ≡ start_ns
  pub last : t.last_present_ns ≡ last_ns
  pub counted : t.present_intervals ≡ intervals

-- Inside the window a present is counted and gives no sample.
record_present-inside :
    (rate : ℕ → ℕ → ℕ) {t : Tracker} {start_ns last_ns intervals : ℕ} (now_ns : ℕ)
    → IsOpen t start_ns last_ns intervals
    → 1 ≤ start_ns
    → start_ns ≤ last_ns
    → last_ns ≤ now_ns
    → now_ns ≤ last_ns + stale_ns
    → now_ns < start_ns + sample_ns
    → now_ns < 2 ^ 64
    → intervals < uint64_max
    → IsOpen (record_present rate t now_ns).0 start_ns now_ns (intervals + 1)
      × ((record_present rate t now_ns).1 ≡ none)
unfolding record_present restarts restart count_present take_sample
record_present-inside rate now_ns o a b c d f g h =
    ground (arith, o.ready, o.going, o.start, o.last, o.counted)

-- Behind its end the present gives the sample of the window, and opens the next.
record_present-end :
    (rate : ℕ → ℕ → ℕ) {t : Tracker} {start_ns last_ns intervals : ℕ} (now_ns : ℕ)
    → IsOpen t start_ns last_ns intervals
    → 1 ≤ start_ns
    → start_ns ≤ last_ns
    → last_ns ≤ now_ns
    → now_ns ≤ last_ns + stale_ns
    → start_ns + sample_ns ≤ now_ns
    → now_ns < 2 ^ 64
    → intervals < uint64_max
    → IsOpen (record_present rate t now_ns).0 now_ns now_ns 0
      × ((record_present rate t now_ns).1
          ≡ some (capped_rate rate (intervals + 1) (now_ns - start_ns)))
unfolding record_present restarts restart count_present take_sample
record_present-end rate now_ns o a b c d f g h =
    ground (arith, o.ready, o.going, o.start, o.last, o.counted)

-- The time of the last of `times`, or `last_ns` without one.
abbrev pub last_of : ℕ → List ℕ → ℕ
last_of last_ns [] = last_ns
last_of last_ns (now_ns ∷ times) = last_of now_ns times

-- Presents before the end of the window are counted, and give no sample.
present_all-inside :
    (rate : ℕ → ℕ → ℕ) (times : List ℕ) {t : Tracker} {start_ns last_ns intervals total : ℕ}
    → IsOpen t start_ns last_ns intervals
    → 1 ≤ start_ns
    → start_ns ≤ last_ns
    → start_ns + sample_ns ≤ 2 ^ 64
    → intervals + length times ≡ total
    → total ≤ uint64_max
    → Steady (start_ns + sample_ns) last_ns times
    → IsOpen (present_all rate t times).0 start_ns (last_of last_ns times) total
      × ((present_all rate t times).1 ≡ [])
      × (start_ns ≤ last_of last_ns times)
present_all-inside rate [] {t} {start_ns} {last_ns} {intervals} {total} o one low fits sum few
      steady =
    (
      record {
        ready = o.ready;
        going = o.going;
        start = o.start;
        last = o.last;
        counted = omega (arith, o.counted);
      },
      refl,
      low,
    )
present_all-inside rate (now_ns ∷ times) {t} {start_ns} {last_ns} {intervals} o one low fits sum few
      steady =
    let step =
      record_present-inside rate {t = t} now_ns o one low steady.0 steady.1 steady.2 (omega arith)
        (omega arith) in
    rw (present_all, step.1)
      (present_all-inside rate times step.0 one (omega arith) fits (omega arith) few steady.3)

-- From the present that opens a window, a present before the window's end gives no sample, and the
-- first present behind it gives the rate of all presents since, over the time that they took, and opens
-- the next window. The condition is that no present is earlier than the one before it, or more than two
-- seconds later, and that the times and the count fit 64 bits.
pub present_all-window :
    (rate : ℕ → ℕ → ℕ) {t : Tracker} {start_ns : ℕ} (times : List ℕ) (now_ns : ℕ)
    → IsOpen t start_ns start_ns 0
    → 1 ≤ start_ns
    → start_ns + sample_ns ≤ now_ns
    → now_ns < 2 ^ 64
    → length times < uint64_max
    → Steady (start_ns + sample_ns) start_ns times
    → last_of start_ns times ≤ now_ns
    → now_ns ≤ last_of start_ns times + stale_ns
    → ((present_all rate t times).1 ≡ [])
      × ((record_present rate (present_all rate t times).0 now_ns).1
          ≡ some (capped_rate rate (length times + 1) (now_ns - start_ns)))
      × IsOpen (record_present rate (present_all rate t times).0 now_ns).0 now_ns now_ns 0
present_all-window rate {t} {start_ns} times now_ns o one behind small few steady later soon =
    let inside =
      present_all-inside rate times {total = length times} o one (omega arith) (omega arith)
        (omega arith) (omega arith) steady in
    let sampled =
      record_present-end rate now_ns inside.0 one inside.2 later soon behind small few in
    (inside.1, sampled.1, sampled.0)

-- A first present, or one that is early or more than two seconds late.
abbrev pub opens : Tracker → ℕ → Bool
opens t now_ns =
    not t.started || ltb now_ns t.last_present_ns || ltb (t.last_present_ns + stale_ns) now_ns

-- How many presents came behind the one that opened the window, given the same before the call and the sample
-- that it gives: none behind a sample or an opening present.
abbrev pub next_count : Tracker → ℕ → Option ℕ → ℕ → ℕ
next_count t now_ns (some fps) count = 0
next_count t now_ns none count =
    if not t.initialized || now_ns == 0 then count else if opens t now_ns then 0 else count + 1

-- The states that the calls lead to, made or not, then presents and `destroy` in any order; with the presents
-- behind the one that opened the window.
pub data Reach (rate : ℕ → ℕ → ℕ) : Tracker → ℕ → Type 0 where
  created : (made : Bool) → Reach rate (init made) 0
  presented :
      {t : Tracker} {count : ℕ} (now_ns : ℕ)
      → now_ns < 2 ^ 64
      → Reach rate t count
      → Reach rate
          (record_present rate t now_ns).0
          (next_count t now_ns (record_present rate t now_ns).1 count)
  destroyed : {t : Tracker} {count : ℕ} → Reach rate t count → Reach rate (destroy t) count

-- The presents are counted, up to the largest `uint64_t`.
abbrev pub IsCounted : Tracker → ℕ → Type 0
IsCounted t count =
    (count ≤ uint64_max → t.present_intervals ≡ count)
    × (uint64_max ≤ count → t.present_intervals ≡ uint64_max)

restarts-opens :
    (t : Tracker) (now_ns : ℕ)
    → t.last_present_ns < 2 ^ 64
    → now_ns < 2 ^ 64
    → restarts t now_ns ≡ opens t now_ns
unfolding restarts
restarts-opens t now_ns h k = ground arith

count_present-IsCounted :
    (t : Tracker) (count now_ns : ℕ)
    → IsCounted t count
    → IsCounted (count_present t now_ns) (count + 1)
unfolding count_present
count_present-IsCounted t count now_ns k = ground (arith, k)

take_sample-IsCounted :
    (rate : ℕ → ℕ → ℕ) (t : Tracker) (count now_ns : ℕ)
    → (not t.initialized || now_ns == 0) ≡ false
    → opens t now_ns ≡ false
    → IsCounted t count
    → IsCounted
        (take_sample rate (count_present t now_ns) now_ns).0
        (next_count t now_ns (take_sample rate (count_present t now_ns) now_ns).1 count)
unfolding take_sample
take_sample-IsCounted rate t count now_ns on e k =
    elim (Bool-cases (leb sample_ns (sub64 now_ns (count_present t now_ns).sample_start_ns))) [
      | inl due ↦ rw due (λ le. refl, λ ge. absurd (omega (arith, ge)))
      | inr early ↦ rw (early, next_count, on, e) (count_present-IsCounted t count now_ns k)
    ]

record_present-IsCounted :
    (rate : ℕ → ℕ → ℕ) (t : Tracker) (count now_ns : ℕ)
    → IsTracker t
    → IsCounted t count
    → now_ns < 2 ^ 64
    → IsCounted
        (record_present rate t now_ns).0
        (next_count t now_ns (record_present rate t now_ns).1 count)
unfolding record_present restart
record_present-IsCounted rate t count now_ns h k small =
    elim (Bool-cases (not t.initialized || now_ns == 0)) [
      | inl off ↦ rw (off, next_count, off) k
      | inr on ↦
          let same = restarts-opens t now_ns h.last_lt small in
          elim (Bool-cases (opens t now_ns)) [
            | inl e ↦
                let again : restarts t now_ns ≡ true = same ∙ e in
                rw (on, again, next_count, on, e) (λ le. refl, λ ge. absurd (omega (arith, ge)))
            | inr e ↦
                let on_it : restarts t now_ns ≡ false = same ∙ e in
                rw (record_present, on, on_it) (take_sample-IsCounted rate t count now_ns on e k)
          ]
    ]

-- In every state that is reached, a rate is shown only behind a first present, the open window is shorter
-- than a sample, the presents since it was opened are counted, up to 2 ^ 64 - 1 of them, and the rate fits 32
-- bits.
pub Reach-IsTracker :
    (rate : ℕ → ℕ → ℕ) {t : Tracker} {count : ℕ}
    → Reach rate t count
    → IsTracker t × IsCounted t count
unfolding init destroy
Reach-IsTracker rate (created made) = ground arith
Reach-IsTracker rate (presented {t} {count} now_ns small r) =
    let h = Reach-IsTracker rate r in
    (
      record_present-IsTracker rate t now_ns h.0 small,
      record_present-IsCounted rate t count now_ns h.0 h.1 small,
    )
Reach-IsTracker rate (destroyed {t} r) =
    let h = Reach-IsTracker rate r in let kept = h.0 in let counted = h.1 in ground arith
