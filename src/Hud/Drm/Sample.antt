-- ===== src/Hud/Drm/Sample.antt =====
-- src/hud_drm_fdinfo.c: one sample of a process, taken from its descriptors and compared with the last.
pub mod Committed
pub mod Gathered
pub mod Followed
mod Tests
use frame_pacer.Common.{
  ℕ, zero, suc, ◌+◌, ◌-◌, Bool, true, false, not, ◌&&◌, ◌||◌, ltb, leb, ◌==◌, if◌then◌else◌,
  and_then, List, [], ◌∷◌, Option, none, some, add64, sub64, uint64_max,
}
use frame_pacer.Hud.Drm.Utilisation.{utilisation}
use frame_pacer.Hud.Drm.Clients.{
  Client, Engines, Fdinfo, FdinfoResult, skipped, invalid, valid, read_fdinfo, merge_client,
}

-- The slots in use stand in a list.
pub record DrmFdinfo : Type 0 where
  pub clients : List Client
  pub previous_sample_ns : ℕ
  pub cached_use_percent : ℕ
  pub started : Bool
  pub available : Bool

-- `deltas` and `comparable` of one engine.
pub record Total : Type 0 where
  pub delta : ℕ
  pub comparable : Bool

pub previous_client : List Client → ℕ → Option Client
previous_client [] id = none
previous_client (c ∷ cs) id =
    let rest = previous_client cs id in if c.client_id == id then some c else rest

-- One round of the inner loop: the baseline of the engine and the total, unless it overflows.
pub commit_engine : Bool → Option ℕ → Option ℕ → Total → Option (Option ℕ × Total)
commit_engine elapsed_valid previous none total = some (none, total)
commit_engine elapsed_valid none (some current) total = some (some current, total)
commit_engine elapsed_valid (some high) (some current) total =
    if not elapsed_valid
    then some (some current, total)
    else if ltb current high
    then some (some high, record total { comparable = true })
    else if ltb (uint64_max - total.delta) (current - high)
    then none
    else some (some current, record { delta = total.delta + (current - high); comparable = true })

abbrev pub engines_of : Option Client → Engines (Option ℕ)
engines_of none = record { render = none; gfx = none; compute = none }
engines_of (some c) = c.engines

-- The slot of a client from the rounds of its engines.
abbrev pub slot :
    Client
    → Option (Option ℕ × Total)
    → Option (Option ℕ × Total)
    → Option (Option ℕ × Total)
    → Option (Client × Engines Total)
slot observed none g c = none
slot observed (some r) none c = none
slot observed (some r) (some g) none = none
slot observed (some (render, r)) (some (gfx, g)) (some (compute, c)) = some (
  record observed { engines = record { render = render; gfx = gfx; compute = compute } },
  record { render = r; gfx = g; compute = c },
)

-- The inner loop: the client's slot, and the totals of the engines.
pub commit_client : Bool → Option Client → Client → Engines Total → Option (Client × Engines Total)
commit_client elapsed_valid previous observed totals =
    let before = engines_of previous in
    let now = observed.engines in
    slot observed (commit_engine elapsed_valid before.render now.render totals.render)
      (commit_engine elapsed_valid before.gfx now.gfx totals.gfx)
      (commit_engine elapsed_valid before.compute now.compute totals.compute)

abbrev pub add_client :
    Client → Option (List Client × Engines Total) → Option (List Client × Engines Total)
add_client c none = none
add_client c (some (next, totals)) = some (c ∷ next, totals)

-- The outer loop.
pub commit_clients :
    Bool → List Client → List Client → Engines Total → Option (List Client × Engines Total)
commit_clients elapsed_valid clients [] totals = some ([], totals)
commit_clients elapsed_valid clients (observed ∷ rest) totals =
    and_then
      (commit_client elapsed_valid (previous_client clients observed.client_id) observed totals)
      (λ step. add_client step.0 (commit_clients elapsed_valid clients rest step.1))

abbrev pub higher_peak : Option ℕ → Option ℕ → Option ℕ
higher_peak peak none = peak
higher_peak none (some percent) = some percent
higher_peak (some highest) (some percent) =
    if ltb highest percent then some percent else some highest

-- `peak` with `available`: the highest percentage so far.
pub raise_peak : Option ℕ → Total → ℕ → Option ℕ
raise_peak peak total elapsed_ns =
    if not total.comparable then peak else higher_peak peak (utilisation 0 total.delta elapsed_ns)

pub peak_of : Engines Total → ℕ → Option ℕ
peak_of totals elapsed_ns =
    raise_peak (raise_peak (raise_peak none totals.render elapsed_ns) totals.gfx elapsed_ns)
      totals.compute elapsed_ns

abbrev pub no_total : Total
no_total = record { delta = 0; comparable = false }

abbrev pub or_zero : Option ℕ → ℕ
or_zero none = 0
or_zero (some n) = n

abbrev pub is_some : Option ℕ → Bool
is_some none = false
is_some (some n) = true

abbrev pub committed :
    DrmFdinfo → ℕ → Bool → Option (List Client × Engines Total) → Option (DrmFdinfo × Option ℕ)
committed state now_ns elapsed_valid none = none
committed state now_ns elapsed_valid (some (next, totals)) =
    let peak =
      if elapsed_valid then peak_of totals (sub64 now_ns state.previous_sample_ns) else none in
    some (
      record {
        clients = next;
        previous_sample_ns = now_ns;
        cached_use_percent = or_zero peak;
        started = true;
        available = is_some peak;
      },
      peak,
    )

-- None where the source returns before it stores anything.
pub commit_sample : DrmFdinfo → List Client → ℕ → Option (DrmFdinfo × Option ℕ)
commit_sample state observed now_ns =
    let elapsed_valid = state.started && ltb state.previous_sample_ns now_ns in
    if state.started && not elapsed_valid
    then none
    else committed state now_ns elapsed_valid (
        commit_clients elapsed_valid state.clients observed
          (record { render = no_total; gfx = no_total; compute = no_total }))

-- A name of the directory of descriptors; `matches`: it is no hidden one and leads to the render node.
pub record Descriptor : Type 0 where
  pub matches : Bool
  pub file : Fdinfo

abbrev pub after_read : FdinfoResult → List Client → Option (List Client)
after_read skipped clients = some clients
after_read invalid clients = none
after_read (valid candidate) clients = merge_client clients candidate

-- The clients of the descriptors, unless one of them is invalid or there are too many.
pub collect_clients : List Descriptor → List Client → Option (List Client)
collect_clients [] clients = some clients
collect_clients (d ∷ descriptors) clients =
    let skip = collect_clients descriptors clients in
    if not d.matches
    then skip
    else and_then (after_read (read_fdinfo d.file) clients)
        (λ next. collect_clients descriptors next)

-- The directory: none if it does not open; `ends`: it is read to its end and closes without an error.
pub record Directory : Type 0 where
  pub descriptors : List Descriptor
  pub ends : Bool

abbrev pub unavailable : DrmFdinfo → DrmFdinfo
unavailable state = record state { available = false; cached_use_percent = 0 }

abbrev pub sampled : DrmFdinfo → Option (DrmFdinfo × Option ℕ) → DrmFdinfo × Option ℕ
sampled state none = (unavailable state, none)
sampled state (some (next, none)) = (unavailable next, none)
sampled state (some (next, some percent)) = (next, some percent)

-- The percentage, where the source returns true.
pub sample_from_root : DrmFdinfo → Option Directory → ℕ → DrmFdinfo × Option ℕ
sample_from_root state none now_ns = (state, none)
sample_from_root state (some directory) now_ns = elim (collect_clients directory.descriptors []) [
  | none ↦ (unavailable state, none)
  | some clients ↦
      if directory.ends
      then sampled state (commit_sample state clients now_ns)
      else (unavailable state, none)
]
