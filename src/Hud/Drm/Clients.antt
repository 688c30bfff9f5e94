-- ===== src/Hud/Drm/Clients.antt =====
-- What src/hud_drm_fdinfo.c reads of one process: a client per identity, with the counters of its engines.
pub mod Merged
use frame_pacer.Common.{
  ℕ, zero, suc, ◌+◌, ◌-◌, ◌/◌, Bool, true, false, not, ◌&&◌, ◌||◌, ltb, leb, ◌==◌, if◌then◌else◌,
  behind_prefix, Bytes, List, [], ◌∷◌, ◌++◌, length, Option, none, some, codes, add64, mul64,
  uint64_max, map_some,
}
use frame_pacer.Limit.Text.{is_space, is_digit}

abbrev pub max_clients : ℕ
max_clients = 64

-- One value for each of the three engines.
pub record Engines {ℓ} (A : Type ℓ) : Type ℓ where
  pub render : A
  pub gfx : A
  pub compute : A

pub data Engine : Type 0 where
  render_engine gfx_engine compute_engine : Engine

-- `struct observed_client`, and `struct frame_pacer_drm_client_state` of a slot in use.
pub record Client : Type 0 where
  pub client_id : ℕ
  pub engines : Engines (Option ℕ)

abbrev or_else {ℓ} : {A : Type ℓ} → Option A → Option A → Option A
or_else none other = other
or_else (some a) other = some a

unfoldable pub core_engine : Bytes → Option (Engine × Bytes)
core_engine line =
    or_else
      (map_some (λ rest. (render_engine, rest)) (behind_prefix (codes "drm-engine-render:") line))
      (or_else
        (map_some (λ rest. (gfx_engine, rest)) (behind_prefix (codes "drm-engine-gfx:") line))
        (map_some (λ rest. (compute_engine, rest))
          (behind_prefix (codes "drm-engine-compute:") line)))

abbrev pub is_blank : ℕ → Bool
is_blank c = c == b' ' || c == 9

unfoldable pub skip_blank : Bytes → Bytes
skip_blank [] = []
skip_blank (c ∷ cs) = if is_blank c then skip_blank cs else c ∷ cs

unfoldable pub only_space : Bytes → Bool
only_space [] = true
only_space (c ∷ cs) = is_space c && only_space cs

-- The `do` loop: the digits' value and what follows them, unless it passes UINT64_MAX.
unfoldable pub digits64 : Bytes → ℕ → Option (ℕ × Bytes)
digits64 [] parsed = some (parsed, [])
digits64 (c ∷ cs) parsed =
    let digit = c - b'0' in
    let rest = digits64 cs (add64 (mul64 parsed 10) digit) in
    if not (is_digit c)
    then some (parsed, c ∷ cs)
    else if ltb ((uint64_max - digit) / 10) parsed
    then none
    else rest

-- A first digit is asked for.
unfoldable pub number64 : Bytes → Option (ℕ × Bytes)
number64 [] = none
number64 (c ∷ cs) = if is_digit c then digits64 (c ∷ cs) 0 else none

abbrev value_before_space : Option (ℕ × Bytes) → Option ℕ
value_before_space none = none
value_before_space (some (value, rest)) = if only_space rest then some value else none

unfoldable pub parse_unsigned : Bytes → Option ℕ
parse_unsigned text = value_before_space (number64 (skip_blank text))

abbrev in_ns : Option (ℕ × Bytes) → Option ℕ
in_ns none = none
in_ns (some (value, rest)) = elim (behind_prefix (codes "ns") (skip_blank rest)) [
  | none ↦ none
  | some end ↦ if only_space end then some value else none
]

abbrev with_engine : Option (Engine × Bytes) → Option (Engine × ℕ)
with_engine none = none
with_engine (some (engine, rest)) =
    map_some (λ value. (engine, value)) (in_ns (number64 (skip_blank rest)))

unfoldable pub parse_engine_ns : Bytes → Option (Engine × ℕ)
parse_engine_ns line = with_engine (core_engine line)

-- A line that `fgets` read; `complete`: with its end, or at the end of the file.
pub record Line : Type 0 where
  pub text : Bytes
  pub complete : Bool

-- The locals of `read_fdinfo`.
pub record Reading : Type 0 where
  pub client : Client
  pub have_client : Bool
  pub have_engine : Bool

-- The counter, if it is the first or a higher one.
unfoldable pub higher : Option ℕ → Option ℕ → Option ℕ
higher old none = old
higher none (some new) = some new
higher (some old) (some new) = if ltb old new then some new else some old

abbrev pub on_engine : Engine → (Option ℕ → Option ℕ) → Engines (Option ℕ) → Engines (Option ℕ)
on_engine render_engine f e = record e { render = f e.render }
on_engine gfx_engine f e = record e { gfx = f e.gfx }
on_engine compute_engine f e = record e { compute = f e.compute }

abbrev set_engine : Reading → Option (Engine × ℕ) → Option Reading
set_engine r none = none
set_engine r (some (engine, value)) = some (record {
  client = record r.client {
    engines = on_engine engine (λ old. higher old (some value)) r.client.engines;
  };
  have_client = r.have_client;
  have_engine = true;
})

abbrev set_client : Reading → Option ℕ → Option Reading
set_client r none = none
set_client r (some id) =
    if r.have_client
    then none
    else some (record r { client = record r.client { client_id = id }; have_client = true })

unfoldable pub read_line : Bytes → Reading → Option Reading
read_line text r = elim (behind_prefix (codes "drm-client-id:") text) [
  | some rest ↦ set_client r (parse_unsigned rest)
  | none ↦ elim (core_engine text) [ none ↦ some r | some e ↦ set_engine r (parse_engine_ns text) ]
]

unfoldable pub read_lines : List Line → Reading → Option Reading
read_lines [] r = some r
read_lines (line ∷ lines) r =
    if not line.complete
    then none
    else elim (read_line line.text r) [ none ↦ none | some next ↦ read_lines lines next ]

-- The file of a descriptor: whether its path fits, it opens, and an error stops the reading.
pub record Fdinfo : Type 0 where
  pub path_fits : Bool
  pub opens : Bool
  pub lines : List Line
  pub read_error : Bool

pub data FdinfoResult : Type 0 where
  skipped invalid : FdinfoResult
  valid : Client → FdinfoResult

abbrev pub no_client : Client
no_client = record { client_id = 0; engines = record { render = none; gfx = none; compute = none } }

abbrev finished : Bool → Option Reading → FdinfoResult
finished read_error none = invalid
finished read_error (some r) =
    if not read_error && r.have_client && r.have_engine then valid r.client else invalid

unfoldable pub read_fdinfo : Fdinfo → FdinfoResult
read_fdinfo file =
    if not file.path_fits
    then invalid
    else if not file.opens
    then skipped
    else finished file.read_error (
        read_lines file.lines
          (record { client = no_client; have_client = false; have_engine = false }))

unfoldable pub merge_engines : Engines (Option ℕ) → Engines (Option ℕ) → Engines (Option ℕ)
merge_engines old new = record {
  render = higher old.render new.render;
  gfx = higher old.gfx new.gfx;
  compute = higher old.compute new.compute;
}

-- `room`: the slots that are left.
unfoldable pub merge_into : ℕ → List Client → Client → Option (List Client)
merge_into room [] candidate = if room == 0 then none else some (candidate ∷ [])
merge_into room (c ∷ cs) candidate =
    let rest = merge_into (room - 1) cs candidate in
    if c.client_id == candidate.client_id
    then some (record c { engines = merge_engines c.engines candidate.engines } ∷ cs)
    else map_some (λ merged. c ∷ merged) rest

unfoldable pub merge_client : List Client → Client → Option (List Client)
merge_client clients candidate = merge_into max_clients clients candidate
