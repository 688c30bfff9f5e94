-- ===== src/Hud/Gpu.antt =====
-- src/hud_metrics.c: which GPU a process uses, by the render nodes among its descriptors, and where the
-- temperature of an AMD GPU is read. What procfs and sysfs hold is an argument; the paths that are built
-- for it fit, as the names of sysfs are short.
pub mod Preferred
mod Tests
use frame_pacer.Common.{
  ℕ, zero, suc, ◌+◌, ◌-◌, ◌*◌, Bool, true, false, not, ◌&&◌, ◌||◌, ltb, leb, ◌==◌, if◌then◌else◌,
  and_then, behind_prefix, Bytes, List, [], ◌∷◌, get_or, length, same_bytes, Option, none, some,
  codes, uint32_max,
}
use frame_pacer.Limit.Text.{is_digit, drop}
use frame_pacer.Hud.Drm.Clients.{only_space}

-- `gpu_render_node`, `gpu_pci_bus_id` and `gpu_vendor`, the texts without their ends.
pub record Identity : Type 0 where
  pub render_node : Bytes
  pub pci_bus_id : Bytes
  pub vendor : ℕ

abbrev pub nvidia : ℕ
nvidia = 4318

abbrev amd : ℕ
amd = 4098

-- What stands behind the last `/`.
unfoldable pub base_name : Bytes → Bytes → Bytes
base_name [] base = base
base_name (c ∷ cs) base = if c == b'/' then base_name cs cs else base_name cs base

unfoldable pub all_digits : Bytes → Bool
all_digits [] = true
all_digits (c ∷ cs) = is_digit c && all_digits cs

unfoldable pub take_bytes : ℕ → Bytes → Bytes
take_bytes zero cs = []
take_bytes (suc n) [] = []
take_bytes (suc n) (c ∷ cs) = c ∷ take_bytes n cs

-- The result of `frame_pacer_metrics_parse_render_node`; `cut` is false too, with what it has written.
pub data RenderNode : Type 0 where
  no_node : RenderNode
  cut node : Bytes → RenderNode

abbrev pub node_digits : Bytes → Option Bytes → ℕ → RenderNode
node_digits base none size = no_node
node_digits base (some []) size = no_node
node_digits base (some (c ∷ cs)) size =
    if not (all_digits (c ∷ cs))
    then no_node
    else if ltb (length base) size
    then node base
    else cut (take_bytes (size - 1) base)

unfoldable pub parse_render_node : Bytes → ℕ → RenderNode
parse_render_node target size =
    let base = base_name target target in
    if size == 0 then no_node else node_digits base (behind_prefix (codes "renderD") base) size

-- `isxdigit`
abbrev is_hex : ℕ → Bool
is_hex c = is_digit c || leb b'a' c && leb c b'f' || leb b'A' c && leb c b'F'

abbrev hex_value : ℕ → ℕ
hex_value c = if is_digit c then c - b'0' else if leb b'a' c then c - b'a' + 10 else c - b'A' + 10

-- `strtoul` to the base 16 from a digit on, without its upper bound. With a `long` of 64 bits a
-- larger value is refused all the same; with one of 32 bits `strtoul` gives the largest, which is accepted.
unfoldable pub hex_loop : Bytes → ℕ → ℕ × Bytes
hex_loop [] value = (value, [])
hex_loop (c ∷ cs) value =
    let rest = hex_loop cs (value * 16 + hex_value c) in if is_hex c then rest else (value, c ∷ cs)

abbrev begins_hex : Bytes → Bool
begins_hex [] = false
begins_hex (c ∷ cs) = is_hex c

-- `strtoul` passes over one more `0x` or `0X` that a digit follows.
unfoldable pub skip_hex_mark : Bytes → Bytes
skip_hex_mark [] = []
skip_hex_mark (c ∷ []) = c ∷ []
skip_hex_mark (c ∷ d ∷ cs) =
    if c == b'0' && (d == b'x' || d == b'X') && begins_hex cs then cs else c ∷ d ∷ cs

abbrev vendor_value : ℕ × Bytes → Option ℕ
vendor_value step = if not (only_space step.1) || ltb uint32_max step.0 then none else some step.0

unfoldable pub parse_gpu_vendor : Bytes → Option ℕ
parse_gpu_vendor text =
    and_then (behind_prefix (codes "0x") text)
      (λ rest. if begins_hex rest then vendor_value (hex_loop (skip_hex_mark rest) 0) else none)

abbrev hex_at : Bytes → ℕ → Bool
hex_at base at = is_hex (get_or base at 0)

-- For an array of at least 13 bytes.
unfoldable pub parse_pci_bus_id : Bytes → Option Bytes
parse_pci_bus_id target =
    let base = base_name target target in
    if length base == 12
      && get_or base 4 0 == b':'
      && get_or base 7 0 == b':'
      && get_or base 10 0 == b'.'
      && (hex_at base 0 && hex_at base 1 && hex_at base 2 && hex_at base 3)
      && (hex_at base 5 && hex_at base 6 && hex_at base 8 && hex_at base 9)
      && hex_at base 11
    then some base
    else none

-- What sysfs has for a render node: the file of its vendor, if it opens, with the line if one is read, and
-- the link to its device.
pub record Sysfs : Type 0 where
  pub vendor_file : Option (Option Bytes)
  pub device_link : Option Bytes

abbrev pub vendor_of : Option Bytes → ℕ
vendor_of line = elim (and_then line parse_gpu_vendor) [ none ↦ 0 | some vendor ↦ vendor ]

abbrev pub pci_of : Option Bytes → Bytes
pci_of link = elim (and_then link parse_pci_bus_id) [ none ↦ [] | some pci ↦ pci ]

-- `find_gpu_identity`, for a render node that is set.
unfoldable pub identify : (Bytes → Sysfs) → Bytes → Identity
identify sysfs render_node = elim (sysfs render_node).vendor_file [
  | none ↦ record { render_node = render_node; pci_bus_id = []; vendor = 0 }
  | some line ↦ record {
    render_node = render_node;
    pci_bus_id = pci_of (sysfs render_node).device_link;
    vendor = vendor_of line;
  }
]

abbrev pub or_first : Option Identity → Identity → Option Identity
or_first none identity = some identity
or_first (some first) identity = some first

-- The loop over the descriptors: the identity that it leaves, and the fallback. A descriptor that is hidden
-- or has no target is `none`.
unfoldable pub scan :
    (Bytes → Sysfs) → List (Option Bytes) → Identity → Option Identity → Identity × Option Identity
scan sysfs [] gpu fallback = (gpu, fallback)
scan sysfs (none ∷ targets) gpu fallback = scan sysfs targets gpu fallback
scan sysfs (some target ∷ targets) gpu fallback = elim (parse_render_node target 32) [
  | no_node ↦ scan sysfs targets gpu fallback
  | cut text ↦ scan sysfs targets (record gpu { render_node = text }) fallback
  | node text ↦
      let found = identify sysfs text in
      let rest = scan sysfs targets found (or_first fallback found) in
      if found.vendor == nvidia then (found, fallback) else rest
]

abbrev pub settle : Identity × Option Identity → Identity
settle (gpu, none) = gpu
settle (gpu, some fallback) = if gpu.vendor == nvidia then gpu else fallback

-- One of the inputs temp1 to temp3 of a monitor, of those that `access` lets read; `label` if it is read whole.
pub record Sensor : Type 0 where
  pub number : ℕ
  pub path : Bytes
  pub label : Option Bytes

pub record Monitor : Type 0 where
  pub name : Option Bytes
  pub sensors : List Sensor

abbrev is_text : Bytes → Option Bytes → Bool
is_text word none = false
is_text word (some text) = same_bytes text word

-- The fallback of one monitor, or the sensor that ends the search.
unfoldable pub search_sensors : List Sensor → Option Bytes → Option Bytes × Option Bytes
search_sensors [] fallback = (fallback, none)
search_sensors (s ∷ sensors) fallback =
    let next : Option Bytes = elim fallback [
      | none ↦ if s.number == 1 then some s.path else none
      | some path ↦ some path
    ] in
    let rest = search_sensors sensors next in
    if is_text (codes "edge") s.label then (next, some s.path) else rest

unfoldable pub search_monitors : List Monitor → Option Bytes → Option Bytes
search_monitors [] fallback = fallback
search_monitors (m ∷ monitors) fallback =
    let here = search_sensors m.sensors fallback in
    let skip = search_monitors monitors fallback in
    let rest = search_monitors monitors here.0 in
    if is_text (codes "amdgpu") m.name || is_text (codes "radeon") m.name
    then elim here.1 [ none ↦ rest | some path ↦ some path ]
    else skip

-- The path that is stored: one that does not fit is refused.
unfoldable pub find_amd_temperature : Identity → List Monitor → Bytes
find_amd_temperature gpu monitors =
    if not (gpu.vendor == amd) || length gpu.render_node == 0
    then []
    else elim (search_monitors monitors none) [
      | none ↦ []
      | some path ↦ if ltb (length path) 256 then path else []
    ]

-- `find_process_gpu` with what it leaves in `gpu_temp_path`. `monitors` are those of a render node, hidden
-- entries left out, and empty if their directory does not open; `targets` is none if that of the descriptors
-- does not.
unfoldable pub find_process_gpu :
    Identity × Bytes
    → ℕ
    → Option (List (Option Bytes))
    → (Bytes → Sysfs)
    → (Bytes → List Monitor)
    → Identity × Bytes
find_process_gpu before process_id none sysfs monitors = before
find_process_gpu before process_id (some targets) sysfs monitors =
    let gpu = settle (scan sysfs targets before.0 none) in
    if process_id == 0 then before else (gpu, find_amd_temperature gpu (monitors gpu.render_node))
