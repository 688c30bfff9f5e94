-- ===== src/Hud/Gpu/Preferred.antt =====
-- The GPU that src/hud_metrics.c settles on among several.
use mathlib.Core.Path.{subst}
use frame_pacer.Common.{
  ℕ, ◌≡◌, ◌⊎◌, inl, inr, true, false, Bool-cases, Bytes, ◌==◌, if◌then◌else◌, List, [], ◌∷◌, Option,
  none, some, refl, ◌≤◌, arith,
}
use frame_pacer.Hud.Gpu.{
  Identity, nvidia, RenderNode, no_node, cut, node, parse_render_node, Sysfs, identify, or_first,
  scan, settle, Monitor, find_process_gpu,
}

-- The render nodes of the descriptors.
abbrev pub render_nodes : List (Option Bytes) → List Bytes
render_nodes [] = []
render_nodes (none ∷ targets) = render_nodes targets
render_nodes (some target ∷ targets) = elim (parse_render_node target 32) [
  | no_node ↦ render_nodes targets
  | cut text ↦ render_nodes targets
  | node text ↦ text ∷ render_nodes targets
]

-- The first node of NVIDIA.
abbrev pub first_nvidia : (Bytes → Sysfs) → List Bytes → Option Identity
first_nvidia sysfs [] = none
first_nvidia sysfs (text ∷ nodes) =
    let found = identify sysfs text in
    if found.vendor == nvidia then some found else first_nvidia sysfs nodes

abbrev pub first_node : (Bytes → Sysfs) → List Bytes → Option Identity
first_node sysfs [] = none
first_node sysfs (text ∷ nodes) = some (identify sysfs text)

-- The first choice, or else the second.
abbrev pub preferred : Option Identity → Option Identity → Option Identity
preferred (some gpu) other = some gpu
preferred none other = other

-- What is left of `before` if there is no choice: all but the name of the node.
abbrev pub IsChoice : Identity → Option Identity → Identity → Type 0
IsChoice before none gpu = (gpu.vendor ≡ before.vendor) × (gpu.pci_bus_id ≡ before.pci_bus_id)
IsChoice before (some choice) gpu = gpu ≡ choice

abbrev Seen : Option Identity → Identity → Type 0
Seen none gpu = Unit
Seen (some first) gpu = gpu.vendor == nvidia ≡ false

abbrev choice : (Bytes → Sysfs) → List Bytes → Option Identity → Option Identity
choice sysfs nodes fallback =
    preferred (first_nvidia sysfs nodes) (preferred fallback (first_node sysfs nodes))

RenderNode-cases :
    (r : RenderNode)
    → (r ≡ no_node) ⊎ ((text : Bytes) × (r ≡ cut text)) ⊎ ((text : Bytes) × (r ≡ node text))
RenderNode-cases no_node = inl refl
RenderNode-cases (cut text) = inr (inl (text, refl))
RenderNode-cases (node text) = inr (inr (text, refl))

later_choice :
    (sysfs : Bytes → Sysfs) (nodes : List Bytes) (found : Identity) (fallback : Option Identity)
    → choice sysfs nodes (or_first fallback found)
      ≡ preferred (first_nvidia sysfs nodes) (preferred fallback (some found))
later_choice sysfs nodes found none = refl
later_choice sysfs nodes found (some f) = refl

later_Seen :
    (found : Identity) (fallback : Option Identity)
    → found.vendor == nvidia ≡ false
    → Seen (or_first fallback found) found
later_Seen found none h = h
later_Seen found (some f) h = h

cut_Seen :
    (gpu : Identity) (text : Bytes) (fallback : Option Identity)
    → Seen fallback gpu
    → Seen fallback (record gpu { render_node = text })
cut_Seen gpu text none h = tt
cut_Seen gpu text (some f) h = h

some-IsChoice :
    (before other gpu : Identity) (first fallback : Option Identity)
    → IsChoice other (preferred first (preferred fallback (some other))) gpu
    → IsChoice before (preferred first (preferred fallback (some other))) gpu
some-IsChoice before other gpu none none h = h
some-IsChoice before other gpu none (some f) h = h
some-IsChoice before other gpu (some g) fallback h = h

settle-nvidia :
    (gpu : Identity) (fallback : Option Identity)
    → gpu.vendor == nvidia ≡ true
    → settle (gpu, fallback) ≡ gpu
settle-nvidia gpu none h = refl
settle-nvidia gpu (some f) h = rw h refl

scan-IsChoice :
    (sysfs : Bytes → Sysfs) (targets : List (Option Bytes)) (gpu : Identity)
    (fallback : Option Identity)
    → Seen fallback gpu
    → IsChoice gpu
        (choice sysfs (render_nodes targets) fallback)
        (settle (scan sysfs targets gpu fallback))
unfolding scan
scan-IsChoice sysfs [] gpu none h = (refl, refl)
scan-IsChoice sysfs [] gpu (some f) h = rw h refl
scan-IsChoice sysfs (none ∷ targets) gpu fallback h = scan-IsChoice sysfs targets gpu fallback h
scan-IsChoice sysfs (some target ∷ targets) gpu fallback h =
    elim (RenderNode-cases (parse_render_node target 32)) [
      | inl e ↦ rw (render_nodes, scan, e) (scan-IsChoice sysfs targets gpu fallback h)
      | inr (inl (text, e)) ↦
          rw (render_nodes, scan, e)
            (scan-IsChoice sysfs targets (record gpu { render_node = text }) fallback
              (cut_Seen gpu text fallback h))
      | inr (inr (text, e)) ↦
          rw (render_nodes, scan, e)
            (elim (Bool-cases ((identify sysfs text).vendor == nvidia)) [
              | inl own ↦ rw own (settle-nvidia _ fallback own)
              | inr other ↦ rw other (
                  let found = identify sysfs text in
                  some-IsChoice gpu found _ (first_nvidia sysfs (render_nodes targets)) fallback (
                    subst
                      (λ c.
                        IsChoice found c
                          (settle (scan sysfs targets found (or_first fallback found))))
                      (later_choice sysfs (render_nodes targets) found fallback)
                      (scan-IsChoice sysfs targets found (or_first fallback found)
                        (later_Seen found fallback other))))
            ])
    ]

-- With the descriptors of a process that can be listed, the GPU is the first one of NVIDIA among its render
-- nodes, or else the first one, with the vendor and the bus address that sysfs has for that node; and without
-- a render node the vendor and the bus address stay.
pub find_process_gpu-IsChoice :
    (before : Identity × Bytes) (process_id : ℕ) (targets : List (Option Bytes))
    (sysfs : Bytes → Sysfs) (monitors : Bytes → List Monitor)
    → 1 ≤ process_id
    → IsChoice before.0
        (preferred
          (first_nvidia sysfs (render_nodes targets))
          (first_node sysfs (render_nodes targets)))
        (find_process_gpu before process_id (some targets) sysfs monitors).0
unfolding find_process_gpu
find_process_gpu-IsChoice before process_id targets sysfs monitors h =
    let set : process_id == 0 ≡ false = ground arith in
    rw set (scan-IsChoice sysfs targets before.0 none tt)
