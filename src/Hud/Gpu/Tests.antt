-- ===== src/Hud/Gpu/Tests.antt =====
-- src/hud_metrics.c: texts of sysfs, and a process with two GPUs.
use frame_pacer.Common.{
  ℕ, ◌≡◌, refl, Bytes, List, [], ◌∷◌, Option, none, some, codes, same_bytes, if◌then◌else◌, arith,
}
use frame_pacer.Hud.Gpu.{
  Identity, RenderNode, no_node, cut, node, parse_render_node, parse_gpu_vendor, parse_pci_bus_id,
  Sysfs, Monitor, find_process_gpu, find_amd_temperature,
}
use frame_pacer.Hud.Gpu.Preferred.{find_process_gpu-IsChoice}

parse_render_node_path :
    parse_render_node (codes "/dev/dri/renderD128") 32 ≡ node (codes "renderD128")
unfolding parse_render_node frame_pacer.Common.behind_prefix frame_pacer.Hud.Gpu.base_name
    frame_pacer.Hud.Gpu.all_digits frame_pacer.Limit.Text.is_digit
parse_render_node_path = refl

parse_render_node_bare : parse_render_node (codes "/dev/dri/renderD") 32 ≡ no_node
unfolding parse_render_node frame_pacer.Common.behind_prefix frame_pacer.Hud.Gpu.base_name
parse_render_node_bare = refl

parse_gpu_vendor_line : parse_gpu_vendor (codes "0x10de\n") ≡ some 4318
unfolding parse_gpu_vendor frame_pacer.Common.and_then frame_pacer.Common.behind_prefix
    frame_pacer.Limit.Text.is_digit frame_pacer.Hud.Drm.Clients.only_space
    frame_pacer.Hud.Gpu.hex_loop frame_pacer.Hud.Gpu.skip_hex_mark frame_pacer.Limit.Text.is_space
parse_gpu_vendor_line = refl

parse_pci_bus_id_link : parse_pci_bus_id (codes "../../0000:01:00.0") ≡ some (codes "0000:01:00.0")
unfolding parse_pci_bus_id frame_pacer.Hud.Gpu.base_name frame_pacer.Limit.Text.is_digit
parse_pci_bus_id_link = refl

abbrev two_gpus : Bytes → Sysfs
two_gpus render_node =
    if same_bytes render_node (codes "renderD129")
    then record {
      vendor_file = some (some (codes "0x10de\n"));
      device_link = some (codes "../../../0000:01:00.0");
    }
    else record {
      vendor_file = some (some (codes "0x1002\n"));
      device_link = some (codes "../../../0000:03:00.0");
    }

abbrev two_descriptors : List (Option Bytes)
two_descriptors =
    some (codes "/dev/dri/renderD128") ∷ none ∷ some (codes "/dev/dri/renderD129") ∷ []

abbrev unknown : Identity × Bytes
unknown = (record { render_node = []; pci_bus_id = []; vendor = 0 }, [])

abbrev no_monitors : Bytes → List Monitor
no_monitors render_node = []

find_process_gpu-IsChoice_example :
    (find_process_gpu unknown 7 (some two_descriptors) two_gpus no_monitors).0
    ≡ record { render_node = codes "renderD129"; pci_bus_id = codes "0000:01:00.0"; vendor = 4318 }
unfolding parse_render_node frame_pacer.Common.behind_prefix frame_pacer.Hud.Gpu.base_name
    frame_pacer.Hud.Gpu.all_digits frame_pacer.Limit.Text.is_digit frame_pacer.Hud.Gpu.identify
    same_bytes frame_pacer.Common.and_then parse_gpu_vendor frame_pacer.Hud.Drm.Clients.only_space
    frame_pacer.Hud.Gpu.hex_loop frame_pacer.Hud.Gpu.skip_hex_mark frame_pacer.Limit.Text.is_space
    parse_pci_bus_id
find_process_gpu-IsChoice_example =
    find_process_gpu-IsChoice unknown 7 two_descriptors two_gpus no_monitors (omega arith)
