-- ===== src/Vulkan/Registry/View/Tests.antt =====
-- A run of src/vulkan_layer_registry.c against the two maps.
use frame_pacer.Common.{◌≡◌, true, false, none, List, [], ◌∷◌}
use frame_pacer.Vulkan.Registry.{Device, Queue, Registry}
use frame_pacer.Vulkan.Registry.View.{view, run, view_run, Call, adds, removes}
use frame_pacer.Vulkan.Registry.View.Refined.{view-run}

abbrev gpu : Device
gpu = record {
  address = 200;
  handle = 2;
  has_gdpa = true;
  has_set_loader_data = true;
  physical_device = 3;
}

abbrev first_queue : Queue
first_queue = record {
  handle = 5;
  device_address = 200;
  family = 0;
  flags = 15;
  pacer = record {
    last_present_ns = 0;
    submits_since_present = 0;
    has_present = false;
    fallback_active = false;
  };
}

abbrev nothing : Registry
nothing = record {
  instances = [];
  physical_devices = [];
  devices = [];
  queues = [];
  fallback_gipa = none;
}

abbrev calls : List Call
calls = adds gpu (first_queue ∷ []) ∷ removes 2 ∷ []

view-run_example : view (run nothing calls) ≡ view_run (view nothing) calls
view-run_example =
    view-run nothing calls (record { devices = tt; queues = tt })
      ((tt, (tt, tt), (tt, tt)), (tt, tt))
