-- ===== src/Vulkan/Registry/Tests.antt =====
-- Registries of src/vulkan_layer_registry.c with concrete objects.
use frame_pacer.Common.{ℕ, ◌≡◌, true, false, refl, [], ◌∷◌, length}
use frame_pacer.Vulkan.Registry.{
  Instance, Device, QueueAnswer, Collection, ready, unavailable, out_of_memory, add_instance,
  collect_queues, collect, add_device, remove_device,
}
use frame_pacer.Vulkan.Registry.Linked.{
  empty_registry, empty, instance_added, device_added, device_removed, IsLinked, Reach-IsLinked,
}

abbrev main_instance : Instance
main_instance = record { address = 100; handle = 1; gipa = 7; destroy_instance = 8 }

abbrev gpu : Device
gpu = record {
  address = 200;
  handle = 2;
  has_gdpa = true;
  has_set_loader_data = true;
  physical_device = 3;
}

abbrev answer : ℕ → QueueAnswer
answer handle = record {
  family = 0;
  handle = handle;
  loader_data_set = true;
  item_allocated = true;
}

-- The driver gives one queue twice; it is collected once.
abbrev queues : Collection
queues = collect gpu (15 ∷ []) false true (answer 5 ∷ answer 6 ∷ answer 5 ∷ [])

collected : (elim queues [ ready found ↦ length found | unavailable ↦ 0 | out_of_memory ↦ 0 ]) ≡ 2
unfolding collect collect_queues
collected = refl

no_loader_data :
    collect gpu [] false true
      (record { family = 0; handle = 5; loader_data_set = false; item_allocated = true } ∷ [])
    ≡ unavailable
unfolding collect collect_queues
no_loader_data = refl

no_queues : collect gpu [] true true [] ≡ ready []
unfolding collect
no_queues = refl

Reach-IsLinked_example :
    IsLinked (remove_device (add_device (add_instance empty_registry main_instance []) gpu []) 2).0
Reach-IsLinked_example = Reach-IsLinked (
    device_removed 2
      (device_added gpu [] true true [] [] no_queues (instance_added main_instance [] empty)))
