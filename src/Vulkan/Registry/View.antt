-- ===== src/Vulkan/Registry/View.antt =====
-- The registry of src/vulkan_layer_registry.c as two finite maps, which is all that its callers see of it.
pub mod Refined
mod Tests
use frame_pacer.Common.{
  ℕ, Bool, true, false, ◌==◌, if◌then◌else◌, ◌≡◌, ◌≢◌, List, [], ◌∷◌, All, Option, none, some,
}
use frame_pacer.Vulkan.Registry.{
  Device, Queue, Registry, find_device, find_queue, add_device, remove_device,
}

-- What is registered for a handle.
pub record View : Type 0 where
  pub device_of : ℕ → Option Device
  pub queue_of : ℕ → Option Queue

pub view : Registry → View
view r = record { device_of = find_device r.devices; queue_of = find_queue r.queues }

abbrev pub or_else : Option Queue → Option Queue → Option Queue
or_else none other = other
or_else (some q) other = some q

abbrev pub unless_of : ℕ → Option Queue → Option Queue
unless_of address none = none
unless_of address (some q) = if q.device_address == address then none else some q

-- The specification: a device is entered with its queues, and taken out with all queues that are its own.
pub view_add : View → Device → List Queue → View
view_add v device queues = record {
  device_of = λ handle. if device.handle == handle then some device else v.device_of handle;
  queue_of = λ handle. or_else (find_queue queues handle) (v.queue_of handle);
}

abbrev pub view_drop : View → ℕ → Option Device → View
view_drop v handle none = v
view_drop v handle (some device) = record {
  device_of = λ other. if handle == other then none else v.device_of other;
  queue_of = λ other. unless_of device.address (v.queue_of other);
}

pub view_remove : View → ℕ → View
view_remove v handle = view_drop v handle (v.device_of handle)

pub data Call : Type 0 where
  adds : Device → List Queue → Call
  removes : ℕ → Call

pub call : Registry → Call → Registry
call r (adds device queues) = add_device r device queues
call r (removes handle) = (remove_device r handle).0

pub view_call : View → Call → View
view_call v (adds device queues) = view_add v device queues
view_call v (removes handle) = view_remove v handle

pub run : Registry → List Call → Registry
run r [] = r
run r (c ∷ calls) = run (call r c) calls

pub view_run : View → List Call → View
view_run v [] = v
view_run v (c ∷ calls) = view_run (view_call v c) calls

-- No registered device has the handle or the address, and no queue the handle.
abbrev pub IsNewDevice : Device → List Device → Type 0
IsNewDevice device items =
    All (λ d. (d.handle ≢ device.handle) × (d.address ≢ device.address)) items

abbrev pub IsNewQueue : Queue → List Queue → Type 0
IsNewQueue queue items = All (λ q. q.handle ≢ queue.handle) items

abbrev pub UniqueDevices : List Device → Type 0
UniqueDevices [] = Unit
UniqueDevices (d ∷ items) = IsNewDevice d items × UniqueDevices items

abbrev pub UniqueQueues : List Queue → Type 0
UniqueQueues [] = Unit
UniqueQueues (q ∷ items) = IsNewQueue q items × UniqueQueues items

-- The driver gives no handle out again that is still registered, and the allocator no address.
abbrev pub IsCall : Registry → Call → Type 0
IsCall r (adds device queues) =
    IsNewDevice device r.devices × UniqueQueues queues × All (λ q. IsNewQueue q r.queues) queues
IsCall r (removes handle) = Unit

abbrev pub AreCalls : Registry → List Call → Type 0
AreCalls r [] = Unit
AreCalls r (c ∷ calls) = IsCall r c × AreCalls (call r c) calls
