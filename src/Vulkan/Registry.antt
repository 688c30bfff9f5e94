-- ===== src/Vulkan/Registry.antt =====
-- src/vulkan_layer_registry.c: the instances, devices and queues of the layer. A linked list is a list, newest
-- first, and `address` stands for the pointer to an item. Handles and functions of the driver are numbers, and
-- what it answers is an argument, allocations included. A call holds the lock throughout: it is one step.
pub mod Linked
pub mod View
mod Tests
use frame_pacer.Common.{
  ℕ, zero, suc, ◌+◌, ◌-◌, min, Bool, true, false, not, ◌&&◌, ◌||◌, ltb, leb, ◌==◌, if◌then◌else◌,
  List, [], ◌∷◌, ◌++◌, get_or, Option, none, some,
}
use frame_pacer.Queue.{QueueState}

pub record Instance : Type 0 where
  pub address : ℕ
  pub handle : ℕ
  pub gipa : ℕ
  pub destroy_instance : ℕ

-- `instance` is an address; the flags of the families stand in a list of `queue_family_count`.
pub record PhysicalDevice : Type 0 where
  pub handle : ℕ
  pub instance_address : ℕ
  pub queue_families : List ℕ

-- The flags say which of the functions for queues the device has.
pub record Device : Type 0 where
  pub address : ℕ
  pub handle : ℕ
  pub has_gdpa : Bool
  pub has_set_loader_data : Bool
  pub physical_device : ℕ

pub record Queue : Type 0 where
  pub handle : ℕ
  pub device_address : ℕ
  pub family : ℕ
  pub flags : ℕ
  pub pacer : QueueState

pub record Registry : Type 0 where
  pub instances : List Instance
  pub physical_devices : List PhysicalDevice
  pub devices : List Device
  pub queues : List Queue
  pub fallback_gipa : Option ℕ

pub find_instance : List Instance → ℕ → Option Instance
find_instance [] handle = none
find_instance (item ∷ items) handle =
    let rest = find_instance items handle in if item.handle == handle then some item else rest

pub find_physical_device : List PhysicalDevice → ℕ → Option PhysicalDevice
find_physical_device [] handle = none
find_physical_device (item ∷ items) handle =
    let rest = find_physical_device items handle in
    if item.handle == handle then some item else rest

pub find_device : List Device → ℕ → Option Device
find_device [] handle = none
find_device (item ∷ items) handle =
    let rest = find_device items handle in if item.handle == handle then some item else rest

pub find_queue : List Queue → ℕ → Option Queue
find_queue [] handle = none
find_queue (item ∷ items) handle =
    let rest = find_queue items handle in if item.handle == handle then some item else rest

-- What the driver says of a physical device: its handle, the number of its families, their flags as far as
-- the second call fills them in, and if the allocations for the item and for the flags succeed.
pub record Answer : Type 0 where
  pub handle : ℕ
  pub family_count : ℕ
  pub flags : List ℕ
  pub item_allocated : Bool
  pub flags_allocated : Bool

abbrev take : ℕ → List ℕ → List ℕ
take zero xs = []
take (suc n) [] = []
take (suc n) (x ∷ xs) = x ∷ take n xs

abbrev physical_item : ℕ → Answer → PhysicalDevice
physical_item instance_address a = record {
  handle = a.handle;
  instance_address = instance_address;
  queue_families = if a.flags_allocated then take a.family_count a.flags else [];
}

-- Empty where the enumeration fails or gives no device.
pub remember_physical_devices : List PhysicalDevice → ℕ → List Answer → List PhysicalDevice
remember_physical_devices items instance_address [] = items
remember_physical_devices items instance_address (a ∷ answers) =
    if a.item_allocated
    then remember_physical_devices (physical_item instance_address a ∷ items) instance_address
        answers
    else remember_physical_devices items instance_address answers

pub add_instance : Registry → Instance → List Answer → Registry
add_instance r item answers = record r {
  fallback_gipa = some item.gipa;
  instances = item ∷ r.instances;
  physical_devices = remember_physical_devices r.physical_devices item.address answers;
}

pub without_instance : ℕ → List PhysicalDevice → List PhysicalDevice
without_instance address [] = []
without_instance address (item ∷ items) =
    let rest = without_instance address items in
    if item.instance_address == address then rest else item ∷ rest

-- The item is unlinked where the list reaches its address.
pub unlink_instance : ℕ → List Instance → List Instance
unlink_instance address [] = []
unlink_instance address (item ∷ items) =
    let rest = unlink_instance address items in
    if item.address == address then items else item ∷ rest

abbrev pub first_gipa : List Instance → Option ℕ
first_gipa [] = none
first_gipa (item ∷ items) = some item.gipa

abbrev pub drop_instance : Registry → Option Instance → Registry
drop_instance r none = r
drop_instance r (some item) = record r {
  physical_devices = without_instance item.address r.physical_devices;
  instances = unlink_instance item.address r.instances;
}

-- With the item that is removed; the caller is given its `destroy_instance`.
pub remove_instance : Registry → ℕ → Registry × Option Instance
remove_instance r handle =
    let found = find_instance r.instances handle in
    let left = drop_instance r found in
    (record left { fallback_gipa = first_gipa left.instances }, found)

-- A queue that the driver gives for a family and an index: its handle, 0 for none, if its loader data could
-- be set, and if the item could be allocated.
pub record QueueAnswer : Type 0 where
  pub family : ℕ
  pub handle : ℕ
  pub loader_data_set : Bool
  pub item_allocated : Bool

pub data Collection : Type 0 where
  ready : List Queue → Collection
  unavailable out_of_memory : Collection

pub new_pacer : QueueState
new_pacer = record {
  last_present_ns = 0;
  submits_since_present = 0;
  has_present = false;
  fallback_active = false;
}

abbrev pub is_known : ℕ → List Queue → Bool
is_known handle [] = false
is_known handle (item ∷ items) = item.handle == handle || is_known handle items

-- The two loops over the families and their queues, in one list of answers.
pub collect_queues : Device → List ℕ → List QueueAnswer → List Queue → Collection
collect_queues device families [] collected = ready collected
collect_queues device families (a ∷ answers) collected =
    let item : Queue = record {
      handle = a.handle;
      device_address = device.address;
      family = a.family;
      flags = get_or families a.family 0;
      pacer = new_pacer;
    } in
    if a.handle == 0 || not a.loader_data_set
    then unavailable
    else if is_known a.handle collected
    then collect_queues device families answers collected
    else if not a.item_allocated
    then out_of_memory
    else collect_queues device families answers (item ∷ collected)

-- `queueCreateInfoCount` 0 needs no function of the device; `has_get_queue`: the device has the function.
pub collect : Device → List ℕ → Bool → Bool → List QueueAnswer → Collection
collect device families none_wanted has_get_queue answers =
    if none_wanted
    then ready []
    else if not device.has_gdpa || not device.has_set_loader_data || not has_get_queue
    then unavailable
    else collect_queues device families answers []

pub add_device : Registry → Device → List Queue → Registry
add_device r item queues = record r { devices = item ∷ r.devices; queues = queues ++ r.queues }

pub unlink_device : ℕ → List Device → List Device
unlink_device address [] = []
unlink_device address (item ∷ items) =
    let rest = unlink_device address items in if item.address == address then items else item ∷ rest

pub without_device : ℕ → List Queue → List Queue
without_device address [] = []
without_device address (item ∷ items) =
    let rest = without_device address items in
    if item.device_address == address then rest else item ∷ rest

abbrev pub drop_device : Registry → Option Device → Registry
drop_device r none = r
drop_device r (some item) = record r {
  devices = unlink_device item.address r.devices;
  queues = without_device item.address r.queues;
}

pub remove_device : Registry → ℕ → Registry × Option Device
remove_device r handle = let found = find_device r.devices handle in (drop_device r found, found)
