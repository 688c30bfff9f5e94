-- ===== src/Vulkan/Registry/Linked.antt =====
-- Nothing that src/vulkan_layer_registry.c remembers points at an item that it has given away.
use frame_pacer.Common.{
  ℕ, ◌≡◌, ◌≢◌, ◌⊎◌, inl, inr, Bool, Bool-cases, Option-cases, arith, not, ◌||◌, ◌==◌, List, [], ◌∷◌,
  All, All-append, none, refl, sym,
}
use mathlib.Core.Path.{subst}
use frame_pacer.Vulkan.Registry.{
  Instance, PhysicalDevice, Device, Queue, Registry, Answer, QueueAnswer, Collection, ready,
  unavailable, out_of_memory, find_instance, find_device, remember_physical_devices, add_instance,
  without_instance, unlink_instance, first_gipa, remove_instance, collect_queues, collect, is_known,
  add_device, unlink_device, without_device, remove_device,
}

-- There is an instance, or a device, at the address.
abbrev pub HasInstance : List Instance → ℕ → Type 0
HasInstance [] address = ⊥
HasInstance (item ∷ items) address = (item.address ≡ address) ⊎ HasInstance items address

abbrev pub HasDevice : List Device → ℕ → Type 0
HasDevice [] address = ⊥
HasDevice (item ∷ items) address = (item.address ≡ address) ⊎ HasDevice items address

pub record IsLinked (r : Registry) : Type 0 where
  pub physical : All (λ p. HasInstance r.instances p.instance_address) r.physical_devices
  pub queues : All (λ q. HasDevice r.devices q.device_address) r.queues
  pub fallback : r.fallback_gipa ≡ first_gipa r.instances

All-map {ℓ κ μ} :
    {A : Type ℓ} (P : A → Type κ) (Q : A → Type μ) (xs : List A)
    → ((x : A) → P x → Q x)
    → All P xs
    → All Q xs
All-map P Q [] f h = tt
All-map P Q (x ∷ xs) f h = (f x h.0, All-map P Q xs f h.1)

remember-linked :
    (P : ℕ → Type 0) (items : List PhysicalDevice) (address : ℕ) (answers : List Answer)
    → P address
    → All (λ p. P p.instance_address) items
    → All (λ p. P p.instance_address) (remember_physical_devices items address answers)
unfolding remember_physical_devices
remember-linked P items address [] new h = h
remember-linked P items address (a ∷ answers) new h = elim (Bool-cases a.item_allocated) [
  | inl e ↦ rw e (remember-linked P _ address answers new (new, h))
  | inr e ↦ rw e (remember-linked P items address answers new h)
]

HasInstance-unlink :
    (items : List Instance) (gone address : ℕ)
    → address ≢ gone
    → HasInstance items address
    → HasInstance (unlink_instance gone items) address
unfolding unlink_instance
HasInstance-unlink (item ∷ items) gone address other h = elim (Bool-cases (item.address == gone)) [
  | inl e ↦ rw e (elim h [ inl same ↦ absurd (ground (arith, other, same, e)) | inr m ↦ m ])
  | inr e ↦
      rw e (elim h [
        | inl same ↦ inl same
        | inr m ↦ inr (HasInstance-unlink items gone address other m)
      ])
]
HasInstance-unlink [] gone address other h = absurd h

HasDevice-unlink :
    (items : List Device) (gone address : ℕ)
    → address ≢ gone
    → HasDevice items address
    → HasDevice (unlink_device gone items) address
unfolding unlink_device
HasDevice-unlink [] gone address other h = absurd h
HasDevice-unlink (item ∷ items) gone address other h = elim (Bool-cases (item.address == gone)) [
  | inl e ↦ rw e (elim h [ inl same ↦ absurd (ground (arith, other, same, e)) | inr m ↦ m ])
  | inr e ↦
      rw e
        (elim h [ inl same ↦ inl same | inr m ↦ inr (HasDevice-unlink items gone address other m) ])
]

without_instance-linked :
    (instances : List Instance) (gone : ℕ) (items : List PhysicalDevice)
    → All (λ p. HasInstance instances p.instance_address) items
    → All
        (λ p. HasInstance (unlink_instance gone instances) p.instance_address)
        (without_instance gone items)
unfolding without_instance
without_instance-linked instances gone [] h = tt
without_instance-linked instances gone (p ∷ items) h =
    elim (Bool-cases (p.instance_address == gone)) [
      | inl e ↦ rw e (without_instance-linked instances gone items h.1)
      | inr e ↦ rw e (
        HasInstance-unlink instances gone p.instance_address (ground (arith, e)) h.0,
        without_instance-linked instances gone items h.1,
      )
    ]

without_device-linked :
    (devices : List Device) (gone : ℕ) (items : List Queue)
    → All (λ q. HasDevice devices q.device_address) items
    → All (λ q. HasDevice (unlink_device gone devices) q.device_address) (without_device gone items)
unfolding without_device
without_device-linked devices gone [] h = tt
without_device-linked devices gone (q ∷ items) h = elim (Bool-cases (q.device_address == gone)) [
  | inl e ↦ rw e (without_device-linked devices gone items h.1)
  | inr e ↦ rw e (
    HasDevice-unlink devices gone q.device_address (ground (arith, e)) h.0,
    without_device-linked devices gone items h.1,
  )
]

-- The queues of the collection, if there is one.
abbrev pub OnReady : (List Queue → Type 0) → Collection → Type 0
OnReady P (ready queues) = P queues
OnReady P unavailable = Unit
OnReady P out_of_memory = Unit

-- The queues are those of the device.
abbrev pub IsOwned : Device → List Queue → Type 0
IsOwned device queues = All (λ q. q.device_address ≡ device.address) queues

collect_queues-IsOwned :
    (device : Device) (families : List ℕ) (answers : List QueueAnswer) (collected : List Queue)
    → IsOwned device collected
    → OnReady (IsOwned device) (collect_queues device families answers collected)
unfolding collect_queues
collect_queues-IsOwned device families [] collected h = h
collect_queues-IsOwned device families (a ∷ answers) collected h =
    elim (Bool-cases (a.handle == 0 || not a.loader_data_set)) [
      | inl e ↦ rw e tt
      | inr e ↦ rw e (elim (Bool-cases (is_known a.handle collected)) [
        | inl f ↦ rw f (collect_queues-IsOwned device families answers collected h)
        | inr f ↦ rw f (elim (Bool-cases a.item_allocated) [
          | inl g ↦ rw g (collect_queues-IsOwned device families answers _ (refl, h))
          | inr g ↦ rw g tt
        ])
      ])
    ]

pub collect-IsOwned :
    (device : Device) (families : List ℕ) (none_wanted has_get_queue : Bool)
    (answers : List QueueAnswer)
    → OnReady (IsOwned device) (collect device families none_wanted has_get_queue answers)
unfolding collect
collect-IsOwned device families none_wanted has_get_queue answers = elim (Bool-cases none_wanted) [
  | inl e ↦ rw e tt
  | inr e ↦
      rw e
        (elim (Bool-cases
          (not device.has_gdpa || not device.has_set_loader_data || not has_get_queue)) [
            | inl f ↦ rw f tt
            | inr f ↦ rw f (collect_queues-IsOwned device families answers [] tt)
          ])
]

add_instance-IsLinked :
    (r : Registry) (item : Instance) (answers : List Answer)
    → IsLinked r
    → IsLinked (add_instance r item answers)
unfolding add_instance
add_instance-IsLinked r item answers h = record {
  physical =
      remember-linked (HasInstance (item ∷ r.instances)) r.physical_devices item.address answers
        (inl refl)
        (All-map (λ p. HasInstance r.instances p.instance_address)
          (λ p. HasInstance (item ∷ r.instances) p.instance_address) r.physical_devices
          (λ p m. inr m) h.physical);
  queues = h.queues;
  fallback = refl;
}

remove_instance-IsLinked :
    (r : Registry) (handle : ℕ) → IsLinked r → IsLinked (remove_instance r handle).0
unfolding remove_instance
remove_instance-IsLinked r handle h = elim (Option-cases (find_instance r.instances handle)) [
  | inl e ↦ rw e (record { physical = h.physical; queues = h.queues; fallback = refl })
  | inr (item, e) ↦ rw e (record {
    physical = without_instance-linked r.instances item.address r.physical_devices h.physical;
    queues = h.queues;
    fallback = refl;
  })
]

add_device-IsLinked :
    (r : Registry) (item : Device) (queues : List Queue)
    → IsOwned item queues
    → IsLinked r
    → IsLinked (add_device r item queues)
unfolding add_device
add_device-IsLinked r item queues owned h =
    let own =
      All-map (λ q. q.device_address ≡ item.address)
        (λ q. HasDevice (item ∷ r.devices) q.device_address) queues (λ q e. inl (sym e)) owned in
    let old =
      All-map (λ q. HasDevice r.devices q.device_address)
        (λ q. HasDevice (item ∷ r.devices) q.device_address) r.queues (λ q m. inr m) h.queues in
    record {
      physical = h.physical;
      queues =
          All-append (λ q. HasDevice (item ∷ r.devices) q.device_address) queues r.queues own old;
      fallback = h.fallback;
    }

remove_device-IsLinked :
    (r : Registry) (handle : ℕ) → IsLinked r → IsLinked (remove_device r handle).0
unfolding remove_device
remove_device-IsLinked r handle h = elim (Option-cases (find_device r.devices handle)) [
  | inl e ↦ rw e h
  | inr (item, e) ↦ rw e (record {
    physical = h.physical;
    queues = without_device-linked r.devices item.address r.queues h.queues;
    fallback = h.fallback;
  })
]

pub empty_registry : Registry
empty_registry = record {
  instances = [];
  physical_devices = [];
  devices = [];
  queues = [];
  fallback_gipa = none;
}

-- The calls of the layer in any order; a device is added with the queues that were collected for it.
pub data Reach : Registry → Type 0 where
  empty : Reach empty_registry
  instance_added :
      {r : Registry} (item : Instance) (answers : List Answer)
      → Reach r
      → Reach (add_instance r item answers)
  instance_removed : {r : Registry} (handle : ℕ) → Reach r → Reach (remove_instance r handle).0
  device_added :
      {r : Registry} (item : Device) (families : List ℕ) (none_wanted has_get_queue : Bool)
      (answers : List QueueAnswer) (queues : List Queue)
      → collect item families none_wanted has_get_queue answers ≡ ready queues
      → Reach r
      → Reach (add_device r item queues)
  device_removed : {r : Registry} (handle : ℕ) → Reach r → Reach (remove_device r handle).0

-- In every registry that is reached, each queue points at a device that is still registered and each
-- physical device at an instance that is, so that nothing points at freed memory; and the fallback function is
-- that of the newest instance.
pub Reach-IsLinked : {r : Registry} → Reach r → IsLinked r
unfolding empty_registry
Reach-IsLinked empty = record { physical = tt; queues = tt; fallback = refl }
Reach-IsLinked (instance_added {r} item answers run) =
    add_instance-IsLinked r item answers (Reach-IsLinked run)
Reach-IsLinked (instance_removed {r} handle run) =
    remove_instance-IsLinked r handle (Reach-IsLinked run)
Reach-IsLinked (device_added {r} item families none_wanted has_get_queue answers queues e run) =
    add_device-IsLinked r item queues
      (subst (OnReady (IsOwned item)) e
        (collect-IsOwned item families none_wanted has_get_queue answers))
      (Reach-IsLinked run)
Reach-IsLinked (device_removed {r} handle run) =
    remove_device-IsLinked r handle (Reach-IsLinked run)
