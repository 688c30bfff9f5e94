-- ===== src/Vulkan/Registry/View/Refined.antt =====
-- The registry of src/vulkan_layer_registry.c does what the two maps do.
use mathlib.Core.Path.{subst}
use frame_pacer.Common.{
  ℕ, ◌≡◌, ◌≢◌, inl, inr, Bool-cases, Option-cases, arith, ◌==◌, if◌then◌else◌, List, [], ◌∷◌, ◌++◌,
  All, All-append, none, some, refl, sym, ap, ◌∙◌,
}
use frame_pacer.Vulkan.Registry.{
  Device, Queue, Registry, find_device, find_queue, add_device, unlink_device, without_device,
  remove_device,
}
use frame_pacer.Vulkan.Registry.View.{
  view, or_else, unless_of, view_add, view_remove, Call, adds, removes, call, view_call, run,
  view_run, IsNewDevice, IsNewQueue, UniqueDevices, UniqueQueues, IsCall, AreCalls,
}

-- What holds of all devices holds of the one that is found.
found_device :
    (P : Device → Type 0) (items : List Device) (handle : ℕ) {d : Device}
    → All P items
    → find_device items handle ≡ some d
    → P d × (d.handle ≡ handle)
unfolding find_device
found_device P [] handle h e = absurd cc
found_device P (item ∷ items) handle {d} h e = elim (Bool-cases (item.handle == handle)) [
  | inl same ↦
      let e' = rw same at e in
      let equal : item ≡ d = cc in (subst P equal h.0, ground (arith, same, equal))
  | inr differ ↦ let e' = rw differ at e in found_device P items handle h.1 e'
]

find_device-new :
    (items : List Device) (handle : ℕ)
    → All (λ d. d.handle ≢ handle) items
    → find_device items handle ≡ none
unfolding find_device
find_device-new [] handle h = refl
find_device-new (item ∷ items) handle h = ground (arith, h.0, find_device-new items handle h.1)

IsNewDevice-handle :
    (device : Device) (items : List Device)
    → IsNewDevice device items
    → All (λ d. d.handle ≢ device.handle) items
IsNewDevice-handle device [] h = tt
IsNewDevice-handle device (item ∷ items) h = (h.0.0, IsNewDevice-handle device items h.1)

find_device-unlink :
    (items : List Device) (handle other : ℕ) {d : Device}
    → UniqueDevices items
    → find_device items handle ≡ some d
    → find_device (unlink_device d.address items) other
      ≡ (if handle == other then none else find_device items other)
unfolding find_device unlink_device
find_device-unlink [] handle other u e = absurd cc
find_device-unlink (item ∷ items) handle other {d} u e = elim (Bool-cases (item.handle == handle)) [
  | inl same ↦
      let e' = rw same at e in
      let equal : item ≡ d = cc in
      let address : item.address ≡ d.address = ap (λ (x : Device). x.address) equal in
      let absent = find_device-new items item.handle (IsNewDevice-handle item items u.0) in
      ground (arith, same, address, absent)
  | inr differ ↦
      let e' = rw differ at e in
      let found =
        found_device (λ x. (x.handle ≢ item.handle) × (x.address ≢ item.address)) items handle
          {d = d} u.0 e' in
      ground (arith, differ, found.0.1, find_device-unlink items handle other {d = d} u.1 e')
]

find_queue-append :
    (xs ys : List Queue) (handle : ℕ)
    → find_queue (xs ++ ys) handle ≡ or_else (find_queue xs handle) (find_queue ys handle)
unfolding find_queue
find_queue-append [] ys handle = refl
find_queue-append (q ∷ xs) ys handle = elim (Bool-cases (q.handle == handle)) [
  | inl e ↦ rw e
  | inr e ↦ rw e (find_queue-append xs ys handle)
]

find_queue-new :
    (items : List Queue) (handle : ℕ)
    → All (λ q. q.handle ≢ handle) items
    → find_queue items handle ≡ none
unfolding find_queue
find_queue-new [] handle h = refl
find_queue-new (q ∷ items) handle h = ground (arith, h.0, find_queue-new items handle h.1)

All-without :
    (P : Queue → Type 0) (gone : ℕ) (items : List Queue)
    → All P items
    → All P (without_device gone items)
unfolding without_device
All-without P gone [] h = tt
All-without P gone (q ∷ items) h = elim (Bool-cases (q.device_address == gone)) [
  | inl e ↦ rw e (All-without P gone items h.1)
  | inr e ↦ rw e (h.0, All-without P gone items h.1)
]

find_queue-without :
    (items : List Queue) (gone other : ℕ)
    → UniqueQueues items
    → find_queue (without_device gone items) other ≡ unless_of gone (find_queue items other)
unfolding find_queue without_device
find_queue-without [] gone other u = refl
find_queue-without (q ∷ items) gone other u = elim (Bool-cases (q.device_address == gone)) [
  | inl mine ↦ elim (Bool-cases (q.handle == other)) [
    | inl same ↦
        let equal : q.handle ≡ other = ground (arith, same) in
        let absent = find_queue-new (without_device gone items) other (
          All-without (λ x. x.handle ≢ other) gone items
            (subst (λ h. All (λ x. x.handle ≢ h) items) equal u.0)) in
        rw (mine, same) (absent ∙ sym (rw mine refl))
    | inr differ ↦ rw (mine, differ) (find_queue-without items gone other u.1)
  ]
  | inr kept ↦ elim (Bool-cases (q.handle == other)) [
    | inl same ↦ rw (kept, same) (rw kept refl)
    | inr differ ↦ rw (kept, differ) (find_queue-without items gone other u.1)
  ]
]

IsNewDevice-unlink :
    (device : Device) (items : List Device) (gone : ℕ)
    → IsNewDevice device items
    → IsNewDevice device (unlink_device gone items)
unfolding unlink_device
IsNewDevice-unlink device [] gone h = tt
IsNewDevice-unlink device (item ∷ items) gone h = elim (Bool-cases (item.address == gone)) [
  | inl e ↦ rw e h.1
  | inr e ↦ rw e (h.0, IsNewDevice-unlink device items gone h.1)
]

UniqueDevices-unlink :
    (items : List Device) (gone : ℕ)
    → UniqueDevices items
    → UniqueDevices (unlink_device gone items)
unfolding unlink_device
UniqueDevices-unlink [] gone u = tt
UniqueDevices-unlink (item ∷ items) gone u = elim (Bool-cases (item.address == gone)) [
  | inl e ↦ rw e u.1
  | inr e ↦ rw e (IsNewDevice-unlink item items gone u.0, UniqueDevices-unlink items gone u.1)
]

UniqueQueues-without :
    (items : List Queue) (gone : ℕ) → UniqueQueues items → UniqueQueues (without_device gone items)
unfolding without_device
UniqueQueues-without [] gone u = tt
UniqueQueues-without (q ∷ items) gone u = elim (Bool-cases (q.device_address == gone)) [
  | inl e ↦ rw e (UniqueQueues-without items gone u.1)
  | inr e ↦
      rw e
        (All-without (λ x. x.handle ≢ q.handle) gone items u.0, UniqueQueues-without items gone u.1)
]

UniqueQueues-append :
    (xs ys : List Queue)
    → UniqueQueues xs
    → All (λ q. IsNewQueue q ys) xs
    → UniqueQueues ys
    → UniqueQueues (xs ++ ys)
UniqueQueues-append [] ys u h v = v
UniqueQueues-append (q ∷ xs) ys u h v =
    (All-append (λ x. x.handle ≢ q.handle) xs ys u.0 h.0, UniqueQueues-append xs ys u.1 h.1 v)

-- No handle is registered twice.
pub record IsUnique (r : Registry) : Type 0 where
  pub devices : UniqueDevices r.devices
  pub queues : UniqueQueues r.queues

view-add_device :
    (r : Registry) (device : Device) (queues : List Queue)
    → view (add_device r device queues) ≡ view_add (view r) device queues
unfolding view add_device view_add find_device
view-add_device r device queues = λ i. record {
  device_of = find_device (device ∷ r.devices);
  queue_of = λ handle. find_queue-append queues r.queues handle i;
}

view-remove_device :
    (r : Registry) (handle : ℕ)
    → IsUnique r
    → view (remove_device r handle).0 ≡ view_remove (view r) handle
unfolding view remove_device view_remove
view-remove_device r handle u = elim (Option-cases (find_device r.devices handle)) [
  | inl e ↦ rw e refl
  | inr (d, e) ↦ rw e (λ i. record {
    device_of = λ other. find_device-unlink r.devices handle other {d = d} u.devices e i;
    queue_of = λ other. find_queue-without r.queues d.address other u.queues i;
  })
]

call-IsUnique : (r : Registry) (c : Call) → IsUnique r → IsCall r c → IsUnique (call r c)
unfolding call add_device remove_device
call-IsUnique r (adds device queues) u h = record {
  devices = (h.0, u.devices);
  queues = UniqueQueues-append queues r.queues h.1 h.2 u.queues;
}
call-IsUnique r (removes handle) u h = elim (Option-cases (find_device r.devices handle)) [
  | inl e ↦ rw e u
  | inr (d, e) ↦ rw e (record {
    devices = UniqueDevices-unlink r.devices d.address u.devices;
    queues = UniqueQueues-without r.queues d.address u.queues;
  })
]

view-call : (r : Registry) (c : Call) → IsUnique r → view (call r c) ≡ view_call (view r) c
unfolding call view_call
view-call r (adds device queues) u = view-add_device r device queues
view-call r (removes handle) u = view-remove_device r handle u

-- After any calls that add and remove devices, the registry is seen as the two maps after the same calls of
-- the specification, in which a removed device takes exactly its own queues along. The conditions are that no
-- handle is registered twice at the start, and that no call registers a handle or an address that still is.
pub view-run :
    (r : Registry) (calls : List Call)
    → IsUnique r
    → AreCalls r calls
    → view (run r calls) ≡ view_run (view r) calls
unfolding run view_run
view-run r [] u h = refl
view-run r (c ∷ calls) u h =
    view-run (call r c) calls (call-IsUnique r c u h.0) h.1
    ∙ ap (λ v. view_run v calls) (view-call r c u)
