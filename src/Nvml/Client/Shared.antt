-- ===== src/Nvml/Client/Shared.antt =====
-- The holders of the one client of src/hud_nvml_client.c, and its worker, in any order of their sections.
mod Tests
use frame_pacer.Common.{
  ℕ, zero, suc, ◌+◌, ◌-◌, ◌^◌, ◌≤◌, ◌<◌, ◌≡◌, arith, Bool, true, false, not, ◌&&◌, Bytes, List, [],
  ◌∷◌, Option, none, some, refl,
}
use frame_pacer.Nvml.Client.{Manager, idle, acquire, begin_release, end_release, next_attempt}

abbrev pub one_more : Bool → ℕ → ℕ
one_more false holders = holders
one_more true holders = holders + 1

-- The workers, with how often each has started the helper, once a call of `pthread_create` has made another.
abbrev pub appear : Bool → List ℕ → List ℕ
appear false workers = workers
appear true workers = 0 ∷ workers

-- The manager, how many hold it, whether a release waits for the worker to end, and the workers. Only a
-- holder releases, and there are never 2^32 of them; a release has joined its worker before its second
-- section.
pub data Reach : Manager → ℕ → Bool → List ℕ → Type 0 where
  created : Reach idle 0 false []
  acquired :
      {m : Manager} {holders : ℕ} {joining : Bool} {workers : List ℕ} (process_id : ℕ)
      (pci_bus_id : Bytes) (made : Bool)
      → holders + 1 < 2 ^ 32
      → Reach m holders joining workers
      → Reach
          (acquire m process_id pci_bus_id made).0
          (one_more (acquire m process_id pci_bus_id made).1 holders)
          joining
          (appear ((acquire m process_id pci_bus_id made).2 && made) workers)
  released :
      {m : Manager} {holders : ℕ} {workers : List ℕ}
      → Reach m (suc holders) false workers
      → Reach (begin_release m).0 holders (begin_release m).1 workers
  joined :
      {m : Manager} {holders : ℕ} {starts : ℕ} {workers : List ℕ}
      → Reach m holders true (starts ∷ workers)
      → Reach (end_release m) holders false workers
  attempted :
      {m next : Manager} {holders : ℕ} {joining : Bool} {starts : ℕ} {workers : List ℕ}
      (stopped : Bool)
      → next_attempt m stopped ≡ some next
      → Reach m holders joining (starts ∷ workers)
      → Reach next holders joining (suc starts ∷ workers)

-- One worker while the client is active, which has started the helper as often as is counted.
abbrev pub IsRunning : Bool → ℕ → List ℕ → Type 0
IsRunning active attempts [] = active ≡ false
IsRunning active attempts (starts ∷ []) = (active ≡ true) × (attempts ≡ starts) × (starts ≤ 3)
IsRunning active attempts (starts ∷ other ∷ workers) = ⊥

pub record IsShared (m : Manager) (holders : ℕ) (joining : Bool) (workers : List ℕ) : Type 0 where
  pub counted : m.references ≡ holders
  pub held : 1 ≤ holders → (m.active ≡ true) × (m.stop ≡ false)
  pub stops : m.stop ≡ joining
  pub ends : joining ≡ true → (m.active ≡ true) × (holders ≡ 0)
  pub let_go : m.active ≡ true → joining ≡ false → 1 ≤ holders
  pub running : IsRunning m.active m.attempts workers

acquire-IsShared :
    (m : Manager) (holders : ℕ) (joining : Bool) (workers : List ℕ) (process_id : ℕ)
    (pci_bus_id : Bytes) (made : Bool)
    → holders + 1 < 2 ^ 32
    → IsShared m holders joining workers
    → IsShared
        (acquire m process_id pci_bus_id made).0
        (one_more (acquire m process_id pci_bus_id made).1 holders)
        joining
        (appear ((acquire m process_id pci_bus_id made).2 && made) workers)
unfolding acquire
acquire-IsShared m holders joining [] process_id pci_bus_id made small h =
    ground (arith, h.counted, h.held, h.stops, h.ends, h.let_go, h.running)
acquire-IsShared m holders joining (starts ∷ []) process_id pci_bus_id made small h =
    ground (arith, h.counted, h.held, h.stops, h.ends, h.let_go, h.running)
acquire-IsShared m holders joining (a ∷ b ∷ workers) process_id pci_bus_id made small h =
    absurd h.running

begin_release-IsShared :
    (m : Manager) (holders : ℕ) (workers : List ℕ)
    → IsShared m (suc holders) false workers
    → IsShared (begin_release m).0 holders (begin_release m).1 workers
unfolding begin_release
begin_release-IsShared m holders [] h =
    ground (arith, h.counted, h.held, h.stops, h.ends, h.let_go, h.running)
begin_release-IsShared m holders (starts ∷ []) h =
    ground (arith, h.counted, h.held, h.stops, h.ends, h.let_go, h.running)
begin_release-IsShared m holders (a ∷ b ∷ workers) h = absurd h.running

attempt-IsShared :
    (m next : Manager) (holders : ℕ) (joining stopped : Bool) (starts : ℕ) (workers : List ℕ)
    → next_attempt m stopped ≡ some next
    → IsShared m holders joining (starts ∷ workers)
    → IsShared next holders joining (suc starts ∷ workers)
unfolding next_attempt
attempt-IsShared m next holders joining stopped starts [] e h =
    ground (arith, e, h.counted, h.held, h.stops, h.ends, h.let_go, h.running)
attempt-IsShared m next holders joining stopped starts (b ∷ workers) e h = absurd h.running

end_release-IsShared :
    (m : Manager) (holders starts : ℕ) (workers : List ℕ)
    → IsShared m holders true (starts ∷ workers)
    → IsShared (end_release m) holders false workers
unfolding end_release
end_release-IsShared m holders starts [] h =
    ground (arith, h.counted, h.held, h.stops, h.ends, h.let_go, h.running)
end_release-IsShared m holders starts (b ∷ workers) h = absurd h.running

-- In every state that is reached the count of references is that of the holders; while there is one, the
-- client is active and does not stop, and when the last has released it, it stops and ends. There is one
-- worker while the client is active and else none, and it never starts the helper more than three times.
pub Reach-IsShared :
    {m : Manager} {holders : ℕ} {joining : Bool} {workers : List ℕ}
    → Reach m holders joining workers
    → IsShared m holders joining workers
unfolding idle
Reach-IsShared created = ground arith
Reach-IsShared (acquired {m} {holders} {joining} {workers} process_id pci_bus_id made small r) =
    acquire-IsShared m holders joining workers process_id pci_bus_id made small (Reach-IsShared r)
Reach-IsShared (released {m} {holders} {workers} r) =
    begin_release-IsShared m holders workers (Reach-IsShared r)
Reach-IsShared (joined {m} {holders} {starts} {workers} r) =
    end_release-IsShared m holders starts workers (Reach-IsShared r)
Reach-IsShared (attempted {m} {next} {holders} {joining} {starts} {workers} stopped e r) =
    attempt-IsShared m next holders joining stopped starts workers e (Reach-IsShared r)
