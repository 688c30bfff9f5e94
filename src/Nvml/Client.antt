-- ===== src/Nvml/Client.antt =====
-- src/hud_nvml_client.c: one manager per process, whose worker keeps a helper process and publishes what it
-- sends. `Manager` are the fields under the mutex; the published fields are atomics without it, in Seqlock.
pub mod Seqlock
pub mod Shared
use frame_pacer.Common.{
  ℕ, ◌+◌, ◌-◌, ◌^◌, ◌%◌, Bool, true, false, not, ◌&&◌, ◌||◌, ltb, leb, ◌==◌, if◌then◌else◌, Bytes,
  [], length, same_bytes, Option, none, some, add64, add32,
}

pub record Manager : Type 0 where
  pub active : Bool
  pub stop : Bool
  pub references : ℕ
  pub process_id : ℕ
  pub pci_bus_id : Bytes
  pub attempts : ℕ

pub idle : Manager
idle = record {
  active = false;
  stop = false;
  references = 0;
  process_id = 0;
  pci_bus_id = [];
  attempts = 0;
}

-- The result of `acquire`; `created`: `pthread_create` succeeds, if it is called, and the second flag says
-- if it is.
pub acquire : Manager → ℕ → Bytes → Bool → Manager × Bool × Bool
acquire m process_id pci_bus_id created =
    if process_id == 0 || leb 16 (length pci_bus_id)
    then (m, false, false)
    else if m.active
    then (if not m.stop && m.process_id == process_id && same_bytes m.pci_bus_id pci_bus_id
        then (record m { references = add32 m.references 1 }, true, false)
        else (m, false, false))
    else (
      record {
        active = created;
        stop = false;
        references = if created then 1 else 0;
        process_id = process_id;
        pci_bus_id = pci_bus_id;
        attempts = 0;
      },
      created,
      true,
    )

-- The first section of `release`, with whether it goes on to join the worker.
pub begin_release : Manager → Manager × Bool
begin_release m =
    if not m.active || m.references == 0
    then (m, false)
    else if not (m.references - 1 == 0)
    then (record m { references = m.references - 1 }, false)
    else (record m { references = 0; stop = true }, true)

-- Its second section, behind the join.
pub end_release : Manager → Manager
end_release m = record m {
  active = false;
  stop = false;
  process_id = 0;
  pci_bus_id = [];
  attempts = 0;
}

-- The delay of an attempt, in nanoseconds from the start of the worker.
pub retry_delay : ℕ → ℕ
retry_delay attempt = if attempt == 0 then 0 else if attempt == 1 then 5000000000 else 30000000000

-- One round of `worker_main`: none where it returns. It checks `stop` before and behind the wait, which
-- may set it (`stopped`), and counts the attempt.
pub next_attempt : Manager → Bool → Option Manager
next_attempt m stopped =
    if m.stop || not (ltb m.attempts 3) || stopped
    then none
    else some (record m { attempts = m.attempts + 1 })
