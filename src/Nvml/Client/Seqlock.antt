-- ===== src/Nvml/Client/Seqlock.antt =====
-- `publish`, `invalidate` and `frame_pacer_nvml_client_snapshot` of src/hud_nvml_client.c, an atomic access at
-- a time. Accesses are taken to happen in the order of the source, as on x86, and one writer at a time
-- to store: the worker, or `release` behind it as long as no other worker has been started meanwhile.
pub mod Reads
pub mod Known
pub mod Coherent
mod Tests
use frame_pacer.Common.{
  ℕ, zero, suc, ◌+◌, ◌-◌, ◌^◌, ◌%◌, Bool, true, false, not, ◌&&◌, ◌||◌, ltb, leb, ◌==◌,
  if◌then◌else◌, List, [], ◌∷◌, ◌++◌, Option, none, some, add32,
}
use frame_pacer.Nvml.Protocol.{Message}

-- `published_generation`, and the fields it guards.
pub record Published : Type 0 where
  pub generation : ℕ
  pub message : Message

-- One access of the writer.
pub data Store : Type 0 where
  count : Store
  put_use put_temperature put_available put_sequence : ℕ → Store

-- The accesses of `publish` and `invalidate`, behind the first one, which counts.
abbrev pub publish : Message → List Store
publish m =
    put_use m.gpu_use_percent
    ∷ put_temperature m.gpu_temp_celsius
    ∷ put_available m.available
    ∷ put_sequence m.sequence
    ∷ count
    ∷ []

abbrev pub invalidate : List Store
invalidate = put_available 0 ∷ count ∷ []

pub store : Store → Published → Published
store count p = record p { generation = add32 p.generation 1 }
store (put_use n) p = record p { message = record p.message { gpu_use_percent = n } }
store (put_temperature n) p = record p { message = record p.message { gpu_temp_celsius = n } }
store (put_available n) p = record p { message = record p.message { available = n } }
store (put_sequence n) p = record p { message = record p.message { sequence = n } }

-- Where a reader stands in one of its three rounds: before it, behind the loads of the generation, the
-- sequence number and each field, and at its result.
pub data Reader : Type 0 where
  ready : (rounds : ℕ) → Reader
  counted : (rounds before : ℕ) → Reader
  got_sequence : (rounds before sequence : ℕ) → Reader
  got_available : (rounds before sequence available : ℕ) → Reader
  got_use : (rounds before sequence available use_percent : ℕ) → Reader
  got_all : (rounds before : ℕ) → (message : Message) → Reader
  returned : Option Message → Reader

-- The reader's next access; `ready 0` is the end of the loop.
pub load : Published → Reader → Reader
load p (ready zero) = returned none
load p (ready (suc rounds)) =
    if p.generation % 2 == 1 then ready rounds else counted rounds p.generation
load p (counted rounds before) =
    if p.message.sequence == 0 then returned none else got_sequence rounds before p.message.sequence
load p (got_sequence rounds before sequence) =
    got_available rounds before sequence p.message.available
load p (got_available rounds before sequence available) =
    got_use rounds before sequence available p.message.gpu_use_percent
load p (got_use rounds before sequence available use_percent) = got_all rounds before (record {
  sequence = sequence;
  available = available;
  gpu_use_percent = use_percent;
  gpu_temp_celsius = p.message.gpu_temp_celsius;
})
load p (got_all rounds before message) =
    if before == p.generation && not (p.generation % 2 == 1)
    then returned (some message)
    else ready rounds
load p (returned result) = returned result

pub start : Reader
start = ready 3
