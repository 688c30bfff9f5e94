-- ===== src/Nvml/Client/Seqlock/Reads.antt =====
-- The reads of src/hud_nvml_client.c, in any order with the worker's writes.
use frame_pacer.Common.{ℕ, ◌+◌, ◌^◌, ◌%◌, ◌<◌, ◌≡◌, List, [], ◌∷◌}
use frame_pacer.Nvml.Protocol.{Message}
use frame_pacer.Nvml.Client.Seqlock.{
  Published, Store, count, put_use, put_temperature, put_available, put_sequence, publish,
  invalidate, store, Reader, load, start,
}

-- The writer's accesses that are left: stores of fields, then the second count.
abbrev pub IsTail : List Store → Type 0
IsTail [] = ⊥
IsTail (count ∷ []) = Unit
IsTail (count ∷ s ∷ w) = ⊥
IsTail (put_use n ∷ w) = IsTail w
IsTail (put_temperature n ∷ w) = IsTail w
IsTail (put_available n ∷ w) = IsTail w
IsTail (put_sequence n ∷ w) = IsTail w

-- The generation is even while the writer is idle, and odd while it writes.
abbrev pub IsWriter : Published → List Store → Type 0
IsWriter p [] = (p.generation < 2 ^ 32) × (p.generation % 2 ≡ 0)
IsWriter p (s ∷ w) = (p.generation < 2 ^ 32) × (p.generation % 2 ≡ 1) × IsTail (s ∷ w)

-- The fields once the accesses that are left are done.
abbrev pub message_after : List Store → Published → Message
message_after [] p = p.message
message_after (s ∷ w) p = message_after w (store s p)

-- Another message that is published as a whole, if no access is left.
abbrev pub noted : List Store → Message → List Message → List Message
noted [] m history = m ∷ history
noted (s ∷ w) m history = history

-- What is published once a message is invalidated.
abbrev pub invalidated : Message → Message
invalidated m = record m { available = 0 }

abbrev pub is_count : Store → ℕ
is_count count = 1
is_count (put_use n) = 0
is_count (put_temperature n) = 0
is_count (put_available n) = 0
is_count (put_sequence n) = 0

-- A read, from its start: the published fields, the writer's accesses that are left, the message that it is
-- to publish or has published, the messages that were published as a whole since, and how often the
-- generation was counted up. There is one writer, which publishes messages and invalidates the last one
-- as it likes; the first load of the reader may come at any of its accesses.
pub data Read : Published → List Store → Message → List Message → ℕ → Reader → Type 0 where
  started : (p : Published) → IsWriter p [] → Read p [] p.message (p.message ∷ []) 0 start
  publishes :
      {p : Published} {last : Message} {h : List Message} {n : ℕ} {r : Reader} (m : Message)
      → Read p [] last h n r
      → Read (store count p) (publish m) m h (n + 1) r
  invalidates :
      {p : Published} {last : Message} {h : List Message} {n : ℕ} {r : Reader}
      → Read p [] last h n r
      → Read (store count p) invalidate (invalidated last) h (n + 1) r
  stores :
      {p : Published} {s : Store} {w : List Store} {last : Message} {h : List Message} {n : ℕ}
      {r : Reader}
      → Read p (s ∷ w) last h n r
      → Read (store s p) w last (noted w last h) (n + is_count s) r
  loads :
      {p : Published} {w : List Store} {last : Message} {h : List Message} {n : ℕ} {r : Reader}
      → Read p w last h n r
      → Read p w last h n (load p r)
