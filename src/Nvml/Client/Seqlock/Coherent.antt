-- ===== src/Nvml/Client/Seqlock/Coherent.antt =====
-- What a reader of src/hud_nvml_client.c returns was published as a whole.
use frame_pacer.Common.{
  ℕ, ◌+◌, ◌-◌, ◌^◌, ◌%◌, ◌<◌, ◌≡◌, inl, inr, arith, List, [], ◌∷◌, Mem, some, refl, ap,
}
use frame_pacer.Nvml.Protocol.{Message}
use frame_pacer.Nvml.Client.Seqlock.{
  Published, Store, count, put_use, put_temperature, put_available, put_sequence, publish,
  invalidate, store, Reader, returned, start,
}
use frame_pacer.Nvml.Client.Seqlock.Reads.{
  IsTail, IsWriter, message_after, noted, invalidated, is_count, Read, started, publishes,
  invalidates, stores, loads,
}
use frame_pacer.Nvml.Client.Seqlock.Known.{IsReader, IsWrite, IsReader-write, IsReader-load}

-- What holds in every state of a read: the writer's accesses lead to its message, which is in the history
-- once they are done.
record IsRead (p : Published) (w : List Store) (last : Message) (h : List Message) (n : ℕ)
    (r : Reader) : Type 0 where
  writes : IsWriter p w
  leads : message_after w p ≡ last
  idle : w ≡ [] → Mem p.message h
  reads : n < 2 ^ 32 → IsReader p w h n r

noted-grows :
    (w : List Store) (last : Message) (h : List Message) (m : Message)
    → Mem m h
    → Mem m (noted w last h)
noted-grows [] last h m k = inr k
noted-grows (s ∷ w) last h m k = k

noted-idle :
    (w : List Store) (p : Published) (last : Message) (h : List Message)
    → message_after w p ≡ last
    → w ≡ []
    → Mem p.message (noted w last h)
noted-idle [] p last h e empty = inl e
noted-idle (s ∷ w) p last h e empty = absurd cc

IsWriter-store :
    (p : Published) (s : Store) (w : List Store) → IsWriter p (s ∷ w) → IsWriter (store s p) w
unfolding store
IsWriter-store p count [] k = omega (arith, k.0, k.1)
IsWriter-store p count (s ∷ w) k = absurd k.2
IsWriter-store p (put_use n) [] k = absurd k.2
IsWriter-store p (put_use n) (s ∷ w) k = k
IsWriter-store p (put_temperature n) [] k = absurd k.2
IsWriter-store p (put_temperature n) (s ∷ w) k = k
IsWriter-store p (put_available n) [] k = absurd k.2
IsWriter-store p (put_available n) (s ∷ w) k = k
IsWriter-store p (put_sequence n) [] k = absurd k.2
IsWriter-store p (put_sequence n) (s ∷ w) k = k

store_generation :
    (p : Published) (s : Store) (n : ℕ)
    → p.generation < 2 ^ 32
    → (store s p).generation ≡ (p.generation + (n + is_count s - n)) % 2 ^ 32
unfolding store
store_generation p count n small = omega arith
store_generation p (put_use m) n small = omega arith
store_generation p (put_temperature m) n small = omega arith
store_generation p (put_available m) n small = omega arith
store_generation p (put_sequence m) n small = omega arith

store-IsWrite :
    (p : Published) (s : Store) (w : List Store) (last : Message) (h : List Message) (n : ℕ)
    → p.generation < 2 ^ 32
    → IsWrite p (s ∷ w) h n (store s p) (noted w last h) (n + is_count s)
unfolding store
store-IsWrite p s w last h n small = record {
  counts = omega arith;
  generation_eq = store_generation p s n small;
  busy = λ e empty. absurd cc;
  grows = noted-grows w last h;
}

begin-IsWrite :
    (p : Published) (h : List Message) (n : ℕ) → IsWrite p [] h n (store count p) h (n + 1)
unfolding store
begin-IsWrite p h n = record {
  counts = omega arith;
  generation_eq = omega arith;
  busy = λ e. absurd (omega (arith, e));
  grows = λ m k. k;
}

IsWriter-generation : (p : Published) (w : List Store) → IsWriter p w → p.generation < 2 ^ 32
IsWriter-generation p [] k = k.0
IsWriter-generation p (s ∷ w) k = k.0

-- The writer begins.
begin-IsRead :
    {p : Published} {last : Message} {h : List Message} {n : ℕ} {r : Reader} (s : Store)
    (w : List Store) (m : Message)
    → IsTail (s ∷ w)
    → message_after (s ∷ w) (store count p) ≡ m
    → IsRead p [] last h n r
    → IsRead (store count p) (s ∷ w) m h (n + 1) r
unfolding store
begin-IsRead {p} {last} {h} {n} {r} s w m tail leads k = record {
  writes = (omega (arith, k.writes.0), omega (arith, k.writes.1, k.writes.0), tail);
  leads = leads;
  idle = λ e. absurd cc;
  reads = λ few. IsReader-write (s ∷ w) r (begin-IsWrite p h n) (k.reads (omega (arith, few)));
}

publish-leads : (m : Message) (p : Published) → message_after (publish m) (store count p) ≡ m
unfolding store
publish-leads m p = refl

invalidate-leads :
    (last : Message) (p : Published)
    → p.message ≡ last
    → message_after invalidate (store count p) ≡ invalidated last
unfolding store
invalidate-leads last p e = ap invalidated e

Read-IsRead :
    {p : Published} {w : List Store} {last : Message} {h : List Message} {n : ℕ} {r : Reader}
    → Read p w last h n r
    → IsRead p w last h n r
unfolding start IsReader
Read-IsRead (started p k) = record {
  writes = k;
  leads = refl;
  idle = λ e. inl refl;
  reads = λ few. tt;
}
Read-IsRead (publishes {p} {last} {h} {n} {r} m run) =
    begin-IsRead _ _ m tt (publish-leads m p) (Read-IsRead run)
Read-IsRead (invalidates {p} {last} {h} {n} {r} run) =
    let k = Read-IsRead run in
    begin-IsRead _ _ (invalidated last) tt (invalidate-leads last p k.leads) k
Read-IsRead (stores {p} {s} {w} {last} {h} {n} {r} run) =
    let k = Read-IsRead run in
    record {
      writes = IsWriter-store p s w k.writes;
      leads = k.leads;
      idle = noted-idle w (store s p) last h k.leads;
      reads = λ few.
          IsReader-write w r (store-IsWrite p s w last h n k.writes.0)
            (k.reads (omega (arith, few)));
    }
Read-IsRead (loads {p} {w} {last} {h} {n} {r} run) =
    let k = Read-IsRead run in
    record {
      writes = k.writes;
      leads = k.leads;
      idle = k.idle;
      reads = λ few. IsReader-load p w h n r few k.writes k.idle (k.reads few);
    }

-- If one writer at a time stores into the published fields, a message that a snapshot returns is one that was
-- published as a whole, with all its fields as they were given to the publication, or such a message invalidated:
-- one of those since the start of the read, or the one that was there at its start. The read may overlap
-- with any number of publications and invalidations, as long as the generation is counted up less than
-- 2^32 times.
pub Read-coherent :
    {p : Published} {w : List Store} {last : Message} {h : List Message} {n : ℕ} (message : Message)
    → Read p w last h n (returned (some message))
    → n < 2 ^ 32
    → Mem message h
unfolding IsReader
Read-coherent message run few = (Read-IsRead run).reads few
