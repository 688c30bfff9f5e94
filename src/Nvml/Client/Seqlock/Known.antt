-- ===== src/Nvml/Client/Seqlock/Known.antt =====
-- What a reader of src/hud_nvml_client.c knows of the message that it reads.
use frame_pacer.Common.{
  ℕ, zero, suc, ◌+◌, ◌-◌, ◌^◌, ◌%◌, ◌≤◌, ◌<◌, ◌≡◌, ◌≢◌, inl, inr, Bool-cases, arith, not, ◌&&◌,
  ◌==◌, List, [], ◌∷◌, Mem, none, some, refl, sym,
}
use mathlib.Core.Path.{subst}
use frame_pacer.Nvml.Protocol.{Message}
use frame_pacer.Nvml.Client.Seqlock.{
  Published, Store, Reader, ready, counted, got_sequence, got_available, got_use, got_all, returned,
  load,
}
use frame_pacer.Nvml.Client.Seqlock.Reads.{IsWriter}

-- The generation was `before` when `since` counts had been made, with `m` published; and while no count has
-- been made since, the writer is idle, `m` is still there, and `agrees` holds of it.
pub record Since (p : Published) (w : List Store) (h : List Message) (n before : ℕ)
    (agrees : Message → Type 0) : Type 0 where
  pub since : ℕ
  pub m : Message
  pub since_le : since ≤ n
  pub before_lt : before < 2 ^ 32
  pub generation_eq : p.generation ≡ (before + (n - since)) % 2 ^ 32
  pub published : Mem m h
  pub quiet : n ≡ since → (w ≡ []) × (p.message ≡ m) × agrees m

-- What the reader holds.
unfoldable pub IsReader : Published → List Store → List Message → ℕ → Reader → Type 0
IsReader p w h n (ready rounds) = Unit
IsReader p w h n (counted rounds before) = Since p w h n before (λ m. Unit)
IsReader p w h n (got_sequence rounds before sequence) =
    Since p w h n before (λ m. sequence ≡ m.sequence)
IsReader p w h n (got_available rounds before sequence available) =
    Since p w h n before (λ m. (sequence ≡ m.sequence) × (available ≡ m.available))
IsReader p w h n (got_use rounds before sequence available use_percent) =
    Since p w h n before
      (λ m. (sequence ≡ m.sequence) × (available ≡ m.available) × (use_percent ≡ m.gpu_use_percent))
IsReader p w h n (got_all rounds before message) = Since p w h n before (λ m. message ≡ m)
IsReader p w h n (returned none) = Unit
IsReader p w h n (returned (some message)) = Mem message h

-- A step of the writer that counts, or that finds the writer not idle.
pub record IsWrite (p : Published) (w : List Store) (h : List Message) (n : ℕ) (p' : Published)
    (h' : List Message) (n' : ℕ) : Type 0 where
  pub counts : n ≤ n'
  pub generation_eq : p'.generation ≡ (p.generation + (n' - n)) % 2 ^ 32
  pub busy : n' ≡ n → w ≢ []
  pub grows : (m : Message) → Mem m h → Mem m h'

Since-write :
    {p p' : Published} {w w' : List Store} {h h' : List Message} {n n' : ℕ} (before : ℕ)
    (agrees : Message → Type 0)
    → IsWrite p w h n p' h' n'
    → Since p w h n before agrees
    → Since p' w' h' n' before agrees
Since-write before agrees s k = record {
  since = k.since;
  m = k.m;
  since_le = omega (arith, s.counts, k.since_le);
  before_lt = k.before_lt;
  generation_eq = omega (arith, s.counts, s.generation_eq, k.since_le, k.generation_eq);
  published = s.grows k.m k.published;
  quiet = λ e. absurd (
      s.busy (omega (arith, s.counts, k.since_le))
        (k.quiet (omega (arith, s.counts, k.since_le))).0);
}

pub IsReader-write :
    {p p' : Published} {w : List Store} {h h' : List Message} {n n' : ℕ} (w' : List Store)
    (r : Reader)
    → IsWrite p w h n p' h' n'
    → IsReader p w h n r
    → IsReader p' w' h' n' r
unfolding IsReader
IsReader-write w' (ready rounds) s k = tt
IsReader-write w' (counted rounds before) s k = Since-write before _ s k
IsReader-write w' (got_sequence rounds before sequence) s k = Since-write before _ s k
IsReader-write w' (got_available rounds before sequence available) s k = Since-write before _ s k
IsReader-write w' (got_use rounds before sequence available use_percent) s k =
    Since-write before _ s k
IsReader-write w' (got_all rounds before message) s k = Since-write before _ s k
IsReader-write w' (returned none) s k = tt
IsReader-write w' (returned (some message)) s k = s.grows message k

-- More is known of the message, as long as it is still there.
Since-load :
    {p : Published} {w : List Store} {h : List Message} {n : ℕ} (before : ℕ)
    (agrees also : Message → Type 0)
    → ((m : Message) → p.message ≡ m → agrees m → also m)
    → Since p w h n before agrees
    → Since p w h n before also
Since-load before agrees also f k = record {
  since = k.since;
  m = k.m;
  since_le = k.since_le;
  before_lt = k.before_lt;
  generation_eq = k.generation_eq;
  published = k.published;
  quiet = λ e. let q = k.quiet e in (q.0, q.1, f k.m q.1 q.2);
}

-- An even generation is one of an idle writer.
load_generation :
    {p : Published} {w : List Store} {h : List Message} (n : ℕ)
    → IsWriter p w
    → (w ≡ [] → Mem p.message h)
    → p.generation % 2 ≡ 0
    → Since p w h n p.generation (λ m. Unit)
load_generation {p} {w = []} n writes idle even = record {
  since = n;
  m = p.message;
  since_le = omega arith;
  before_lt = writes.0;
  generation_eq = omega (arith, writes.0);
  published = idle refl;
  quiet = λ e. (refl, refl, tt);
}
load_generation {p} {w = s ∷ w} n writes idle even = absurd (omega (arith, writes.1, even))

pub IsReader-load :
    (p : Published) (w : List Store) (h : List Message) (n : ℕ) (r : Reader)
    → n < 2 ^ 32
    → IsWriter p w
    → (w ≡ [] → Mem p.message h)
    → IsReader p w h n r
    → IsReader p w h n (load p r)
unfolding IsReader load
IsReader-load p w h n (ready zero) few writes idle k = tt
IsReader-load p w h n (ready (suc rounds)) few writes idle k =
    elim (Bool-cases (p.generation % 2 == 1)) [
      | inl odd ↦ rw odd tt
      | inr even ↦ rw even (load_generation n writes idle (ground (arith, even)))
    ]
IsReader-load p w h n (counted rounds before) few writes idle k =
    elim (Bool-cases (p.message.sequence == 0)) [
      | inl e ↦ rw e tt
      | inr e ↦ rw e (Since-load before _ _ (λ m same a. cc) k)
    ]
IsReader-load p w h n (got_sequence rounds before sequence) few writes idle k =
    Since-load before _ _ (λ m same a. (a, cc)) k
IsReader-load p w h n (got_available rounds before sequence available) few writes idle k =
    Since-load before _ _ (λ m same a. (a.0, a.1, cc)) k
IsReader-load p w h n (got_use rounds before sequence available use_percent) few writes idle k =
    Since-load before _ _ (λ m same a. ground (arith, same, a)) k
IsReader-load p w h n (got_all rounds before message) few writes idle k =
    elim (Bool-cases (before == p.generation && not (p.generation % 2 == 1))) [
      | inl e ↦ rw e (
          let now : n ≡ k.since =
            ground (arith, few, k.since_le, k.generation_eq, k.before_lt, e) in
          subst (λ x. Mem x h) (sym (k.quiet now).2) k.published)
      | inr e ↦ rw e tt
    ]
IsReader-load p w h n (returned none) few writes idle k = tt
IsReader-load p w h n (returned (some message)) few writes idle k = k
