-- ===== src/Log/Retention/Pruned.antt =====
-- What `prune_logs` of src/log_retention.c leaves of a directory.
use frame_pacer.Common.{Mem, ℕ, ◌≤◌, ◌≡◌, ◌⊎◌, Bool, Bytes, Option, List, [], ◌∷◌, All, length}
use frame_pacer.Log.Retention.{LogCandidate, Entry}
use frame_pacer.Log.Retention.Meaning.{IsNewer, IsPrunable, IsRoom}
use frame_pacer.Log.Retention.Scanned.{IsEntry}

-- No candidate of the list is older than `y`.
abbrev pub NewestOf : LogCandidate → List LogCandidate → Type 0
NewestOf y xs = All (λ x. IsNewer x y → ⊥) xs

-- None is newer than one before it.
abbrev pub NewestFirst : List LogCandidate → Type 0
NewestFirst [] = Unit
NewestFirst (x ∷ xs) = NewestOf x xs × NewestFirst xs

-- `y` is newer than none of them.
abbrev pub NoNewer : LogCandidate → List LogCandidate → Type 0
NoNewer y xs = All (λ x. IsNewer y x → ⊥) xs

-- One of them bears the name.
abbrev pub IsNamed : Bytes → List LogCandidate → Type 0
IsNamed name [] = ⊥
IsNamed name (x ∷ xs) = (name ≡ x.name) ⊎ IsNamed name xs

abbrev pub IsFrom : Bytes → Option Bytes → List Entry → LogCandidate → Type 0
IsFrom prefix protected entries c =
    (entry : Entry) × IsEntry entry entries
    × (entry.candidate ≡ c)
    × IsPrunable prefix protected entry

-- Of the entries, those remain that `remaining` has. `retained` are the newest logs that may go, as many as
-- there is room for.
pub record IsPruned (prefix : Bytes) (protected : Option Bytes) (protected_is_file : Bool)
    (entries remaining : List Entry) : Type 0 where
  pub room : ℕ
  pub is_room : IsRoom prefix protected protected_is_file room
  pub retained : List LogCandidate
  pub few : length retained ≤ room
  pub newest_first : NewestFirst retained
  pub from : All (IsFrom prefix protected entries) retained
  -- What remains was there before.
  pub nothing_new : All (λ entry. IsEntry entry entries) remaining
  pub kept : All (λ entry. Mem entry.candidate retained → IsEntry entry remaining) entries
  -- An entry is lost only if it may go and the room is full with logs that are no older.
  pub lost :
      All
        (λ entry.
          IsEntry entry remaining
          ⊎ (IsPrunable prefix protected entry
              × (length retained ≡ room)
              × NoNewer entry.candidate retained))
        entries
  pub left :
      All
        (λ entry. IsPrunable prefix protected entry → IsNamed entry.candidate.name retained)
        remaining
