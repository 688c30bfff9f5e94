-- ===== src/Limit/Executable/Candidates.antt =====
-- The candidates that src/pacer_limit.c collects are at most 16 different plain file names, so that
-- a rule's name can match at one position only.
use frame_pacer.Common.{
  ℕ, zero, suc, ◌≤◌, ◌<◌, ◌≡◌, ◌||◌, not, arith, Bool, true, false, inl, inr, Bool-cases, leb,
  Bytes, List, [], ◌∷◌, ◌++◌, length, length-append, All, All-append, refl, sym, ◌∙◌, Option, none,
  some, ◌==◌,
}
use mathlib.Core.List.{append_assoc, append-nil}
use frame_pacer.Limit.Config.{executable_max, candidates_max}
use frame_pacer.Limit.Executable.{
  same_executable, is_separator, base_from, known, add_candidate_name, add_candidate, add_arguments,
  add_command, add_mapped, add_parents, set_executable_candidates, Proc, mapped_executable_path,
  is_offered, read_command, parent_process_id, add_read,
}

abbrev NoSeparator : Bytes → Type 0
NoSeparator s = All (λ c. is_separator c ≡ false) s

-- A plain file name that fits its buffer.
pub record IsFileName (s : Bytes) : Type 0 where
  pub not_empty : 1 ≤ length s
  pub fits : length s < executable_max
  pub plain : All (λ c. is_separator c ≡ false) s

abbrev pub Distinct : List Bytes → Type 0
Distinct [] = Unit
Distinct (c ∷ cs) = All (λ d. same_executable c d ≡ false) cs × Distinct cs

pub record IsCandidates (cs : List Bytes) : Type 0 where
  pub bounded : length cs ≤ candidates_max
  pub names : All IsFileName cs
  pub distinct : Distinct cs

base_from-plain :
    (cs base pre : Bytes) → base ≡ pre ++ cs → NoSeparator pre → NoSeparator (base_from cs base)
unfolding base_from
base_from-plain [] base pre e h = rw (e, append-nil) h
base_from-plain (c ∷ cs) base pre e h = elim (Bool-cases (is_separator c)) [
  | inl sep ↦ rw sep (base_from-plain cs cs [] refl tt)
  | inr no_sep ↦ rw no_sep (
      base_from-plain cs base (pre ++ (c ∷ [])) (e ∙ sym (append_assoc pre (c ∷ []) cs))
        (All-append (λ d. is_separator d ≡ false) pre (c ∷ []) h (no_sep, tt)))
]

known-none :
    (cs : List Bytes) (x : Bytes) → known cs x ≡ false → All (λ c. same_executable c x ≡ false) cs
unfolding known
known-none [] x h = tt
known-none (c ∷ cs) x h = ground (arith, known-none cs x)

Distinct-concat :
    (cs : List Bytes) (x : Bytes)
    → Distinct cs
    → All (λ c. same_executable c x ≡ false) cs
    → Distinct (cs ++ (x ∷ []))
Distinct-concat [] x d h = (tt, tt)
Distinct-concat (c ∷ cs) x d h = (
  All-append (λ e. same_executable c e ≡ false) cs (x ∷ []) d.0 (h.0, tt),
  Distinct-concat cs x d.1 h.1,
)

add_candidate_name-IsCandidates :
    (cs : List Bytes) (base : Bytes)
    → length cs < candidates_max
    → NoSeparator base
    → IsCandidates cs
    → IsCandidates (add_candidate_name cs base)
unfolding add_candidate_name
add_candidate_name-IsCandidates cs [] room plain v = v
add_candidate_name-IsCandidates cs (c ∷ base) room plain v =
    elim (Bool-cases (leb executable_max (length (c ∷ base)) || known cs (c ∷ base))) [
      | inl skip ↦ rw skip v
      | inr take ↦ rw take (record {
        bounded = omega (arith, length-append cs ((c ∷ base) ∷ []));
        names =
            All-append IsFileName cs ((c ∷ base) ∷ []) v.names
              (record { not_empty = omega arith; fits = ground arith; plain = plain }, tt);
        distinct =
            Distinct-concat cs (c ∷ base) v.distinct (known-none cs (c ∷ base) (ground arith));
      })
    ]

-- `add_executable_candidate` keeps the candidates few, plain and different.
pub add_candidate-IsCandidates :
    (cs : List Bytes) (value : Bytes) → IsCandidates cs → IsCandidates (add_candidate cs value)
unfolding add_candidate
add_candidate-IsCandidates cs value v =
    elim (Bool-cases (leb (length value) 0 || leb candidates_max (length cs))) [
      | inl skip ↦ rw skip v
      | inr go ↦ rw go (
          add_candidate_name-IsCandidates cs (base_from value value) (ground arith)
            (base_from-plain value value [] refl tt) v)
    ]

add_arguments-IsCandidates :
    (cs : List Bytes) (taken : Bool) (arguments : List Bytes)
    → IsCandidates cs
    → IsCandidates (add_arguments cs taken arguments)
unfolding add_arguments
add_arguments-IsCandidates cs taken [] v = v
add_arguments-IsCandidates cs taken (a ∷ rest) v = elim (Bool-cases (is_offered taken a)) [
  | inl offered ↦ rw offered (
      add_arguments-IsCandidates (add_candidate cs a) false rest
        (add_candidate-IsCandidates cs a v))
  | inr passed ↦ rw passed (add_arguments-IsCandidates cs false rest v)
]

add_read-IsCandidates :
    (command : Option Bytes) (cs : List Bytes) (include_command : Bool)
    → IsCandidates cs
    → IsCandidates (add_read command cs include_command)
unfolding add_command
add_read-IsCandidates none cs include_command v = v
add_read-IsCandidates (some command) cs include_command v =
    add_arguments-IsCandidates cs include_command _ v

add_mapped-IsCandidates :
    (cs lines : List Bytes) → IsCandidates cs → IsCandidates (add_mapped cs lines)
unfolding add_mapped
add_mapped-IsCandidates cs [] v = v
add_mapped-IsCandidates cs (line ∷ lines) v =
    choose (mapped_executable_path line) (add_mapped-IsCandidates cs lines v)
  where
    choose :
        (path : Option Bytes)
        → IsCandidates (add_mapped cs lines)
        → IsCandidates (elim path [ none ↦ add_mapped cs lines | some p ↦ add_candidate cs p ])
    choose none ih = ih
    choose (some p) ih = add_candidate-IsCandidates cs p v

add_parents-IsCandidates :
    (depth : ℕ) (proc : Proc) (pid : ℕ) (cs : List Bytes)
    → IsCandidates cs
    → IsCandidates (add_parents depth proc pid cs)
unfolding add_parents
add_parents-IsCandidates zero proc pid cs v = v
add_parents-IsCandidates (suc depth) proc pid cs v =
    elim (Bool-cases
      (parent_process_id proc pid == 0 || not (proc.owned (parent_process_id proc pid)))) [
        | inl stop ↦ rw stop v
        | inr go ↦ rw go (
            add_parents-IsCandidates depth proc (parent_process_id proc pid) _
              (add_read-IsCandidates (read_command proc (parent_process_id proc pid)) cs false v))
      ]

-- Whatever /proc holds, the candidates are at most 16 plain file names of 1 to 511 bytes, no two of
-- them the same executable.
pub set_executable_candidates-IsCandidates :
    (proc : Proc) → IsCandidates (set_executable_candidates proc)
unfolding set_executable_candidates
set_executable_candidates-IsCandidates proc = add_parents-IsCandidates 8 proc proc.own_pid _ (
    add_read-IsCandidates (read_command proc proc.own_pid) (add_mapped [] proc.maps) true (
      add_mapped-IsCandidates [] proc.maps
        (record { bounded = omega arith; names = tt; distinct = tt })))
