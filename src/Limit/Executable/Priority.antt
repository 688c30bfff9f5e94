-- ===== src/Limit/Executable/Priority.antt =====
-- `executable_match_priority` of src/pacer_limit.c finds the one candidate that a rule names.
use mathlib.Core.Path.{subst}
use frame_pacer.Common.{
  ℕ, zero, suc, ◌+◌, ◌≡◌, ◌↔◌, arith, true, false, inl, inr, Bool-cases, Bytes, List, [], ◌∷◌, All,
  refl, ap, ◌∙◌, get_elem?, some,
}
use frame_pacer.Limit.Executable.{same_executable, match_from, match_priority}
use frame_pacer.Limit.Executable.Names.{same_executable_equiv}
use frame_pacer.Limit.Executable.Candidates.{Distinct, IsCandidates}

All-get_elem? {ℓ κ} :
    {A : Type ℓ} (P : A → Type κ) (xs : List A) (i : ℕ) {x : A}
    → All P xs
    → get_elem? xs i ≡ some x
    → P x
All-get_elem? P [] i h e = cc
All-get_elem? P (y ∷ ys) zero h e = subst P (cc) h.0
All-get_elem? P (y ∷ ys) (suc i) h e = All-get_elem? P ys i h.1 e

-- The candidate at `index` matches the rule's name.
abbrev pub MatchesAt : List Bytes → Bytes → ℕ → Type 0
MatchesAt cs executable i =
    (c : Bytes) × (get_elem? cs i ≡ some c) × (same_executable executable c ≡ true)

match_from-finds :
    (cs : List Bytes) (executable : Bytes) (j n : ℕ) (c : Bytes)
    → Distinct cs
    → get_elem? cs j ≡ some c
    → same_executable executable c ≡ true
    → match_from cs executable n ≡ some (n + j)
unfolding match_from
match_from-finds [] executable j n c d e h = cc
match_from-finds (x ∷ xs) executable zero n c d e h =
    let same : same_executable executable x ≡ true = ground arith in
    rw same (ap (λ (k : ℕ). some k) (omega arith))
match_from-finds (x ∷ xs) executable (suc j) n c d e h =
    let apart = All-get_elem? (λ y. same_executable x y ≡ false) xs j d.0 e in
    let eqv = same_executable_equiv x executable c in
    let differ : same_executable executable x ≡ false = ground arith in
    rw differ
      (match_from-finds xs executable j (n + 1) c d.1 e h ∙ ap (λ (k : ℕ). some k) (omega arith))

match_from_sound :
    (cs : List Bytes) (executable : Bytes) (n i : ℕ)
    → match_from cs executable n ≡ some i
    → (j : ℕ) × (i ≡ n + j) × MatchesAt cs executable j
unfolding match_from
match_from_sound [] executable n i e = cc
match_from_sound (x ∷ xs) executable n i e = elim (Bool-cases (same_executable executable x)) [
  | inl same ↦ (0, ground arith, (x, refl, same))
  | inr differ ↦
      let (j, eq, at) = match_from_sound xs executable (n + 1) i (rw differ at e) in
      (suc j, omega arith, at)
]

-- A rule has priority `i` exactly when it names the candidate at position `i`; so no rule names two.
pub match_priority_iff :
    (cs : List Bytes) (executable : Bytes) (i : ℕ)
    → IsCandidates cs
    → (match_priority cs executable ≡ some i) ↔ MatchesAt cs executable i
unfolding match_priority
match_priority_iff cs executable i v = (
  λ e.
      let (j, eq, at) = match_from_sound cs executable 0 i e in
      subst (MatchesAt cs executable) (omega arith) at,
  λ m.
      match_from-finds cs executable i 0 m.0 v.distinct m.1 m.2
      ∙ ap (λ (k : ℕ). some k) (omega arith),
)
