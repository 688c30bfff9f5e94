-- ===== src/Limit/Executable/Names.antt =====
-- When two executable names are the same (`same_executable` of src/pacer_limit.c): as an
-- equivalence, decided by a canonical form.
use frame_pacer.Common.{
  ℕ, zero, suc, ◌≡◌, ◌↔◌, arith, true, if◌then◌else◌, Bytes, [], ◌∷◌, length, same_bytes_iff, refl,
  sym, ap, ◌∙◌,
}
use frame_pacer.Limit.Text.{lower, lowered, same_nocase, drop}
use frame_pacer.Limit.Executable.{ends_exe, same_executable}

lower-lower : (c : ℕ) → lower (lower c) ≡ lower c
unfolding lower
lower-lower c = ground arith

pub lowered-lowered : (s : Bytes) → lowered (lowered s) ≡ lowered s
unfolding lowered
lowered-lowered [] = refl
lowered-lowered (c ∷ cs) = rw (lower-lower, lowered-lowered cs)

length-lowered : (s : Bytes) → length (lowered s) ≡ length s
unfolding lowered
length-lowered [] = refl
length-lowered (c ∷ cs) = ap suc (length-lowered cs)

lowered-drop : (n : ℕ) (s : Bytes) → lowered (drop n s) ≡ drop n (lowered s)
unfolding lowered drop
lowered-drop zero s = refl
lowered-drop (suc n) [] = refl
lowered-drop (suc n) (c ∷ cs) = lowered-drop n cs

-- Whether a name ends in ".exe" does not depend on the case of its letters.
ends_exe-lowered : (s : Bytes) → ends_exe (lowered s) ≡ ends_exe s
unfolding ends_exe same_nocase
ends_exe-lowered s = rw (length-lowered, lowered-drop, lowered-lowered, lowered-drop)

pub ends_exe-congr : (a b : Bytes) → lowered a ≡ lowered b → ends_exe a ≡ ends_exe b
ends_exe-congr a b h = sym (ends_exe-lowered a) ∙ ap ends_exe h ∙ ends_exe-lowered b

-- Windows names without regard to case, others as they are.
pub canonical : Bytes → Bytes
canonical s = if ends_exe s then lowered s else s

pub same_executable_iff : (a b : Bytes) → (same_executable a b ≡ true) ↔ (canonical a ≡ canonical b)
unfolding same_executable same_nocase canonical
same_executable_iff a b = ground (
  arith,
  same_bytes_iff (lowered a) (lowered b),
  same_bytes_iff a b,
  ends_exe-congr a b,
  ends_exe-lowered a,
  ends_exe-lowered b,
)

-- Being the same executable is an equivalence: the order in which the rule and the candidate are
-- compared does not matter, though the code tests only the left name for ".exe".
pub same_executable_equiv :
    (a b c : Bytes)
    → (same_executable a a ≡ true)
      × (same_executable a b ≡ same_executable b a)
      × (same_executable a b ≡ true → same_executable b c ≡ true → same_executable a c ≡ true)
same_executable_equiv a b c = ground (
  arith,
  same_executable_iff a a,
  same_executable_iff a b,
  same_executable_iff b a,
  same_executable_iff b c,
  same_executable_iff a c,
)
