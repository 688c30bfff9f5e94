-- ===== src/Limit/Executable.antt =====
-- The names of the process that a rule can match (src/pacer_limit.c): base names from the mapped PE
-- image, the process's own command line and those of its parents.
-- What /proc holds is the parameter `Proc`; the retry of an interrupted `read` is left out. The
-- array of candidates is the list of those in use.
pub mod Names
pub mod Candidates
pub mod Priority
mod Tests
use frame_pacer.Common.{
  ℕ, zero, suc, ◌+◌, ◌-◌, ◌^◌, ◌*◌, min, Bool, true, false, not, ◌&&◌, ◌||◌, ltb, leb, ◌==◌,
  if◌then◌else◌, Bytes, List, [], ◌∷◌, ◌++◌, same_bytes, codes, Option, none, some, length,
}
use frame_pacer.Limit.Config.{Limit, executable_max, candidates_max}
use frame_pacer.Limit.Text.{
  is_space, is_digit, lowered, same_nocase, skip_space, last_byte, drop, pieces, split_at,
}

unfoldable pub ends_exe : Bytes → Bool
ends_exe s = leb 4 (length s) && same_nocase (drop (length s - 4) s) (codes ".exe")

unfoldable pub same_executable : Bytes → Bytes → Bool
same_executable left right = if ends_exe left then same_nocase left right else same_bytes left right

abbrev pub is_separator : ℕ → Bool
is_separator c = c == b'/' || c == b'\\'

-- The loop that moves `base` behind each separator.
pub base_from : Bytes → Bytes → Bytes
base_from [] base = base
base_from (c ∷ cs) base = base_from cs (if is_separator c then cs else base)

pub known : List Bytes → Bytes → Bool
known [] name = false
known (c ∷ cs) name = same_executable c name || known cs name

pub add_candidate_name : List Bytes → Bytes → List Bytes
add_candidate_name candidates [] = candidates
add_candidate_name candidates (c ∷ base) =
    if leb executable_max (length (c ∷ base)) || known candidates (c ∷ base)
    then candidates
    else candidates ++ ((c ∷ base) ∷ [])

-- `add_executable_candidate`
pub add_candidate : List Bytes → Bytes → List Bytes
add_candidate candidates value =
    if leb (length value) 0 || leb candidates_max (length candidates)
    then candidates
    else add_candidate_name candidates (base_from value value)

-- One argument of a command line; the flag is `include_command && first`.
abbrev is_offered : Bool → Bytes → Bool
is_offered taken argument = leb 1 (length argument) && (taken || ends_exe argument)

-- `add_command_candidates`, over the arguments between the NUL bytes.
pub add_arguments : List Bytes → Bool → List Bytes → List Bytes
add_arguments candidates taken [] = candidates
add_arguments candidates taken (argument ∷ rest) =
    add_arguments
      (if is_offered taken argument then add_candidate candidates argument else candidates) false
      rest

pub add_command : List Bytes → Bytes → Bool → List Bytes
add_command candidates command include_command =
    add_arguments candidates include_command (pieces 0 command)

-- `next_maps_field`
pub skip_field : Bytes → Bytes
skip_field [] = []
skip_field (c ∷ cs) = if is_space c then c ∷ cs else skip_field cs

pub next_maps_field : Bytes → Bytes
next_maps_field s = skip_field (skip_space s)

-- The field at the cursor has no other byte than `0`.
pub only_zeros : Bytes → Bool
only_zeros [] = true
only_zeros (c ∷ cs) = if is_space c then true else c == b'0' && only_zeros cs

-- The offset field is not empty, and zero.
pub zero_offset : Bytes → Bool
zero_offset [] = false
zero_offset (c ∷ cs) = not (is_space c) && only_zeros (c ∷ cs)

abbrev is_line_end : ℕ → Bool
is_line_end c = c == b'\n' || c == b'\r'

abbrev keep_unless_end : ℕ → Bytes → Bytes
keep_unless_end c [] = if is_line_end c then [] else c ∷ []
keep_unless_end c (x ∷ xs) = c ∷ x ∷ xs

pub drop_line_end : Bytes → Bytes
drop_line_end [] = []
drop_line_end (c ∷ cs) = keep_unless_end c (drop_line_end cs)

abbrev starts_slash : Bytes → Bool
starts_slash [] = false
starts_slash (c ∷ cs) = c == b'/'

pub mapped_path : Bytes → Option Bytes
mapped_path path = if starts_slash path && ends_exe path then some path else none

-- `mapped_executable_path`: the fields of a line of /proc/self/maps are address, permissions,
-- offset, device, inode and path.
pub mapped_executable_path : Bytes → Option Bytes
mapped_executable_path line =
    let offset = skip_space (next_maps_field (next_maps_field line)) in
    if zero_offset offset
    then mapped_path
        (drop_line_end (skip_space (next_maps_field (next_maps_field (next_maps_field offset)))))
    else none

-- `add_mapped_executable_candidate`, over the lines of the file.
pub add_mapped : List Bytes → List Bytes → List Bytes
add_mapped candidates [] = candidates
add_mapped candidates (line ∷ lines) =
    let rest = add_mapped candidates lines in
    elim (mapped_executable_path line) [ none ↦ rest | some path ↦ add_candidate candidates path ]

-- What /proc answers for a process.
pub record Proc : Type 0 where
  pub maps : List Bytes
  pub own_pid : ℕ
  -- The first `read` of a command line, at most 512 bytes, and whether the file ends there.
  pub cmdline : ℕ → Option (Bytes × Bool)
  -- What the `read` of a stat file gives, at most 511 bytes with no NUL among them.
  pub stat_text : ℕ → Bytes
  pub owned : ℕ → Bool

-- `read_command`; `none` stands for every result that is not positive.
pub read_command : Proc → ℕ → Option Bytes
read_command proc pid = elim (proc.cmdline pid) [
  | none ↦ none
  | some (bytes, complete) ↦
      if length bytes == executable_max && not complete then none else some bytes
]

abbrev add_read : Option Bytes → List Bytes → Bool → List Bytes
add_read none candidates include_command = candidates
add_read (some command) candidates include_command = add_command candidates command include_command

-- What follows the last occurrence (`strrchr`), looked for behind `found`.
pub behind_last : ℕ → Bytes → Option Bytes → Option Bytes
behind_last mark [] found = found
behind_last mark (c ∷ cs) found = behind_last mark cs (if c == mark then some cs else found)

-- The digits that `strtol` reads, on the value so far; INT_MAX + 1 stands for all that is larger,
-- with a `long` of 64 bits; one of 32 bits would stop at INT_MAX.
pub read_digits : Bytes → ℕ → ℕ
read_digits [] value = value
read_digits (c ∷ cs) value =
    if is_digit c then read_digits cs (min (2 ^ 31) (value * 10 + (c - b'0'))) else value

abbrev unsign : Bytes → Bytes
unsign [] = []
unsign (c ∷ cs) = if c == b'+' then cs else c ∷ cs

-- `strtol` with its checks: a negative number, 0, 1 and a number above INT_MAX give 0.
pub parent_number : Bytes → ℕ
parent_number s =
    let value = read_digits (unsign (skip_space s)) 0 in
    if ltb value 2 || ltb (2 ^ 31 - 1) value then 0 else value

-- Behind the `)`: white space, the state letter, white space and the number.
abbrev behind_state : Bytes → ℕ
behind_state [] = 0
behind_state (c ∷ cs) = parent_number (skip_space cs)

-- `parent_process_id`, with 0 where there is none.
pub parent_process_id : Proc → ℕ → ℕ
parent_process_id proc pid = elim (behind_last b')' (proc.stat_text pid) none) [
  | none ↦ 0
  | some rest ↦ behind_state (skip_space rest)
]

-- The walk over at most `depth` parents.
pub add_parents : ℕ → Proc → ℕ → List Bytes → List Bytes
add_parents zero proc pid candidates = candidates
add_parents (suc depth) proc pid candidates =
    let parent = parent_process_id proc pid in
    let rest =
      add_parents depth proc parent (add_read (read_command proc parent) candidates false) in
    if parent == 0 || not (proc.owned parent) then candidates else rest

pub set_executable_candidates : Proc → List Bytes
set_executable_candidates proc =
    add_parents 8 proc proc.own_pid
      (add_read (read_command proc proc.own_pid) (add_mapped [] proc.maps) true)

-- `limit->executable`
pub first_candidate : List Bytes → Bytes
first_candidate [] = []
first_candidate (c ∷ cs) = c

-- From `index` on.
unfoldable pub match_from : List Bytes → Bytes → ℕ → Option ℕ
match_from [] executable index = none
match_from (c ∷ cs) executable index =
    if same_executable executable c then some index else match_from cs executable (index + 1)

-- `executable_match_priority`, with `none` for -1.
unfoldable pub match_priority : List Bytes → Bytes → Option ℕ
match_priority candidates executable = match_from candidates executable 0
