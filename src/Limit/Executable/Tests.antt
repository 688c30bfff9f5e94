-- ===== src/Limit/Executable/Tests.antt =====
-- Candidates (src/pacer_limit.c) of a concrete process.
use frame_pacer.Common.{◌≡◌, ◌↔◌, refl, true, some, codes, [], ◌∷◌, same_bytes}
use frame_pacer.Limit.Text.{is_space, skip_space, lowered, lower, same_nocase, drop, is_digit}
use frame_pacer.Limit.Fixtures.{process}
use frame_pacer.Limit.Executable.{
  same_executable, ends_exe, base_from, known, add_candidate_name, add_candidate, skip_field,
  next_maps_field, only_zeros, zero_offset, drop_line_end, mapped_path, mapped_executable_path,
  add_mapped, read_command, parent_process_id, behind_last, read_digits, parent_number, add_parents,
  set_executable_candidates, match_priority,
}
use frame_pacer.Limit.Executable.Names.{same_executable_equiv}
use frame_pacer.Limit.Executable.Candidates.{IsCandidates, set_executable_candidates-IsCandidates}
use frame_pacer.Limit.Executable.Priority.{MatchesAt, match_priority_iff}

mapped_game : set_executable_candidates process ≡ codes "Game.exe" ∷ []
unfolding set_executable_candidates add_parents add_mapped mapped_executable_path mapped_path
    drop_line_end zero_offset only_zeros next_maps_field skip_field skip_space is_space ends_exe
    same_nocase lowered lower same_bytes drop add_candidate add_candidate_name base_from known
    read_command parent_process_id behind_last parent_number read_digits is_digit
mapped_game = refl

parent_of_40 : parent_process_id process 40 ≡ 0
unfolding parent_process_id behind_last parent_number read_digits is_digit skip_space is_space
parent_of_40 = refl

same_executable_equiv_example :
    (same_executable (codes "A.exe") (codes "A.exe") ≡ true)
    × (same_executable (codes "A.exe") (codes "a.EXE")
        ≡ same_executable (codes "a.EXE") (codes "A.exe"))
    × (same_executable (codes "A.exe") (codes "a.EXE") ≡ true
        → same_executable (codes "a.EXE") (codes "a.exe") ≡ true
        → same_executable (codes "A.exe") (codes "a.exe") ≡ true)
same_executable_equiv_example =
    same_executable_equiv (codes "A.exe") (codes "a.EXE") (codes "a.exe")

set_executable_candidates-IsCandidates_example : IsCandidates (set_executable_candidates process)
set_executable_candidates-IsCandidates_example = set_executable_candidates-IsCandidates process

match_priority_iff_example :
    (match_priority (set_executable_candidates process) (codes "GAME.EXE") ≡ some 0)
    ↔ MatchesAt (set_executable_candidates process) (codes "GAME.EXE") 0
match_priority_iff_example =
    match_priority_iff (set_executable_candidates process) (codes "GAME.EXE") 0
      (set_executable_candidates-IsCandidates process)
