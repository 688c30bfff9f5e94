-- ===== src/Limit/File/Tests.antt =====
-- Runs of the checked read (src/pacer_limit.c).
use frame_pacer.Common.{◌≡◌, refl, true, Bytes, same_bytes}
use frame_pacer.Limit.Config.{Status, Reason, set_failure}
use frame_pacer.Limit.Text.{
  pieces, trim, skip_space, drop_space_end, is_space, is_digit, split_at, drop, drop_last,
  last_byte, lowered, lower, same_nocase,
}
use frame_pacer.Limit.Values.{
  parse_fps_limit, parse_fps, parse_thread_cpu_quota, parse_hud_enabled, digits_loop,
}
use frame_pacer.Limit.Executable.{match_priority, match_from, same_executable, ends_exe}
use frame_pacer.Limit.Fixtures.{limiter, files, stat}
use frame_pacer.Limit.Parser.{
  Outcome, branch, require, from_option, select_rule, offer_rule, finish_rule, section_line,
  global_fps_key, hud_key, fps_key, executable_key, quota_key, key_value, key_line, parse_line,
  parse_lines, invalid_line, apply_rule, apply_global, apply_selected, safe_defaults, parse_text,
  parse_limit,
}
use frame_pacer.Limit.Parser
use frame_pacer.Limit.File.{
  answer, effective_defaults, same_file, take, read_complete, metadata_failure, ◌>>=◌, check, found,
  looked_up, accepted, opened, open_config, read_opened, read_config, resolved, resolve_limit,
  next_capacity,
}
use frame_pacer.Limit.File.Checked.{IsRead}
use frame_pacer.Limit.File.Resolved.{resolve_limit-IsRead, IsBounded, resolve_limit-IsBounded}

files_valid : (resolve_limit limiter files).status ≡ Status.valid
unfolding resolve_limit resolved read_config read_opened open_config opened accepted looked_up found
    check ◌>>=◌ metadata_failure read_complete take same_file effective_defaults Parser.◌>>=◌ branch
    require from_option select_rule offer_rule finish_rule section_line global_fps_key hud_key
    fps_key executable_key quota_key key_value key_line parse_line parse_lines invalid_line
    apply_rule apply_global apply_selected safe_defaults parse_text parse_limit set_failure pieces
    trim skip_space drop_space_end is_space is_digit split_at drop drop_last last_byte lowered lower
    same_nocase parse_fps_limit parse_fps parse_thread_cpu_quota parse_hud_enabled digits_loop
    match_priority match_from same_executable ends_exe same_bytes
files_valid = refl

-- A file that others may read is not opened.
group_readable :
    (resolve_limit limiter
      (record files { lstat = answer (record stat { mode = 0o100640 }) })).reason
    ≡ Reason.insecure_permissions
unfolding resolve_limit resolved read_config open_config accepted looked_up ◌>>=◌ metadata_failure
    effective_defaults set_failure
group_readable = refl

-- The buffer grows to the size of the file.
grown_buffer : next_capacity limiter files ≡ 99
unfolding next_capacity open_config accepted looked_up opened found check ◌>>=◌ metadata_failure
    same_file
grown_buffer = refl

resolve_limit-IsRead_example :
    (text : Bytes) × IsRead files text
    × (parse_limit limiter (effective_defaults limiter) text ≡ (true, resolve_limit limiter files))
resolve_limit-IsRead_example = resolve_limit-IsRead limiter files files_valid

resolve_limit-IsBounded_example : IsBounded (resolve_limit limiter files)
resolve_limit-IsBounded_example = resolve_limit-IsBounded limiter files
