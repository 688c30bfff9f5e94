-- ===== src/Limit/Parser/Tests.antt =====
-- Runs of `parse_limit` (src/pacer_limit.c) on whole files.
use frame_pacer.Common.{◌≡◌, refl, true, false, inl, length, codes, Bytes, same_bytes}
use frame_pacer.Limit.Config.{EffectiveConfig, Status, Reason, Source, set_failure}
use frame_pacer.Limit.Text.{
  pieces, trim, skip_space, drop_space_end, is_space, is_digit, split_at, drop, drop_last,
  last_byte, lowered, lower, same_nocase,
}
use frame_pacer.Limit.Values.{
  parse_fps_limit, parse_fps, parse_thread_cpu_quota, parse_hud_enabled, digits_loop,
}
use frame_pacer.Limit.Executable.{match_priority, match_from, same_executable, ends_exe}
use frame_pacer.Limit.Fixtures.{base, limiter, config_text}
use frame_pacer.Limit.Parser.{
  ◌>>=◌, branch, require, from_option, select_rule, offer_rule, finish_rule, section_line,
  global_fps_key, hud_key, fps_key, executable_key, quota_key, key_value, key_line, parse_line,
  parse_lines, invalid_line, apply_rule, apply_global, apply_selected, safe_defaults, parse_text,
  parse_limit,
}
use frame_pacer.Limit.Parser.Results.{ParseResult, parse_limit-ParseResult}

-- `parse_limit` on the test's limiter, with all that it calls unfolded.
run : Bytes → EffectiveConfig
unfolding ◌>>=◌ branch require from_option select_rule offer_rule finish_rule section_line
    global_fps_key hud_key fps_key executable_key quota_key key_value key_line parse_line
    parse_lines invalid_line apply_rule apply_global apply_selected safe_defaults parse_text
    parse_limit set_failure pieces trim skip_space drop_space_end is_space is_digit split_at drop
    drop_last last_byte lowered lower same_nocase parse_fps_limit parse_fps parse_thread_cpu_quota
    parse_hud_enabled digits_loop match_priority match_from same_executable ends_exe same_bytes
run text = (parse_limit limiter base text).1

run-config_text : run config_text ≡ record base {
  status = Status.valid;
  reason = Reason.no_reason;
  fps_limit = 45;
  fps_source = Source.per_game;
  hud_enabled = false;
  hud_source = Source.global;
  thread_cpu_enabled = true;
  thread_cpu_percent = 50;
  thread_cpu_source = Source.per_game;
  matched_section = codes "Game";
  matched_executable = codes "Game.exe";
}
unfolding run
run-config_text = refl

-- Two rules for the same candidate are refused, at the header of the second.
run-duplicate :
    run (
      codes
        "[a]\nexecutable=\"launcher\"\nfps_limit=1\n[b]\nexecutable=\"launcher\"\nfps_limit=2\n")
    ≡ record base {
      status = Status.malformed;
      reason = Reason.duplicate_matching_rule;
      error_line = 4;
    }
unfolding run
run-duplicate = refl

parse_limit-ParseResult_example :
    ParseResult limiter base
      (inl (refl, refl))
      (length (pieces b'\n' config_text))
      (parse_limit limiter base config_text)
parse_limit-ParseResult_example =
    parse_limit-ParseResult limiter base (inl (refl, refl)) config_text
