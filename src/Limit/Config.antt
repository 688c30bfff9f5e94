-- ===== src/Limit/Config.antt =====
-- The enumerations and records of src/pacer_limit.h. A `char` array of 512 bytes is the list of the
-- bytes before its terminator; the mutex makes each operation one step and has no field.
use frame_pacer.Common.{ℕ, Bool, List, Bytes}

-- FRAME_PACER_CONFIG_POLL_NS
abbrev pub config_poll_ns : ℕ
config_poll_ns = 1000000000

-- FRAME_PACER_CONFIG_MAX_BYTES
abbrev pub config_max_bytes : ℕ
config_max_bytes = 1048576

-- FRAME_PACER_EXECUTABLE_MAX
abbrev pub executable_max : ℕ
executable_max = 512

-- FRAME_PACER_EXECUTABLE_CANDIDATES_MAX
abbrev pub candidates_max : ℕ
candidates_max = 16

pub data Status : Type 0 where
  valid missing insecure unreadable malformed : Status

pub data Reason : Type 0 where
  no_reason explicitly_off no_per_game_rules no_executable_match config_path_unavailable : Reason
  missing_file not_regular_file symbolic_link wrong_owner multiple_hard_links : Reason
  insecure_permissions empty_file file_too_large metadata_failed open_failed read_failed : Reason
  close_failed changed_during_read out_of_memory invalid_section missing_equals unknown_key : Reason
  duplicate_key invalid_value invalid_executable invalid_byte incomplete_rule : Reason
  duplicate_matching_rule : Reason

pub data Source : Type 0 where
  default global per_game : Source

unfoldable pub Status-discrete : Discrete Status
Status-discrete = hlevel

unfoldable pub Reason-discrete : Discrete Reason
Reason-discrete = hlevel

unfoldable pub Source-discrete : Discrete Source
Source-discrete = hlevel

pub record EffectiveConfig : Type 0 where
  pub revision : ℕ
  pub status : Status
  pub reason : Reason
  pub error_line : ℕ
  pub fps_limit : ℕ
  pub fps_source : Source
  pub hud_enabled : Bool
  pub hud_source : Source
  pub thread_cpu_enabled : Bool
  pub thread_cpu_percent : ℕ
  pub thread_cpu_source : Source
  pub renderer : Bytes
  pub matched_section : Bytes
  pub matched_executable : Bytes

-- `config_buffer` is scratch space: only its capacity outlives a call.
pub record Limit : Type 0 where
  pub path : Bytes
  pub last_check_ns : ℕ
  pub fps : ℕ
  pub thread_cpu_quota : ℕ
  pub hud_enabled : Bool
  pub revision : ℕ
  pub effective : EffectiveConfig
  pub executable_candidates : List Bytes
  pub executable : Bytes
  pub config_buffer_capacity : ℕ
  pub reporting_enabled : Bool
  pub initialized : Bool

unfoldable pub set_failure : EffectiveConfig → Status → Reason → ℕ → EffectiveConfig
set_failure result status reason line = record result {
  status = status;
  reason = reason;
  error_line = line;
}
