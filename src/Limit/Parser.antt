-- ===== src/Limit/Parser.antt =====
-- `parse_limit` of src/pacer_limit.c: the configuration text, line by line.
-- What the parser reads of the limiter is its candidates and whether it reports. The labels of the
-- source that lead to `failure` are the `failed` results, which carry `state.result`.
pub mod State
pub mod Steps
pub mod Results
mod Tests
use frame_pacer.Common.{
  ℕ, zero, suc, ◌+◌, ◌-◌, ◌%◌, ◌^◌, Bool, true, false, not, ◌&&◌, ◌||◌, ltb, leb, ◌==◌,
  if◌then◌else◌, Bytes, List, [], ◌∷◌, same_bytes, codes, Option, none, some, length, get_or, add32,
}
use frame_pacer.Limit.Config.{
  Limit, EffectiveConfig, Status, Reason, Source, executable_max, set_failure,
}
use frame_pacer.Limit.Text.{trim, last_byte, drop_last, drop, split_at, contains, pieces}
use frame_pacer.Limit.Values.{parse_fps_limit, parse_thread_cpu_quota, parse_hud_enabled}
use frame_pacer.Limit.Executable.{match_priority}

-- `struct parsed_rule`; a priority of -1 is `none`.
pub record ParsedRule : Type 0 where
  pub section : Bytes
  pub executable : Bytes
  pub header_line : ℕ
  pub fps : ℕ
  pub quota : ℕ
  pub priority : Option ℕ
  pub has_executable : Bool
  pub has_fps : Bool
  pub has_quota : Bool
  pub quota_enabled : Bool

-- `struct parse_state`, with the local `global_fps`.
pub record ParseState : Type 0 where
  pub result : EffectiveConfig
  pub rule : ParsedRule
  pub selected_section : Bytes
  pub selected_fps : ℕ
  pub selected_quota : ℕ
  pub rule_count : ℕ
  pub selected_priority : Option ℕ
  pub selected_quota_enabled : Bool
  pub selected_has_quota : Bool
  pub selected_fps_off : Bool
  pub global_present : Bool
  pub global_off : Bool
  pub hud_present : Bool
  pub in_rule : Bool
  pub global_fps : ℕ

pub data Outcome (A : Type 0) : Type 0 where
  ok : A → Outcome A
  failed : EffectiveConfig → Outcome A

infixl 5 ◌>>=◌
unfoldable pub ◌>>=◌ : {A B : Type 0} → Outcome A → (A → Outcome B) → Outcome B
ok a >>= f = f a
failed r >>= f = failed r

-- The value of a key, or a failure for the reason.
unfoldable pub from_option : {A : Type 0} → Option A → EffectiveConfig → Outcome A
from_option none r = failed r
from_option (some a) r = ok a

unfoldable pub branch : Bool → Outcome ParseState → Outcome ParseState → Outcome ParseState
branch true a b = a
branch false a b = b

unfoldable pub require : Bool → EffectiveConfig → ParseState → Outcome ParseState
require true r s = ok s
require false r s = failed r

abbrev pub malformed : ParseState → Reason → ℕ → EffectiveConfig
malformed s reason line = set_failure s.result Status.malformed reason line

-- `memset(&state.rule, 0, ...)`, with the section, its line and no priority.
abbrev pub new_rule : Bytes → ℕ → ParsedRule
new_rule section line = record {
  section = section;
  executable = [];
  header_line = line;
  fps = 0;
  quota = 0;
  priority = none;
  has_executable = false;
  has_fps = false;
  has_quota = false;
  quota_enabled = false;
}

-- `state->selected_priority == rule->priority`, and `<` with -1 as "none selected yet".
abbrev pub same_priority : Option ℕ → ℕ → Bool
same_priority none p = false
same_priority (some q) p = q == p

abbrev pub improves : Option ℕ → ℕ → Bool
improves none p = true
improves (some q) p = ltb p q

unfoldable pub select_rule : Limit → ParseState → ℕ → ParseState
select_rule limit s p = record s {
  selected_priority = some p;
  selected_fps = s.rule.fps;
  selected_fps_off = s.rule.fps == 0;
  selected_quota_enabled = s.rule.quota_enabled;
  selected_quota = s.rule.quota;
  selected_has_quota = s.rule.has_quota;
  selected_section = if limit.reporting_enabled then s.rule.section else s.selected_section;
}

-- A complete rule against the one selected so far.
unfoldable pub offer_rule : Limit → ParseState → Option ℕ → Outcome ParseState
offer_rule limit s none = ok s
offer_rule limit s (some p) =
    branch (same_priority s.selected_priority p)
      (failed (malformed s Reason.duplicate_matching_rule s.rule.header_line))
      (branch (improves s.selected_priority p) (ok (select_rule limit s p)) (ok s))

unfoldable pub finish_rule : Limit → ParseState → Outcome ParseState
finish_rule limit s = branch (not s.in_rule) (ok s) (
    branch (not s.rule.has_executable || not s.rule.has_fps)
      (failed (malformed s Reason.incomplete_rule s.rule.header_line))
      (offer_rule limit (record s { rule_count = add32 s.rule_count 1 }) s.rule.priority))

-- `copy_value`
abbrev fits_buffer : Bytes → Bool
fits_buffer value = leb 1 (length value) && ltb (length value) executable_max

-- Behind `[`: the line up to the closing bracket is `[` ∷ rest.
unfoldable pub section_line : Limit → ParseState → ℕ → Bytes → Outcome ParseState
section_line limit s line text = do
  t ← finish_rule limit s
  let name = trim (drop_last (drop 1 text))
  t ←
      require (leb 3 (length text) && last_byte text == b']')
        (malformed t Reason.invalid_section line) t
  t ← require (fits_buffer name) (malformed t Reason.invalid_section line) t
  ok (record t { rule = new_rule name line; in_rule = true })

abbrev unless_duplicate : Bool → ParseState → ℕ → Outcome ParseState
unless_duplicate present s line = require (not present) (malformed s Reason.duplicate_key line) s

unfoldable pub global_fps_key : ParseState → ℕ → Bytes → Outcome ParseState
global_fps_key s line value = do
  s ← unless_duplicate s.global_present s line
  (fps, off) ← from_option (parse_fps_limit value) (malformed s Reason.invalid_value line)
  ok (record s { global_fps = fps; global_present = true; global_off = off })

unfoldable pub hud_key : ParseState → ℕ → Bytes → Outcome ParseState
hud_key s line value = do
  s ← unless_duplicate s.hud_present s line
  on ← from_option (parse_hud_enabled value) (malformed s Reason.invalid_value line)
  ok (record s {
    result = record (s.result) { hud_enabled = on; hud_source = Source.global };
    hud_present = true;
  })

unfoldable pub fps_key : ParseState → ℕ → Bytes → Outcome ParseState
fps_key s line value = do
  s ← unless_duplicate s.rule.has_fps s line
  (fps, off) ← from_option (parse_fps_limit value) (malformed s Reason.invalid_value line)
  ok (record s { rule = record (s.rule) { fps = fps; has_fps = true } })

abbrev is_quote : ℕ → Bool
is_quote c = c == b'"'

abbrev opens_quoted : Bytes → Bool
opens_quoted [] = false
opens_quoted (c ∷ cs) = is_quote c

-- The bytes between the quotes are a plain file name that fits its buffer.
abbrev is_plain_name : Bytes → Bool
is_plain_name name =
    fits_buffer name
    && not (contains b'"' name)
    && not (contains b'/' name)
    && not (contains b'\\' name)

unfoldable pub executable_key : Limit → ParseState → ℕ → Bytes → Outcome ParseState
executable_key limit s line value = do
  let name = drop_last (drop 1 value)
  s ← unless_duplicate s.rule.has_executable s line
  s ←
      require (leb 3 (length value) && opens_quoted value && is_quote (last_byte value))
        (malformed s Reason.invalid_executable line) s
  s ← require (is_plain_name name) (malformed s Reason.invalid_executable line) s
  ok (record s {
    rule = record (s.rule) {
      executable = name;
      has_executable = true;
      priority = match_priority limit.executable_candidates name;
    };
  })

unfoldable pub quota_key : ParseState → ℕ → Bytes → Outcome ParseState
quota_key s line value = do
  s ← unless_duplicate s.rule.has_quota s line
  (enabled, quota) ←
      from_option (parse_thread_cpu_quota value) (malformed s Reason.invalid_value line)
  ok (record s {
    rule = record (s.rule) { quota_enabled = enabled; quota = quota; has_quota = true };
  })

unfoldable pub key_value : Limit → ParseState → ℕ → Bytes → Bytes → Outcome ParseState
key_value limit s line key value =
    branch (not s.in_rule && same_bytes key (codes "global_fps_limit"))
      (global_fps_key s line value)
      (branch (not s.in_rule && same_bytes key (codes "hud")) (hud_key s line value) (
        branch (s.in_rule && same_bytes key (codes "fps_limit")) (fps_key s line value) (
          branch (s.in_rule && same_bytes key (codes "executable"))
            (executable_key limit s line value)
            (branch (s.in_rule && same_bytes key (codes "thread_cpu_limit"))
              (quota_key s line value) (failed (malformed s Reason.unknown_key line))))))

unfoldable pub key_line : Limit → ParseState → ℕ → Bytes → Outcome ParseState
key_line limit s line text = do
  (key, value) ← from_option (split_at b'=' text) (malformed s Reason.missing_equals line)
  key_value limit s line (trim key) (trim value)

-- One line, trimmed.
unfoldable pub parse_line : Limit → ParseState → ℕ → Bytes → Outcome ParseState
parse_line limit s line [] = ok s
parse_line limit s line (c ∷ cs) =
    branch (c == b'#') (ok s)
      (branch (c == b'[') (section_line limit s line (c ∷ cs)) (key_line limit s line (c ∷ cs)))

-- The lines from number `line` on.
unfoldable pub parse_lines : Limit → ParseState → ℕ → List Bytes → Outcome ParseState
parse_lines limit s line [] = ok s
parse_lines limit s line (text ∷ rest) = do
  t ← parse_line limit s line (trim text)
  parse_lines limit t (line + 1) rest

abbrev is_text_byte : ℕ → Bool
is_text_byte byte = byte == b'\r' || byte == b'\t' || leb 0x20 byte && leb byte 0x7e

-- `valid_bytes`, as the line of the first byte that is refused.
unfoldable pub invalid_line : Bytes → ℕ → Option ℕ
invalid_line [] line = none
invalid_line (byte ∷ bytes) line =
    let rest = invalid_line bytes (if byte == b'\n' then line + 1 else line) in
    if byte == b'\n' || is_text_byte byte then rest else some line

abbrev pub valid_bytes : Bytes → ParseState → Outcome ParseState
valid_bytes text s = elim (invalid_line text 1) [
  | none ↦ ok s
  | some line ↦ failed (malformed s Reason.invalid_byte line)
]

-- `memset`, and the assignments above the loop.
abbrev pub initial_state : EffectiveConfig → ParseState
initial_state result = record {
  result = record result { status = Status.valid; reason = Reason.no_reason };
  rule = record (new_rule [] 0) { priority = some 0 };
  selected_section = [];
  selected_fps = 0;
  selected_quota = 0;
  rule_count = 0;
  selected_priority = none;
  selected_quota_enabled = false;
  selected_has_quota = false;
  selected_fps_off = false;
  global_present = false;
  global_off = false;
  hud_present = false;
  in_rule = false;
  global_fps = 0;
}

-- The result with the selected rule, the candidate at `p` being the one that it matched.
unfoldable pub apply_rule : Limit → ParseState → ℕ → EffectiveConfig
apply_rule limit s p = record (s.result) {
  fps_limit = s.selected_fps;
  fps_source = Source.per_game;
  thread_cpu_enabled = s.selected_quota_enabled;
  thread_cpu_percent = s.selected_quota;
  thread_cpu_source = if s.selected_has_quota then Source.per_game else Source.default;
  matched_section =
      if limit.reporting_enabled then s.selected_section else s.result.matched_section;
  matched_executable =
      if limit.reporting_enabled
      then get_or limit.executable_candidates p []
      else s.result.matched_executable;
  reason = if s.selected_fps_off then Reason.explicitly_off else Reason.no_reason;
}

-- The result with no rule selected.
unfoldable pub apply_global : ParseState → EffectiveConfig
apply_global s = record (s.result) {
  fps_limit = s.global_fps;
  fps_source = if s.global_present then Source.global else Source.default;
  reason =
      if s.global_present && s.global_off
      then Reason.explicitly_off
      else if leb 1 s.rule_count
      then Reason.no_executable_match
      else Reason.no_per_game_rules;
}

unfoldable pub apply_selected : Limit → ParseState → Option ℕ → EffectiveConfig
apply_selected limit s none = apply_global s
apply_selected limit s (some p) = apply_rule limit s p

-- The label `failure`.
unfoldable pub safe_defaults : EffectiveConfig → EffectiveConfig
safe_defaults r = record r {
  fps_limit = 0;
  fps_source = Source.default;
  hud_enabled = true;
  hud_source = Source.default;
  thread_cpu_enabled = false;
  thread_cpu_percent = 0;
  thread_cpu_source = Source.default;
  matched_section = [];
  matched_executable = [];
}

-- The body of `parse_limit`, up to its two ends.
unfoldable pub parse_text : Limit → EffectiveConfig → Bytes → Outcome ParseState
parse_text limit result text = do
  s ← valid_bytes text (initial_state result)
  s ← parse_lines limit s 1 (pieces b'\n' text)
  finish_rule limit s

abbrev pub conclude : Limit → Outcome ParseState → Bool × EffectiveConfig
conclude limit (ok s) = (true, apply_selected limit s s.selected_priority)
conclude limit (failed r) = (false, safe_defaults r)

unfoldable pub parse_limit : Limit → EffectiveConfig → Bytes → Bool × EffectiveConfig
parse_limit limit result text = conclude limit (parse_text limit result text)
