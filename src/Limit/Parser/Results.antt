-- ===== src/Limit/Parser/Results.antt =====
-- The two ends of `parse_limit` (src/pacer_limit.c): what a refused file leaves, and what an accepted
-- one can hold.
use frame_pacer.Common.{
  ℕ, suc, ◌+◌, ◌≤◌, ◌<◌, ◌≡◌, ◌⊎◌, arith, Bool, true, false, inl, inr, Bool-cases, ◌==◌, Bytes,
  List, [], ◌∷◌, length, refl, Option, none, some,
}
use frame_pacer.Limit.Config.{Limit, EffectiveConfig, Status, Reason, Source}
use frame_pacer.Limit.Text.{trim, pieces, onto_first}
use frame_pacer.Limit.Parser.{
  ParseState, Outcome, ok, failed, ◌>>=◌, malformed, finish_rule, parse_lines, invalid_line,
  is_text_byte, initial_state, apply_rule, apply_global, apply_selected, safe_defaults, parse_text,
  conclude, parse_limit,
}
use frame_pacer.Limit.Parser.State.{
  IsQuota, IsParsing, IsRefused, Post, parsed, refused, malformed-IsRefused, bind-Post,
}
use frame_pacer.Limit.Parser.Steps.{parse_line-Post, finish_rule-Post}

module _ {base : EffectiveConfig} where
  later-IsParsing : {s : ParseState} {n m : ℕ} → n ≤ m → IsParsing base n s → IsParsing base m s
  later-IsParsing {s} le v = record {
    status = v.status;
    error_line = v.error_line;
    revision = v.revision;
    renderer = v.renderer;
    no_quota = v.no_quota;
    header = λ inside. ((v.header inside).0, omega (arith, (v.header inside).1));
    global_fps = v.global_fps;
    rule_fps = v.rule_fps;
    selected_fps = v.selected_fps;
    rule_quota = v.rule_quota;
    selected_quota = v.selected_quota;
  }

  later-Post : {m : Outcome ParseState} {a b : ℕ} → a ≤ b → Post base a m → Post base b m
  later-Post le (parsed v) = parsed (later-IsParsing le v)
  later-Post le (refused v) = refused (record {
    status = v.status;
    first_line = v.first_line;
    last_line = omega (arith, v.last_line);
    revision = v.revision;
    renderer = v.renderer;
  })

  parse_lines-Post :
      (limit : Limit) {s : ParseState} (n : ℕ) (lines : List Bytes)
      → IsParsing base n s
      → Post base (n + length lines) (parse_lines limit s (n + 1) lines)
  unfolding parse_lines ◌>>=◌
  parse_lines-Post limit n [] v = parsed (later-IsParsing (omega arith) v)
  parse_lines-Post limit n (text ∷ rest) v =
      after (parse_line-Post limit (trim text) (omega arith) (later-IsParsing (omega arith) v))
        (λ t w. later-Post (omega arith) (parse_lines-Post limit {s = t} (n + 1) rest w))
    where
      after :
          {m : Outcome ParseState}
          → Post base (n + 1) m
          → ((t : ParseState)
              → IsParsing base (n + 1) t
              → Post base (n + suc (length rest)) (parse_lines limit t (n + 1 + 1) rest))
          → Post base (n + suc (length rest)) (m >>= λ t. parse_lines limit t (n + 1 + 1) rest)
      after (parsed w) k = k _ w
      after (refused w) k = later-Post (omega arith) (refused w)

onto_first-length :
    (c : ℕ) (ls : List Bytes)
    → (1 ≤ length (onto_first c ls)) × (length ls ≤ length (onto_first c ls))
onto_first-length c [] = omega arith
onto_first-length c (l ∷ ls) = omega arith

-- A refused byte stands in a line of the file.
invalid_line_bounds :
    (text : Bytes) (line : ℕ) {at : ℕ}
    → invalid_line text line ≡ some at
    → (line ≤ at) × (at < line + length (pieces b'\n' text))
unfolding invalid_line pieces
invalid_line_bounds [] line e = cc
invalid_line_bounds (c ∷ cs) line {at} e = elim (Bool-cases (c == b'\n')) [
  | inl newline ↦
      let e' = rw newline at e in
      let ih = invalid_line_bounds cs (line + 1) {at = at} e' in
      rw newline (omega (arith, ih.0, ih.1))
  | inr other ↦
      let e' = rw other at e in
      let longer = onto_first-length c (pieces b'\n' cs) in
      rw other (elim (Bool-cases (is_text_byte c)) [
        | inl fine ↦
            let ih = invalid_line_bounds cs line {at = at} (ground arith) in
            omega (arith, ih.0, ih.1)
        | inr bad ↦ let same : line ≡ at = ground arith in omega arith
      ])
]

initial_state-IsParsing : (base : EffectiveConfig) → IsParsing base 0 (initial_state base)
initial_state-IsParsing base = record {
  status = refl;
  error_line = refl;
  revision = refl;
  renderer = refl;
  no_quota = (refl, refl);
  header = λ e. cc;
  global_fps = omega arith;
  rule_fps = omega arith;
  selected_fps = omega arith;
  rule_quota = inl (refl, refl);
  selected_quota = inl (refl, refl);
}

parse_text-Post :
    (limit : Limit) (base : EffectiveConfig) (text : Bytes)
    → Post base (length (pieces b'\n' text)) (parse_text limit base text)
unfolding parse_text ◌>>=◌
parse_text-Post limit base text = judge (invalid_line text 1) refl
  where
    closed :
        {m : Outcome ParseState}
        → Post base (0 + length (pieces b'\n' text)) m
        → Post base (length (pieces b'\n' text)) (m >>= finish_rule limit)
    closed p = bind-Post _ (later-Post (omega arith) p) λ s v. finish_rule-Post limit v

    judge :
        (o : Option ℕ)
        → invalid_line text 1 ≡ o
        → Post base (length (pieces b'\n' text)) (
            elim o [
              | none ↦ ok (initial_state base)
              | some line ↦ failed (malformed (initial_state base) Reason.invalid_byte line)
            ]
            >>= λ s. parse_lines limit s 1 (pieces b'\n' text) >>= finish_rule limit)
    judge none e =
        closed (parse_lines-Post limit 0 (pieces b'\n' text) (initial_state-IsParsing base))
    judge (some line) e =
        let b = invalid_line_bounds text 1 {at = line} e in
        refused (
          malformed-IsRefused Reason.invalid_byte line
            (later-IsParsing (omega arith) (initial_state-IsParsing base)) b.0 (omega (arith, b.1)))

-- What an accepted file gives: no error, and settings in range.
pub record IsAccepted (base r : EffectiveConfig) : Type 0 where
  pub status : r.status ≡ Status.valid
  pub error_line : r.error_line ≡ base.error_line
  pub fps_limit : r.fps_limit ≤ 999
  pub quota : IsQuota r.thread_cpu_enabled r.thread_cpu_percent
  pub revision : r.revision ≡ base.revision
  pub renderer : r.renderer ≡ base.renderer

-- What a refused file gives: the line of the error, and neither a limit nor a rule, with the HUD on.
pub record IsSafe (base : EffectiveConfig) (lines : ℕ) (r : EffectiveConfig) : Type 0 where
  pub refusal : IsRefused base lines r
  pub fps_limit : r.fps_limit ≡ 0
  pub fps_source : r.fps_source ≡ Source.default
  pub hud_enabled : r.hud_enabled ≡ true
  pub hud_source : r.hud_source ≡ Source.default
  pub thread_cpu_enabled : r.thread_cpu_enabled ≡ false
  pub thread_cpu_percent : r.thread_cpu_percent ≡ 0
  pub thread_cpu_source : r.thread_cpu_source ≡ Source.default
  pub matched_section : r.matched_section ≡ []
  pub matched_executable : r.matched_executable ≡ []

module _ (limit : Limit) (base : EffectiveConfig)
    (off : IsQuota base.thread_cpu_enabled base.thread_cpu_percent) where
  apply_selected-IsAccepted :
      {n : ℕ} {s : ParseState} (p : Option ℕ)
      → IsParsing base n s
      → IsAccepted base (apply_selected limit s p)
  unfolding apply_selected apply_rule apply_global
  apply_selected-IsAccepted {s = s} none v = record {
    status = v.status;
    error_line = v.error_line;
    fps_limit = v.global_fps;
    quota = rw (v.no_quota.0, v.no_quota.1) off;
    revision = v.revision;
    renderer = v.renderer;
  }
  apply_selected-IsAccepted (some p) v = record {
    status = v.status;
    error_line = v.error_line;
    fps_limit = v.selected_fps;
    quota = v.selected_quota;
    revision = v.revision;
    renderer = v.renderer;
  }

  safe_defaults-IsSafe :
      {n : ℕ} {r : EffectiveConfig} → IsRefused base n r → IsSafe base n (safe_defaults r)
  unfolding safe_defaults
  safe_defaults-IsSafe v = record {
    refusal = record {
      status = v.status;
      first_line = v.first_line;
      last_line = v.last_line;
      revision = v.revision;
      renderer = v.renderer;
    };
    fps_limit = refl;
    fps_source = refl;
    hud_enabled = refl;
    hud_source = refl;
    thread_cpu_enabled = refl;
    thread_cpu_percent = refl;
    thread_cpu_source = refl;
    matched_section = refl;
    matched_executable = refl;
  }

  -- The two results of a parse, over a text of `lines` lines.
  abbrev pub ParseResult : ℕ → Bool × EffectiveConfig → Type 0
  ParseResult lines p = (p.0 ≡ true) × IsAccepted base p.1 ⊎ (p.0 ≡ false) × IsSafe base lines p.1

  conclude-ParseResult :
      {n : ℕ} {m : Outcome ParseState} → Post base n m → ParseResult n (conclude limit m)
  conclude-ParseResult (parsed {s} v) = inl (refl, apply_selected-IsAccepted s.selected_priority v)
  conclude-ParseResult (refused v) = inr (refl, safe_defaults-IsSafe v)

  -- Whatever the bytes of the file, it is either accepted, with an FPS limit of at most 999 and a
  -- thread limit that is off or from 1% to 100%; or refused at one of its lines, with no FPS limit,
  -- no thread limit, no matched rule and the HUD on.
  pub parse_limit-ParseResult :
      (text : Bytes) → ParseResult (length (pieces b'\n' text)) (parse_limit limit base text)
  unfolding parse_limit
  parse_limit-ParseResult text = conclude-ParseResult (parse_text-Post limit base text)
