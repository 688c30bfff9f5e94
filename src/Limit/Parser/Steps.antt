-- ===== src/Limit/Parser/Steps.antt =====
-- Each step of the parser keeps its state well formed, or refuses the file at a line that was read
-- (src/pacer_limit.c).
use frame_pacer.Common.{ℕ, ◌≤◌, ◌≡◌, arith, Bool, true, inl, inr, Bytes, [], ◌∷◌, refl, some}
use frame_pacer.Limit.Config.{Limit, EffectiveConfig, Reason}
use frame_pacer.Limit.Text.{trim, split_at}
use frame_pacer.Limit.Values.{parse_fps_limit, parse_thread_cpu_quota, parse_hud_enabled}
use frame_pacer.Limit.Values.Accepted.{parse_fps_limit_iff, parse_thread_cpu_quota_iff}
use frame_pacer.Limit.Parser.{
  ParsedRule, ParseState, new_rule, finish_rule, section_line, global_fps_key, hud_key, fps_key,
  executable_key, quota_key, key_value, key_line, parse_line,
}
use frame_pacer.Limit.Parser.State.{
  parsed, refused, branch-Post, IsQuota, IsParsing, Post, malformed-IsRefused, bind-Post,
  require-Post, from_option-Post, offer_rule-Post,
}

parse_fps_limit-le : (s : Bytes) (n : ℕ) (off : Bool) → parse_fps_limit s ≡ some (n, off) → n ≤ 999
parse_fps_limit-le s n off e = elim ((parse_fps_limit_iff s n off).0 e) [
  | inl (w, z, t) ↦ omega arith
  | inr (v, f) ↦ v.high
]

parse_thread_cpu_quota-IsQuota :
    (s : Bytes) (enabled : Bool) (n : ℕ)
    → parse_thread_cpu_quota s ≡ some (enabled, n)
    → IsQuota enabled n
parse_thread_cpu_quota-IsQuota s enabled n e = elim ((parse_thread_cpu_quota_iff s enabled n).0 e) [
  | inl (w, f, z) ↦ inl (f, z)
  | inr ((body, shape, v), t) ↦ inr (t, v.low, v.high)
]

module _ {base : EffectiveConfig} {line : ℕ} where
  -- A rule is closed at a section header or at the end.
  pub finish_rule-Post :
      (limit : Limit) {s : ParseState}
      → IsParsing base line s
      → Post base line (finish_rule limit s)
  unfolding finish_rule
  finish_rule-Post limit {s} v =
      branch-Post _ (λ _. parsed v)
        λ inside.
          branch-Post _
            (λ _. refused (
              let h = v.header (ground arith) in
              malformed-IsRefused Reason.incomplete_rule s.rule.header_line v h.0 h.1))
            (λ _. offer_rule-Post limit s.rule.priority (ground arith) (record {
              status = v.status;
              error_line = v.error_line;
              revision = v.revision;
              renderer = v.renderer;
              no_quota = v.no_quota;
              header = v.header;
              global_fps = v.global_fps;
              rule_fps = v.rule_fps;
              selected_fps = v.selected_fps;
              rule_quota = v.rule_quota;
              selected_quota = v.selected_quota;
            }))

  open_section-IsParsing :
      {s : ParseState} (name : Bytes)
      → 1 ≤ line
      → IsParsing base line s
      → IsParsing base line (record s { rule = new_rule name line; in_rule = true })
  open_section-IsParsing name pos v = record {
    status = v.status;
    error_line = v.error_line;
    revision = v.revision;
    renderer = v.renderer;
    no_quota = v.no_quota;
    header = λ _. (pos, omega arith);
    global_fps = v.global_fps;
    rule_fps = omega arith;
    selected_fps = v.selected_fps;
    rule_quota = inl (refl, refl);
    selected_quota = v.selected_quota;
  }

  section_line-Post :
      (limit : Limit) {s : ParseState} (text : Bytes)
      → 1 ≤ line
      → IsParsing base line s
      → Post base line (section_line limit s line text)
  unfolding section_line
  section_line-Post limit text pos v = bind-Post _ (finish_rule-Post limit v) λ t w.
      bind-Post _ (require-Post _ _ pos w)
        λ t w. bind-Post _ (require-Post _ _ pos w) λ t w. parsed (open_section-IsParsing _ pos w)

  global_fps_key-Post :
      {s : ParseState} (value : Bytes)
      → 1 ≤ line
      → IsParsing base line s
      → Post base line (global_fps_key s line value)
  unfolding global_fps_key
  global_fps_key-Post value pos v = bind-Post _ (require-Post _ _ pos v) λ t w.
      from_option-Post (parse_fps_limit value) _ _ pos w λ (fps, off) e. parsed (record {
        status = w.status;
        error_line = w.error_line;
        revision = w.revision;
        renderer = w.renderer;
        no_quota = w.no_quota;
        header = w.header;
        global_fps = parse_fps_limit-le value fps off e;
        rule_fps = w.rule_fps;
        selected_fps = w.selected_fps;
        rule_quota = w.rule_quota;
        selected_quota = w.selected_quota;
      })

  hud_key-Post :
      {s : ParseState} (value : Bytes)
      → 1 ≤ line
      → IsParsing base line s
      → Post base line (hud_key s line value)
  unfolding hud_key
  hud_key-Post value pos v = bind-Post _ (require-Post _ _ pos v) λ t w.
      from_option-Post (parse_hud_enabled value) _ _ pos w λ on e. parsed (record {
        status = w.status;
        error_line = w.error_line;
        revision = w.revision;
        renderer = w.renderer;
        no_quota = w.no_quota;
        header = w.header;
        global_fps = w.global_fps;
        rule_fps = w.rule_fps;
        selected_fps = w.selected_fps;
        rule_quota = w.rule_quota;
        selected_quota = w.selected_quota;
      })

  -- A step that only writes the rule, and keeps its line.
  rule-IsParsing :
      {s : ParseState} (r : ParsedRule)
      → r.header_line ≡ s.rule.header_line
      → r.fps ≤ 999
      → IsQuota r.quota_enabled r.quota
      → IsParsing base line s
      → IsParsing base line (record s { rule = r })
  rule-IsParsing r same fps quota v = record {
    status = v.status;
    error_line = v.error_line;
    revision = v.revision;
    renderer = v.renderer;
    no_quota = v.no_quota;
    header = λ inside. rw same (v.header inside);
    global_fps = v.global_fps;
    rule_fps = fps;
    selected_fps = v.selected_fps;
    rule_quota = quota;
    selected_quota = v.selected_quota;
  }

  fps_key-Post :
      {s : ParseState} (value : Bytes)
      → 1 ≤ line
      → IsParsing base line s
      → Post base line (fps_key s line value)
  unfolding fps_key
  fps_key-Post value pos v = bind-Post _ (require-Post _ _ pos v) λ t w.
      from_option-Post (parse_fps_limit value) _ _ pos w λ (fps, off) e.
        parsed (rule-IsParsing _ refl (parse_fps_limit-le value fps off e) w.rule_quota w)

  executable_key-Post :
      (limit : Limit) {s : ParseState} (value : Bytes)
      → 1 ≤ line
      → IsParsing base line s
      → Post base line (executable_key limit s line value)
  unfolding executable_key
  executable_key-Post limit value pos v = bind-Post _ (require-Post _ _ pos v) λ t w.
      bind-Post _ (require-Post _ _ pos w) λ t w.
        bind-Post _ (require-Post _ _ pos w)
          λ t w. parsed (rule-IsParsing _ refl w.rule_fps w.rule_quota w)

  quota_key-Post :
      {s : ParseState} (value : Bytes)
      → 1 ≤ line
      → IsParsing base line s
      → Post base line (quota_key s line value)
  unfolding quota_key
  quota_key-Post value pos v = bind-Post _ (require-Post _ _ pos v) λ t w.
      from_option-Post (parse_thread_cpu_quota value) _ _ pos w λ (enabled, quota) e.
        parsed (
          rule-IsParsing _ refl w.rule_fps (parse_thread_cpu_quota-IsQuota value enabled quota e) w)

  key_value-Post :
      (limit : Limit) {s : ParseState} (key value : Bytes)
      → 1 ≤ line
      → IsParsing base line s
      → Post base line (key_value limit s line key value)
  unfolding key_value
  key_value-Post limit {s} key value pos v =
      branch-Post _ (λ _. global_fps_key-Post value pos v)
        λ _.
          branch-Post _ (λ _. hud_key-Post value pos v)
            λ _.
              branch-Post _ (λ _. fps_key-Post value pos v)
                λ _.
                  branch-Post _ (λ _. executable_key-Post limit value pos v)
                    λ _.
                      branch-Post _ (λ _. quota_key-Post value pos v)
                        λ _.
                          refused (malformed-IsRefused Reason.unknown_key line v pos (omega arith))

  key_line-Post :
      (limit : Limit) {s : ParseState} (text : Bytes)
      → 1 ≤ line
      → IsParsing base line s
      → Post base line (key_line limit s line text)
  unfolding key_line
  key_line-Post limit text pos v =
      from_option-Post (split_at b'=' text) _ _ pos v
        λ (key, value) e. key_value-Post limit (trim key) (trim value) pos v

  pub parse_line-Post :
      (limit : Limit) {s : ParseState} (text : Bytes)
      → 1 ≤ line
      → IsParsing base line s
      → Post base line (parse_line limit s line text)
  unfolding parse_line
  parse_line-Post limit [] pos v = parsed v
  parse_line-Post limit (c ∷ cs) pos v =
      branch-Post _ (λ _. parsed v)
        λ _.
          branch-Post _ (λ _. section_line-Post limit (c ∷ cs) pos v)
            λ _. key_line-Post limit (c ∷ cs) pos v
