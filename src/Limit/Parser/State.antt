-- ===== src/Limit/Parser/State.antt =====
-- What holds of the parser's state between two lines (src/pacer_limit.c), and what each step keeps.
use frame_pacer.Common.{ℕ, ◌≤◌, ◌≡◌, ◌⊎◌, arith, Bool, true, false, refl, Option, none, some}
use frame_pacer.Limit.Config.{Limit, EffectiveConfig, Status, Reason, set_failure}
use frame_pacer.Limit.Parser.{
  ParseState, Outcome, ok, failed, ◌>>=◌, branch, from_option, require, malformed, select_rule,
  offer_rule,
}

-- A thread CPU setting: off, or a percentage.
abbrev pub IsQuota : Bool → ℕ → Type 0
IsQuota enabled quota =
    (enabled ≡ false) × (quota ≡ 0) ⊎ (enabled ≡ true) × (1 ≤ quota) × (quota ≤ 100)

-- The state behind line `line`, for the result `base` at the start.
pub record IsParsing (base : EffectiveConfig) (line : ℕ) (s : ParseState) : Type 0 where
  pub status : s.result.status ≡ Status.valid
  pub error_line : s.result.error_line ≡ base.error_line
  pub revision : s.result.revision ≡ base.revision
  pub renderer : s.result.renderer ≡ base.renderer
  pub no_quota :
      (s.result.thread_cpu_enabled ≡ base.thread_cpu_enabled)
      × (s.result.thread_cpu_percent ≡ base.thread_cpu_percent)
  pub header : s.in_rule ≡ true → (1 ≤ s.rule.header_line) × (s.rule.header_line ≤ line)
  pub global_fps : s.global_fps ≤ 999
  pub rule_fps : s.rule.fps ≤ 999
  pub selected_fps : s.selected_fps ≤ 999
  pub rule_quota : IsQuota s.rule.quota_enabled s.rule.quota
  pub selected_quota : IsQuota s.selected_quota_enabled s.selected_quota

-- A refused configuration names a line that was read.
pub record IsRefused (base : EffectiveConfig) (line : ℕ) (r : EffectiveConfig) : Type 0 where
  pub status : r.status ≡ Status.malformed
  pub first_line : 1 ≤ r.error_line
  pub last_line : r.error_line ≤ line
  pub revision : r.revision ≡ base.revision
  pub renderer : r.renderer ≡ base.renderer

-- What a step gives: a well-formed state, or a refusal.
pub data Post (base : EffectiveConfig) (line : ℕ) : Outcome ParseState → Type 0 where
  parsed : {s : ParseState} → IsParsing base line s → Post base line (ok s)
  refused : {r : EffectiveConfig} → IsRefused base line r → Post base line (failed r)

module _ {base : EffectiveConfig} {line : ℕ} where
  pub malformed-IsRefused :
      {s : ParseState} (why : Reason) (at : ℕ)
      → IsParsing base line s
      → 1 ≤ at
      → at ≤ line
      → IsRefused base line (malformed s why at)
  unfolding set_failure
  malformed-IsRefused why at v low high = record {
    status = refl;
    first_line = low;
    last_line = high;
    revision = v.revision;
    renderer = v.renderer;
  }

  pub bind-Post :
      {m : Outcome ParseState} (f : ParseState → Outcome ParseState)
      → Post base line m
      → ((s : ParseState) → IsParsing base line s → Post base line (f s))
      → Post base line (m >>= f)
  unfolding ◌>>=◌
  bind-Post f (parsed {s} v) k = k s v
  bind-Post f (refused v) k = refused v

  -- A branch is judged knowing its test.
  pub branch-Post :
      (b : Bool) {m n : Outcome ParseState}
      → (b ≡ true → Post base line m)
      → (b ≡ false → Post base line n)
      → Post base line (branch b m n)
  unfolding branch
  branch-Post true h k = h refl
  branch-Post false h k = k refl

  pub require-Post :
      {s : ParseState} (b : Bool) (why : Reason)
      → 1 ≤ line
      → IsParsing base line s
      → Post base line (require b (malformed s why line) s)
  unfolding require
  require-Post true why pos v = parsed v
  require-Post false why pos v = refused (malformed-IsRefused why line v pos (omega arith))

  pub from_option-Post :
      {A : Type 0} {s : ParseState} (o : Option A) (why : Reason) (f : A → Outcome ParseState)
      → 1 ≤ line
      → IsParsing base line s
      → ((a : A) → o ≡ some a → Post base line (f a))
      → Post base line (from_option o (malformed s why line) >>= f)
  unfolding from_option ◌>>=◌
  from_option-Post none why f pos v k = refused (malformed-IsRefused why line v pos (omega arith))
  from_option-Post (some a) why f pos v k = k a refl

  pub offer_rule-Post :
      (limit : Limit) {s : ParseState} (p : Option ℕ)
      → s.in_rule ≡ true
      → IsParsing base line s
      → Post base line (offer_rule limit s p)
  unfolding offer_rule select_rule
  offer_rule-Post limit none e v = parsed v
  offer_rule-Post limit {s} (some p) e v =
      branch-Post _ (λ _. refused (malformed-IsRefused _ _ v (v.header e).0 (v.header e).1))
        λ _.
          branch-Post _
            (λ _. parsed (record {
              status = v.status;
              error_line = v.error_line;
              revision = v.revision;
              renderer = v.renderer;
              no_quota = v.no_quota;
              header = v.header;
              global_fps = v.global_fps;
              rule_fps = v.rule_fps;
              selected_fps = v.rule_fps;
              rule_quota = v.rule_quota;
              selected_quota = v.rule_quota;
            }))
            (λ _. parsed v)
