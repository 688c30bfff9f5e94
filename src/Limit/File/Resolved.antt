-- ===== src/Limit/File/Resolved.antt =====
-- From a reload to the configuration it yields (`resolve_limit` of src/pacer_limit.c).
use frame_pacer.Limit.File.Checked.{IsRead, read_config-IsRead}
use frame_pacer.Common.{
  ℕ, ◌≤◌, ◌≡◌, ◌≢◌, ◌||◌, arith, Bool, true, false, inl, inr, Bool-cases, ◌==◌, Bytes, [], ◌∷◌,
  refl, Option, none, some,
}
use frame_pacer.Limit.Config.{Limit, EffectiveConfig, Status, Reason, set_failure}
use frame_pacer.Limit.Parser.{parse_limit}
use frame_pacer.Limit.Parser.State.{IsQuota}
use frame_pacer.Limit.Parser.Results.{parse_limit-ParseResult}
use frame_pacer.Limit.File.{
  FileStat, FileSystem, Answer, errno, answer, effective_defaults, same_file, read_complete,
  metadata_failure, Attempt, got, gave_up, ◌>>=◌, check, found, looked_up, accepted, opened,
  open_config, read_opened, read_config, resolved, resolve_limit,
}

-- An attempt that was given up does not count as a valid configuration.
data IsHonest {A : Type 0} : Attempt A → Type 0 where
  success : {a : A} → IsHonest (got a)
  failure : {s : Status} {r : Reason} → s ≢ Status.valid → IsHonest (gave_up s r)

IsHonest-bind :
    {A B : Type 0} {m : Attempt A} (f : A → Attempt B)
    → IsHonest m
    → ((a : A) → IsHonest (f a))
    → IsHonest (m >>= f)
unfolding ◌>>=◌
IsHonest-bind f (success {a}) k = k a
IsHonest-bind f (failure ne) k = failure ne

IsHonest-looked_up : (r : Answer FileStat) → IsHonest (looked_up r)
unfolding looked_up
IsHonest-looked_up (answer st) = success
IsHonest-looked_up (errno n) = elim (Bool-cases (n == 2 || n == 20)) [
  | inl absent ↦ rw absent (failure (λ e. cc))
  | inr present ↦ rw present (failure (λ e. cc))
]

IsHonest-found : {A : Type 0} (o : Option A) (why : Reason) → IsHonest (found o why)
unfolding found
IsHonest-found none why = failure (λ e. cc)
IsHonest-found (some a) why = success

IsHonest-check : (c : Bool) (why : Reason) → IsHonest (check c why)
unfolding check
IsHonest-check true why = success
IsHonest-check false why = failure (λ e. cc)

IsHonest-opened : (o : Option ℕ) → IsHonest (opened o)
unfolding opened
IsHonest-opened none = success
IsHonest-opened (some n) = failure (λ e. cc)

metadata_failure-ne-valid :
    (user : ℕ) (st : FileStat) {s : Status} {r : Reason}
    → metadata_failure user st ≡ some (s, r)
    → s ≢ Status.valid
unfolding metadata_failure
metadata_failure-ne-valid user st e v = ground arith

IsHonest-accepted : (user : ℕ) (st : FileStat) → IsHonest (accepted (metadata_failure user st))
unfolding accepted
IsHonest-accepted user st = judge (metadata_failure user st) refl
  where
    judge : (o : Option (Status × Reason)) → metadata_failure user st ≡ o → IsHonest (accepted o)
    judge none e = success
    judge (some (s, r)) e = failure (metadata_failure-ne-valid user st e)

read_config-IsHonest : (capacity : ℕ) (fs : FileSystem) → IsHonest (read_config capacity fs)
unfolding read_config open_config read_opened
read_config-IsHonest capacity fs =
    IsHonest-bind _
      (IsHonest-bind _ (IsHonest-looked_up fs.lstat) λ st.
        IsHonest-bind _ (IsHonest-accepted fs.user st) λ _.
          IsHonest-bind _ (IsHonest-opened fs.open_errno) λ _.
            IsHonest-bind _ (IsHonest-found fs.fstat_before _) λ before.
              IsHonest-bind _ (IsHonest-check (same_file st before) _)
                λ _. IsHonest-bind _ (IsHonest-check _ _) λ _. success)
      λ st. IsHonest-bind _ (IsHonest-found (read_complete st.size fs.reads []) _) λ text.
        IsHonest-bind _ (IsHonest-found fs.fstat_after _) λ after.
          IsHonest-bind _ (IsHonest-check (same_file st after) _)
            λ _. IsHonest-bind _ (IsHonest-check fs.close_ok _) λ _. success

no-IsQuota :
    (limit : Limit)
    → IsQuota
        (effective_defaults limit).thread_cpu_enabled
        (effective_defaults limit).thread_cpu_percent
unfolding effective_defaults
no-IsQuota limit = inl (refl, refl)

-- A text that parses to a valid configuration was accepted.
parsed_valid :
    (limit : Limit) (base : EffectiveConfig) (text : Bytes)
    → IsQuota base.thread_cpu_enabled base.thread_cpu_percent
    → (parse_limit limit base text).1.status ≡ Status.valid
    → (parse_limit limit base text).0 ≡ true
parsed_valid limit base text off e = elim (parse_limit-ParseResult limit base off text) [
  | inl (done, v) ↦ done
  | inr (done, v) ↦ let refused = v.refusal.status in absurd cc
]

-- Settings take effect only if they stand in a private regular file of the user that was the same
-- when it was looked up, when it was opened and when it had been read, and that was read whole; they
-- are then what the parser makes of its text, which is the bytes that the calls of `read` gave, in their
-- order, up to the size of the file.
pub resolve_limit-IsRead :
    (limit : Limit) (fs : FileSystem)
    → (resolve_limit limit fs).status ≡ Status.valid
    → (text : Bytes) × IsRead fs text
      × (parse_limit limit (effective_defaults limit) text ≡ (true, resolve_limit limit fs))
unfolding resolve_limit resolved effective_defaults set_failure
resolve_limit-IsRead limit fs e =
    judge limit.path (read_config limit.config_buffer_capacity fs) refl
      (read_config-IsHonest limit.config_buffer_capacity fs) e
  where
    judge :
        (path : Bytes) (attempt : Attempt Bytes)
        → read_config limit.config_buffer_capacity fs ≡ attempt
        → IsHonest attempt
        → (resolved limit path attempt).status ≡ Status.valid
        → (text : Bytes) × IsRead fs text
          × (parse_limit limit (effective_defaults limit) text
              ≡ (true, resolved limit path attempt))
    judge [] attempt eq h v = absurd cc
    judge (c ∷ path) (got text) eq h v = (
      text,
      read_config-IsRead limit.config_buffer_capacity fs eq,
      λ i. (
        parsed_valid limit (effective_defaults limit) text (no-IsQuota limit) v i,
        (parse_limit limit (effective_defaults limit) text).1,
      ),
    )
    judge (c ∷ path) (gave_up s r) eq (failure ne) v = absurd (ne v)

-- What every reload yields: settings in range, or neither a limit nor a rule.
pub record IsBounded (r : EffectiveConfig) : Type 0 where
  pub fps_limit : r.fps_limit ≤ 999
  pub quota : IsQuota r.thread_cpu_enabled r.thread_cpu_percent
  pub fail_open :
      r.status ≢ Status.valid
      → (r.fps_limit ≡ 0) × (r.thread_cpu_enabled ≡ false) × (r.hud_enabled ≡ true)

parse_limit-IsBounded :
    (limit : Limit) (base : EffectiveConfig) (text : Bytes)
    → IsQuota base.thread_cpu_enabled base.thread_cpu_percent
    → IsBounded (parse_limit limit base text).1
parse_limit-IsBounded limit base text off = elim (parse_limit-ParseResult limit base off text) [
  | inl (done, v) ↦ record {
    fps_limit = v.fps_limit;
    quota = v.quota;
    fail_open = λ bad. absurd (bad v.status);
  }
  | inr (done, v) ↦ record {
    fps_limit = omega (arith, v.fps_limit);
    quota = inl (v.thread_cpu_enabled, v.thread_cpu_percent);
    fail_open = λ bad. (v.fps_limit, v.thread_cpu_enabled, v.hud_enabled);
  }
]

-- Whatever the file and the system calls, a reload gives an FPS limit of at most 999 and a thread
-- limit that is off or from 1% to 100%; and if the configuration is not valid, it gives no FPS limit
-- and no thread limit, and shows the HUD.
pub resolve_limit-IsBounded : (limit : Limit) (fs : FileSystem) → IsBounded (resolve_limit limit fs)
unfolding resolve_limit resolved effective_defaults set_failure
resolve_limit-IsBounded limit fs = judge limit.path (read_config limit.config_buffer_capacity fs)
  where
    defaults :
        (status : Status) (why : Reason)
        → IsBounded (set_failure (effective_defaults limit) status why 0)
    defaults status why = record {
      fps_limit = omega arith;
      quota = inl (refl, refl);
      fail_open = λ _. (refl, refl, refl);
    }

    judge : (path : Bytes) (attempt : Attempt Bytes) → IsBounded (resolved limit path attempt)
    judge [] attempt = defaults Status.unreadable Reason.config_path_unavailable
    judge (c ∷ path) (got text) =
        parse_limit-IsBounded limit (effective_defaults limit) text (no-IsQuota limit)
    judge (c ∷ path) (gave_up s r) = defaults s r
