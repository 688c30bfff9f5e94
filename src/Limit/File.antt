-- ===== src/Limit/File.antt =====
-- `resolve_limit` of src/pacer_limit.c: the checked read of the configuration file.
-- What the system calls answer during one reload is the record `FileSystem`. The list `reads` is
-- what the calls of `read` return, in order: it is finite, and behind its end the file has ended. The
-- branches for FRAME_PACER_TEST are not part of the program and are left out.
pub mod Checked
pub mod Resolved
mod Tests
use frame_pacer.Common.{
  ℕ, zero, suc, ◌+◌, ◌-◌, ◌*◌, ◌/◌, ◌%◌, ◌^◌, Bool, true, false, not, ◌&&◌, ◌||◌, ltb, leb, ◌==◌,
  if◌then◌else◌, Bytes, List, [], ◌∷◌, ◌++◌, Option, none, some, length,
}
use frame_pacer.Limit.Config.{
  Limit, EffectiveConfig, Status, Reason, Source, set_failure, config_max_bytes,
}
use frame_pacer.Limit.Parser.{parse_limit}

abbrev pub enoent : ℕ
enoent = 2

abbrev pub enotdir : ℕ
enotdir = 20

abbrev pub eloop : ℕ
eloop = 40

-- `struct stat`, as far as it is read.
pub record FileStat : Type 0 where
  pub uid : ℕ
  pub dev : ℕ
  pub ino : ℕ
  pub nlink : ℕ
  pub mode : ℕ
  pub size : ℕ
  pub mtim_sec : ℕ
  pub mtim_nsec : ℕ
  pub ctim_sec : ℕ
  pub ctim_nsec : ℕ

-- What one `read` returns: some bytes (none at the end of the file), or an error.
pub data ReadResult : Type 0 where
  chunk : Bytes → ReadResult
  interrupted : ReadResult
  read_error : ReadResult

-- The answer of a system call: an `errno`, or a value.
pub data Answer (A : Type 0) : Type 0 where
  errno : ℕ → Answer A
  answer : A → Answer A

pub record FileSystem : Type 0 where
  pub user : ℕ  -- `getuid`
  pub lstat : Answer FileStat
  pub open_errno : Option ℕ  -- `none` if `open` succeeds
  pub fstat_before : Option FileStat
  pub can_allocate : Bool
  pub reads : List ReadResult
  pub fstat_after : Option FileStat
  pub close_ok : Bool

-- `S_ISLNK` and `S_ISREG`: the file type is the fifth octal digit and up of the mode.
abbrev pub file_type : ℕ → ℕ
file_type mode = mode / 0o10000 % 0o20

abbrev pub is_link : ℕ → Bool
is_link mode = file_type mode == 0o12

abbrev pub is_regular : ℕ → Bool
is_regular mode = file_type mode == 0o10

-- `mode & (S_IRWXG | S_IRWXO)`
abbrev pub shared_permissions : ℕ → ℕ
shared_permissions mode = mode % 0o100

pub effective_defaults : Limit → EffectiveConfig
effective_defaults limit = record {
  revision = 0;
  status = Status.unreadable;
  reason = Reason.config_path_unavailable;
  error_line = 0;
  fps_limit = 0;
  fps_source = Source.default;
  hud_enabled = true;
  hud_source = Source.default;
  thread_cpu_enabled = false;
  thread_cpu_percent = 0;
  thread_cpu_source = Source.default;
  renderer = if limit.reporting_enabled then limit.executable else [];
  matched_section = [];
  matched_executable = [];
}

pub same_file : FileStat → FileStat → Bool
same_file left right =
    left.uid == right.uid
    && left.dev == right.dev
    && left.ino == right.ino
    && left.nlink == right.nlink
    && left.mode == right.mode
    && left.size == right.size
    && left.mtim_sec == right.mtim_sec
    && left.mtim_nsec == right.mtim_nsec
    && left.ctim_sec == right.ctim_sec
    && left.ctim_nsec == right.ctim_nsec

-- `read` fills no more than it is asked for.
pub take : ℕ → Bytes → Bytes
take zero s = []
take (suc n) [] = []
take (suc n) (c ∷ cs) = c ∷ take n cs

-- `read_complete`, with `remaining` bytes to go behind those in `text`.
pub read_complete : ℕ → List ReadResult → Bytes → Option Bytes
read_complete zero reads text = some text
read_complete (suc remaining) [] text = none
read_complete (suc remaining) (interrupted ∷ reads) text = read_complete (suc remaining) reads text
read_complete (suc remaining) (read_error ∷ reads) text = none
read_complete (suc remaining) (chunk [] ∷ reads) text = none
read_complete (suc remaining) (chunk (c ∷ cs) ∷ reads) text =
    read_complete (remaining - length (take remaining cs)) reads (text ++ (c ∷ take remaining cs))

-- The checks of the metadata, in order; `none` if the file may be opened.
pub metadata_failure : ℕ → FileStat → Option (Status × Reason)
metadata_failure user expected =
    if is_link expected.mode
    then some (Status.insecure, Reason.symbolic_link)
    else if not (is_regular expected.mode)
    then some (Status.insecure, Reason.not_regular_file)
    else if not (expected.uid == user)
    then some (Status.insecure, Reason.wrong_owner)
    else if not (expected.nlink == 1)
    then some (Status.insecure, Reason.multiple_hard_links)
    else if not (shared_permissions expected.mode == 0)
    then some (Status.insecure, Reason.insecure_permissions)
    else if ltb expected.size 1
    then some (Status.malformed, Reason.empty_file)
    else if ltb config_max_bytes expected.size
    then some (Status.malformed, Reason.file_too_large)
    else none

-- A step of the read: what it gives, or the reason for which it is given up.
pub data Attempt (A : Type 0) : Type 0 where
  got : A → Attempt A
  gave_up : Status → Reason → Attempt A

infixl 5 ◌>>=◌ ◌>>◌
pub ◌>>=◌ : {A B : Type 0} → Attempt A → (A → Attempt B) → Attempt B
got a >>= f = f a
gave_up s r >>= f = gave_up s r

abbrev ◌>>◌ : {A B : Type 0} → Attempt A → Attempt B → Attempt B
m >> k = m >>= λ _. k

pub check : Bool → Reason → Attempt (Unit {0})
check true why = got tt
check false why = gave_up Status.unreadable why

pub found : {A : Type 0} → Option A → Reason → Attempt A
found none why = gave_up Status.unreadable why
found (some a) why = got a

abbrev is_absent : ℕ → Bool
is_absent e = e == enoent || e == enotdir

pub looked_up : Answer FileStat → Attempt FileStat
looked_up (answer st) = got st
looked_up (errno e) =
    if is_absent e
    then gave_up Status.missing Reason.missing_file
    else gave_up Status.unreadable Reason.metadata_failed

pub accepted : Option (Status × Reason) → Attempt (Unit {0})
accepted none = got tt
accepted (some (s, r)) = gave_up s r

pub opened : Option ℕ → Attempt (Unit {0})
opened none = got tt
opened (some e) =
    gave_up Status.unreadable
      (if is_absent e || e == eloop then Reason.changed_during_read else Reason.open_failed)

-- The file, opened and found to be the one that was looked up, with room for its text.
pub open_config : ℕ → FileSystem → Attempt FileStat
open_config capacity fs = do
  expected ← looked_up fs.lstat
  accepted (metadata_failure fs.user expected)
  opened fs.open_errno
  before ← found fs.fstat_before Reason.metadata_failed
  check (same_file expected before) Reason.changed_during_read
  check (leb expected.size capacity || fs.can_allocate) Reason.out_of_memory
  got expected

-- The text of the open file, if it is still the same behind the read.
pub read_opened : FileSystem → FileStat → Attempt Bytes
read_opened fs expected = do
  text ← found (read_complete expected.size fs.reads []) Reason.read_failed
  after ← found fs.fstat_after Reason.metadata_failed
  check (same_file expected after) Reason.changed_during_read
  check fs.close_ok Reason.close_failed
  got text

pub read_config : ℕ → FileSystem → Attempt Bytes
read_config capacity fs = do expected ← open_config capacity fs; read_opened fs expected

abbrev concluded : Limit → Attempt Bytes → EffectiveConfig
concluded limit (got text) = (parse_limit limit (effective_defaults limit) text).1
concluded limit (gave_up status why) = set_failure (effective_defaults limit) status why 0

abbrev grown : ℕ → Attempt FileStat → ℕ
grown capacity (got st) = if leb st.size capacity then capacity else st.size
grown capacity (gave_up status why) = capacity

-- Without a path nothing is read.
pub resolved : Limit → Bytes → Attempt Bytes → EffectiveConfig
resolved limit [] attempt = effective_defaults limit
resolved limit (c ∷ path) attempt = concluded limit attempt

-- The configuration that a reload finds.
pub resolve_limit : Limit → FileSystem → EffectiveConfig
resolve_limit limit fs = resolved limit limit.path (read_config limit.config_buffer_capacity fs)

-- `config_buffer_capacity` behind a reload: the buffer grows to the size of the file.
pub next_capacity : Limit → FileSystem → ℕ
next_capacity limit fs = elim limit.path [
  | [] ↦ limit.config_buffer_capacity
  | c ∷ cs ↦ grown limit.config_buffer_capacity (open_config limit.config_buffer_capacity fs)
]
