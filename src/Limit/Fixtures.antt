-- ===== src/Limit/Fixtures.antt =====
-- A configuration file, a process and a file system for the tests.
use frame_pacer.Common.{Bytes, [], ◌∷◌, true, false, none, some, codes}
use frame_pacer.Limit.Config.{Limit, EffectiveConfig, Status, Reason, Source}
use frame_pacer.Limit.Executable.{Proc}
use frame_pacer.Limit.File.{FileStat, FileSystem, answer, chunk, interrupted}

abbrev pub base : EffectiveConfig
base = record {
  revision = 0;
  status = Status.unreadable;
  reason = Reason.config_path_unavailable;
  error_line = 0;
  fps_limit = 0;
  fps_source = Source.default;
  hud_enabled = true;
  hud_source = Source.default;
  thread_cpu_enabled = false;
  thread_cpu_percent = 0;
  thread_cpu_source = Source.default;
  renderer = codes "launcher";
  matched_section = [];
  matched_executable = [];
}

abbrev pub limiter : Limit
limiter = record {
  path = codes "/home/u/.config/frame-pacer/frame-pacer.conf";
  last_check_ns = 1000;
  fps = 60;
  thread_cpu_quota = 0;
  hud_enabled = true;
  revision = 3;
  effective = base;
  executable_candidates = codes "launcher" ∷ codes "Game.exe" ∷ [];
  executable = codes "launcher";
  config_buffer_capacity = 0;
  reporting_enabled = true;
  initialized = true;
}

abbrev pub config_text : Bytes
config_text =
    codes
      "global_fps_limit = 60\nhud = off\n\n[Game]\nexecutable = \"GAME.EXE\"\nfps_limit = 45\nthread_cpu_limit=50%"

abbrev pub stat : FileStat
stat = record {
  uid = 1000;
  dev = 1;
  ino = 77;
  nlink = 1;
  mode = 0o100600;
  size = 99;
  mtim_sec = 5;
  mtim_nsec = 6;
  ctim_sec = 5;
  ctim_nsec = 6;
}

abbrev pub files : FileSystem
files = record {
  user = 1000;
  lstat = answer stat;
  open_errno = none;
  fstat_before = some stat;
  can_allocate = true;
  reads = interrupted ∷ chunk config_text ∷ [];
  fstat_after = some stat;
  close_ok = true;
}

abbrev pub process : Proc
process = record {
  maps = codes "7f0 r-xp 00000000 08:01 99 /games/x/Game.exe" ∷ [];
  own_pid = 40;
  cmdline = λ _. none;
  stat_text = λ _. codes "40 (a) b) S 1 40";
  owned = λ _. true;
}
