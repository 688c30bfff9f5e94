-- ===== src/Hud/Text.antt =====
-- src/hud_text.c: the lines of the HUD, of three digits and a unit per column.
-- A text is its bytes before the NUL. The text that is written starts as `old`: a line that the code does
-- not reach keeps its bytes. The null pointers that the code accepts are not represented, but for
-- missing metrics, which read as none available.
pub mod Columns
mod Tests
use frame_pacer.Common.{
  ℕ, ◌+◌, ◌*◌, ◌/◌, ◌%◌, ◌≤◌, Bool, true, false, not, ◌&&◌, ◌||◌, ltb, leb, ◌==◌, if◌then◌else◌,
  Bytes, List, [], ◌∷◌, ◌++◌, codes,
}
use frame_pacer.Hud.Metrics.{Snapshot, no_metrics}

pub record HudText : Type 0 where
  pub line0 : Bytes
  pub line1 : Bytes
  pub line2 : Bytes
  pub line3 : Bytes
  pub line_count : ℕ

-- The glyphs for degrees and for frames.
abbrev pub degree : ℕ
degree = 127

abbrev pub frame : ℕ
frame = 126

-- `(char)`, of a character set of eight bits.
abbrev pub to_char : ℕ → ℕ
to_char c = c % 256

pub format_column : ℕ → ℕ → Bytes
format_column value suffix =
    (if leb 100 value then to_char (b'0' + value / 100) else b' ')
    ∷ (if leb 10 value then to_char (b'0' + value / 10 % 10) else b' ')
    ∷ to_char (b'0' + value % 10)
    ∷ suffix
    ∷ []

pub format_unavailable : Bytes
format_unavailable = codes " N/A"

pub format_metric : Bool → ℕ → ℕ → Bytes
format_metric available metric suffix =
    if not available || ltb 999 metric then format_unavailable else format_column metric suffix

pub format_fps_count : Bool → ℕ → Bytes
format_fps_count valid value =
    if not valid || ltb 999 value then format_unavailable else format_column value frame

pub format_fps_limit : ℕ → Bytes
format_fps_limit value = if value == 0 then codes " OFF" else format_fps_count true value

pub format_line : Bytes → Bytes → Bytes → Bytes
format_line label first second = label ++ (first ++ (b' ' ∷ second))

pub gpu_line : Snapshot → Bytes
gpu_line metrics =
    format_line (codes "GPU ") (format_metric metrics.has_gpu_use metrics.gpu_use_percent b'%')
      (format_metric metrics.has_gpu_temp metrics.gpu_temp_celsius degree)

pub cpu_line : Snapshot → Bytes
cpu_line metrics =
    format_line (codes "CPU ") (format_metric metrics.has_cpu_use metrics.cpu_use_percent b'%')
      (format_metric metrics.has_cpu_temp metrics.cpu_temp_celsius degree)

pub thread_line : Snapshot → Bool → ℕ → Bytes
thread_line metrics confirmed quota =
    format_line (codes "THR ")
      (format_metric metrics.has_thread_cpu_use metrics.thread_cpu_percent b'%')
      (if confirmed && leb quota 100 then format_column quota b'%' else format_unavailable)

pub fps_line : Bool → ℕ → ℕ → Bytes
fps_line valid fps limit =
    format_line (codes "FPS ") (format_fps_count (valid && not (fps == 0)) fps)
      (format_fps_limit limit)

-- The flags: a quota is configured, and it is confirmed.
pub text_format : Snapshot → Bool → ℕ → ℕ → Bool → Bool → ℕ → HudText
text_format metrics fps_valid fps limit configured confirmed quota =
    if configured
    then record {
      line0 = gpu_line metrics;
      line1 = cpu_line metrics;
      line2 = thread_line metrics confirmed quota;
      line3 = fps_line fps_valid fps limit;
      line_count = 4;
    }
    else record {
      line0 = gpu_line metrics;
      line1 = cpu_line metrics;
      line2 = fps_line fps_valid fps limit;
      line3 = [];
      line_count = 3;
    }
