-- ===== src/Hud/Text/Columns.antt =====
-- The layout of the HUD's lines (src/hud_text.c).
use frame_pacer.Common.{
  ℕ, ◌+◌, ◌-◌, ◌*◌, ◌/◌, ◌%◌, ◌≤◌, ◌<◌, ◌≡◌, ◌⊎◌, Bool, true, false, arith, not, ◌&&◌, ◌||◌, ltb,
  leb, if◌then◌else◌, Bytes, [], ◌∷◌, ◌++◌, length, length-append, codes, refl, inl, inr,
  Bool-cases,
}
use frame_pacer.Hud.Metrics.{Snapshot}
use frame_pacer.Hud.Text.{
  HudText, frame, format_column, format_unavailable, format_metric, format_fps_count,
  format_fps_limit, format_line, gpu_line, cpu_line, thread_line, fps_line, text_format,
}

-- The digit of a cell, where a space counts as none.
abbrev pub cell : ℕ → ℕ
cell c = c - b'0'

-- A column of four cells that shows `value` with `suffix`: its cells are digits, with spaces in place of
-- leading zeros, and the digits are those of the value.
pub record IsShown (value suffix : ℕ) (text : Bytes) : Type 0 where
  pub hundreds : ℕ
  pub tens : ℕ
  pub ones : ℕ
  pub text_eq : text ≡ hundreds ∷ tens ∷ (b'0' + ones) ∷ suffix ∷ []
  pub ones_lt : ones < 10
  pub hundreds_cell : ((hundreds ≡ b' ') × (value < 100)) ⊎ ((b'1' ≤ hundreds) × (hundreds ≤ b'9'))
  pub tens_cell : ((tens ≡ b' ') × (value < 10)) ⊎ ((b'0' ≤ tens) × (tens ≤ b'9') × (10 ≤ value))
  pub value_eq : cell hundreds * 100 + cell tens * 10 + ones ≡ value

format_column-IsShown :
    (value suffix : ℕ) → value ≤ 999 → IsShown value suffix (format_column value suffix)
unfolding format_column
format_column-IsShown value suffix h = record {
  hundreds = if leb 100 value then b'0' + value / 100 else b' ';
  tens = if leb 10 value then b'0' + value / 10 % 10 else b' ';
  ones = value % 10;
  text_eq = ground arith;
  ones_lt = omega arith;
  hundreds_cell = ground arith;
  tens_cell = ground arith;
  value_eq = ground arith;
}

-- A metric's column shows it if it is available and of three digits, and `N/A` otherwise.
pub format_metric-IsShown :
    (available : Bool) (metric suffix : ℕ)
    → ((available ≡ true)
        × (metric ≤ 999)
        × IsShown metric suffix (format_metric available metric suffix))
      ⊎ (((available ≡ false) ⊎ (1000 ≤ metric))
          × (format_metric available metric suffix ≡ codes " N/A"))
unfolding format_metric format_unavailable
format_metric-IsShown available metric suffix =
    elim (Bool-cases (not available || ltb 999 metric)) [
      | inl e ↦ inr (ground arith, ground arith)
      | inr e ↦
          inl
            (ground arith, ground arith, rw e (format_column-IsShown metric suffix (ground arith)))
    ]

length-format_column : (value suffix : ℕ) → length (format_column value suffix) ≡ 4
unfolding format_column
length-format_column value suffix = ground arith

length-format_metric :
    (available : Bool) (metric suffix : ℕ) → length (format_metric available metric suffix) ≡ 4
unfolding format_metric format_unavailable
length-format_metric available metric suffix = ground (arith, length-format_column metric suffix)

length-format_fps_limit : (value : ℕ) → length (format_fps_limit value) ≡ 4
unfolding format_fps_limit format_fps_count format_unavailable
length-format_fps_limit value = ground (arith, length-format_column value frame)

length-format_fps_count : (valid : Bool) (value : ℕ) → length (format_fps_count valid value) ≡ 4
unfolding format_fps_count format_unavailable
length-format_fps_count valid value = ground (arith, length-format_column value frame)

length-format_line :
    (label first second : Bytes)
    → length label ≡ 4
    → length first ≡ 4
    → length second ≡ 4
    → length (format_line label first second) ≡ 13
unfolding format_line
length-format_line label first second a b c =
    omega
      (arith, length-append label (first ++ (b' ' ∷ second)), length-append first (b' ' ∷ second))

-- What a line shows of the thread quota.
length-quota_column :
    (confirmed : Bool) (quota : ℕ)
    → length (if confirmed && leb quota 100 then format_column quota b'%' else format_unavailable)
      ≡ 4
unfolding format_unavailable
length-quota_column confirmed quota = ground (arith, length-format_column quota b'%')

-- Three lines or, with a quota configured, four, of 13 characters each.
pub record IsLaidOut (configured : Bool) (text : HudText) : Type 0 where
  pub gpu : length text.line0 ≡ 13
  pub cpu : length text.line1 ≡ 13
  pub third : length text.line2 ≡ 13
  pub fourth : length text.line3 ≡ (if configured then 13 else 0)
  pub count : text.line_count ≡ (if configured then 4 else 3)

module _ (metrics : Snapshot) where
  length-gpu_line : length (gpu_line metrics) ≡ 13
  unfolding gpu_line
  length-gpu_line =
      length-format_line _ _ _ refl (length-format_metric _ _ _) (length-format_metric _ _ _)

  length-cpu_line : length (cpu_line metrics) ≡ 13
  unfolding cpu_line
  length-cpu_line =
      length-format_line _ _ _ refl (length-format_metric _ _ _) (length-format_metric _ _ _)

  length-thread_line :
      (confirmed : Bool) (quota : ℕ) → length (thread_line metrics confirmed quota) ≡ 13
  unfolding thread_line
  length-thread_line confirmed quota =
      length-format_line _ _ _ refl (length-format_metric _ _ _)
        (length-quota_column confirmed quota)

length-fps_line : (valid : Bool) (fps limit : ℕ) → length (fps_line valid fps limit) ≡ 13
unfolding fps_line
length-fps_line valid fps limit =
    length-format_line _ _ _ refl (length-format_fps_count _ _) (length-format_fps_limit limit)

-- Whatever is passed in, the text has three lines or, with a quota configured, four, and each of them has
-- 13 characters, so that it fits its buffer and the columns stand below each other.
pub text_format-IsLaidOut :
    (metrics : Snapshot) (fps_valid : Bool) (fps limit : ℕ) (configured confirmed : Bool)
    (quota : ℕ)
    → IsLaidOut configured (text_format metrics fps_valid fps limit configured confirmed quota)
unfolding text_format
text_format-IsLaidOut metrics fps_valid fps limit false confirmed quota = record {
  gpu = length-gpu_line metrics;
  cpu = length-cpu_line metrics;
  third = length-fps_line fps_valid fps limit;
  fourth = refl;
  count = refl;
}
text_format-IsLaidOut metrics fps_valid fps limit true confirmed quota = record {
  gpu = length-gpu_line metrics;
  cpu = length-cpu_line metrics;
  third = length-thread_line metrics confirmed quota;
  fourth = length-fps_line fps_valid fps limit;
  count = refl;
}
