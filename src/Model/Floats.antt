-- ===== src/Model/Floats.antt =====
-- The floating-point arithmetic and the Unicode tables that the code takes from outside: f64 and f32
-- operations, their formatting, and `to_lowercase`.
use oprofiler.Base.{ℕ, Bool, Option}
use oprofiler.Base.Text.{Text}

pub record Host (F : Type 0) : Type 0 where
  -- `n as f64` and `x as u64`.
  pub of_nat : ℕ → F
  pub to_u64 : F → ℕ
  -- Rounding to f32.
  pub as_f32 : F → F
  pub add : F → F → F
  pub sub : F → F → F
  pub mul : F → F → F
  pub div : F → F → F
  -- `a < b`; `a >= b` is not `b > a`, since a NaN passes no comparison.
  pub lt : F → F → Bool
  pub ge : F → F → Bool
  -- `a.max(b)`.
  pub f_max : F → F → F
  -- `x.clamp(lo, hi)`.
  pub clamp : F → F → F → F
  -- `{:.n}`.
  pub fixed : ℕ → F → Text
  -- `str::parse::<f64>`, with a flag for success.
  pub parses : Text → Bool
  pub parse_f64 : Text → F
  -- The seconds of a duration in nanoseconds.
  pub as_secs : ℕ → F
  pub to_lowercase : Text → Text
  -- `Path::file_name`, whose separators are the platform's.
  pub file_name : Text → Option Text
