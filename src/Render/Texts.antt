-- ===== src/Render/Texts.antt =====
-- crates/tui/src/render.rs: shortened texts and bars. The code cuts a text at a number of bytes of its
-- UTF-8 encoding; `none` is the panic of a cut inside a character.
pub mod Cut
use oprofiler.Base.{
  ℕ, ◌+◌, ◌-◌, List, [], ◌∷◌, ◌++◌, Option, none, some, if◌then◌else◌, ltb, leb, ◌==◌,
}
use oprofiler.Base.Options.{◌>>=◌}
use oprofiler.Base.Text.{Text, codes, text_eq}
use oprofiler.Model.Floats.{Host}

-- The bytes of a character.
unfoldable pub utf8_width : ℕ → ℕ
utf8_width c = if ltb c 128 then 1 else if ltb c 2048 then 2 else if ltb c 65536 then 3 else 4

-- `len`.
unfoldable pub byte_length : Text → ℕ
unfolding utf8_width
byte_length [] = 0
byte_length (c ∷ rest) = utf8_width c + byte_length rest

-- `&s[..n]`.
unfoldable pub slice_to : ℕ → Text → Option Text
unfolding utf8_width
slice_to n [] = if n == 0 then some [] else none
slice_to n (c ∷ rest) =
    let later = slice_to (n - utf8_width c) rest in
    if n == 0
    then some []
    else if ltb n (utf8_width c)
    then none
    else later >>= λ cut. some (c ∷ cut)

unfoldable pub truncate_str : Text → ℕ → Option Text
unfolding byte_length slice_to
truncate_str s max =
    if leb (byte_length s) max
    then some s
    else slice_to (max - 3) s >>= λ cut. some (cut ++ codes "...")

-- The eighths of a bar, by the number of the eighth.
unfoldable pub spark_of : ℕ → ℕ
spark_of n = if n == 0 then 32 else if ltb n 8 then 9600 + n else 9608

-- `as u8` of a number from 0 to 8.
unfoldable pub spark_char : {F : Type 0} → Host F → F → ℕ
unfolding spark_of
spark_char host value =
    spark_of
      (host.to_u64 (host.mul (host.clamp value (host.of_nat 0) (host.of_nat 1)) (host.of_nat 8)))

-- The colours of a thread's state.
pub data Color : Type 0 where
  rgb : ℕ → ℕ → ℕ → Color
  gray : Color

unfoldable pub state_color : Text → Color
state_color state =
    if text_eq state (codes "RUNNABLE")
    then rgb 0 150 0
    else if text_eq state (codes "WAITING")
    then rgb 50 115 220
    else if text_eq state (codes "TIMED_WAITING")
    then rgb 210 140 20
    else if text_eq state (codes "BLOCKED")
    then rgb 190 40 30
    else gray

-- What a part of the screen shows: nothing, the title and the advice of an empty view, a box of lines
-- with its title, or a table with its title, its header and its rows.
pub data Shown : Type 0 where
  shows_nothing : Shown
  shows_empty : Text → Text → Shown
  shows_lines : Text → List Text → Shown
  shows_table : Text → List Text → List (List Text) → Shown
