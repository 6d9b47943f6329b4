-- ===== src/Base/Text.antt =====
-- Text as the list of its Unicode scalar values, and what the code uses of Rust's `str`.
use Prim.Native.Char.{code}
use Prim.Native.String.{String}
use Prim.Native.Nat.{ℕ, zero, suc, ◌+◌, ◌-◌, ◌*◌, ◌/◌, ◌%◌}
use mathlib.Core.Path.{◌≡◌}
use mathlib.Core.Logic.{◌↔◌}
use mathlib.Core.Bool.{Bool, true, false, not, ◌&&◌, ◌||◌}
use mathlib.Core.Option.{Option, none, some}
use mathlib.Core.List.{List, [], ◌∷◌, ◌++◌, reverse}
use native.Mathlib.Omega.{arith}
use oprofiler.Base.Tests.{leb, ltb, ◌==◌, if◌then◌else◌}
use oprofiler.Base.Lists.{length, drop, is_empty, keep}

abbrev pub Text : Type 0
Text = List ℕ

abbrev pub codes : String → Text
codes String.[] = []
codes (String.◌∷◌ c s) = code c ∷ codes s

unfoldable pub text_eq : Text → Text → Bool
text_eq [] [] = true
text_eq (a ∷ s) (b ∷ t) = a == b && text_eq s t
text_eq _ _ = false

pub text_eq_iff : (s t : Text) → (text_eq s t ≡ true) ↔ (s ≡ t)
unfolding text_eq
text_eq_iff [] [] = ground arith
text_eq_iff [] (b ∷ t) = ground arith
text_eq_iff (a ∷ s) [] = ground arith
text_eq_iff (a ∷ s) (b ∷ t) = ground (arith, text_eq_iff s t)

-- `starts_with`.
unfoldable pub starts_with : Text → Text → Bool
starts_with s [] = true
starts_with [] (p ∷ ps) = false
starts_with (c ∷ s) (p ∷ ps) = c == p && starts_with s ps

-- `strip_prefix`.
unfoldable pub strip_prefix : Text → Text → Option Text
unfolding starts_with
strip_prefix p s = if starts_with s p then some (drop (length p) s) else none

unfoldable pub ends_with : Text → Text → Bool
unfolding starts_with
ends_with s p = starts_with (reverse s) (reverse p)

-- `find` with a text: the place of its first occurrence, counted in characters.
unfoldable pub find_text : Text → Text → Option ℕ
unfolding starts_with
find_text [] p = if starts_with [] p then some 0 else none
find_text (c ∷ s) p =
    if starts_with (c ∷ s) p
    then some 0
    else elim (find_text s p) [ none ↦ none | some i ↦ some (suc i) ]

unfoldable pub contains_text : Text → Text → Bool
unfolding starts_with
contains_text [] p = starts_with [] p
contains_text (c ∷ s) p = starts_with (c ∷ s) p || contains_text s p

-- `find` and `rfind` with a character.
unfoldable pub find_char : ℕ → Text → Option ℕ
find_char k [] = none
find_char k (c ∷ s) =
    if c == k then some 0 else elim (find_char k s) [ none ↦ none | some i ↦ some (suc i) ]

unfoldable pub rfind_char : ℕ → Text → Option ℕ
rfind_char k [] = none
rfind_char k (c ∷ s) = elim (rfind_char k s) [
  | some i ↦ some (suc i)
  | none ↦ if c == k then some 0 else none
]

-- `replace` of a character by a character.
unfoldable pub replace_char : ℕ → ℕ → Text → Text
replace_char a b [] = []
replace_char a b (c ∷ s) = (if c == a then b else c) ∷ replace_char a b s

-- `char::is_whitespace`: the Unicode property White_Space.
unfoldable pub is_whitespace : ℕ → Bool
is_whitespace c =
    (leb 9 c && leb c 13)
    || c == 32
    || c == 0x85
    || c == 0xa0
    || c == 0x1680
    || (leb 0x2000 c && leb c 0x200a)
    || c == 0x2028
    || c == 0x2029
    || c == 0x202f
    || c == 0x205f
    || c == 0x3000

-- The longest prefix that passes a test is dropped.
unfoldable pub trim_start_matches : (ℕ → Bool) → Text → Text
trim_start_matches p [] = []
trim_start_matches p (c ∷ s) = if p c then trim_start_matches p s else c ∷ s

unfoldable pub trim_end_matches : (ℕ → Bool) → Text → Text
unfolding trim_start_matches
trim_end_matches p s = reverse (trim_start_matches p (reverse s))

unfoldable pub trim : Text → Text
unfolding trim_start_matches trim_end_matches is_whitespace
trim s = trim_end_matches is_whitespace (trim_start_matches is_whitespace s)

-- A character before the first piece of a split.
abbrev pub onto_first : ℕ → List Text → List Text
onto_first c [] = (c ∷ []) ∷ []
onto_first c (w ∷ ws) = (c ∷ w) ∷ ws

-- `split` at the characters that pass a test: always at least one piece.
unfoldable pub split_by : (ℕ → Bool) → Text → List Text
split_by p [] = [] ∷ []
split_by p (c ∷ s) = let rest = split_by p s in if p c then [] ∷ rest else onto_first c rest

unfoldable pub split_char : ℕ → Text → List Text
unfolding split_by
split_char k = split_by (λ c. c == k)

-- `split_whitespace`: the pieces that are not empty.
unfoldable pub split_whitespace : Text → List Text
unfolding split_by is_whitespace
split_whitespace s = keep (λ w. not (is_empty w)) (split_by is_whitespace s)

abbrev pub drop_last_empty : List Text → List Text
drop_last_empty [] = []
drop_last_empty ([] ∷ []) = []
drop_last_empty (w ∷ ws) = w ∷ drop_last_empty ws

-- One `\r` before the line's end is not part of the line.
unfoldable pub strip_carriage : Text → Text
strip_carriage [] = []
strip_carriage (c ∷ s) = if c == 13 && is_empty s then [] else c ∷ strip_carriage s

-- `lines`: a final line break ends the last line and begins none. A `\r` is dropped only before a
-- line break, so the piece behind the last line break keeps its own.
abbrev pub line_pieces : List Text → List Text
line_pieces [] = []
line_pieces (w ∷ []) = if is_empty w then [] else w ∷ []
line_pieces (w ∷ v ∷ ws) = strip_carriage w ∷ line_pieces (v ∷ ws)

unfoldable pub lines : Text → List Text
unfolding split_char strip_carriage
lines s = line_pieces (split_char 10 s)

-- `join`.
unfoldable pub join : Text → List Text → Text
join sep [] = []
join sep (w ∷ []) = w
join sep (w ∷ v ∷ ws) = w ++ (sep ++ join sep (v ∷ ws))

-- The decimal digits of a number, last digit first; `suc n` rounds suffice, since each divides by 10.
unfoldable pub digits_rev : ℕ → ℕ → Text
digits_rev zero n = []
digits_rev (suc fuel) n =
    let rest = digits_rev fuel (n / 10) in if ltb n 10 then (48 + n) ∷ [] else (48 + n % 10) ∷ rest

-- `to_string` of an unsigned integer.
unfoldable pub to_decimal : ℕ → Text
unfolding digits_rev
to_decimal n = reverse (digits_rev (suc n) n)

-- The value of a digit in a radix of at most 16.
unfoldable pub digit_value : ℕ → ℕ → Option ℕ
digit_value radix c =
    let value : ℕ =
      if leb 48 c && leb c 57
      then c - 48
      else if leb 97 c && leb c 102
      then c - 87
      else if leb 65 c && leb c 70
      then c - 55
      else 99 in
    if ltb value radix then some value else none

-- Digits from the left; a value above the type's maximum is an error.
unfoldable pub parse_digits : ℕ → ℕ → ℕ → Text → Option ℕ
parse_digits radix top acc [] = some acc
parse_digits radix top acc (c ∷ s) = elim (digit_value radix c) [
  | none ↦ none
  | some d ↦ if leb (acc * radix + d) top then parse_digits radix top (acc * radix + d) s else none
]

-- `from_str_radix`, and `parse` at radix 10, of an unsigned type whose maximum is `top`: a leading
-- `+` is allowed, an empty text is not.
unfoldable pub parse_radix : ℕ → ℕ → Text → Option ℕ
unfolding parse_digits
parse_radix radix top [] = none
parse_radix radix top (c ∷ []) = if c == b'+' then none else parse_digits radix top 0 (c ∷ [])
parse_radix radix top (c ∷ d ∷ s) =
    if c == b'+' then parse_digits radix top 0 (d ∷ s) else parse_digits radix top 0 (c ∷ d ∷ s)
