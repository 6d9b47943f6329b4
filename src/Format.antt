-- ===== src/Format.antt =====
-- crates/tui/src/format.rs: how counts, sizes, durations and method names are printed.
pub mod Grouping
pub mod Shortening
use oprofiler.Base.{
  ℕ, zero, suc, ◌+◌, ◌-◌, ◌*◌, ◌/◌, ◌%◌, Bool, ◌&&◌, ℤ, List, [], ◌∷◌, ◌++◌, reverse, length, take,
  get_or, ltb, leb, ◌==◌, if◌then◌else◌, is_nonneg, unsigned_abs, pos_part,
}
use oprofiler.Base.Text.{Text, codes, to_decimal, split_char, join}
use oprofiler.Model.Floats.{Host}

-- The loop over the reversed digits: a comma before each third digit but the first.
unfoldable pub group_digits : ℕ → Text → Text
group_digits i [] = []
group_digits i (c ∷ s) =
    if ltb 0 i && i % 3 == 0 then b',' ∷ c ∷ group_digits (i + 1) s else c ∷ group_digits (i + 1) s

unfoldable pub format_count : ℕ → Text
unfolding group_digits
format_count value = reverse (group_digits 0 (reverse (to_decimal value)))

unfoldable pub format_signed_count : ℤ → Text
unfolding format_count
format_signed_count value =
    if is_nonneg value
    then b'+' ∷ format_count (pos_part value)
    else b'-' ∷ format_count (unsigned_abs value)

unfoldable pub short_method : Text → Text
short_method method =
    let compact = get_or (reverse (split_char b'/' method)) 0 method in
    join (codes ".") (reverse (take 2 (reverse (split_char b'.' compact))))

unfoldable pub truncate_middle : Text → ℕ → Text
truncate_middle text max_chars =
    let count = length text in
    let head = max_chars / 2 in
    let tail = max_chars - (head + 3) in
    if leb count max_chars
    then text
    else take head text ++ (codes "..." ++ reverse (take tail (reverse text)))

module _ {F : Type 0} (host : Host F) where
  unfoldable pub format_bytes : ℕ → Text
  unfolding format_count
  format_bytes bytes =
      if leb (1024 * 1024) bytes
      then host.fixed 1
          (host.div (host.div (host.of_nat bytes) (host.of_nat 1024)) (host.of_nat 1024))
        ++ codes " MB"
      else if leb 1024 bytes
      then format_count ((bytes + 1023) / 1024) ++ codes " kB"
      else format_count bytes ++ codes " bytes"

  unfoldable pub format_duration_nano : ℕ → Text
  unfolding format_count
  format_duration_nano nanos =
      if leb 60_000_000_000 nanos
      then host.fixed 0 (host.div (host.of_nat nanos) (host.of_nat 60_000_000_000)) ++ codes " m"
      else if leb 1_000_000_000 nanos
      then host.fixed 0 (host.div (host.of_nat nanos) (host.of_nat 1_000_000_000)) ++ codes " s"
      else if leb 1_000_000 nanos
      then format_count (nanos / 1_000_000) ++ codes " ms"
      else if leb 1_000 nanos
      then format_count (nanos / 1_000) ++ codes " us"
      else format_count nanos ++ codes " ns"

  unfoldable pub format_duration_ms : F → Text
  unfolding format_duration_nano
  format_duration_ms ms = format_duration_nano (host.to_u64 (host.mul ms (host.of_nat 1_000_000)))

  unfoldable pub format_duration_nano_f : F → Text
  format_duration_nano_f nanos =
      if host.ge nanos (host.of_nat 60_000_000_000)
      then host.fixed 0 (host.div nanos (host.of_nat 60_000_000_000)) ++ codes " m"
      else if host.ge nanos (host.of_nat 1_000_000_000)
      then host.fixed 0 (host.div nanos (host.of_nat 1_000_000_000)) ++ codes " s"
      else if host.ge nanos (host.of_nat 1_000_000)
      then host.fixed 0 (host.div nanos (host.of_nat 1_000_000)) ++ codes " ms"
      else if host.ge nanos (host.of_nat 1_000)
      then host.fixed 0 (host.div nanos (host.of_nat 1_000)) ++ codes " us"
      else host.fixed 0 nanos ++ codes " ns"

  unfoldable pub format_signed_bytes : ℤ → Text
  unfolding format_bytes
  format_signed_bytes bytes =
      if is_nonneg bytes
      then b'+' ∷ format_bytes (pos_part bytes)
      else b'-' ∷ format_bytes (unsigned_abs bytes)
