-- ===== src/Format/Grouping.antt =====
-- format.rs: the commas of `format_count` are the only change to a number's digits.
use oprofiler.Base.{
  if◌then◌else◌, ℕ, zero, suc, ◌+◌, ◌*◌, ◌/◌, ◌%◌, ◌≤◌, ◌<◌, ◌≡◌, refl, not, ◌==◌, [], ◌∷◌, ◌++◌,
  reverse, arith, keep, All, some, ltb, ap, ◌∙◌, Option-cases, Bool-cases, length, inl, inr, false,
  append_assoc, true, sym,
}
use oprofiler.Base.Text.{Text, digits_rev, to_decimal, digit_value, parse_digits, parse_radix}
use mathlib.Core.List.{reverse-cons, reverse-reverse}
use oprofiler.Seq.{keep-reverse, All-reverse, length-reverse}
use oprofiler.Format.{group_digits, format_count}

-- Commas taken out.
abbrev pub without_commas : Text → Text
without_commas = keep (λ c. not (c == b','))

-- Decimal digits, by their codes.
abbrev AreDigits : Text → Type 0
AreDigits = All (λ c. (48 ≤ c) × (c ≤ 57))

digits_rev-AreDigits : (fuel n : ℕ) → AreDigits (digits_rev fuel n)
unfolding digits_rev
digits_rev-AreDigits zero n = tt
digits_rev-AreDigits (suc fuel) n = ground (arith, digits_rev-AreDigits fuel (n / 10))

without_commas-digits : (s : Text) → AreDigits s → without_commas s ≡ s
without_commas-digits [] h = refl
without_commas-digits (c ∷ s) h = ground (arith, without_commas-digits s h.1)

without_commas-group : (i : ℕ) (s : Text) → without_commas (group_digits i s) ≡ without_commas s
unfolding group_digits
without_commas-group i [] = refl
without_commas-group i (c ∷ s) = ground (arith, without_commas-group (i + 1) s)

-- Without its commas a formatted count is the plain decimal number.
pub without_commas-format_count : (n : ℕ) → without_commas (format_count n) ≡ to_decimal n
unfolding format_count to_decimal
without_commas-format_count n =
    keep-reverse _ (group_digits 0 (reverse (reverse (digits_rev (suc n) n))))
    ∙ ap reverse (
        without_commas-group 0 (reverse (reverse (digits_rev (suc n) n)))
        ∙ ap without_commas (reverse-reverse (digits_rev (suc n) n))
        ∙ without_commas-digits (digits_rev (suc n) n) (digits_rev-AreDigits (suc n) n))

parse_digits-snoc :
    (top acc v d c : ℕ) (s : Text)
    → digit_value 10 c ≡ some d
    → v * 10 + d ≤ top
    → parse_digits 10 top acc s ≡ some v
    → parse_digits 10 top acc (s ++ c ∷ []) ≡ some (v * 10 + d)
unfolding parse_digits
parse_digits-snoc top acc v d c [] hd hv h = ground arith
parse_digits-snoc top acc v d c (x ∷ s) hd hv h = elim (Option-cases (digit_value 10 x)) [
  | inl e ↦ ground arith
  | inr (y, e) ↦ ground (arith, parse_digits-snoc top (acc * 10 + y) v d c s hd hv)
]

digit_value-decimal : (d : ℕ) → d < 10 → digit_value 10 (48 + d) ≡ some d
unfolding digit_value
digit_value-decimal d h = ground arith

parse_digits-digits :
    (top fuel n : ℕ)
    → n < fuel
    → n ≤ top
    → parse_digits 10 top 0 (reverse (digits_rev fuel n)) ≡ some n
unfolding digits_rev
parse_digits-digits top zero n h t = absurd (omega arith)
parse_digits-digits top (suc fuel) n h t = elim (Bool-cases (ltb n 10)) [
  | inl small ↦ rw small (unfold parse_digits in ground (arith, digit_value-decimal n))
  | inr large ↦
      rw (large, reverse-cons (48 + n % 10) (digits_rev fuel (n / 10)))
        (parse_digits-snoc top 0 (n / 10) (n % 10) (48 + n % 10)
            (reverse (digits_rev fuel (n / 10))) (digit_value-decimal (n % 10) (omega arith))
            (omega arith) (parse_digits-digits top fuel (n / 10) (ground arith) (omega arith))
          ∙ ap some (omega arith))
]

parse_radix-digits :
    (top : ℕ) (s : Text)
    → AreDigits s
    → 0 < length s
    → parse_radix 10 top s ≡ parse_digits 10 top 0 s
unfolding parse_radix
parse_radix-digits top [] h e = absurd (omega arith)
parse_radix-digits top (c ∷ []) h e = ground arith
parse_radix-digits top (c ∷ d ∷ s) h e = ground arith

digits_rev-ne-nil : (fuel n : ℕ) → 0 < length (digits_rev (suc fuel) n)
unfolding digits_rev
digits_rev-ne-nil fuel n = ground arith

-- Parsing an unsigned decimal number gives back what was printed, up to the type's maximum.
pub parse-to_decimal : (top n : ℕ) → n ≤ top → parse_radix 10 top (to_decimal n) ≡ some n
unfolding to_decimal
parse-to_decimal top n h =
    let s = digits_rev (suc n) n in
    parse_radix-digits top (reverse s)
      (All-reverse (λ c. (48 ≤ c) × (c ≤ 57)) s (digits_rev-AreDigits (suc n) n))
      (omega (arith, length-reverse {0} s, digits_rev-ne-nil n n))
    ∙ parse_digits-digits top (suc n) n (omega arith) h

digits_rev-fuel : (f g n : ℕ) → n < f → n < g → digits_rev f n ≡ digits_rev g n
unfolding digits_rev
digits_rev-fuel zero g n h k = absurd (omega arith)
digits_rev-fuel (suc f) zero n h k = absurd (omega arith)
digits_rev-fuel (suc f) (suc g) n h k = elim (Bool-cases (ltb n 10)) [
  | inl small ↦ ground (arith, small)
  | inr large ↦
      rw (large, digits_rev-fuel f g (n / 10) (ground (arith, large)) (ground (arith, large))) refl
]

-- Behind the first digit the places of the commas repeat after three digits.
group_digits-period : (i : ℕ) (s : Text) → group_digits (suc i + 3) s ≡ group_digits (suc i) s
unfolding group_digits
group_digits-period i [] = refl
group_digits-period i (c ∷ s) = ground (arith, group_digits-period (suc i) s)

group_digits-three :
    (a b c d : ℕ) (s : Text)
    → group_digits 0 (a ∷ b ∷ c ∷ d ∷ s) ≡ a ∷ b ∷ c ∷ b',' ∷ group_digits 0 (d ∷ s)
unfolding group_digits
group_digits-three a b c d s = ground (arith, group_digits-period 0 s)

digits_rev-step :
    (f n : ℕ) → ltb n 10 ≡ false → digits_rev (suc f) n ≡ (48 + n % 10) ∷ digits_rev f (n / 10)
unfolding digits_rev
digits_rev-step f n large = rw large refl

-- A number's digits are its last three and those of its thousands.
digits_rev-thousands :
    (n : ℕ)
    → ltb n 1000 ≡ false
    → digits_rev (suc n) n
      ≡ (48 + n % 10)
        ∷ (48 + n / 10 % 10)
        ∷ (48 + n / 100 % 10)
        ∷ digits_rev (suc (n / 1000)) (n / 1000)
digits_rev-thousands n large =
    digits_rev-fuel (suc n) (suc (suc (suc (suc n)))) n (omega arith) (omega arith)
    ∙ rw
        (
          digits_rev-step (suc (suc (suc n))) n (ground (arith, large)),
          digits_rev-step (suc (suc n)) (n / 10) (ground (arith, large)),
          digits_rev-step (suc n) (n / 10 / 10) (ground (arith, large)),
          (let tens : n / 10 / 10 ≡ n / 100 = omega arith in tens),
          (let thousands : n / 100 / 10 ≡ n / 1000 = omega arith in thousands),
          digits_rev-fuel (suc n) (suc (n / 1000)) (n / 1000) (omega arith) (omega arith),
        )
        refl

-- The last three digits of a number.
abbrev pub three_digits : ℕ → Text
three_digits n = (48 + n / 100 % 10) ∷ (48 + n / 10 % 10) ∷ (48 + n % 10) ∷ []

group_digits-thousands :
    (a b c : ℕ) (s : Text)
    → 0 < length s
    → reverse (group_digits 0 (a ∷ b ∷ c ∷ s)) ≡ reverse (group_digits 0 s) ++ b',' ∷ c ∷ b ∷ a ∷ []
group_digits-thousands a b c [] h = absurd (omega (arith, h))
group_digits-thousands a b c (d ∷ s) h =
    let rest = group_digits 0 (d ∷ s) in
    rw
      (
        group_digits-three a b c d s,
        reverse-cons a (b ∷ c ∷ b',' ∷ rest),
        reverse-cons b (c ∷ b',' ∷ rest),
        reverse-cons c (b',' ∷ rest),
        reverse-cons b',' rest,
        append_assoc (reverse rest) (b',' ∷ []) (c ∷ []),
        append_assoc (reverse rest) (b',' ∷ c ∷ []) (b ∷ []),
        append_assoc (reverse rest) (b',' ∷ c ∷ b ∷ []) (a ∷ []),
      )
      refl

format_count-digits : (n : ℕ) → format_count n ≡ reverse (group_digits 0 (digits_rev (suc n) n))
unfolding format_count to_decimal
format_count-digits n =
    ap (λ s. reverse (group_digits 0 s)) (reverse-reverse (digits_rev (suc n) n))

digits_rev-below_10 : (f n : ℕ) → n < 10 → length (digits_rev f n) ≤ 1
unfolding digits_rev
digits_rev-below_10 zero n h = omega arith
digits_rev-below_10 (suc f) n h = elim (Bool-cases (ltb n 10)) [
  | inl small ↦ rw small (omega arith)
  | inr large ↦ absurd (ground (arith, large))
]

digits_rev-below_100 : (f n : ℕ) → n < 100 → length (digits_rev f n) ≤ 2
unfolding digits_rev
digits_rev-below_100 zero n h = omega arith
digits_rev-below_100 (suc f) n h = elim (Bool-cases (ltb n 10)) [
  | inl small ↦ rw small (omega arith)
  | inr large ↦ rw large (omega (arith, digits_rev-below_10 f (n / 10) (omega arith)))
]

digits_rev-below_1000 : (f n : ℕ) → n < 1000 → length (digits_rev f n) ≤ 3
unfolding digits_rev
digits_rev-below_1000 zero n h = omega arith
digits_rev-below_1000 (suc f) n h = elim (Bool-cases (ltb n 10)) [
  | inl small ↦ rw small (omega arith)
  | inr large ↦ rw large (omega (arith, digits_rev-below_100 f (n / 10) (omega arith)))
]

group_digits-short : (s : Text) → length s ≤ 3 → group_digits 0 s ≡ s
unfolding group_digits
group_digits-short [] h = refl
group_digits-short (a ∷ []) h = refl
group_digits-short (a ∷ b ∷ []) h = refl
group_digits-short (a ∷ b ∷ c ∷ []) h = refl
group_digits-short (a ∷ b ∷ c ∷ d ∷ s) h = absurd (omega (arith, h))

-- The digits of a number below a thousand stay as they are.
format_count-small : (n : ℕ) → ltb n 1000 ≡ true → format_count n ≡ to_decimal n
unfolding to_decimal
format_count-small n small =
    format_count-digits n
    ∙ ap reverse (
        group_digits-short (digits_rev (suc n) n)
          (digits_rev-below_1000 (suc n) n (ground (arith, small))))

format_count-large :
    (n : ℕ) → ltb n 1000 ≡ false → format_count n ≡ format_count (n / 1000) ++ b',' ∷ three_digits n
format_count-large n large =
    format_count-digits n
    ∙ (ap (λ s. reverse (group_digits 0 s)) (digits_rev-thousands n large)
        ∙ (group_digits-thousands (48 + n % 10) (48 + n / 10 % 10) (48 + n / 100 % 10)
              (digits_rev (suc (n / 1000)) (n / 1000)) (digits_rev-ne-nil (n / 1000) (n / 1000))
            ∙ ap (λ s. s ++ b',' ∷ three_digits n) (sym (format_count-digits (n / 1000)))))

-- A count is printed as its digits where it has at most three of them, and else as the count of its
-- thousands, a comma and its last three digits; and up to a maximum what is printed, its commas
-- taken out, parses to the count.
pub parse-format_count :
    (top n : ℕ)
    → n ≤ top
    → (format_count n
        ≡ (if ltb n 1000 then to_decimal n else format_count (n / 1000) ++ b',' ∷ three_digits n))
      × (parse_radix 10 top (without_commas (format_count n)) ≡ some n)
parse-format_count top n h = (
  elim (Bool-cases (ltb n 1000)) [
    | inl small ↦ rw small (format_count-small n small)
    | inr large ↦ rw large (format_count-large n large)
  ],
  ap (parse_radix 10 top) (without_commas-format_count n) ∙ parse-to_decimal top n h,
)
