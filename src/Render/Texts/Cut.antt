-- ===== src/Render/Texts/Cut.antt =====
-- crates/tui/src/render.rs: when a text can be shortened, and how long it is then.
use oprofiler.Base.{
  max, ℕ, ◌+◌, ◌-◌, ◌≤◌, ◌<◌, ◌≡◌, ◌↔◌, [], ◌∷◌, ◌++◌, none, some, ltb, leb, ◌==◌, Bool-cases,
  Option-cases, inl, inr, refl, ap, sym, ◌∙◌, arith, false, true,
}
use oprofiler.Base.Options.{◌>>=◌}
use oprofiler.Base.Text.{Text, codes}
use oprofiler.Render.Texts.{utf8_width, byte_length, slice_to, truncate_str}

-- A text has a boundary between two characters behind its first `n` bytes.
abbrev pub Cuts : ℕ → Text → Type 0
Cuts n s = (before : Text) × ((after : Text) × ((before ++ after ≡ s) × (byte_length before ≡ n)))

width_pos : (c : ℕ) → 1 ≤ utf8_width c
unfolding utf8_width
width_pos c = ground arith

slice_to-nothing : (s : Text) → slice_to 0 s ≡ some []
unfolding slice_to
slice_to-nothing [] = refl
slice_to-nothing (c ∷ rest) = refl

slice_to-inside : (n c : ℕ) (rest : Text) → 0 < n → n < utf8_width c → slice_to n (c ∷ rest) ≡ none
unfolding slice_to
slice_to-inside n c rest some_bytes short =
    let not_none : (n == 0) ≡ false = ground (arith, some_bytes) in
    let inside : ltb n (utf8_width c) ≡ true = ground (arith, short) in
    rw (not_none, inside, slice_to) refl

slice_to-behind :
    (n c : ℕ) (rest : Text)
    → utf8_width c ≤ n
    → slice_to n (c ∷ rest) ≡ (slice_to (n - utf8_width c) rest >>= λ cut. some (c ∷ cut))
unfolding slice_to
slice_to-behind n c rest long =
    let not_none : (n == 0) ≡ false = ground (arith, long, width_pos c) in
    let behind : ltb n (utf8_width c) ≡ false = ground (arith, long) in
    rw (not_none, behind, slice_to) refl

-- A slice is the beginning of the text with the bytes that were asked for.
slice_to-Cuts : (n : ℕ) (s cut : Text) → slice_to n s ≡ some cut → Cuts n s × (byte_length cut ≡ n)
unfolding slice_to byte_length
slice_to-Cuts n [] cut h = elim (Bool-cases (n == 0)) [
  | inl e ↦
      let none_asked : 0 ≡ n = ground (arith, e) in
      let same : [] ≡ cut = ground (arith, h, e) in
      (([], ([], (refl, none_asked))), ap byte_length (sym same) ∙ none_asked)
  | inr e ↦ absurd (ground (arith, h, e))
]
slice_to-Cuts n (c ∷ rest) cut h = elim (Bool-cases (n == 0)) [
  | inl e ↦
      let none_asked : 0 ≡ n = ground (arith, e) in
      let given =
        sym (slice_to-nothing (c ∷ rest)) ∙ (ap (λ k. slice_to k (c ∷ rest)) none_asked ∙ h) in
      let same : [] ≡ cut = ground (arith, given) in
      (([], (c ∷ rest, (refl, none_asked))), ap byte_length (sym same) ∙ none_asked)
  | inr e ↦ elim (Bool-cases (ltb n (utf8_width c))) [
    | inl inside ↦
        let nothing = slice_to-inside n c rest (ground (arith, e)) (ground (arith, inside)) in
        absurd (ground (arith, sym nothing ∙ h))
    | inr behind ↦
        let long : utf8_width c ≤ n = ground (arith, behind) in
        let given = sym (slice_to-behind n c rest long) ∙ h in
        elim (Option-cases (slice_to (n - utf8_width c) rest)) [
          | inl e' ↦ absurd (ground (arith, sym (ap (λ o. o >>= λ t. some (c ∷ t)) e') ∙ given))
          | inr (tail, e') ↦
              let same : c ∷ tail ≡ cut =
                ground (arith, sym (ap (λ o. o >>= λ t. some (c ∷ t)) e') ∙ given) in
              let ((before, (after, (joined, bytes))), length_is) =
                slice_to-Cuts (n - utf8_width c) rest tail e' in
              let counted : utf8_width c + byte_length tail ≡ n = omega (arith, length_is, long) in
              let counted_before : utf8_width c + byte_length before ≡ n =
                omega (arith, bytes, long) in
              (
                (c ∷ before, (after, (ap (λ t. c ∷ t) joined, counted_before))),
                ap byte_length (sym same) ∙ counted,
              )
        ]
  ]
]

-- Where there is such a boundary, there is a slice.
Cuts-slice_to :
    (before after : Text) → slice_to (byte_length before) (before ++ after) ≡ some before
unfolding byte_length
Cuts-slice_to [] after = slice_to-nothing after
Cuts-slice_to (c ∷ before) after =
    let rest_bytes : (utf8_width c + byte_length before) - utf8_width c ≡ byte_length before =
      omega arith in
    slice_to-behind (utf8_width c + byte_length before) c (before ++ after) (omega arith)
    ∙ ap (λ o. o >>= λ t. some (c ∷ t))
        (ap (λ k. slice_to k (before ++ after)) rest_bytes ∙ Cuts-slice_to before after)

byte_length-append : (xs ys : Text) → byte_length (xs ++ ys) ≡ byte_length xs + byte_length ys
unfolding byte_length
byte_length-append [] ys = omega arith
byte_length-append (c ∷ xs) ys = omega (arith, byte_length-append xs ys)

dots_bytes : byte_length (codes "...") ≡ 3
unfolding byte_length utf8_width
dots_bytes = refl

truncate_str-short : (s : Text) (limit : ℕ) → byte_length s ≤ limit → truncate_str s limit ≡ some s
unfolding truncate_str
truncate_str-short s limit short =
    let fits : leb (byte_length s) limit ≡ true = ground (arith, short) in
    rw (fits, truncate_str) refl

truncate_str-long :
    (s : Text) (limit : ℕ)
    → limit < byte_length s
    → truncate_str s limit ≡ (slice_to (limit - 3) s >>= λ cut. some (cut ++ codes "..."))
unfolding truncate_str
truncate_str-long s limit long =
    let over : leb (byte_length s) limit ≡ false = ground (arith, long) in
    rw (over, truncate_str) refl

-- Shortening panics exactly if the text has more bytes than the limit and no boundary between two
-- characters at the byte where it is cut, three before the limit.
pub truncate_str-none_iff :
    (s : Text) (limit : ℕ)
    → (truncate_str s limit ≡ none) ↔ ((limit < byte_length s) × (¬ Cuts (limit - 3) s))
truncate_str-none_iff s limit = (
  λ failed. elim (Bool-cases (leb (byte_length s) limit)) [
    | inl fits ↦
        absurd (ground (arith, sym (truncate_str-short s limit (ground (arith, fits))) ∙ failed))
    | inr over ↦
        let long : limit < byte_length s = ground (arith, over) in
        (
          long,
          λ cuts.
              let (before, (after, (joined, bytes))) = cuts in
              let sliced =
                sym (ap (λ k. slice_to k s) bytes)
                ∙ (sym (ap (slice_to (byte_length before)) joined) ∙ Cuts-slice_to before after) in
              absurd (
                ground (
                  arith,
                  sym (ap (λ o. o >>= λ cut. some (cut ++ codes "...")) sliced)
                      ∙ (sym (truncate_str-long s limit long) ∙ failed),
                )),
        )
  ],
  λ no_cut.
      let (long, uncut) = no_cut in
      elim (Option-cases (slice_to (limit - 3) s)) [
        | inl e ↦
            truncate_str-long s limit long ∙ ap (λ o. o >>= λ cut. some (cut ++ codes "...")) e
        | inr (cut, e) ↦ absurd (uncut (slice_to-Cuts (limit - 3) s cut e).0)
      ],
)

-- A shortened text has no more bytes than the limit, or than the three dots.
pub truncate_str-bounded :
    (s : Text) (limit : ℕ) (t : Text) → truncate_str s limit ≡ some t → byte_length t ≤ max 3 limit
truncate_str-bounded s limit t h = elim (Bool-cases (leb (byte_length s) limit)) [
  | inl fits ↦
      let short : byte_length s ≤ limit = ground (arith, fits) in
      let same : s ≡ t = ground (arith, sym (truncate_str-short s limit short) ∙ h) in
      omega (arith, short, ap byte_length same)
  | inr over ↦
      let given = sym (truncate_str-long s limit (ground (arith, over))) ∙ h in
      elim (Option-cases (slice_to (limit - 3) s)) [
        | inl e ↦
            absurd
              (ground (arith, sym (ap (λ o. o >>= λ cut. some (cut ++ codes "...")) e) ∙ given))
        | inr (cut, e) ↦
            let same : cut ++ codes "..." ≡ t =
              ground (arith, sym (ap (λ o. o >>= λ cut. some (cut ++ codes "...")) e) ∙ given) in
            let bytes = (slice_to-Cuts (limit - 3) s cut e).1 in
            omega
              (arith, bytes, ap byte_length same, byte_length-append cut (codes "..."), dots_bytes)
      ]
]
