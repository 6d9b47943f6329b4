-- ===== src/Format/Shortening.antt =====
-- format.rs: what `truncate_middle` keeps of a text.
use oprofiler.Base.{
  ℕ, ◌+◌, ◌-◌, ◌/◌, ◌≤◌, ◌<◌, ◌≡◌, ◌++◌, reverse, arith, length, take, min, length-append,
  length-take,
}
use oprofiler.Base.Text.{Text, codes}
use oprofiler.Format.{truncate_middle}
use oprofiler.Seq.{length-reverse}

-- A text that fits is left as it is.
pub truncate_middle_fits : (text : Text) (k : ℕ) → length text ≤ k → truncate_middle text k ≡ text
unfolding truncate_middle
truncate_middle_fits text k h = ground arith

-- The length of a shortened text: half of the limit, three dots, and the rest of the limit.
pub length-truncate_middle_long :
    (text : Text) (k : ℕ)
    → k < length text
    → length (truncate_middle text k) ≡ k / 2 + 3 + (k - (k / 2 + 3))
unfolding truncate_middle
length-truncate_middle_long text k h = ground (
  arith,
  length-append (take (k / 2) text)
      (codes "..." ++ reverse (take (k - (k / 2 + 3)) (reverse text))),
  length-append (codes "...") (reverse (take (k - (k / 2 + 3)) (reverse text))),
  length-reverse (take (k - (k / 2 + 3)) (reverse text)),
  length-reverse text,
  length-take (k / 2) text,
  length-take (k - (k / 2 + 3)) (reverse text),
)

-- From a limit of five on, the result keeps within the limit, and exactly reaches it where the text
-- was cut; below five, a text that is cut comes out longer than the limit.
pub length-truncate_middle :
    (text : Text) (k : ℕ)
    → (5 ≤ k → length (truncate_middle text k) ≡ min k (length text))
      × (k < 5 → k < length text → k < length (truncate_middle text k))
length-truncate_middle text k =
    (λ h. within h, λ few long. omega (arith, length-truncate_middle_long text k long))
  where
    within : 5 ≤ k → length (truncate_middle text k) ≡ min k (length text)
    within h = ground (arith, length-truncate_middle_long text k, truncate_middle_fits text k)
