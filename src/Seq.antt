-- ===== src/Seq.antt =====
-- Laws of lists that the components share.
use oprofiler.Base.{
  ◌≡◌, refl, List, [], ◌∷◌, ◌++◌, reverse, arith, ap, length, length-append, keep, Bool, append-nil,
  All,
}
use mathlib.Core.List.{reverse-cons}

pub length-reverse {ℓ} : {A : Type ℓ} (xs : List A) → length (reverse xs) ≡ length xs
length-reverse [] = refl
length-reverse (x ∷ xs) =
    omega
      (arith, ap length (reverse-cons x xs), length-append (reverse xs) (x ∷ []), length-reverse xs)

module _ {A : Type 0} (p : A → Bool) where
  pub keep-append : (xs ys : List A) → keep p (xs ++ ys) ≡ keep p xs ++ keep p ys
  keep-append [] ys = refl
  keep-append (x ∷ xs) ys = ground (arith, keep-append xs ys)

  pub keep-reverse : (xs : List A) → keep p (reverse xs) ≡ reverse (keep p xs)
  keep-reverse [] = refl
  keep-reverse (x ∷ xs) =
      rw (reverse-cons x xs, keep-append (reverse xs) (x ∷ []), keep-reverse xs)
        (ground (arith, reverse-cons x (keep p xs), append-nil (reverse (keep p xs))))

module _ {A : Type 0} (P : A → Type 0) where
  pub All-append : (xs ys : List A) → All P xs → All P ys → All P (xs ++ ys)
  All-append [] ys h k = k
  All-append (x ∷ xs) ys h k = (h.0, All-append xs ys h.1 k)

  pub All-reverse : (xs : List A) → All P xs → All P (reverse xs)
  All-reverse [] h = tt
  All-reverse (x ∷ xs) h =
      rw (reverse-cons x xs) (All-append (reverse xs) (x ∷ []) (All-reverse xs h.1) (h.0, tt))
