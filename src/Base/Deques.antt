-- ===== src/Base/Deques.antt =====
-- The bounded queues: `while q.len() > limit { q.pop_back() }` and the same with `pop_front`.
use Prim.Native.Nat.{◌≤◌, ℕ, zero, suc, ◌-◌, ◌≤◌, ◌<◌, min}
use mathlib.Core.Path.{◌≡◌, refl, sym, ap, ◌∙◌}
use mathlib.Core.Logic.{inl, inr}
use mathlib.Core.Bool.{true, false}
use mathlib.Core.List.{List, [], ◌∷◌}
use native.Mathlib.Omega.{arith}
use oprofiler.Base.Tests.{ltb, Bool-cases}
use oprofiler.Base.Lists.{length, take, drop, length-drop, length-take}

module _ {A : Type 0} where
  abbrev pub pop_front : List A → List A
  pop_front [] = []
  pop_front (x ∷ xs) = xs

  abbrev pub pop_back : List A → List A
  pop_back [] = []
  pop_back (x ∷ []) = []
  pop_back (x ∷ y ∷ xs) = x ∷ pop_back (y ∷ xs)

  -- The two loops, on a number of rounds.
  unfoldable pub pop_front_rounds : ℕ → ℕ → List A → List A
  pop_front_rounds zero limit xs = xs
  pop_front_rounds (suc rounds) limit xs = elim (ltb limit (length xs)) [
    | true ↦ pop_front_rounds rounds limit (pop_front xs)
    | false ↦ xs
  ]

  unfoldable pub pop_back_rounds : ℕ → ℕ → List A → List A
  pop_back_rounds zero limit xs = xs
  pop_back_rounds (suc rounds) limit xs = elim (ltb limit (length xs)) [
    | true ↦ pop_back_rounds rounds limit (pop_back xs)
    | false ↦ xs
  ]

  -- A round shortens the queue, so as many rounds as it has elements are enough.
  unfoldable pub keep_newest_back : ℕ → List A → List A
  unfolding pop_front_rounds
  keep_newest_back limit xs = pop_front_rounds (length xs) limit xs

  unfoldable pub keep_newest_front : ℕ → List A → List A
  unfolding pop_back_rounds
  keep_newest_front limit xs = pop_back_rounds (length xs) limit xs

  pop_front_rounds_lem :
      (rounds limit : ℕ) (xs : List A)
      → length xs ≤ rounds
      → pop_front_rounds rounds limit xs ≡ drop (length xs - limit) xs
  unfolding pop_front_rounds
  pop_front_rounds_lem zero limit [] h = ground arith
  pop_front_rounds_lem zero limit (x ∷ xs) h = absurd (omega arith)
  pop_front_rounds_lem (suc rounds) limit [] h = ground arith
  pop_front_rounds_lem (suc rounds) limit (x ∷ xs) h =
      elim (Bool-cases (ltb limit (suc (length xs)))) [
        | inl e ↦
            let split : suc (length xs) - limit ≡ suc (length xs - limit) = ground arith in
            rw split (ground (arith, pop_front_rounds_lem rounds limit xs (omega arith)))
        | inr e ↦ let split : suc (length xs) - limit ≡ 0 = ground arith in rw split (ground arith)
      ]

  length-pop_back : (xs : List A) → length (pop_back xs) ≡ length xs - 1
  length-pop_back [] = omega arith
  length-pop_back (x ∷ []) = omega arith
  length-pop_back (x ∷ y ∷ xs) = omega (arith, length-pop_back (y ∷ xs))

  take-pop_back : (n : ℕ) (xs : List A) → n < length xs → take n (pop_back xs) ≡ take n xs
  take-pop_back zero xs h = refl
  take-pop_back (suc n) [] h = refl
  take-pop_back (suc n) (x ∷ []) h = absurd (omega arith)
  take-pop_back (suc n) (x ∷ y ∷ xs) h = ap (λ t. x ∷ t) (take-pop_back n (y ∷ xs) (omega arith))

  take_all : (n : ℕ) (xs : List A) → length xs ≤ n → take n xs ≡ xs
  take_all zero [] h = refl
  take_all zero (x ∷ xs) h = absurd (omega arith)
  take_all (suc n) [] h = refl
  take_all (suc n) (x ∷ xs) h = ap (λ t. x ∷ t) (take_all n xs (omega arith))

  pop_back_rounds_lem :
      (rounds limit : ℕ) (xs : List A)
      → length xs ≤ rounds
      → pop_back_rounds rounds limit xs ≡ take limit xs
  unfolding pop_back_rounds
  pop_back_rounds_lem zero limit xs h = sym (take_all limit xs (omega arith))
  pop_back_rounds_lem (suc rounds) limit xs h = ground (
    arith,
    take-pop_back limit xs,
    take_all limit xs,
    length-pop_back xs,
    pop_back_rounds_lem rounds limit (pop_back xs),
  )

  -- The loops leave the newest elements, at most `limit` of them.
  pub keep_newest_back_lem :
      (limit : ℕ) (xs : List A) → keep_newest_back limit xs ≡ drop (length xs - limit) xs
  unfolding keep_newest_back
  keep_newest_back_lem limit xs = pop_front_rounds_lem (length xs) limit xs (omega arith)

  pub keep_newest_front_lem : (limit : ℕ) (xs : List A) → keep_newest_front limit xs ≡ take limit xs
  unfolding keep_newest_front
  keep_newest_front_lem limit xs = pop_back_rounds_lem (length xs) limit xs (omega arith)

  pub length-keep_newest_back :
      (limit : ℕ) (xs : List A) → length (keep_newest_back limit xs) ≡ min limit (length xs)
  length-keep_newest_back limit xs =
      rw keep_newest_back_lem (length-drop (length xs - limit) xs ∙ omega arith)

  pub length-keep_newest_front :
      (limit : ℕ) (xs : List A) → length (keep_newest_front limit xs) ≡ min limit (length xs)
  length-keep_newest_front limit xs = rw keep_newest_front_lem (length-take limit xs)

  pub length-keep_newest_back-le :
      (limit : ℕ) (xs : List A) → length (keep_newest_back limit xs) ≤ limit
  length-keep_newest_back-le limit xs = omega (arith, length-keep_newest_back limit xs)
