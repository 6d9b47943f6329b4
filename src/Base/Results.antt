-- ===== src/Base/Results.antt =====
-- `Result<A, String>`.
use mathlib.Core.Path.{◌≡◌, refl}
use mathlib.Core.Logic.{◌⊎◌, inl, inr}
use oprofiler.Base.Text.{Text}

pub data Result {ℓ} (A : Type ℓ) : Type ℓ where
  done : A → Result A
  failed : Text → Result A

infixl 5 ◌>>=◌
abbrev pub ◌>>=◌ {ℓ κ} : {A : Type ℓ} {B : Type κ} → Result A → (A → Result B) → Result B
done a >>= f = f a
failed e >>= f = failed e

-- `map_err`.
abbrev pub map_err {ℓ} : {A : Type ℓ} → (Text → Text) → Result A → Result A
map_err f (done a) = done a
map_err f (failed e) = failed (f e)

pub Result-cases {ℓ} :
    {A : Type ℓ} (r : Result A) → ((a : A) × (r ≡ done a)) ⊎ ((err : Text) × (r ≡ failed err))
Result-cases (done a) = inl (a, refl)
Result-cases (failed err) = inr (err, refl)
