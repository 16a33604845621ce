-- ===== src/Prelude/Result.antt =====
-- `Result<A, E>`, with `?` as the bind of a `do` block.
use mathlib.Core.Path.{◌≡◌, refl}
use mathlib.Core.Logic.{◌⊎◌, inl, inr}
use mathlib.Core.Bool.{Bool, true, false}
use mathlib.Core.List.{List, [], ◌∷◌}

pub data Result {ℓ κ} (E : Type κ) (A : Type ℓ) : Type (ℓ ⊔ κ) where
  ok : A → Result E A
  err : E → Result E A

module _ {κ} {E : Type κ} where
  infixl 5 ◌>>=◌ ◌>>◌
  abbrev pub ◌>>=◌ {ℓ ℓ'} : {A : Type ℓ} {B : Type ℓ'} → Result E A → (A → Result E B) → Result E B
  ok a >>= f = f a
  err e >>= f = err e

  abbrev pub ◌>>◌ {ℓ} : {B : Type ℓ} → Result E (Unit {0}) → Result E B → Result E B
  m >> k = m >>= λ _. k

  -- `map_err`
  abbrev pub map_err {ℓ κ'} : {A : Type ℓ} {F : Type κ'} → (E → F) → Result E A → Result F A
  map_err f (ok a) = ok a
  map_err f (err e) = err (f e)

  -- A row of `if bad { return Err(e) }`, and that no test of it holds.
  abbrev pub first_error : List (Bool × E) → Result E (Unit {0})
  first_error [] = ok tt
  first_error ((true, e) ∷ checks) = err e
  first_error ((false, e) ∷ checks) = first_error checks

  abbrev pub AllClear : List (Bool × E) → Type 0
  AllClear [] = Unit
  AllClear ((bad, e) ∷ checks) = (bad ≡ false) × AllClear checks

  pub first_error-AllClear :
      (checks : List (Bool × E)) → first_error checks ≡ ok tt → AllClear checks
  first_error-AllClear [] h = tt
  first_error-AllClear ((true, e) ∷ checks) h = cc
  first_error-AllClear ((false, e) ∷ checks) h = (refl, first_error-AllClear checks h)

  pub AllClear-first_error :
      (checks : List (Bool × E)) → AllClear checks → first_error checks ≡ ok tt
  AllClear-first_error [] h = refl
  AllClear-first_error ((true, e) ∷ checks) (h, hs) = cc
  AllClear-first_error ((false, e) ∷ checks) (h, hs) = AllClear-first_error checks hs

  pub Result-cases {ℓ} :
      {A : Type ℓ} (r : Result E A) → ((a : A) × (r ≡ ok a)) ⊎ ((e : E) × (r ≡ err e))
  Result-cases (ok a) = inl (a, refl)
  Result-cases (err e) = inr (e, refl)

  pub ok_injective {ℓ} : {A : Type ℓ} (a b : A) → ◌≡◌ {A = Result E A} (ok a) (ok b) → a ≡ b
  ok_injective a b h = cc
