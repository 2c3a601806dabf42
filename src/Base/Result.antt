-- ===== src/Base/Result.antt =====
-- `Result<A, E>` of the source, with one more case for a panic (`expect`, `unwrap`).
use mathlib.Core.Path.{◌≡◌, refl}
use mathlib.Core.Bool.{Bool, true, false}
use mathlib.Core.Option.{Option, none, some}

pub data Result {ℓ κ} (E : Type ℓ) (A : Type κ) : Type (ℓ ⊔ κ) where
  panic : Result E A
  err : E → Result E A
  ok : A → Result E A

-- `ok_or(e)?`
abbrev pub ok_or {ℓ κ} : {E : Type ℓ} {A : Type κ} → Option A → E → Result E A
ok_or none e = err e
ok_or (some a) e = ok a

-- `map_err`
abbrev pub map_err {ℓ κ μ} :
    {E : Type ℓ} {F : Type κ} {A : Type μ} → (E → F) → Result E A → Result F A
map_err f (ok a) = ok a
map_err f (err e) = err (f e)
map_err f panic = panic

module _ {ℓ κ} {E F : Type ℓ} {A : Type κ} where
  pub map_err-eq-ok :
      (f : E → F) (r : Result E A) {value : A} → map_err f r ≡ ok value → r ≡ ok value
  map_err-eq-ok f panic e = cc
  map_err-eq-ok f (err reason) e = cc
  map_err-eq-ok f (ok a) e = cc

module _ {ℓ κ μ} {E : Type ℓ} {A : Type κ} {B : Type μ} where
  -- The `?` operator: the rest of the function runs on the value.
  infixl 5 ◌>>=◌
  abbrev pub ◌>>=◌ : Result E A → (A → Result E B) → Result E B
  panic >>= rest = panic
  err reason >>= rest = err reason
  ok value >>= rest = rest value

  -- A function that returned got past the `?`.
  pub >>=-eq-ok :
      (first : Result E A) (rest : A → Result E B) {result : B}
      → (first >>= rest) ≡ ok result
      → (value : A) × (first ≡ ok value) × (rest value ≡ ok result)
  >>=-eq-ok panic rest e = cc
  >>=-eq-ok (err reason) rest e = cc
  >>=-eq-ok (ok value) rest e = (value, refl, e)

module _ {ℓ κ} {E : Type ℓ} {B : Type κ} where
  infixl 5 ◌>>◌
  abbrev pub ◌>>◌ : Result E (Unit {0}) → Result E B → Result E B
  first >> second = first >>= λ _. second

-- `if !test { return Err(reason); }`
abbrev pub guard {ℓ} : {E : Type ℓ} → Bool → E → Result E (Unit {0})
guard false reason = err reason
guard true reason = ok tt

-- Inversion of a test that let the rest through.
pub guard-eq-ok {ℓ κ} :
    {E : Type ℓ} {B : Type κ} (test : Bool) (reason : E) (rest : Result E B) {result : B}
    → (guard test reason >> rest) ≡ ok result
    → (test ≡ true) × (rest ≡ ok result)
guard-eq-ok false reason rest e = cc
guard-eq-ok true reason rest e = (refl, e)
