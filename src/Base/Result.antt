-- ===== src/Base/Result.antt =====
-- Go errors, and the values of functions that return `(T, error)`.
use Prim.Native.Nat.{ℕ}
use Prim.Native.String.{String}
use mathlib.Core.List.{List}
use buildfarm.Base.Text.{Bytes}
use mathlib.Core.Path.{◌≡◌, refl}

-- An error of the program is its format and the texts put into it; `wrapf` is a `%w`. An error of
-- code outside the repository is `foreign`.
pub data Error : Type 0 where
  foreign : ℕ → Error
  errorf : String → List Bytes → Error
  wrapf : String → List Bytes → Error → Error

pub data Result {ℓ} (A : Type ℓ) : Type ℓ where
  err : Error → Result A
  ok : A → Result A

-- `if err := f(); err != nil { return wrap(err) }`
abbrev pub map_err {ℓ} : {A : Type ℓ} → (Error → Error) → Result A → Result A
map_err wrap (err e) = err (wrap e)
map_err wrap (ok a) = ok a

-- The rest of a function behind `if err != nil { return err }`.
infixl 5 ◌>>=◌
abbrev pub ◌>>=◌ {ℓ κ} : {A : Type ℓ} {B : Type κ} → Result A → (A → Result B) → Result B
err e >>= rest = err e
ok a >>= rest = rest a

-- It succeeds only where both parts do.
pub >>=-eq-ok {ℓ κ} :
    {A : Type ℓ} {B : Type κ} (r : Result A) (rest : A → Result B) {b : B}
    → (r >>= rest) ≡ ok b
    → (a : A) × (r ≡ ok a) × (rest a ≡ ok b)
>>=-eq-ok (err e) rest h = cc
>>=-eq-ok (ok a) rest h = (a, refl, h)

-- What a call comes to that may follow a nil pointer.
pub data Attempt {ℓ} (A : Type ℓ) : Type ℓ where
  panicked : Attempt A
  returned : A → Attempt A

pub ok-injective {ℓ} : {A : Type ℓ} {a b : A} → ◌≡◌ {A = Result A} (ok a) (ok b) → a ≡ b
ok-injective e = cc
