-- ===== src/Base/Lists.antt =====
-- Lists measured and indexed by native numbers, and Boolean membership of strings.
use Prim.Native.Nat.{ℕ, zero, suc, ◌+◌}
use mathlib.Core.Path.{◌≡◌, refl, ap, ap₂, ◌∙◌, subst}
use mathlib.Core.Bool.{Bool, false, ◌||◌}
use mathlib.Core.List.{List, [], ◌∷◌, ◌++◌, Perm, Permᴰ}
use mathlib.Core.Logic.{∥∥₁_elim}
use mathlib.Core.Option.{Option, none, some, some-injective}
use native.Mathlib.Omega.{arith}
use buildfarm.Base.Text.{Bytes, eqb}

module _ {ℓ} {A : Type ℓ} where
  abbrev pub length : List A → ℕ
  length [] = 0
  length (x ∷ xs) = suc (length xs)

  abbrev pub get_elem? : List A → ℕ → Option A
  get_elem? [] i = none
  get_elem? (x ∷ xs) zero = some x
  get_elem? (x ∷ xs) (suc i) = get_elem? xs i

  pub length-append : (xs ys : List A) → length (xs ++ ys) ≡ length xs + length ys
  length-append [] ys = omega arith
  length-append (x ∷ xs) ys = omega (arith, length-append xs ys)

  abbrev pub All {κ} : (A → Type κ) → List A → Type κ
  All P [] = Unit
  All P (x ∷ xs) = P x × All P xs

-- Whether a string is among the strings of a list.
unfoldable pub elem : Bytes → List Bytes → Bool
elem a [] = false
elem a (x ∷ xs) = eqb x a || elem a xs

pub elem-append : (a : Bytes) (xs ys : List Bytes) → elem a (xs ++ ys) ≡ (elem a xs || elem a ys)
unfolding elem
elem-append a [] ys = refl
elem-append a (x ∷ xs) ys = ground (arith, elem-append a xs ys)

module _ {ℓ} {A : Type ℓ} where
  -- A write out of bounds changes nothing; the model's writes are proved to be in bounds.
  abbrev pub set : List A → ℕ → A → List A
  set [] i v = []
  set (x ∷ xs) zero v = v ∷ xs
  set (x ∷ xs) (suc i) v = x ∷ set xs i v

  abbrev pub replicate : ℕ → A → List A
  replicate zero a = []
  replicate (suc n) a = a ∷ replicate n a

  pub length-set : (xs : List A) (i : ℕ) (v : A) → length (set xs i v) ≡ length xs
  length-set [] i v = refl
  length-set (x ∷ xs) zero v = refl
  length-set (x ∷ xs) (suc i) v = ap suc (length-set xs i v)

  pub All-append {κ} : (P : A → Type κ) (xs ys : List A) → All P xs → All P ys → All P (xs ++ ys)
  All-append P [] ys hx hy = hy
  All-append P (x ∷ xs) ys hx hy = (hx.0, All-append P xs ys hx.1 hy)

  pub All-get {κ} :
      (P : A → Type κ) (xs : List A) (i : ℕ) (x : A) → All P xs → get_elem? xs i ≡ some x → P x
  All-get P [] i x h e = cc
  All-get P (y ∷ xs) zero x h e = subst P (some-injective y x e) h.0
  All-get P (y ∷ xs) (suc i) x h e = All-get P xs i x h.1 e

  pub All-both {κ μ} :
      (P : A → Type κ) (Q : A → Type μ) (xs : List A)
      → All P xs
      → All Q xs
      → All (λ x. P x × Q x) xs
  All-both P Q [] p q = tt
  All-both P Q (x ∷ xs) p q = ((p.0, q.0), All-both P Q xs p.1 q.1)

-- `a` stands in a list, with the place.
pub data Member {ℓ} {A : Type ℓ} (a : A) : List A → Type ℓ where
  here : {l : List A} → Member a (a ∷ l)
  there : {b : A} {l : List A} → Member a l → Member a (b ∷ l)

or_swap : (a b c : Bool) → (a || (b || c)) ≡ (b || (a || c))
or_swap a b c = ground arith

Bool_set : IsSet Bool
Bool_set = hlevel

module _ {ℓ} {A : Type ℓ} (f : A → Bool) where
  -- Whether some member passes a test.
  abbrev pub any : List A → Bool
  any [] = false
  any (x ∷ xs) = f x || any xs

  Permᴰ-any : {xs ys : List A} → Permᴰ xs ys → any xs ≡ any ys
  Permᴰ-any Permᴰ.nil = refl
  Permᴰ-any (Permᴰ.cons e p) = ap₂ (λ x b. f x || b) e (Permᴰ-any p)
  Permᴰ-any (Permᴰ.swap {a} {b} {l = l} p q) =
      or_swap (f a) (f b) (any l) ∙ ap₂ (λ x y. f x || (f y || any l)) q p
  Permᴰ-any (Permᴰ.trans p q) = Permᴰ-any p ∙ Permᴰ-any q

  -- The order does not matter to it.
  pub Perm-any : {xs ys : List A} → Perm xs ys → any xs ≡ any ys
  Perm-any {xs} {ys} p = ∥∥₁_elim p (Bool_set (any xs) (any ys)) Permᴰ-any
