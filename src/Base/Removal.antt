-- ===== src/Base/Removal.antt =====
-- Taking a member out of a list, wherever it stands, and the order that is left open.
use Prim.Native.Nat.{suc}
use mathlib.Core.Path.{◌≡◌, refl, ap, ap₂, ◌∙◌, sym, subst}
use mathlib.Core.Bool.{Bool, false, ◌||◌}
use buildfarm.Base.Text.{Bytes, eqb, eqb_iff}
use buildfarm.Base.Sort.{IsNodup}
use mathlib.Core.List.Permᴰ
use mathlib.Core.List.{List, [], ◌∷◌, ◌++◌, Permᴰ, append_assoc}
use native.Mathlib.Omega.{arith}
use buildfarm.Base.Lists.{length, elem}

-- `rest` is `l` without one `a`.
pub data Removes {ℓ} {A : Type ℓ} (a : A) : List A → List A → Type ℓ where
  first : {l : List A} → Removes a (a ∷ l) l
  later : {b : A} {l rest : List A} → Removes a l rest → Removes a (b ∷ l) (b ∷ rest)

module _ {ℓ} {A : Type ℓ} where
  pub Removes-length : {a : A} {l rest : List A} → Removes a l rest → length l ≡ suc (length rest)
  Removes-length first = refl
  Removes-length (later r) = ap suc (Removes-length r)

  pub Removes-Permᴰ : {a : A} {l rest : List A} → Removes a l rest → Permᴰ l (a ∷ rest)
  Removes-Permᴰ {a} (first {l}) = Permᴰ.refl (a ∷ l)
  Removes-Permᴰ (later r) = Permᴰ.trans (Permᴰ.cons refl (Removes-Permᴰ r)) (Permᴰ.swap refl refl)

  -- Two ways to write that `a` was moved from the second list to the end of the first.
  pub Permᴰ-move :
      (a : A) (xs : List A) {ys rest : List A}
      → Removes a ys rest
      → Permᴰ ((xs ++ a ∷ []) ++ rest) (xs ++ ys)
  Permᴰ-move a xs {ys} {rest} r =
      subst (λ l. Permᴰ l (xs ++ ys)) (sym (append_assoc xs (a ∷ []) rest))
        (Permᴰ.append_left xs (Permᴰ.symm (Removes-Permᴰ r)))

  -- Two parts of a list change places.
  pub Permᴰ-exchange : (xs ys l : List A) → Permᴰ (xs ++ (ys ++ l)) (ys ++ (xs ++ l))
  Permᴰ-exchange [] ys l = Permᴰ.refl (ys ++ l)
  Permᴰ-exchange (x ∷ xs) ys l =
      Permᴰ.trans (Permᴰ.cons refl (Permᴰ-exchange xs ys l))
        (Permᴰ.symm (Permᴰ.middle x ys (xs ++ l)))

or_exchange : (a b c : Bool) → (a || (b || c)) ≡ (b || (a || c))
or_exchange a b c = ground arith

pub elem-Permᴰ : (a : Bytes) {xs ys : List Bytes} → Permᴰ xs ys → elem a xs ≡ elem a ys
unfolding elem
elem-Permᴰ a Permᴰ.nil = refl
elem-Permᴰ a (Permᴰ.cons e p) = ap₂ (λ x b. eqb x a || b) e (elem-Permᴰ a p)
elem-Permᴰ a (Permᴰ.swap {a = x} {b = y} {l = l} e f) =
    or_exchange (eqb x a) (eqb y a) (elem a l) ∙ ap₂ (λ u v. eqb u a || (eqb v a || elem a l)) f e
elem-Permᴰ a (Permᴰ.trans p q) = elem-Permᴰ a p ∙ elem-Permᴰ a q

IsNodup-swap : (x y : Bytes) (l : List Bytes) → IsNodup (x ∷ y ∷ l) → IsNodup (y ∷ x ∷ l)
unfolding elem
IsNodup-swap x y l d = ground (arith, eqb_iff x y, eqb_iff y x)

-- That no member stands twice in a list does not depend on the order.
pub Permᴰ-IsNodup : {xs ys : List Bytes} → Permᴰ xs ys → IsNodup xs → IsNodup ys
Permᴰ-IsNodup Permᴰ.nil d = d
Permᴰ-IsNodup (Permᴰ.cons {b = b} {l₁ = xs} e p) d =
    (sym (elem-Permᴰ b p) ∙ subst (λ x. elem x xs ≡ false) e d.0, Permᴰ-IsNodup p d.1)
Permᴰ-IsNodup (Permᴰ.swap {a} {b} {b' = b'} {l = l} e f) d =
    subst (λ x. IsNodup (x ∷ b' ∷ l)) f (subst (λ y. IsNodup (b ∷ y ∷ l)) e (IsNodup-swap a b l d))
Permᴰ-IsNodup (Permᴰ.trans p q) d = Permᴰ-IsNodup q (Permᴰ-IsNodup p d)
