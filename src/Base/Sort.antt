-- ===== src/Base/Sort.antt =====
-- `sort.Strings`, by insertion: what it returns is fixed by its contents.
use mathlib.Core.Path.{◌≡◌, refl, sym, ap₂, ◌∙◌}
use mathlib.Core.Logic.{inl, inr, ∥∥₁_elim}
use mathlib.Core.Bool.{true, false}
use mathlib.Core.List.{List, [], ◌∷◌, Perm, Permᴰ}
use native.Mathlib.Omega.{arith}
use buildfarm.Base.Tests.{if◌then◌else◌, Bool-cases}
use buildfarm.Base.Text.{
  Bytes, eqb, eqb_iff, eqb-cases, le_bytes, le_bytes_refl, le_bytes_total, le_bytes_antisymm,
  le_bytes_trans,
}
use buildfarm.Base.Lists.{elem, All}

insert : Bytes → List Bytes → List Bytes
insert x [] = x ∷ []
insert x (y ∷ ys) = if le_bytes x y then x ∷ y ∷ ys else y ∷ insert x ys

-- `sort.Strings(l)`
unfoldable pub sort_strings : List Bytes → List Bytes
unfolding insert
sort_strings [] = []
sort_strings (x ∷ xs) = insert x (sort_strings xs)

-- `x` is at most each member.
abbrev pub Below : Bytes → List Bytes → Type 0
Below x = All (λ y. le_bytes x y ≡ true)

abbrev pub IsSorted : List Bytes → Type 0
IsSorted [] = Unit
IsSorted (x ∷ l) = Below x l × IsSorted l

abbrev pub IsNodup : List Bytes → Type 0
IsNodup [] = Unit
IsNodup (x ∷ l) = (elem x l ≡ false) × IsNodup l

Below-trans : (x y : Bytes) (l : List Bytes) → le_bytes x y ≡ true → Below y l → Below x l
Below-trans x y [] h b = tt
Below-trans x y (z ∷ l) h b = (le_bytes_trans x y z h b.0, Below-trans x y l h b.1)

Below-insert :
    (z x : Bytes) (l : List Bytes) → le_bytes z x ≡ true → Below z l → Below z (insert x l)
unfolding insert
Below-insert z x [] h b = (h, tt)
Below-insert z x (y ∷ l) h b = elim (Bool-cases (le_bytes x y)) [
  | inl e ↦ rw e (h, b)
  | inr e ↦ rw e (b.0, Below-insert z x l h b.1)
]

insert-IsSorted : (x : Bytes) (l : List Bytes) → IsSorted l → IsSorted (insert x l)
unfolding insert
insert-IsSorted x [] s = (tt, tt)
insert-IsSorted x (y ∷ l) s = elim (Bool-cases (le_bytes x y)) [
  | inl e ↦ rw e ((e, Below-trans x y l e s.0), s)
  | inr e ↦ rw e (Below-insert y x l (le_bytes_total x y e) s.0, insert-IsSorted x l s.1)
]

pub sort_strings-IsSorted : (l : List Bytes) → IsSorted (sort_strings l)
unfolding sort_strings
sort_strings-IsSorted [] = tt
sort_strings-IsSorted (x ∷ xs) = insert-IsSorted x (sort_strings xs) (sort_strings-IsSorted xs)

insert_comm : (x y : Bytes) (l : List Bytes) → insert x (insert y l) ≡ insert y (insert x l)
unfolding insert
insert_comm x y [] = ground (arith, le_bytes_total x y, le_bytes_antisymm x y)
insert_comm x y (z ∷ zs) = ground (
  arith,
  insert_comm x y zs,
  le_bytes_total x y,
  le_bytes_antisymm x y,
  le_bytes_total x z,
  le_bytes_total y z,
  le_bytes_trans x z y,
  le_bytes_trans y z x,
  le_bytes_trans x y z,
  le_bytes_trans y x z,
)

elem-insert : (a x : Bytes) (l : List Bytes) → elem a (insert x l) ≡ elem a (x ∷ l)
unfolding insert elem
elem-insert a x [] = refl
elem-insert a x (y ∷ ys) = ground (arith, elem-insert a x ys)

-- Sorting keeps the members.
pub elem-sort_strings : (a : Bytes) (l : List Bytes) → elem a (sort_strings l) ≡ elem a l
unfolding sort_strings elem
elem-sort_strings a [] = refl
elem-sort_strings a (x ∷ xs) =
    ground (arith, elem-insert a x (sort_strings xs), elem-sort_strings a xs)

insert-IsNodup : (x : Bytes) (l : List Bytes) → elem x l ≡ false → IsNodup l → IsNodup (insert x l)
unfolding insert elem
insert-IsNodup x [] h d = (refl, tt)
insert-IsNodup x (y ∷ l) h d = elim (Bool-cases (le_bytes x y)) [
  | inl e ↦ rw e (h, d)
  | inr e ↦ rw e (
    ground (arith, elem-insert y x l, eqb_iff x y, eqb_iff y x),
    insert-IsNodup x l (ground arith) d.1,
  )
]

pub sort_strings-IsNodup : (l : List Bytes) → IsNodup l → IsNodup (sort_strings l)
unfolding sort_strings
sort_strings-IsNodup [] d = tt
sort_strings-IsNodup (x ∷ xs) d =
    insert-IsNodup x (sort_strings xs) (elem-sort_strings x xs ∙ d.0) (sort_strings-IsNodup xs d.1)

pub Below-elem : (x a : Bytes) (l : List Bytes) → Below x l → elem a l ≡ true → le_bytes x a ≡ true
unfolding elem
Below-elem x a [] b h = cc
Below-elem x a (y ∷ l) b h = elim (Bool-cases (eqb y a)) [
  | inl e ↦ rw (sym ((eqb_iff y a).0 e)) b.0
  | inr e ↦ Below-elem x a l b.1 (rw e at h)
]

-- The head of one of two lists with the same members, seen from the other.
head-le :
    (x y : Bytes) (xs ys : List Bytes)
    → Below y ys
    → elem x (x ∷ xs) ≡ elem x (y ∷ ys)
    → le_bytes y x ≡ true
unfolding elem
head-le x y xs ys b h = elim (eqb-cases y x) [
  | inl e ↦ rw e (le_bytes_refl x)
  | inr e ↦ Below-elem y x ys b (ground (arith, eqb_iff x x))
]

-- Two sorted lists with no member twice and with the same members are the same list.
pub IsSorted-ext :
    (xs ys : List Bytes)
    → IsSorted xs
    → IsNodup xs
    → IsSorted ys
    → IsNodup ys
    → ((a : Bytes) → elem a xs ≡ elem a ys)
    → xs ≡ ys
unfolding elem
IsSorted-ext [] [] _ _ _ _ h = refl
IsSorted-ext [] (y ∷ ys) _ _ _ _ h = ground (arith, h y, eqb_iff y y)
IsSorted-ext (x ∷ xs) [] _ _ _ _ h = ground (arith, h x, eqb_iff x x)
IsSorted-ext (x ∷ xs) (y ∷ ys) s d t e h =
    let same : x ≡ y =
      le_bytes_antisymm x y (head-le y x ys xs s.0 (sym (h y))) (head-le x y xs ys t.0 (h x)) in
    let rest : xs ≡ ys =
      IsSorted-ext xs ys s.1 d.1 t.1 e.1
        (λ a. ground (arith, h a, same, d.0, e.0, eqb_iff x a, eqb_iff y a)) in
    cc

-- Sorting forgets the order of a list with no member twice.
pub sort_strings-ext :
    (xs ys : List Bytes)
    → IsNodup xs
    → IsNodup ys
    → ((a : Bytes) → elem a xs ≡ elem a ys)
    → sort_strings xs ≡ sort_strings ys
sort_strings-ext xs ys d e h =
    IsSorted-ext (sort_strings xs) (sort_strings ys) (sort_strings-IsSorted xs)
      (sort_strings-IsNodup xs d) (sort_strings-IsSorted ys) (sort_strings-IsNodup ys e)
      (λ a. elem-sort_strings a xs ∙ h a ∙ sym (elem-sort_strings a ys))

Permᴰ-sort_strings : {xs ys : List Bytes} → Permᴰ xs ys → sort_strings xs ≡ sort_strings ys
unfolding sort_strings
Permᴰ-sort_strings Permᴰ.nil = refl
Permᴰ-sort_strings (Permᴰ.cons e p) = ap₂ insert e (Permᴰ-sort_strings p)
Permᴰ-sort_strings (Permᴰ.swap {a} {b} {l = l} p q) =
    insert_comm a b (sort_strings l) ∙ ap₂ (λ x y. insert x (insert y (sort_strings l))) q p
Permᴰ-sort_strings (Permᴰ.trans p q) = Permᴰ-sort_strings p ∙ Permᴰ-sort_strings q

List-set : IsSet (List Bytes)
List-set = hlevel

-- Sorting forgets the order.
pub Perm-sort_strings : {xs ys : List Bytes} → Perm xs ys → sort_strings xs ≡ sort_strings ys
Perm-sort_strings {xs} {ys} p =
    ∥∥₁_elim p (List-set (sort_strings xs) (sort_strings ys)) Permᴰ-sort_strings
