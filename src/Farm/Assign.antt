-- ===== src/Farm/Assign.antt =====
-- `assign` against the builder that its maps give a platform.
use buildfarm.Base.{
  List, [], ◌∷◌, true, Option, none, some, if◌then◌else◌, Bytes, elem, eqb_iff, eqb_refl, ◌≡◌, ◌≢◌,
  refl, sym, ap, ◌∙◌, arith, inl, inr, Option-cases,
}
use buildfarm.Base.Map.{lookup, insert, lookup-insert}
use buildfarm.Base.Result.{Error, Result, ok, err}
use buildfarm.Farm.{Assignment, Notes, no_builder, assign}

abbrev pub or_else {ℓ} : {A : Type ℓ} → Option A → Option A → Option A
or_else (some b) o = some b
or_else none o = o

pub or_else_assoc {ℓ} :
    {A : Type ℓ} (a b c : Option A) → or_else a (or_else b c) ≡ or_else (or_else a b) c
or_else_assoc none b c = refl
or_else_assoc (some x) b c = refl

abbrev pub pick : Notes → Bytes → Option Bytes
pick n p = or_else (lookup p n.native) (lookup p n.emulated)

module _ (n : Notes) (p : Bytes) (ps : List Bytes) (m : Assignment) where
  pub assign-some :
      (b : Bytes) → pick n p ≡ some b → assign n (p ∷ ps) m ≡ assign n ps (insert p b m)
  unfolding assign
  assign-some b h = ground arith

  pub assign-none : pick n p ≡ none → assign n (p ∷ ps) m ≡ err (no_builder p)
  unfolding assign
  assign-none h = ground arith

pub assign-nil : (n : Notes) (m s : Assignment) → assign n [] m ≡ ok s → m ≡ s
unfolding assign
assign-nil n m s h = ground arith

-- A platform that was asked for gets its builder, and any other keeps what it had.
pub lookup-assign :
    (n : Notes) (ps : List Bytes) (m s : Assignment) (p : Bytes)
    → assign n ps m ≡ ok s
    → lookup p s ≡ (if elem p ps then pick n p else lookup p m)
unfolding elem
lookup-assign n [] m s p h = ap (lookup p) (sym (assign-nil n m s h))
lookup-assign n (q ∷ ps) m s p h = elim (Option-cases (pick n q)) [
  | inl e ↦ absurd (mismatch (sym (assign-none n q ps m e) ∙ h))
  | inr (b, e) ↦ ground (
    arith,
    lookup-assign n ps (insert q b m) s p (sym (assign-some n q ps m b e) ∙ h),
    lookup-insert q p b m,
    eqb_iff q p,
    e,
  )
]
  where
    mismatch : {x : Assignment} → err (no_builder q) ≢ ok x
    mismatch e = cc

-- A result leaves no platform without a builder.
pub assign-served :
    (n : Notes) (ps : List Bytes) (m s : Assignment)
    → assign n ps m ≡ ok s
    → (p : Bytes) → elem p ps ≡ true
    → pick n p ≢ none
unfolding elem
assign-served n [] m s h p i = cc
assign-served n (q ∷ ps) m s h p i = elim (Option-cases (pick n q)) [
  | inl e ↦ absurd (mismatch (sym (assign-none n q ps m e) ∙ h))
  | inr (b, e) ↦
      let rest = assign-served n ps (insert q b m) s (sym (assign-some n q ps m b e) ∙ h) p in
      λ x. ground (arith, rest, eqb_iff q p, e, x)
]
  where
    mismatch : {x : Assignment} → err (no_builder q) ≢ ok x
    mismatch e = cc

-- Where each platform has a builder there is a result.
pub assign-total :
    (n : Notes) (ps : List Bytes) (m : Assignment)
    → ((p : Bytes) → elem p ps ≡ true → pick n p ≢ none)
    → (s : Assignment) × (assign n ps m ≡ ok s)
unfolding elem
assign-total n [] m h = (m, unfold assign in refl)
assign-total n (q ∷ ps) m h = elim (Option-cases (pick n q)) [
  | inl e ↦ absurd (h q (rw eqb_refl refl) e)
  | inr (b, e) ↦
      let (s, r) = assign-total n ps (insert q b m) (λ p i. h p (ground arith)) in
      (s, assign-some n q ps m b e ∙ r)
]

-- An error names a platform that was asked for and has no builder.
pub assign-err :
    (n : Notes) (ps : List Bytes) (m : Assignment) (x : Error)
    → assign n ps m ≡ err x
    → (p : Bytes) × (elem p ps ≡ true) × (pick n p ≡ none) × (x ≡ no_builder p)
unfolding elem
assign-err n [] m x h = absurd (no_error (unfold assign in h))
  where
    no_error : ok m ≢ err x
    no_error e = cc
assign-err n (q ∷ ps) m x h = elim (Option-cases (pick n q)) [
  | inl e ↦ (q, rw eqb_refl refl, e, err-injective (sym h ∙ assign-none n q ps m e))
  | inr (b, e) ↦
      let (p, i, u, r) = assign-err n ps (insert q b m) x (sym (assign-some n q ps m b e) ∙ h) in
      (p, ground arith, u, r)
]
  where
    err-injective : {y z : Error} → ◌≡◌ {A = Result Assignment} (err y) (err z) → y ≡ z
    err-injective e = cc
