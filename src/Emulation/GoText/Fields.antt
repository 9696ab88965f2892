-- ===== src/Emulation/GoText/Fields.antt =====
-- `strings.Fields` and `strings.TrimSpace`.
use mathlib.Core.List.{reverse, reverse-append, append_assoc, append-nil}
use buildfarm.Base.{
  ℕ, List, [], ◌∷◌, ◌++◌, Bool, true, false, not, ◌||◌, All, Bytes, eqb, ◌≡◌, ◌≢◌, refl, ◌∙◌, ap,
  sym, arith, Bool-cases, inl, inr,
}
use buildfarm.Emulation.GoText.{is_space, trim_left, trim_space, flush, fields_from, fields}

-- Whether a text has a byte that is not white space.
abbrev pub has_text : Bytes → Bool
has_text [] = false
has_text (c ∷ cs) = not (is_space c) || has_text cs

has_text-append : (s t : Bytes) → has_text (s ++ t) ≡ (has_text s || has_text t)
has_text-append [] t = refl
has_text-append (c ∷ s) t = ground (arith, has_text-append s t)

has_text-reverse : (s : Bytes) → has_text (reverse s) ≡ has_text s
has_text-reverse [] = refl
has_text-reverse (c ∷ s) =
    ap has_text (reverse-append (c ∷ []) s)
    ∙ has_text-append (reverse s) (c ∷ [])
    ∙ ground (arith, has_text-reverse s)

has_text-trim_left : (s : Bytes) → has_text (trim_left s) ≡ has_text s
unfolding trim_left
has_text-trim_left [] = refl
has_text-trim_left (c ∷ s) = ground (arith, has_text-trim_left s)

eqb-trim_left-nil : (s : Bytes) → eqb (trim_left s) [] ≡ not (has_text s)
unfolding trim_left eqb
eqb-trim_left-nil [] = refl
eqb-trim_left-nil (c ∷ s) = ground (arith, eqb-trim_left-nil s)

eqb-concat-nil : (s : Bytes) (c : ℕ) → eqb (s ++ c ∷ []) [] ≡ false
unfolding eqb
eqb-concat-nil [] c = refl
eqb-concat-nil (x ∷ s) c = refl

eqb-reverse-nil : (s : Bytes) → eqb (reverse s) [] ≡ eqb s []
unfolding eqb
eqb-reverse-nil [] = refl
eqb-reverse-nil (c ∷ s) =
    ap (λ l. eqb l []) (reverse-append (c ∷ []) s) ∙ eqb-concat-nil (reverse s) c

-- `strings.TrimSpace(s) == ""` says that `s` has no text.
pub eqb-trim_space-nil : (s : Bytes) → eqb (trim_space s) [] ≡ not (has_text s)
unfolding trim_space
eqb-trim_space-nil s =
    eqb-reverse-nil (trim_left (reverse (trim_left s)))
    ∙ eqb-trim_left-nil (reverse (trim_left s))
    ∙ ap not (has_text-reverse (trim_left s) ∙ has_text-trim_left s)

abbrev pub IsWord : Bytes → Type 0
IsWord = All (λ c. is_space c ≡ false)

fields_from-word :
    (acc w rest : Bytes) → IsWord w → fields_from acc (w ++ rest) ≡ fields_from (acc ++ w) rest
unfolding fields_from
fields_from-word acc [] rest h = ap (λ l. fields_from l rest) (sym (append-nil acc))
fields_from-word acc (c ∷ w) rest h = rw h.0 (
    fields_from-word (acc ++ c ∷ []) w rest h.1
    ∙ ap (λ l. fields_from l rest) (append_assoc acc (c ∷ []) w))

-- A word, a space and the rest are one field and the fields of the rest.
pub fields-word :
    (c : ℕ) (w rest : Bytes)
    → IsWord (c ∷ w)
    → fields ((c ∷ w) ++ b' ' ∷ rest) ≡ (c ∷ w) ∷ fields rest
unfolding fields
fields-word c w rest h = fields_from-word [] (c ∷ w) (b' ' ∷ rest) h

pub fields_last : (c : ℕ) (w : Bytes) → IsWord (c ∷ w) → fields (c ∷ w) ≡ (c ∷ w) ∷ []
unfolding fields
fields_last c w h =
    ap (fields_from []) (sym (append-nil (c ∷ w))) ∙ fields_from-word [] (c ∷ w) [] h

flush-nil : (acc : Bytes) (rest : List Bytes) → flush acc ++ rest ≡ [] → (acc ≡ []) × (rest ≡ [])
flush-nil [] rest h = (refl, h)
flush-nil (x ∷ acc) rest h = cc

concat-ne-nil : (acc : Bytes) (c : ℕ) → acc ++ c ∷ [] ≢ []
concat-ne-nil [] c h = cc
concat-ne-nil (x ∷ acc) c h = cc

fields_from-nil : (acc s : Bytes) → fields_from acc s ≡ [] → (acc ≡ []) × (has_text s ≡ false)
unfolding fields_from
fields_from-nil acc [] h = ((flush-nil acc [] (append-nil (flush acc) ∙ h)).0, refl)
fields_from-nil acc (c ∷ s) h = elim (Bool-cases (is_space c)) [
  | inl e ↦
      let (a, n) = flush-nil acc (fields_from [] s) (rw e at h) in
      (a, rw e (fields_from-nil [] s n).1)
  | inr e ↦ absurd (concat-ne-nil acc c (fields_from-nil (acc ++ c ∷ []) s (rw e at h)).0)
]

-- A text that is not white space alone has a field.
pub fields-ne-nil : (s : Bytes) → eqb (trim_space s) [] ≡ false → fields s ≢ []
unfolding fields
fields-ne-nil s h e = grind (arith, eqb-trim_space-nil s, (fields_from-nil [] s e).1)

-- A text that begins with a word is not white space alone.
pub word-has_text : (c : ℕ) (w : Bytes) → is_space c ≡ false → eqb (trim_space (c ∷ w)) [] ≡ false
word-has_text c w h = eqb-trim_space-nil (c ∷ w) ∙ rw h refl

fields_from-blank : (s : Bytes) → has_text s ≡ false → fields_from [] s ≡ []
unfolding fields_from
fields_from-blank [] h = refl
fields_from-blank (c ∷ s) h =
    let e : is_space c ≡ true = ground arith in rw e (fields_from-blank s (rw e at h))

-- A text that has a field is not white space alone.
pub trim_space-fields :
    (s w : Bytes) (ws : List Bytes) → fields s ≡ w ∷ ws → eqb (trim_space s) [] ≡ false
unfolding fields
trim_space-fields s w ws h = eqb-trim_space-nil s ∙ elim (Bool-cases (has_text s)) [
  | inl e ↦ rw e refl
  | inr e ↦ absurd (nonempty (sym h ∙ fields_from-blank s e))
]
  where
    nonempty : w ∷ ws ≢ []
    nonempty e = cc
