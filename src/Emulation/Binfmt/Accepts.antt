-- ===== src/Emulation/Binfmt/Accepts.antt =====
-- `parseBinfmtMisc` against a description of the texts that it takes for an entry.
use mathlib.Core.Path.{subst}
use buildfarm.Base.{
  List, [], ◌∷◌, true, ◌||◌, Option, none, some, if-elim, Bytes, codes, eqb, eqb_iff, ◌≡◌, ◌⊎◌,
  refl, ap, ◌∙◌, arith,
}
use buildfarm.Emulation.GoText.{ℤ, trim_space, fields, contains_byte, parse_int8}
use buildfarm.Emulation.Binfmt.{
  Fields, Parsed, ignored, Line, next, leave, switch, dispatch, parse_line, with_offset,
  offset_line, magic_line, mask_line, flags_line,
}

-- A line that lets the reading go on, with the values before and after it.
pub data Reads (s : Fields) (text : Bytes) : Fields → Type 0 where
  blank : eqb (trim_space text) [] ≡ true → Reads s text s
  enabled : (rest : List Bytes) → fields text ≡ codes "enabled" ∷ rest → Reads s text s
  interpreter : (rest : List Bytes) → fields text ≡ codes "interpreter" ∷ rest → Reads s text s
  offset :
      (f : Bytes) (o : ℤ)
      → fields text ≡ codes "offset" ∷ f ∷ []
      → parse_int8 f ≡ some o
      → Reads s text (record s { offset = o })
  magic :
      (f : Bytes)
      → fields text ≡ codes "magic" ∷ f ∷ []
      → Reads s text (record s { magic_string = f })
  mask :
      (f : Bytes)
      → fields text ≡ codes "mask" ∷ f ∷ []
      → Reads s text (record s { mask_string = f })
  flags :
      (name f : Bytes)
      → (name ≡ codes "flags") ⊎ (name ≡ codes "flags:")
      → fields text ≡ name ∷ f ∷ []
      → contains_byte f b'F' ≡ true
      → Reads s text s

-- The lines one after the other.
pub data ReadsAll : Fields → List Bytes → Fields → Type 0 where
  done : {s : Fields} → ReadsAll s [] s
  line :
      {text : Bytes} {texts : List Bytes} {s s1 s2 : Fields}
      → Reads s text s1
      → ReadsAll s1 texts s2
      → ReadsAll s (text ∷ texts) s2

abbrev fields_of : Fields → Line → Fields
fields_of d (next s) = s
fields_of d (leave p) = d

module _ (path text : Bytes) (s : Fields) where
  abbrev pub IsSound : Line → Type 0
  IsSound l = (s' : Fields) → l ≡ next s' → Reads s text s'

  next-IsSound : (t : Fields) → Reads s text t → IsSound (next t)
  next-IsSound t r s' e = subst (Reads s text) (ap (fields_of t) e) r

  leave-IsSound : (p : Parsed) → IsSound (leave p)
  leave-IsSound p s' e = cc

  offset-IsSound :
      (rest : List Bytes)
      → fields text ≡ codes "offset" ∷ rest
      → IsSound (offset_line path text s rest)
  unfolding offset_line
  offset-IsSound [] p = leave-IsSound _
  offset-IsSound (f ∷ g ∷ r) p = leave-IsSound _
  offset-IsSound (f ∷ []) p = by_value (parse_int8 f) refl
    where
      by_value : (o : Option ℤ) → parse_int8 f ≡ o → IsSound (with_offset path text s f o)
      by_value (some o) q = next-IsSound _ (offset f o p q)
      by_value none q = leave-IsSound _

  magic-IsSound :
      (rest : List Bytes)
      → fields text ≡ codes "magic" ∷ rest
      → IsSound (magic_line path text s rest)
  unfolding magic_line
  magic-IsSound [] p = leave-IsSound _
  magic-IsSound (f ∷ []) p = next-IsSound _ (magic f p)
  magic-IsSound (f ∷ g ∷ r) p = leave-IsSound _

  mask-IsSound :
      (rest : List Bytes) → fields text ≡ codes "mask" ∷ rest → IsSound (mask_line path text s rest)
  unfolding mask_line
  mask-IsSound [] p = leave-IsSound _
  mask-IsSound (f ∷ []) p = next-IsSound _ (mask f p)
  mask-IsSound (f ∷ g ∷ r) p = leave-IsSound _

  flags-IsSound :
      (name : Bytes) (rest : List Bytes)
      → (name ≡ codes "flags") ⊎ (name ≡ codes "flags:")
      → fields text ≡ name ∷ rest
      → IsSound (flags_line path text s rest)
  unfolding flags_line
  flags-IsSound name [] n p = leave-IsSound _
  flags-IsSound name (f ∷ []) n p =
      if-elim IsSound (contains_byte f b'F') (λ c. next-IsSound _ (flags name f n p c))
        (λ _. leave-IsSound _)
  flags-IsSound name (f ∷ g ∷ r) n p = leave-IsSound _

  switch-IsSound :
      (name : Bytes) (rest : List Bytes)
      → fields text ≡ name ∷ rest
      → IsSound (switch path text s name rest)
  unfolding switch
  switch-IsSound name rest p =
      if-elim IsSound (eqb name (codes "disabled")) (λ _. leave-IsSound ignored)
        λ _.
          if-elim IsSound (eqb name (codes "enabled"))
            (λ e. next-IsSound s (enabled rest (named (codes "enabled") e)))
            λ _.
              if-elim IsSound (eqb name (codes "interpreter"))
                (λ e. next-IsSound s (interpreter rest (named (codes "interpreter") e)))
                λ _.
                  if-elim IsSound (eqb name (codes "offset"))
                    (λ e. offset-IsSound rest (named (codes "offset") e))
                    λ _.
                      if-elim IsSound (eqb name (codes "magic"))
                        (λ e. magic-IsSound rest (named (codes "magic") e))
                        λ _.
                          if-elim IsSound (eqb name (codes "mask"))
                            (λ e. mask-IsSound rest (named (codes "mask") e))
                            λ _.
                              if-elim IsSound
                                (eqb name (codes "flags") || eqb name (codes "flags:"))
                                (λ e. flags-IsSound name rest (either e) p) λ _. leave-IsSound _
    where
      named : (w : Bytes) → eqb name w ≡ true → fields text ≡ w ∷ rest
      named w e = p ∙ ap (λ n. n ∷ rest) ((eqb_iff name w).0 e)

      either :
          (eqb name (codes "flags") || eqb name (codes "flags:")) ≡ true
          → (name ≡ codes "flags") ⊎ (name ≡ codes "flags:")
      either e = ground (arith, eqb_iff name (codes "flags"), eqb_iff name (codes "flags:"))

  dispatch-IsSound : (fs : List Bytes) → fields text ≡ fs → IsSound (dispatch path text s fs)
  unfolding dispatch
  dispatch-IsSound [] p = leave-IsSound _
  dispatch-IsSound (name ∷ rest) p = switch-IsSound name rest p

  -- A line after which the loop goes on reads on.
  pub parse_line-IsSound : IsSound (parse_line path s text)
  unfolding parse_line
  parse_line-IsSound =
      if-elim IsSound (eqb (trim_space text) []) (λ e. next-IsSound s (blank e))
        (λ _. dispatch-IsSound (fields text) refl)
