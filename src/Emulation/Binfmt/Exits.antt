-- ===== src/Emulation/Binfmt/Exits.antt =====
-- How a line can make `parseBinfmtMisc` return, and that no index is out of range.
use mathlib.Core.Path.{subst}
use buildfarm.Base.{
  List, [], ◌∷◌, ◌||◌, Option, none, some, if-elim, Bytes, codes, eqb, ◌≡◌, ◌≢◌, refl, arith,
}
use buildfarm.Emulation.GoText.{ℤ, scan_lines, trim_space, fields, contains_byte, parse_int8}
use buildfarm.Emulation.GoText.Fields.{fields-ne-nil}
use buildfarm.Emulation.Binfmt.{
  Fields, Parsed, entry, ignored, failed, crashed, Line, next, leave, follow, switch, dispatch,
  parse_line, finish, parse_lines, parse_binfmt_misc, no_fields, with_offset, offset_line,
  magic_line, mask_line, flags_line,
}

-- A line returns -1 with or without an error, and nothing else.
abbrev pub IsExit : Parsed → Type 0
IsExit ignored = Unit
IsExit (failed e) = Unit
IsExit _ = ⊥

abbrev MayLeave : Line → Type 0
MayLeave (next s) = Unit
MayLeave (leave p) = IsExit p

module _ (path text : Bytes) (s : Fields) where
  offset-MayLeave : (rest : List Bytes) → MayLeave (offset_line path text s rest)
  unfolding offset_line
  offset-MayLeave [] = tt
  offset-MayLeave (f ∷ g ∷ r) = tt
  offset-MayLeave (f ∷ []) = by_value (parse_int8 f)
    where
      by_value : (o : Option ℤ) → MayLeave (with_offset path text s f o)
      by_value (some o) = tt
      by_value none = tt

  magic-MayLeave : (rest : List Bytes) → MayLeave (magic_line path text s rest)
  unfolding magic_line
  magic-MayLeave [] = tt
  magic-MayLeave (f ∷ []) = tt
  magic-MayLeave (f ∷ g ∷ r) = tt

  mask-MayLeave : (rest : List Bytes) → MayLeave (mask_line path text s rest)
  unfolding mask_line
  mask-MayLeave [] = tt
  mask-MayLeave (f ∷ []) = tt
  mask-MayLeave (f ∷ g ∷ r) = tt

  flags-MayLeave : (rest : List Bytes) → MayLeave (flags_line path text s rest)
  unfolding flags_line
  flags-MayLeave [] = tt
  flags-MayLeave (f ∷ []) = if-elim MayLeave (contains_byte f b'F') (λ _. tt) (λ _. tt)
  flags-MayLeave (f ∷ g ∷ r) = tt

  switch-MayLeave : (name : Bytes) (rest : List Bytes) → MayLeave (switch path text s name rest)
  unfolding switch
  switch-MayLeave name rest =
      if-elim MayLeave (eqb name (codes "disabled")) (λ _. tt)
        λ _.
          if-elim MayLeave (eqb name (codes "enabled")) (λ _. tt)
            λ _.
              if-elim MayLeave (eqb name (codes "interpreter")) (λ _. tt)
                λ _.
                  if-elim MayLeave (eqb name (codes "offset")) (λ _. offset-MayLeave rest)
                    λ _.
                      if-elim MayLeave (eqb name (codes "magic")) (λ _. magic-MayLeave rest)
                        λ _.
                          if-elim MayLeave (eqb name (codes "mask")) (λ _. mask-MayLeave rest)
                            λ _.
                              if-elim MayLeave
                                (eqb name (codes "flags") || eqb name (codes "flags:"))
                                (λ _. flags-MayLeave rest) (λ _. tt)

  dispatch-MayLeave : (fs : List Bytes) → fs ≢ [] → MayLeave (dispatch path text s fs)
  unfolding dispatch
  dispatch-MayLeave [] n = n refl
  dispatch-MayLeave (name ∷ rest) n = switch-MayLeave name rest

  parse_line-MayLeave : MayLeave (parse_line path s text)
  unfolding parse_line
  parse_line-MayLeave =
      if-elim MayLeave (eqb (trim_space text) []) (λ _. tt)
        (λ e. dispatch-MayLeave (fields text) (fields-ne-nil text e))

  pub parse_line-IsExit : (p : Parsed) → parse_line path s text ≡ leave p → IsExit p
  parse_line-IsExit p e = subst MayLeave e parse_line-MayLeave

finish-ne-crashed : (path : Bytes) (s : Fields) → finish path s ≢ crashed
unfolding finish
finish-ne-crashed path s = ground arith

follow-ne-crashed :
    (l : Line) (k : Fields → Parsed)
    → MayLeave l
    → ((s : Fields) → k s ≢ crashed)
    → follow l k ≢ crashed
follow-ne-crashed (next s) k m h = h s
follow-ne-crashed (leave ignored) k m h = λ e. cc
follow-ne-crashed (leave (failed x)) k m h = λ e. cc
follow-ne-crashed (leave crashed) k m h = absurd m
follow-ne-crashed (leave (entry _ _ _)) k m h = absurd m

parse_lines-ne-crashed :
    (path : Bytes) (ls : List Bytes) (s : Fields) → parse_lines path s ls ≢ crashed
unfolding parse_lines
parse_lines-ne-crashed path [] s = finish-ne-crashed path s
parse_lines-ne-crashed path (text ∷ texts) s =
    follow-ne-crashed (parse_line path s text) (λ s'. parse_lines path s' texts)
      (parse_line-MayLeave path text s) (parse_lines-ne-crashed path texts)

-- Whatever the file holds, `fields[0]` is there: `parseBinfmtMisc` never panics.
pub parse-ne-crashed : (path contents : Bytes) → parse_binfmt_misc path contents ≢ crashed
unfolding parse_binfmt_misc
parse-ne-crashed path contents = parse_lines-ne-crashed path (scan_lines contents) no_fields
