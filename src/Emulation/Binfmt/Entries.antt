-- ===== src/Emulation/Binfmt/Entries.antt =====
-- `parseBinfmtMisc` returns an entry exactly for the texts that `ReadsAll` describes.
use mathlib.Core.Path.{subst}
use buildfarm.Base.{
  List, [], ◌∷◌, true, some, Bytes, codes, eqb, eqb_iff, ◌≡◌, ◌≢◌, ◌⊎◌, ◌↔◌, inl, inr, refl, ap,
  ◌∙◌, arith,
}
use buildfarm.Emulation.GoText.{ℤ, scan_lines, fields, contains_byte, decode_hex, parse_int8}
use buildfarm.Emulation.GoText.Fields.{trim_space-fields}
use buildfarm.Emulation.Binfmt.{
  Fields, entry, Line, follow, next, leave, dispatch, parse_line, finish, parse_lines,
  parse_binfmt_misc, no_fields,
}
use buildfarm.Emulation.Binfmt.Exits.{IsExit, parse_line-IsExit}
use buildfarm.Emulation.Binfmt.Accepts.{
  Reads, blank, enabled, interpreter, offset, magic, mask, flags, ReadsAll, done, line,
  parse_line-IsSound,
}

module _ (path text : Bytes) (s : Fields) where
  to_dispatch :
      (w : Bytes) (ws : List Bytes)
      → fields text ≡ w ∷ ws
      → parse_line path s text ≡ dispatch path text s (w ∷ ws)
  unfolding parse_line
  to_dispatch w ws p = rw (trim_space-fields text w ws p, p) refl

  dispatch-flags :
      (name f : Bytes)
      → (name ≡ codes "flags") ⊎ (name ≡ codes "flags:")
      → contains_byte f b'F' ≡ true
      → dispatch path text s (name ∷ f ∷ []) ≡ next s
  unfolding dispatch eqb
  dispatch-flags name f (inl e) c = rw (e, c) refl
  dispatch-flags name f (inr e) c = rw (e, c) refl

  dispatch-offset :
      (f : Bytes) (o : ℤ)
      → parse_int8 f ≡ some o
      → dispatch path text s (codes "offset" ∷ f ∷ []) ≡ next (record s { offset = o })
  unfolding dispatch eqb
  dispatch-offset f o q = rw q refl

  -- A line that reads on makes the loop go on with the values read.
  pub parse_line-Reads : (s' : Fields) → Reads s text s' → parse_line path s text ≡ next s'
  unfolding dispatch eqb
  parse_line-Reads _ (blank e) = unfold parse_line in rw e refl
  parse_line-Reads _ (enabled rest p) = to_dispatch _ _ p
  parse_line-Reads _ (interpreter rest p) = to_dispatch _ _ p
  parse_line-Reads _ (offset f o p q) = to_dispatch _ _ p ∙ dispatch-offset f o q
  parse_line-Reads _ (magic f p) = to_dispatch _ _ p
  parse_line-Reads _ (mask f p) = to_dispatch _ _ p
  parse_line-Reads _ (flags name f n p c) = to_dispatch _ _ p ∙ dispatch-flags name f n c

-- What the values behind the loop have to be.
pub record IsEntry (s : Fields) (o : ℤ) (m k : Bytes) : Type 0 where
  pub offset : s.offset ≡ o
  pub magic : decode_hex s.magic_string ≡ some m
  pub mask : decode_hex s.mask_string ≡ some k
  pub magic_ne_nil : s.magic_string ≢ []
  pub mask_ne_nil : s.mask_string ≢ []

module _ (path : Bytes) (o : ℤ) (m k : Bytes) where
  finish-IsEntry : (s : Fields) → finish path s ≡ entry o m k → IsEntry s o m k
  unfolding finish
  finish-IsEntry s h = ground (arith, eqb_iff s.magic_string [], eqb_iff s.mask_string [])

  finish-entry : (s : Fields) → IsEntry s o m k → finish path s ≡ entry o m k
  unfolding finish
  finish-entry s h =
      ground
        (arith, eqb_iff s.magic_string [], eqb_iff s.mask_string [], h.magic_ne_nil, h.mask_ne_nil)

  parse_lines-entry :
      (ls : List Bytes) (s t : Fields)
      → ReadsAll s ls t
      → IsEntry t o m k
      → parse_lines path s ls ≡ entry o m k
  unfolding parse_lines
  parse_lines-entry _ s _ done i = finish-entry s i
  parse_lines-entry _ s t (line {text} {texts} {s1 = s1} r rs) i =
      ap (λ l. follow l (λ s'. parse_lines path s' texts)) (parse_line-Reads path text s s1 r)
      ∙ parse_lines-entry texts s1 t rs i

  parse_lines-ReadsAll :
      (ls : List Bytes) (s : Fields)
      → parse_lines path s ls ≡ entry o m k
      → (t : Fields) × ReadsAll s ls t × IsEntry t o m k
  unfolding parse_lines
  parse_lines-ReadsAll [] s h = (s, done, finish-IsEntry s h)
  parse_lines-ReadsAll (text ∷ texts) s h =
      by_line (parse_lines-ReadsAll texts) (parse_line path s text) refl h
    where
      by_line :
          ((s1 : Fields)
            → parse_lines path s1 texts ≡ entry o m k
            → (t : Fields) × ReadsAll s1 texts t × IsEntry t o m k)
          → (l : Line) → parse_line path s text ≡ l
          → follow l (λ s'. parse_lines path s' texts) ≡ entry o m k
          → (t : Fields) × ReadsAll s (text ∷ texts) t × IsEntry t o m k
      by_line ih (next s1) e q =
          let (t, r, i) = ih s1 q in (t, line (parse_line-IsSound path text s s1 e) r, i)
      by_line ih (leave p) e q = absurd (subst IsExit q (parse_line-IsExit path text s p e))

-- `parseBinfmtMisc` returns an entry exactly when every line is blank or an "enabled",
-- "interpreter", "offset", "magic", "mask" or "flags" line that has what it needs (one value, an
-- offset of 8 bits, the flag F), and the last magic and the last mask are there and are hexadecimal;
-- it then returns the last offset, magic and mask.
pub parse-entry_iff :
    (path contents : Bytes) (o : ℤ) (m k : Bytes)
    → (parse_binfmt_misc path contents ≡ entry o m k)
      ↔ ((s : Fields) × ReadsAll no_fields (scan_lines contents) s × IsEntry s o m k)
unfolding parse_binfmt_misc
parse-entry_iff path contents o m k = (
  parse_lines-ReadsAll path o m k (scan_lines contents) no_fields,
  λ (s, r, i). parse_lines-entry path o m k (scan_lines contents) no_fields s r i,
)
