-- ===== src/Emulation/Binfmt.antt =====
-- `parseBinfmtMisc` of emulation/binfmtmisc_linux.go.
pub mod Exits
pub mod Accepts
pub mod Entries
pub mod RoundTrip
use buildfarm.Base.{
  ℕ, List, [], ◌∷◌, Bool, true, false, ◌||◌, Option, none, some, if◌then◌else◌, Bytes, codes, eqb,
  String,
}
use buildfarm.Base.Result.{Error, errorf}
use buildfarm.Emulation.GoText.{
  ℤ, pos, negsuc, scan_lines, trim_space, fields, contains_byte, decode_hex, parse_int8,
}

-- The variables of the loop.
pub record Fields : Type 0 where
  pub offset : ℤ
  pub magic_string : Bytes
  pub mask_string : Bytes

-- How the function leaves: with an entry to use, with offset -1 and no error, with an error, or by
-- an index out of range.
pub data Parsed : Type 0 where
  entry : ℤ → Bytes → Bytes → Parsed
  ignored : Parsed
  failed : Error → Parsed
  crashed : Parsed

-- What one line does: `continue`, or a return.
pub data Line : Type 0 where
  next : Fields → Line
  leave : Parsed → Line

module _ (path text : Bytes) where
  abbrev invalid_format : Parsed
  invalid_format = failed (errorf "invalid format for %q in %q" (text ∷ path ∷ []))

  abbrev with_offset : Fields → Bytes → Option ℤ → Line
  with_offset s f (some o) = next (record s { offset = o })
  with_offset s f none = leave (failed (errorf "invalid offset %q in %q" (f ∷ path ∷ [])))

  -- `case "offset"`, on the fields behind the name.
  offset_line : Fields → List Bytes → Line
  offset_line s (f ∷ []) = with_offset s f (parse_int8 f)
  offset_line s _ = leave invalid_format

  magic_line : Fields → List Bytes → Line
  magic_line s (f ∷ []) = next (record s { magic_string = f })
  magic_line s _ = leave invalid_format

  mask_line : Fields → List Bytes → Line
  mask_line s (f ∷ []) = next (record s { mask_string = f })
  mask_line s _ = leave invalid_format

  flags_line : Fields → List Bytes → Line
  flags_line s (f ∷ []) = if contains_byte f b'F' then next s else leave ignored
  flags_line s _ = leave invalid_format

  -- The switch, on `fields[0]` and the other fields.
  unfoldable pub switch : Fields → Bytes → List Bytes → Line
  unfolding offset_line magic_line mask_line flags_line
  switch s name rest =
      if eqb name (codes "disabled")
      then leave ignored
      else if eqb name (codes "enabled")
      then next s
      else if eqb name (codes "interpreter")
      then next s
      else if eqb name (codes "offset")
      then offset_line s rest
      else if eqb name (codes "magic")
      then magic_line s rest
      else if eqb name (codes "mask")
      then mask_line s rest
      else if eqb name (codes "flags") || eqb name (codes "flags:")
      then flags_line s rest
      else leave (failed (errorf "unrecognized field %q in %q" (name ∷ path ∷ [])))

  unfoldable pub dispatch : Fields → List Bytes → Line
  unfolding switch
  dispatch s [] = leave crashed
  dispatch s (name ∷ rest) = switch s name rest

-- The body of the loop.
unfoldable pub parse_line : Bytes → Fields → Bytes → Line
unfolding dispatch
parse_line path s text =
    if eqb (trim_space text) [] then next s else dispatch path text s (fields text)

abbrev pub with_mask : Bytes → Fields → Bytes → Option Bytes → Parsed
with_mask path s magic (some mask) = entry s.offset magic mask
with_mask path s magic none = failed (errorf "invalid mask %q in %q" (s.mask_string ∷ path ∷ []))

abbrev pub with_magic : Bytes → Fields → Option Bytes → Parsed
with_magic path s (some magic) = with_mask path s magic (decode_hex s.mask_string)
with_magic path s none = failed (errorf "invalid magic %q in %q" (s.magic_string ∷ path ∷ []))

-- What stands behind the loop.
unfoldable pub finish : Bytes → Fields → Parsed
finish path s =
    if eqb s.magic_string [] || eqb s.mask_string []
    then ignored
    else with_magic path s (decode_hex s.magic_string)

-- Goes on behind a line, or returns.
abbrev pub follow : Line → (Fields → Parsed) → Parsed
follow (next s) k = k s
follow (leave p) k = p

unfoldable pub parse_lines : Bytes → Fields → List Bytes → Parsed
unfolding parse_line finish
parse_lines path s [] = finish path s
parse_lines path s (text ∷ texts) =
    follow (parse_line path s text) (λ s'. parse_lines path s' texts)

abbrev pub no_fields : Fields
no_fields = record { offset = pos 0; magic_string = []; mask_string = [] }

-- `parseBinfmtMisc(path, r)`, where `r` yields `contents`.
unfoldable pub parse_binfmt_misc : Bytes → Bytes → Parsed
unfolding parse_lines scan_lines
parse_binfmt_misc path contents = parse_lines path no_fields (scan_lines contents)
