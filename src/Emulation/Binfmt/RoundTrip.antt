-- ===== src/Emulation/Binfmt/RoundTrip.antt =====
-- The entries of the kernel, printed and read back.
use buildfarm.Base.{
  ℕ, ◌/◌, ◌%◌, ltb, if-elim, ◌≤◌, ◌<◌, List, [], ◌∷◌, ◌++◌, Bool, true, false, not, ◌&&◌, All,
  All-append, All-both, Bytes, codes, eqb, ◌≡◌, ◌≢◌, refl, arith, inr, length, ap, ◌∙◌,
}
use buildfarm.Emulation.GoText.{
  trim_space, pos, is_space, fields, contains_byte, max_scan_token_size,
}
use buildfarm.Emulation.GoText.Fields.{IsWord, fields-word, fields_last}
use buildfarm.Emulation.GoText.Hex.{
  encode_hex, decode_hex-encode_hex, show_small, parse_int8-show_small, hex_char,
}
use buildfarm.Emulation.GoText.Lines.{IsUnbroken, unlines, scan_lines-unlines}
use buildfarm.Emulation.Binfmt.{
  Fields, Parsed, entry, failed, parse_binfmt_misc, parse_lines, parse_line, next, leave, no_fields,
}
use buildfarm.Emulation.Binfmt.Accepts.{
  enabled, interpreter, offset, magic, mask, flags, ReadsAll, done, line,
}
use buildfarm.Emulation.Binfmt.Entries.{parse-entry_iff, parse_line-Reads}
use buildfarm.Base.Result.{errorf}

-- An enabled entry of the registry with a magic and a mask.
pub record Registration : Type 0 where
  pub interpreter : Bytes
  pub flags : Bytes
  pub offset : ℕ
  pub magic : Bytes
  pub mask : Bytes

abbrev pub entry_lines : Registration → List Bytes
entry_lines r =
    codes "enabled"
    ∷ (codes "interpreter " ++ r.interpreter)
    ∷ (codes "flags: " ++ r.flags)
    ∷ (codes "offset " ++ show_small r.offset)
    ∷ (codes "magic " ++ encode_hex r.magic)
    ∷ (codes "mask " ++ encode_hex r.mask)
    ∷ []

-- The file of an entry under /proc/sys/fs/binfmt_misc.
abbrev pub entry_file : Registration → Bytes
entry_file r = unlines (entry_lines r)

-- What the file needs to be read back: the flag F, an offset of 8 bits, a magic and a mask of
-- bytes, texts without white space or line ends, and no line that fills the scanner's buffer.
pub record IsReadable (r : Registration) : Type 0 where
  pub interpreter : IsUnbroken r.interpreter
  pub flags : IsWord r.flags
  pub flag_f : contains_byte r.flags b'F' ≡ true
  pub offset : r.offset ≤ 127
  pub magic : All (λ b. b < 256) r.magic
  pub magic_ne_nil : r.magic ≢ []
  pub mask : All (λ b. b < 256) r.mask
  pub mask_ne_nil : r.mask ≢ []
  pub short : All (λ l. length l < max_scan_token_size) (entry_lines r)

fields_pair :
    (c : ℕ) (w v : Bytes)
    → IsWord (c ∷ w)
    → IsWord v
    → v ≢ []
    → fields ((c ∷ w) ++ b' ' ∷ v) ≡ (c ∷ w) ∷ v ∷ []
fields_pair c w [] h k n = absurd (n refl)
fields_pair c w (d ∷ v) h k n = fields-word c w (d ∷ v) h ∙ ap (◌∷◌ (c ∷ w)) (fields_last d v k)

-- A word breaks no line.
IsWord-IsUnbroken : (w : Bytes) → IsWord w → IsUnbroken w
unfolding is_space
IsWord-IsUnbroken [] h = tt
IsWord-IsUnbroken (c ∷ w) h = ((λ e. ground arith, λ e. ground arith), IsWord-IsUnbroken w h.1)

hex_char-IsWord : (d : ℕ) → d < 16 → is_space (hex_char d) ≡ false
unfolding is_space
hex_char-IsWord d h = ground arith

encode_hex-IsWord : (bs : Bytes) → All (λ b. b < 256) bs → IsWord (encode_hex bs)
unfolding encode_hex
encode_hex-IsWord [] h = tt
encode_hex-IsWord (b ∷ bs) h = (
  hex_char-IsWord (b / 16) (omega arith),
  (hex_char-IsWord (b % 16) (omega arith), encode_hex-IsWord bs h.1),
)

digit-IsWord : (c : ℕ) → 48 ≤ c → is_space c ≡ false
unfolding is_space
digit-IsWord c h = ground arith

show_small-IsWord : (n : ℕ) → IsWord (show_small n)
unfolding show_small
show_small-IsWord n =
    if-elim IsWord (ltb n 10) (λ _. (digit-IsWord _ (omega arith), tt))
      λ _.
        if-elim IsWord (ltb n 100)
          (λ _. (digit-IsWord _ (omega arith), (digit-IsWord _ (omega arith), tt)))
          (λ _. (
            digit-IsWord _ (omega arith),
            (digit-IsWord _ (omega arith), (digit-IsWord _ (omega arith), tt)),
          ))

show_small-ne-nil : (n : ℕ) → show_small n ≢ []
unfolding show_small
show_small-ne-nil n = ground arith

encode_hex-ne-nil : (bs : Bytes) → bs ≢ [] → encode_hex bs ≢ []
unfolding encode_hex
encode_hex-ne-nil [] h = absurd (h refl)
encode_hex-ne-nil (b ∷ bs) h = λ e. cc

flags-ne-nil : (f : Bytes) → contains_byte f b'F' ≡ true → f ≢ []
unfolding contains_byte
flags-ne-nil [] h = cc
flags-ne-nil (c ∷ f) h = λ e. cc

abbrev is_word : Bytes → Bool
is_word [] = true
is_word (c ∷ w) = not (is_space c) && is_word w

is_word-IsWord : (w : Bytes) → is_word w ≡ true → IsWord w
is_word-IsWord [] h = tt
is_word-IsWord (c ∷ w) h = (ground arith, is_word-IsWord w (ground arith))

module _ (r : Registration) (h : IsReadable r) where
  abbrev read_values : Fields
  read_values = record {
    offset = pos r.offset;
    magic_string = encode_hex r.magic;
    mask_string = encode_hex r.mask;
  }

  entry_lines-ReadsAll : ReadsAll no_fields (entry_lines r) read_values
  unfolding is_space
  entry_lines-ReadsAll =
      line (enabled [] (fields_last _ _ (is_word-IsWord (codes "enabled") refl))) (
        line
          (interpreter (fields r.interpreter)
            (fields-word _ _ _ (is_word-IsWord (codes "interpreter") refl)))
          (line
            (flags (codes "flags:") r.flags (inr refl)
              (fields_pair _ _ _ (is_word-IsWord (codes "flags:") refl) h.flags
                (flags-ne-nil r.flags h.flag_f))
              h.flag_f)
            (line
              (offset (show_small r.offset) (pos r.offset)
                (fields_pair _ _ _ (is_word-IsWord (codes "offset") refl)
                  (show_small-IsWord r.offset) (show_small-ne-nil r.offset))
                (parse_int8-show_small r.offset h.offset))
              (line
                (magic (encode_hex r.magic) (
                  fields_pair _ _ _ (is_word-IsWord (codes "magic") refl)
                    (encode_hex-IsWord r.magic h.magic) (encode_hex-ne-nil r.magic h.magic_ne_nil)))
                (line
                  (mask (encode_hex r.mask) (
                    fields_pair _ _ _ (is_word-IsWord (codes "mask") refl)
                      (encode_hex-IsWord r.mask h.mask) (encode_hex-ne-nil r.mask h.mask_ne_nil)))
                  done)))))

  prefixed : (name value : Bytes) → IsUnbroken name → IsWord value → IsUnbroken (name ++ value)
  prefixed name value n v = All-append _ name value n (IsWord-IsUnbroken value v)

  entry_lines-IsUnbroken : All IsUnbroken (entry_lines r)
  entry_lines-IsUnbroken =
      let i = All-append _ (codes "interpreter ") r.interpreter (omega arith) h.interpreter in
      let f = prefixed (codes "flags: ") r.flags (omega arith) h.flags in
      let o = prefixed (codes "offset ") _ (omega arith) (show_small-IsWord r.offset) in
      let m = prefixed (codes "magic ") _ (omega arith) (encode_hex-IsWord r.magic h.magic) in
      let k = prefixed (codes "mask ") _ (omega arith) (encode_hex-IsWord r.mask h.mask) in
      (omega arith, (i, (f, (o, (m, (k, tt))))))

  -- Reading back the file of a readable entry gives the entry's offset, magic and mask.
  pub parse-entry_file :
      (path : Bytes) → parse_binfmt_misc path (entry_file r) ≡ entry (pos r.offset) r.magic r.mask
  parse-entry_file path =
      let read = scan_lines-unlines (entry_lines r) (
        All-both IsUnbroken (λ l. length l < max_scan_token_size) (entry_lines r)
          entry_lines-IsUnbroken h.short) in
      (parse-entry_iff path (entry_file r) (pos r.offset) r.magic r.mask).1 (
        read_values,
        rw read entry_lines-ReadsAll,
        record {
          offset = refl;
          magic = decode_hex-encode_hex r.magic h.magic;
          mask = decode_hex-encode_hex r.mask h.mask;
          magic_ne_nil = encode_hex-ne-nil r.magic h.magic_ne_nil;
          mask_ne_nil = encode_hex-ne-nil r.mask h.mask_ne_nil;
        },
      )

abbrev pub without_flags : Registration → Registration
without_flags r = record r { flags = [] }

abbrev no_value : Bytes → Parsed
no_value path = failed (errorf "invalid format for %q in %q" (codes "flags: " ∷ path ∷ []))

module _ (path : Bytes) where
  first_line : parse_line path no_fields (codes "enabled") ≡ next no_fields
  unfolding parse_line trim_space fields eqb
  first_line = refl

  second_line : (i : Bytes) → parse_line path no_fields (codes "interpreter " ++ i) ≡ next no_fields
  second_line i =
      let name = is_word-IsWord (codes "interpreter") (unfold is_space in refl) in
      parse_line-Reads path (codes "interpreter " ++ i) no_fields no_fields
        (interpreter (fields i) (fields-word _ _ i name))

  third_line : parse_line path no_fields (codes "flags: ") ≡ leave (no_value path)
  unfolding parse_line trim_space fields eqb
  third_line = refl

-- An entry that the kernel prints with no flag at all is an error, where one with flags but
-- without F is passed over.
pub parse-without_flags :
    (path : Bytes) (r : Registration)
    → All (λ l. IsUnbroken l × (length l < max_scan_token_size)) (entry_lines (without_flags r))
    → parse_binfmt_misc path (entry_file (without_flags r))
      ≡ failed (errorf "invalid format for %q in %q" (codes "flags: " ∷ path ∷ []))
unfolding parse_binfmt_misc parse_lines
parse-without_flags path r h =
    ap (parse_lines path no_fields) (scan_lines-unlines (entry_lines (without_flags r)) h)
    ∙ rw (first_line path) (rw second_line (rw third_line refl))
