-- ===== src/Emulation/Examples.antt =====
-- The theorems on emulation/ at concrete inputs.
use buildfarm.Base.{
  ◌<◌, ◌%◌, ◌^◌, List, [], ◌∷◌, true, All, length, Bytes, codes, ◌≡◌, ◌≢◌, ◌↔◌, refl, arith,
}
use buildfarm.Base.Result.{ok, err}
use buildfarm.Emulation.Magic.{magic_match, masked}
use buildfarm.Emulation.Magic.Match.{Agrees, magic_match_iff, magic_match-no_mask}
use buildfarm.Emulation.Elf.{
  ElfPlatform, Endian, little, class32, data2lsb, data2msb, plain_header, header, internal_error,
}
use buildfarm.Emulation.Elf.Header.{uint32}
use buildfarm.Emulation.Elf.Shape.{
  Encodes, Carry, asked_headers, header-IsHeaderOf, header-err_iff, plain_header-flags32,
}
use buildfarm.Emulation.GoText.{pos, scan_lines, is_space, contains_byte, max_scan_token_size}
use buildfarm.Emulation.GoText.Hex.{show_small, encode_hex}
use buildfarm.Emulation.GoText.Lines.{IsUnbroken}
use buildfarm.Emulation.Binfmt.{entry, crashed, parse_binfmt_misc, no_fields, Fields}
use buildfarm.Emulation.Binfmt.Accepts.{ReadsAll}
use buildfarm.Emulation.Binfmt.Entries.{IsEntry, parse-entry_iff}
use buildfarm.Emulation.Binfmt.Exits.{parse-ne-crashed}
use buildfarm.Emulation.Binfmt.RoundTrip.{
  Registration, IsReadable, entry_lines, entry_file, without_flags, parse-entry_file,
}

-- A header that has the magic 2 3 at offset 1, and a mask.
abbrev three : Bytes
three = 1 ∷ 2 ∷ 3 ∷ []

abbrev all_ones : Bytes
all_ones = 255 ∷ 255 ∷ []

magic_match_iff_example :
    (magic_match three 1 all_ones (2 ∷ 3 ∷ []) ≡ true) ↔ Agrees three 1 all_ones (2 ∷ 3 ∷ []) 0
magic_match_iff_example = magic_match_iff three 1 all_ones 2 (3 ∷ [])

abbrev two : Bytes
two = 2 ∷ 3 ∷ []

magic_match-no_mask_example :
    magic_match three 1 all_ones (2 ∷ 3 ∷ []) ≡ magic_match three 1 [] (2 ∷ 3 ∷ [])
magic_match-no_mask_example =
    magic_match-no_mask three 1 all_ones 2 (3 ∷ []) (unfold masked in (refl, (refl, tt)))

-- A platform with a flag word and with `alsoNone`.
abbrev arm : ElfPlatform
arm = record {
  platform = codes "linux/arm";
  osabi = 0 ∷ [];
  class = class32;
  encoding = data2lsb;
  machine = 40;
  flags = 83886080 ∷ [];
  also_none = true;
}

abbrev strange : ElfPlatform
strange = record arm { encoding = 7 }

abbrev arm_headers : List Bytes
arm_headers = elim (header arm) [ ok hs ↦ hs | err e ↦ [] ]

header-IsHeaderOf_example :
    (d : Endian) × Encodes arm d × Carry arm d (asked_headers arm) arm_headers
header-IsHeaderOf_example = header-IsHeaderOf arm arm_headers (unfold header in refl)

header-err_iff_example :
    (header strange ≡ err (internal_error strange))
    ↔ ((strange.encoding ≢ data2lsb) × (strange.encoding ≢ data2msb))
header-err_iff_example = header-err_iff strange

plain_header-flags32_example :
    (uint32 little (plain_header arm little 0 83886080) 30 ≡ 83886080 % 2 ^ 32)
    × (uint32 little (plain_header arm little 0 83886080) 36 ≡ 0)
plain_header-flags32_example = plain_header-flags32 arm little 0 83886080 refl

-- An entry of the registry.
abbrev qemu : Registration
qemu = record {
  interpreter = codes "/usr/bin/qemu-arm";
  flags = codes "F";
  offset = 0;
  magic = 127 ∷ 69 ∷ [];
  mask = 255 ∷ 255 ∷ [];
}

abbrev pub some_path : Bytes
some_path = codes "/proc/sys/fs/binfmt_misc/qemu-arm"

parse-entry_iff_example :
    (parse_binfmt_misc some_path (entry_file qemu) ≡ entry (pos 0) (127 ∷ 69 ∷ []) (255 ∷ 255 ∷ []))
    ↔ ((s : Fields) × ReadsAll no_fields (scan_lines (entry_file qemu)) s
        × IsEntry s (pos 0) (127 ∷ 69 ∷ []) (255 ∷ 255 ∷ []))
parse-entry_iff_example =
    parse-entry_iff some_path (entry_file qemu) (pos 0) (127 ∷ 69 ∷ []) (255 ∷ 255 ∷ [])

parse-ne-crashed_example : parse_binfmt_misc some_path (codes "offset") ≢ crashed
parse-ne-crashed_example = parse-ne-crashed some_path (codes "offset")

qemu-IsReadable : IsReadable qemu
unfolding is_space contains_byte show_small encode_hex
qemu-IsReadable = record {
  interpreter = omega arith;
  flags = (refl, tt);
  flag_f = refl;
  offset = omega arith;
  magic = omega arith;
  magic_ne_nil = λ e. cc;
  mask = omega arith;
  mask_ne_nil = λ e. cc;
  short = omega arith;
}

parse-entry_file_example :
    parse_binfmt_misc some_path (entry_file qemu) ≡ entry (pos 0) (127 ∷ 69 ∷ []) (255 ∷ 255 ∷ [])
parse-entry_file_example = parse-entry_file qemu qemu-IsReadable some_path

unflagged :
    All (λ l. IsUnbroken l × (length l < max_scan_token_size)) (entry_lines (without_flags qemu))
unfolding show_small encode_hex
unflagged = omega arith
