-- ===== src/Emulation/Tests.antt =====
-- Runs of emulation/, the vectors of emulation/binfmtmisc_linux_test.go among them, and the
-- theorems at concrete inputs.
use buildfarm.Base.{
  List, [], ◌∷◌, Bool, true, false, ◌||◌, none, some, Bytes, codes, String, ◌≡◌, refl, ◌++◌, eqb,
}
use buildfarm.Base.Map.{lookup, insert}
use buildfarm.Emulation.Magic.{magic_match}
use buildfarm.Emulation.Elf.{header, known_headers}
use buildfarm.Emulation.Elf.Table.{known_elf_platforms}
use buildfarm.Emulation.GoText.{pos, trim_space, fields, contains_byte, decode_hex, parse_int8}
use buildfarm.Emulation.Binfmt.{Parsed, entry, parse_binfmt_misc}

abbrev vector : String → String → Bytes
vector magic mask =
    codes
      "\n\t\tenabled\n\t\tinterpreter /usr/bin/qemu-static\n\t\tflags: F\n\t\toffset 0\n\t\tmagic "
    ++ codes magic
    ++ codes "\n\t\tmask  "
    ++ codes mask
    ++ codes "\n\t\t"

abbrev any_match : List Bytes → Parsed → Bool
any_match [] p = false
any_match (h ∷ hs) (entry (pos o) magic mask) =
    magic_match h o mask magic || any_match hs (entry (pos o) magic mask)
any_match (h ∷ hs) _ = false

abbrev matches_known : String → Bytes → Bool
matches_known name contents = elim (lookup (codes name) (known_headers known_elf_platforms [])) [
  | none ↦ false
  | some hs ↦ any_match hs (parse_binfmt_misc (codes "vector") contents)
]

vector_386 :
    matches_known "linux/386"
      (vector "7f454c4601010100000000000000000002000300" "fffffffffffefe00fffffffffffffffffeffffff")
    ≡ true
unfolding known_headers header lookup insert parse_binfmt_misc magic_match trim_space fields
    contains_byte decode_hex parse_int8 eqb
vector_386 = refl

vector_s390x :
    matches_known "linux/s390x"
      (vector "7f454c4602020100000000000000000000020016" "ffffffffffffff00fffffffffffffffffffeffff")
    ≡ true
unfolding known_headers header lookup insert parse_binfmt_misc magic_match trim_space fields
    contains_byte decode_hex parse_int8 eqb
vector_s390x = refl
