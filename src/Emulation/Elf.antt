-- ===== src/Emulation/Elf.antt =====
-- emulation/elf.go: the first bytes of the binaries of each known platform.
pub mod Table
pub mod Header
pub mod Shape
pub mod Known
use buildfarm.Base.{
  ℕ, ◌+◌, ◌/◌, ◌%◌, ◌^◌, List, [], ◌∷◌, ◌++◌, Bool, set, replicate, ◌==◌, if◌then◌else◌, Bytes,
  codes,
}
use buildfarm.Base.Map.{Map, insert}
use buildfarm.Base.Result.{Error, errorf, Result, ok, err}

-- The constants of Go's debug/elf.
abbrev pub osabi_none : ℕ
osabi_none = 0

abbrev pub osabi_linux : ℕ
osabi_linux = 3

abbrev pub class32 : ℕ
class32 = 1

abbrev pub class64 : ℕ
class64 = 2

abbrev pub data2lsb : ℕ
data2lsb = 1

abbrev pub data2msb : ℕ
data2msb = 2

pub record ElfPlatform : Type 0 where
  pub platform : Bytes
  pub osabi : List ℕ
  pub class : ℕ
  pub encoding : ℕ
  pub also_none : Bool
  pub machine : ℕ
  pub flags : List ℕ

-- `binary.ByteOrder`
pub data Endian : Type 0 where
  little big : Endian

-- `endian.PutUint16(b[o:], v)`
unfoldable pub put_uint16 : Endian → Bytes → ℕ → ℕ → Bytes
put_uint16 little b o v = set (set b o (v % 256)) (o + 1) (v / 256 % 256)
put_uint16 big b o v = set (set b o (v / 256 % 256)) (o + 1) (v % 256)

-- `endian.PutUint32(b[o:], v)`
unfoldable pub put_uint32 : Endian → Bytes → ℕ → ℕ → Bytes
unfolding put_uint16
put_uint32 little b o v =
    put_uint16 little (put_uint16 little b o (v % 65536)) (o + 2) (v / 65536 % 65536)
put_uint32 big b o v = put_uint16 big (put_uint16 big b o (v / 65536 % 65536)) (o + 2) (v % 65536)

-- `entrySize`, `phoffSize` and `shoffSize`, which are always alike.
unfoldable pub entry_size : ℕ → ℕ
entry_size class = if class == class32 then 2 else if class == class64 then 4 else 0

-- All that the inner loop writes before the flags.
unfoldable pub ident_header : ElfPlatform → Endian → ℕ → Bytes
unfolding put_uint32
ident_header e endian abi =
    let magic = 0x7f ∷ b'E' ∷ b'L' ∷ b'F' ∷ replicate 36 0 in
    let h1 = set (set magic 7 (abi % 256)) 4 (e.class % 256) in
    let h2 = set (set (set h1 5 (e.encoding % 256)) 6 1) 8 0 in
    let h3 = put_uint16 endian (put_uint16 endian h2 16 2) 18 (e.machine % 2 ^ 16) in
    put_uint32 endian h3 20 1

-- Where the flags go: `24+entrySize+phoffSize+shoffSize`.
unfoldable pub flags_offset : ℕ → ℕ
unfolding entry_size
flags_offset class = 24 + entry_size class + entry_size class + entry_size class

-- The body of the inner loop up to the first `append`.
unfoldable pub plain_header : ElfPlatform → Endian → ℕ → ℕ → Bytes
unfolding ident_header flags_offset put_uint32
plain_header e endian abi flag =
    put_uint32 endian (ident_header e endian abi) (flags_offset e.class) (flag % 2 ^ 32)

-- What `alsoNone` changes in it before the second `append`.
unfoldable pub none_header : Endian → Bytes → Bytes
unfolding put_uint32
none_header endian h = put_uint32 endian (set (set h 5 0) 6 0) 20 0

unfoldable pub headers_for : ElfPlatform → Endian → ℕ → ℕ → List Bytes
unfolding plain_header none_header
headers_for e endian abi flag =
    let h = plain_header e endian abi flag in
    if e.also_none then h ∷ none_header endian h ∷ [] else h ∷ []

unfoldable pub each_flag : ElfPlatform → Endian → ℕ → List ℕ → List Bytes
unfolding headers_for
each_flag e endian abi [] = []
each_flag e endian abi (f ∷ fs) = headers_for e endian abi f ++ each_flag e endian abi fs

unfoldable pub each_osabi : ElfPlatform → Endian → List ℕ → List ℕ → List Bytes
unfolding each_flag
each_osabi e endian flags [] = []
each_osabi e endian flags (abi ∷ rest) =
    each_flag e endian abi flags ++ each_osabi e endian flags rest

-- `if len(l) == 0 { l = []T{d} }`
unfoldable pub or_default : ℕ → List ℕ → List ℕ
or_default d [] = d ∷ []
or_default d (x ∷ xs) = x ∷ xs

abbrev pub internal_error : ElfPlatform → Error
internal_error e = errorf "internal error in entry for %q" (e.platform ∷ [])

-- The byte order is chosen in the inner loop, which runs at least once.
unfoldable pub header : ElfPlatform → Result (List Bytes)
unfolding each_osabi or_default
header e =
    let osabi = or_default osabi_none e.osabi in
    let flags = or_default 0 e.flags in
    if e.encoding == data2lsb
    then ok (each_osabi e little flags osabi)
    else if e.encoding == data2msb
    then ok (each_osabi e big flags osabi)
    else err (internal_error e)

add_platform : ElfPlatform → Result (List Bytes) → Map (List Bytes) → Map (List Bytes)
add_platform p (ok header_list) m = insert p.platform header_list m
add_platform p (err e) m = m

-- The loop of `getKnownELFPlatformHeaders` over a table of platforms.
unfoldable pub known_headers : List ElfPlatform → Map (List Bytes) → Map (List Bytes)
unfolding add_platform
known_headers [] m = m
known_headers (p ∷ ps) m = known_headers ps (add_platform p (header p) m)
