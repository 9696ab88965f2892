-- ===== src/Emulation/Elf/Shape.antt =====
-- What `header` returns: the shape and the number of the headers, and where the flags are.
use mathlib.Core.Path.{subst}
use buildfarm.Base.{
  ℕ, ◌%◌, ◌^◌, List, [], ◌∷◌, ◌++◌, Bool, true, false, ◌==◌, if◌then◌else◌, Bool-cases, ==_iff,
  Bytes, ◌≡◌, ◌≢◌, ◌↔◌, inl, inr, refl, sym, ap, ◌∙◌, arith,
}
use buildfarm.Base.Result.{ok, err}
use buildfarm.Emulation.Elf.{
  ElfPlatform, Endian, little, big, class32, data2lsb, data2msb, flags_offset, plain_header,
  headers_for, each_flag, each_osabi, or_default, header, internal_error,
}
use buildfarm.Emulation.Elf.Header.{uint32, IsHeaderOf, plain-IsHeaderOf, none-IsHeaderOf, byte_at}
use buildfarm.Emulation.Elf.Header.Fields.{
  flags_at, none_header-encoding, none_header-flags, plain_header-encoding, plain_header-flags,
}

abbrev pub Encodes : ElfPlatform → Endian → Type 0
Encodes e little = e.encoding ≡ data2lsb
Encodes e big = e.encoding ≡ data2msb

-- A header of a platform that reads back as its identification for an OS ABI, with a flag word, and
-- with the encoding or with none.
abbrev pub Carries : ElfPlatform → Endian → ℕ × ℕ × Bool → Bytes → Type 0
Carries e d (abi, flag, cleared) h =
    IsHeaderOf e d abi h
    × (uint32 d h (flags_at e.class) ≡ flag % 2 ^ 32)
    × (byte_at h 5 ≡ (if cleared then 0 else e.encoding % 256))

-- Headers, one for each OS ABI and flag word of a list, in its order.
pub data Carry (e : ElfPlatform) (d : Endian) : List (ℕ × ℕ × Bool) → List Bytes → Type 0 where
  stop : Carry e d [] []
  next :
      {p : ℕ × ℕ × Bool} {h : Bytes} {ps : List (ℕ × ℕ × Bool)} {hs : List Bytes}
      → Carries e d p h
      → Carry e d ps hs
      → Carry e d (p ∷ ps) (h ∷ hs)

-- What a platform asks for: a header, or with `alsoNone` two of them, for each OS ABI with each flag
-- word, where an empty list of either stands for 0.
pub some_zero : List ℕ → List ℕ
some_zero [] = 0 ∷ []
some_zero (x ∷ xs) = x ∷ xs

pub copies : Bool → ℕ → ℕ → List (ℕ × ℕ × Bool)
copies false abi flag = (abi, flag, false) ∷ []
copies true abi flag = (abi, flag, false) ∷ (abi, flag, true) ∷ []

pub for_flags : Bool → ℕ → List ℕ → List (ℕ × ℕ × Bool)
for_flags also_none abi [] = []
for_flags also_none abi (f ∷ fs) = copies also_none abi f ++ for_flags also_none abi fs

pub for_osabi : Bool → List ℕ → List ℕ → List (ℕ × ℕ × Bool)
for_osabi also_none flags [] = []
for_osabi also_none flags (abi ∷ rest) =
    for_flags also_none abi flags ++ for_osabi also_none flags rest

abbrev pub asked_headers : ElfPlatform → List (ℕ × ℕ × Bool)
asked_headers e = for_osabi e.also_none (some_zero e.flags) (some_zero e.osabi)

or_default-some_zero : (l : List ℕ) → or_default 0 l ≡ some_zero l
unfolding or_default some_zero
or_default-some_zero [] = refl
or_default-some_zero (x ∷ xs) = refl

-- The headers of a platform, loop by loop.
module _ (e : ElfPlatform) (d : Endian) where
  Carry-append :
      {ps qs : List (ℕ × ℕ × Bool)} {hs gs : List Bytes}
      → Carry e d ps hs
      → Carry e d qs gs
      → Carry e d (ps ++ qs) (hs ++ gs)
  Carry-append Carry.stop r = r
  Carry-append (Carry.next c cs) r = Carry.next c (Carry-append cs r)

  headers_for-Carry :
      (abi flag : ℕ) → Carry e d (copies e.also_none abi flag) (headers_for e d abi flag)
  unfolding headers_for copies
  headers_for-Carry abi flag =
      let h = plain-IsHeaderOf e d abi flag in
      let w = plain_header-flags e d abi flag in
      let p = plain_header-encoding e d abi flag in
      elim (Bool-cases e.also_none) [
        | inl n ↦ simp n (
            Carry.next (h, w, p)
              (Carry.next
                (
                  none-IsHeaderOf e d abi (plain_header e d abi flag) n h,
                  none_header-flags d e.class (plain_header e d abi flag) ∙ w,
                  none_header-encoding d (plain_header e d abi flag),
                )
                Carry.stop))
        | inr n ↦ simp n (Carry.next (h, w, p) Carry.stop)
      ]

  each_flag-Carry :
      (abi : ℕ) (flags : List ℕ)
      → Carry e d (for_flags e.also_none abi flags) (each_flag e d abi flags)
  unfolding each_flag for_flags
  each_flag-Carry abi [] = Carry.stop
  each_flag-Carry abi (f ∷ fs) = Carry-append (headers_for-Carry abi f) (each_flag-Carry abi fs)

  each_osabi-Carry :
      (flags osabi : List ℕ)
      → Carry e d (for_osabi e.also_none flags osabi) (each_osabi e d flags osabi)
  unfolding each_osabi for_osabi
  each_osabi-Carry flags [] = Carry.stop
  each_osabi-Carry flags (abi ∷ rest) =
      Carry-append (each_flag-Carry abi flags) (each_osabi-Carry flags rest)

-- `header` returns, in the byte order of the platform, one header, or with `alsoNone` two, for each of
-- its OS ABIs with each of its flag words, in this order. Each has 40 bytes and reads back as the
-- class, the machine and the OS ABI; the flag word stands at byte 30, 36 or 24 for 32-bit, 64-bit and
-- other classes; the encoding is that of the platform, but none in the second header of a pair.
pub header-IsHeaderOf :
    (e : ElfPlatform) (hs : List Bytes)
    → header e ≡ ok hs
    → (d : Endian) × Encodes e d × Carry e d (asked_headers e) hs
unfolding header
header-IsHeaderOf e hs h = elim (Bool-cases (e.encoding == data2lsb)) [
  | inl p ↦ found little ((==_iff e.encoding data2lsb).0 p) (ground arith)
  | inr p ↦ elim (Bool-cases (e.encoding == data2msb)) [
    | inl q ↦ found big ((==_iff e.encoding data2msb).0 q) (ground arith)
    | inr q ↦ ground arith
  ]
]
  where
    found :
        (d : Endian)
        → Encodes e d
        → each_osabi e d (or_default 0 e.flags) (or_default 0 e.osabi) ≡ hs
        → (d : Endian) × Encodes e d × Carry e d (asked_headers e) hs
    found d c p = (
      d,
      c,
      subst (Carry e d (asked_headers e))
          (sym (ap (λ l. each_osabi e d l (some_zero e.osabi)) (or_default-some_zero e.flags))
            ∙ sym (ap (each_osabi e d (or_default 0 e.flags)) (or_default-some_zero e.osabi))
            ∙ p)
          (each_osabi-Carry e d (some_zero e.flags) (some_zero e.osabi)),
    )

-- `header` fails exactly for an encoding that is neither byte order.
pub header-err_iff :
    (e : ElfPlatform)
    → (header e ≡ err (internal_error e)) ↔ ((e.encoding ≢ data2lsb) × (e.encoding ≢ data2msb))
unfolding header
header-err_iff e = ground arith

-- With `ELFCLASS32` the flags are written at byte 30, and the four bytes at 36, where the ELF
-- format has the flags of a 32-bit file, stay 0 whatever the flags are.
pub plain_header-flags32 :
    (e : ElfPlatform) (d : Endian) (abi flag : ℕ)
    → e.class ≡ class32
    → (uint32 d (plain_header e d abi flag) 30 ≡ flag % 2 ^ 32)
      × (uint32 d (plain_header e d abi flag) 36 ≡ 0)
unfolding plain_header
plain_header-flags32 e little abi flag c = rw (c, flags_offset) (omega arith)
plain_header-flags32 e big abi flag c = rw (c, flags_offset) (omega arith)
