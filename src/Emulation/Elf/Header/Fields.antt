-- ===== src/Emulation/Elf/Header/Fields.antt =====
-- Where the flags and the encoding stand in the headers of emulation/elf.go.
use buildfarm.Base.{
  Bool-cases, ℕ, ◌+◌, ◌%◌, ◌^◌, ◌≤◌, ◌<◌, ◌∙◌, ◌==◌, if◌then◌else◌, Bytes, ◌≡◌, ◌⊎◌, inl, inr, refl,
  arith, set,
}
use buildfarm.Emulation.Elf.{
  ElfPlatform, Endian, little, big, ident_header, flags_offset, plain_header, none_header,
  put_uint16, put_uint32,
}
use buildfarm.Emulation.Elf.Header.{
  byte_at, uint16, uint32, byte_at-put_uint32, uint16_cong, uint32_cong, le-flags_offset,
  byte_at-set_zero,
}

-- Where the flags stand in a header.
abbrev pub flags_at : ℕ → ℕ
flags_at class = if class == 1 then 30 else if class == 2 then 36 else 24

flags_offset-flags_at : (class : ℕ) → flags_offset class ≡ flags_at class
unfolding flags_offset
flags_offset-flags_at class = ground arith

uint32-put_uint32 :
    (e : ElfPlatform) (endian : Endian) (abi o v : ℕ)
    → (o ≡ 24) ⊎ (o ≡ 30) ⊎ (o ≡ 36)
    → uint32 endian (put_uint32 endian (ident_header e endian abi) o (v % 2 ^ 32)) o ≡ v % 2 ^ 32
unfolding put_uint32 ident_header
uint32-put_uint32 e little abi o v (inl q) = rw q (omega arith)
uint32-put_uint32 e big abi o v (inl q) = rw q (omega arith)
uint32-put_uint32 e little abi o v (inr (inl q)) = rw q (omega arith)
uint32-put_uint32 e big abi o v (inr (inl q)) = rw q (omega arith)
uint32-put_uint32 e little abi o v (inr (inr q)) = rw q (omega arith)
uint32-put_uint32 e big abi o v (inr (inr q)) = rw q (omega arith)

flags_at-cases : (class : ℕ) → (flags_at class ≡ 24) ⊎ (flags_at class ≡ 30) ⊎ (flags_at class ≡ 36)
flags_at-cases class = elim (Bool-cases (class == 1)) [
  | inl p ↦ inr (inl (rw p refl))
  | inr p ↦ elim (Bool-cases (class == 2)) [
    | inl q ↦ inr (inr (rw (p, q) refl))
    | inr q ↦ inl (rw (p, q) refl)
  ]
]

pub plain_header-flags :
    (e : ElfPlatform) (endian : Endian) (abi flag : ℕ)
    → uint32 endian (plain_header e endian abi flag) (flags_at e.class) ≡ flag % 2 ^ 32
unfolding plain_header
plain_header-flags e endian abi flag =
    rw (flags_offset-flags_at e.class)
      (uint32-put_uint32 e endian abi (flags_at e.class) flag (flags_at-cases e.class))

byte_at-set_gt : (h : Bytes) (i j : ℕ) → i < j → byte_at (set h i 0) j ≡ byte_at h j
byte_at-set_gt h i j p = byte_at-set_zero h i j ∙ ground arith

byte_at-none_header :
    (endian : Endian) (h : Bytes) (j : ℕ) → 24 ≤ j → byte_at (none_header endian h) j ≡ byte_at h j
unfolding none_header put_uint32 put_uint16
byte_at-none_header endian h j p = in_order endian
  where
    cleared :
        byte_at (set (set (set (set (set (set h 5 0) 6 0) 20 0) 21 0) 22 0) 23 0) j ≡ byte_at h j
    cleared =
        byte_at-set_gt _ 23 j (omega arith)
        ∙ byte_at-set_gt _ 22 j (omega arith)
        ∙ byte_at-set_gt _ 21 j (omega arith)
        ∙ byte_at-set_gt _ 20 j (omega arith)
        ∙ byte_at-set_gt _ 6 j (omega arith)
        ∙ byte_at-set_gt h 5 j (omega arith)

    in_order : (d : Endian) → byte_at (none_header d h) j ≡ byte_at h j
    in_order little = cleared
    in_order big = cleared

none_header-uint32 :
    (endian : Endian) (o : ℕ) (h : Bytes)
    → 24 ≤ o
    → uint32 endian (none_header endian h) o ≡ uint32 endian h o
none_header-uint32 endian o h k =
    uint32_cong endian (none_header endian h) h o (pair o k) (pair (o + 2) (omega arith))
  where
    pair : (i : ℕ) → 24 ≤ i → uint16 endian (none_header endian h) i ≡ uint16 endian h i
    pair i m =
        uint16_cong endian (none_header endian h) h i (byte_at-none_header endian h i m)
          (byte_at-none_header endian h (i + 1) (omega arith))

pub none_header-flags :
    (endian : Endian) (class : ℕ) (h : Bytes)
    → uint32 endian (none_header endian h) (flags_at class) ≡ uint32 endian h (flags_at class)
none_header-flags endian class h =
    none_header-uint32 endian (flags_at class) h (ground (arith, flags_at-cases class))

pub plain_header-encoding :
    (e : ElfPlatform) (endian : Endian) (abi flag : ℕ)
    → byte_at (plain_header e endian abi flag) 5 ≡ e.encoding % 256
unfolding plain_header ident_header
plain_header-encoding e endian abi flag =
    let o = flags_offset e.class in
    byte_at-put_uint32 (ident_header e endian abi) o (flag % 2 ^ 32) endian 5
      (omega (arith, le-flags_offset e.class))
    ∙ ident_header-encoding endian
  where
    ident_header-encoding : (d : Endian) → byte_at (ident_header e d abi) 5 ≡ e.encoding % 256
    ident_header-encoding little = refl
    ident_header-encoding big = refl

pub none_header-encoding : (endian : Endian) (h : Bytes) → byte_at (none_header endian h) 5 ≡ 0
unfolding none_header put_uint32 put_uint16
none_header-encoding little h = simp byte_at-set_zero
none_header-encoding big h = simp byte_at-set_zero
