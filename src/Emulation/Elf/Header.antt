-- ===== src/Emulation/Elf/Header.antt =====
-- Every header that `header` generates can be read back.
pub mod Fields
use buildfarm.Base.{
  Bool-cases, ℕ, zero, suc, ◌+◌, ◌*◌, ◌%◌, ◌^◌, ◌≤◌, ◌<◌, ◌∙◌, length-set, [], ◌∷◌, true, none,
  some, ◌==◌, if◌then◌else◌, length, get_elem?, Bytes, ◌≡◌, ◌⊎◌, inl, inr, refl, arith, set,
}
use buildfarm.Emulation.Elf.{
  ElfPlatform, Endian, little, big, ident_header, flags_offset, plain_header, none_header,
  put_uint16, put_uint32,
}

abbrev pub byte_at : Bytes → ℕ → ℕ
byte_at h i = elim (get_elem? h i) [ none ↦ 0 | some b ↦ b ]

-- `endian.Uint16(b[o:])`
abbrev pub uint16 : Endian → Bytes → ℕ → ℕ
uint16 little h o = byte_at h o + 256 * byte_at h (o + 1)
uint16 big h o = byte_at h (o + 1) + 256 * byte_at h o

-- `endian.Uint32(b[o:])`
abbrev pub uint32 : Endian → Bytes → ℕ → ℕ
uint32 little h o = uint16 little h o + 65536 * uint16 little h (o + 2)
uint32 big h o = uint16 big h (o + 2) + 65536 * uint16 big h o

-- What a reader of an ELF identification finds in a header of `e` for an OS ABI. The encoding and the version
-- may be cleared where `alsoNone` says so.
pub record IsHeaderOf (e : ElfPlatform) (endian : Endian) (abi : ℕ) (h : Bytes) : Type 0 where
  pub size : length h ≡ 40
  pub ident :
      (byte_at h 0 ≡ 0x7f) × (byte_at h 1 ≡ b'E') × (byte_at h 2 ≡ b'L') × (byte_at h 3 ≡ b'F')
  pub class : byte_at h 4 ≡ e.class % 256
  pub osabi : byte_at h 7 ≡ abi % 256
  pub encoding :
      ((byte_at h 5 ≡ e.encoding % 256) × (byte_at h 6 ≡ 1) × (uint32 endian h 20 ≡ 1))
      ⊎ ((e.also_none ≡ true) × (byte_at h 5 ≡ 0) × (byte_at h 6 ≡ 0) × (uint32 endian h 20 ≡ 0))
  pub kind : uint16 endian h 16 ≡ 2
  pub machine : uint16 endian h 18 ≡ e.machine % 2 ^ 16

byte_at-set_lt : (h : Bytes) (i j v : ℕ) → j < i → byte_at (set h i v) j ≡ byte_at h j
byte_at-set_lt [] i j v p = refl
byte_at-set_lt (x ∷ h) zero j v p = elim p [ ]
byte_at-set_lt (x ∷ h) (suc i) zero v p = refl
byte_at-set_lt (x ∷ h) (suc i) (suc j) v p = byte_at-set_lt h i j v (omega arith)

-- A 32-bit write changes no byte in front of it and no length.
module _ (h : Bytes) (o v : ℕ) where
  length-put_uint32 : (endian : Endian) → length (put_uint32 endian h o v) ≡ length h
  unfolding put_uint32
  length-put_uint32 little = simp length-set
  length-put_uint32 big = simp length-set

  pub byte_at-put_uint32 :
      (endian : Endian) (j : ℕ) → j < o → byte_at (put_uint32 endian h o v) j ≡ byte_at h j
  unfolding put_uint32 put_uint16
  byte_at-put_uint32 little j p =
      byte_at-set_lt _ (o + 2 + 1) j _ (omega arith)
      ∙ byte_at-set_lt _ (o + 2) j _ (omega arith)
      ∙ byte_at-set_lt _ (o + 1) j _ (omega arith)
      ∙ byte_at-set_lt _ o j _ p
  byte_at-put_uint32 big j p =
      byte_at-set_lt _ (o + 2 + 1) j _ (omega arith)
      ∙ byte_at-set_lt _ (o + 2) j _ (omega arith)
      ∙ byte_at-set_lt _ (o + 1) j _ (omega arith)
      ∙ byte_at-set_lt _ o j _ p

ident-IsHeaderOf :
    (e : ElfPlatform) (endian : Endian) (abi : ℕ)
    → IsHeaderOf e endian abi (ident_header e endian abi)
unfolding ident_header
ident-IsHeaderOf e little abi = record {
  size = refl;
  ident = (refl, refl, refl, refl);
  class = refl;
  osabi = refl;
  encoding = inl (refl, refl, refl);
  kind = refl;
  machine = omega arith;
}
ident-IsHeaderOf e big abi = record {
  size = refl;
  ident = (refl, refl, refl, refl);
  class = refl;
  osabi = refl;
  encoding = inl (refl, refl, refl);
  kind = refl;
  machine = omega arith;
}

module _ (endian : Endian) (g h : Bytes) (o : ℕ) where
  pub uint16_cong :
      byte_at g o ≡ byte_at h o
      → byte_at g (o + 1) ≡ byte_at h (o + 1)
      → uint16 endian g o ≡ uint16 endian h o
  uint16_cong p q = cases endian
    where
      cases : (d : Endian) → uint16 d g o ≡ uint16 d h o
      cases little = cc
      cases big = cc

  pub uint32_cong :
      uint16 endian g o ≡ uint16 endian h o
      → uint16 endian g (o + 2) ≡ uint16 endian h (o + 2)
      → uint32 endian g o ≡ uint32 endian h o
  uint32_cong p q = ground arith

-- The bytes from 24 on are none of what is read back.
IsHeaderOf-prefix :
    (e : ElfPlatform) (endian : Endian) (abi : ℕ) (g h : Bytes)
    → length g ≡ length h
    → ((j : ℕ) → j < 24 → byte_at g j ≡ byte_at h j)
    → IsHeaderOf e endian abi h
    → IsHeaderOf e endian abi g
IsHeaderOf-prefix e endian abi g h n same r = record {
  size = n ∙ r.size;
  ident = (
    same 0 (omega arith) ∙ r.ident.0,
    same 1 (omega arith) ∙ r.ident.1,
    same 2 (omega arith) ∙ r.ident.2,
    same 3 (omega arith) ∙ r.ident.3,
  );
  class = same 4 (omega arith) ∙ r.class;
  osabi = same 7 (omega arith) ∙ r.osabi;
  encoding = elim r.encoding [
    | inl (a, b, c) ↦ inl (same 5 (omega arith) ∙ a, same 6 (omega arith) ∙ b, word ∙ c)
    | inr (n, a, b, c) ↦ inr (n, same 5 (omega arith) ∙ a, same 6 (omega arith) ∙ b, word ∙ c)
  ];
  kind = at 16 (omega arith) ∙ r.kind;
  machine = at 18 (omega arith) ∙ r.machine;
}
  where
    at : (o : ℕ) → o + 1 < 24 → uint16 endian g o ≡ uint16 endian h o
    at o p = uint16_cong endian g h o (same o (omega arith)) (same (o + 1) p)

    word : uint32 endian g 20 ≡ uint32 endian h 20
    word = uint32_cong endian g h 20 (at 20 (omega arith)) (at 22 (omega arith))

pub le-flags_offset : (class : ℕ) → 24 ≤ flags_offset class
unfolding flags_offset
le-flags_offset class = omega arith

pub plain-IsHeaderOf :
    (e : ElfPlatform) (endian : Endian) (abi flag : ℕ)
    → IsHeaderOf e endian abi (plain_header e endian abi flag)
unfolding plain_header
plain-IsHeaderOf e endian abi flag =
    let h = ident_header e endian abi in
    let o = flags_offset e.class in
    IsHeaderOf-prefix e endian abi (put_uint32 endian h o (flag % 2 ^ 32)) h
      (length-put_uint32 h o (flag % 2 ^ 32) endian)
      (λ j p.
        byte_at-put_uint32 h o (flag % 2 ^ 32) endian j (omega (arith, le-flags_offset e.class)))
      (ident-IsHeaderOf e endian abi)

pub byte_at-set_zero :
    (h : Bytes) (i j : ℕ) → byte_at (set h i 0) j ≡ (if i == j then 0 else byte_at h j)
byte_at-set_zero [] i j = ground arith
byte_at-set_zero (x ∷ h) zero zero = refl
byte_at-set_zero (x ∷ h) zero (suc j) = ground arith
byte_at-set_zero (x ∷ h) (suc i) zero = ground arith
byte_at-set_zero (x ∷ h) (suc i) (suc j) = ground (arith, byte_at-set_zero h i j)

-- Clearing the encoding and the version leaves the rest.
pub none-IsHeaderOf :
    (e : ElfPlatform) (endian : Endian) (abi : ℕ) (h : Bytes)
    → e.also_none ≡ true
    → IsHeaderOf e endian abi h
    → IsHeaderOf e endian abi (none_header endian h)
unfolding none_header put_uint16
none-IsHeaderOf e little abi h n r = record {
  size = simp length-set r.size;
  ident = simp byte_at-set_zero r.ident;
  class = simp byte_at-set_zero r.class;
  osabi = simp byte_at-set_zero r.osabi;
  encoding = inr (n, simp byte_at-set_zero, simp byte_at-set_zero, simp byte_at-set_zero);
  kind = simp byte_at-set_zero r.kind;
  machine = simp byte_at-set_zero r.machine;
}
none-IsHeaderOf e big abi h n r = record {
  size = simp length-set r.size;
  ident = simp byte_at-set_zero r.ident;
  class = simp byte_at-set_zero r.class;
  osabi = simp byte_at-set_zero r.osabi;
  encoding = inr (n, simp byte_at-set_zero, simp byte_at-set_zero, simp byte_at-set_zero);
  kind = simp byte_at-set_zero r.kind;
  machine = simp byte_at-set_zero r.machine;
}
