-- ===== src/Emulation/GoText/Hex.antt =====
-- `hex.DecodeString` and `strconv.ParseInt` on the texts that the kernel prints.
use mathlib.Core.Path.{subst}
use mathlib.Core.Option.{some-injective}
use buildfarm.Base.{
  ℕ, suc, ◌+◌, ◌*◌, ◌/◌, ◌%◌, ◌≤◌, ◌<◌, [], ◌∷◌, Option, none, some, ltb, if◌then◌else◌, length,
  All, Bytes, ◌≡◌, refl, arith,
}
use buildfarm.Emulation.GoText.{ℤ, pos, negsuc, hex_digit, hex_byte, decode_hex, parse_int8}

-- A hexadecimal digit in lower case.
abbrev pub hex_char : ℕ → ℕ
hex_char d = if ltb d 10 then 48 + d else 87 + d

unfoldable pub encode_hex : Bytes → Bytes
encode_hex [] = []
encode_hex (b ∷ bs) = hex_char (b / 16) ∷ hex_char (b % 16) ∷ encode_hex bs

hex_digit-hex_char : (d : ℕ) → d < 16 → hex_digit (hex_char d) ≡ some d
unfolding hex_digit
hex_digit-hex_char d h = ground arith

-- Decoding undoes encoding.
pub decode_hex-encode_hex :
    (bs : Bytes) → All (λ b. b < 256) bs → decode_hex (encode_hex bs) ≡ some bs
unfolding decode_hex encode_hex
decode_hex-encode_hex [] h = refl
decode_hex-encode_hex (b ∷ bs) h =
    rw
      (
        hex_digit-hex_char (b / 16) (omega arith),
        hex_digit-hex_char (b % 16) (omega arith),
        decode_hex-encode_hex bs h.1,
      )
      (ground arith)

hex_digit-lt : (c d : ℕ) → hex_digit c ≡ some d → d < 16
unfolding hex_digit
hex_digit-lt c d h = ground arith

-- What is decoded is bytes, half as many as the digits.
pub decode_hex_bytes :
    (s bs : Bytes) → decode_hex s ≡ some bs → All (λ b. b < 256) bs × (length s ≡ 2 * length bs)
unfolding decode_hex
decode_hex_bytes [] bs h = ground arith
decode_hex_bytes (a ∷ []) bs h = ground arith
decode_hex_bytes (a ∷ b ∷ r) bs h =
    decoded (hex_digit a) (hex_digit b) (decode_hex r) refl refl (decode_hex_bytes r) h
  where
    decoded :
        (x y : Option ℕ) (rest : Option Bytes)
        → hex_digit a ≡ x
        → hex_digit b ≡ y
        → ((t : Bytes) → rest ≡ some t → All (λ b. b < 256) t × (length r ≡ 2 * length t))
        → hex_byte x y rest ≡ some bs
        → All (λ b. b < 256) bs × (suc (suc (length r)) ≡ 2 * length bs)
    decoded (some x) (some y) (some rest) p q e h =
        let (small, len) = e rest refl in
        subst (λ l. All (λ b. b < 256) l × (suc (suc (length r)) ≡ 2 * length l))
          (some-injective ((16 * x + y) ∷ rest) bs h)
          ((omega (arith, hex_digit-lt a x p, hex_digit-lt b y q), small), omega (arith, len))
    decoded (some x) (some y) none p q e h = cc
    decoded (some x) none rest p q e h = cc
    decoded none y rest p q e h = cc

-- The decimal digits of a number below 1000.
unfoldable pub show_small : ℕ → Bytes
show_small n =
    if ltb n 10
    then (48 + n) ∷ []
    else if ltb n 100
    then (48 + n / 10) ∷ (48 + n % 10) ∷ []
    else (48 + n / 100) ∷ (48 + n / 10 % 10) ∷ (48 + n % 10) ∷ []

pub parse_int8-show_small : (n : ℕ) → n ≤ 127 → parse_int8 (show_small n) ≡ some (pos n)
unfolding parse_int8 show_small
parse_int8-show_small n h = ground arith

abbrev pub InInt8 : ℤ → Type 0
InInt8 (pos n) = n ≤ 127
InInt8 (negsuc n) = n ≤ 127

-- What `strconv.ParseInt` returns at 8 bits is within them.
pub parse_int8-InInt8 : (s : Bytes) (i : ℤ) → parse_int8 s ≡ some i → InInt8 i
unfolding parse_int8
parse_int8-InInt8 [] i h = ground arith
parse_int8-InInt8 (c ∷ cs) (pos n) h = ground arith
parse_int8-InInt8 (c ∷ cs) (negsuc n) h = ground arith
