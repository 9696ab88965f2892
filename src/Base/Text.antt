-- ===== src/Base/Text.antt =====
-- Go strings and byte slices: lists of bytes, compared the way Go compares strings.
use Prim.Native.Char.{code}
use Prim.Native.Nat.{ℕ}
use Prim.Native.String.{String}
use mathlib.Core.Path.{◌≡◌, refl}
use mathlib.Core.Logic.{◌↔◌, ◌⊎◌}
use mathlib.Core.Bool.{Bool, true, false, ◌&&◌, ◌||◌}
use mathlib.Core.List.{List, [], ◌∷◌}
use native.Mathlib.Omega.{arith}
use buildfarm.Base.Tests.{ltb, ◌==◌}

abbrev pub Bytes : Type 0
Bytes = List ℕ

-- The bytes of an ASCII literal.
abbrev pub codes : String → Bytes
codes String.[] = []
codes (String.◌∷◌ c s) = code c ∷ codes s

-- `a == b` on strings.
unfoldable pub eqb : Bytes → Bytes → Bool
eqb [] [] = true
eqb (x ∷ xs) (y ∷ ys) = x == y && eqb xs ys
eqb _ _ = false

pub eqb_iff : (a b : Bytes) → (eqb a b ≡ true) ↔ (a ≡ b)
unfolding eqb
eqb_iff (x ∷ a) (y ∷ b) = ground (arith, eqb_iff a b)
eqb_iff _ _ = ground arith

pub eqb_refl : (a : Bytes) → eqb a a ≡ true
eqb_refl a = (eqb_iff a a).1 refl

pub eqb-cases : (a b : Bytes) → (a ≡ b) ⊎ (eqb a b ≡ false)
eqb-cases a b = ground (arith, eqb_iff a b)

-- `a <= b` on strings: bytewise, a prefix first.
unfoldable pub le_bytes : Bytes → Bytes → Bool
le_bytes [] ys = true
le_bytes (x ∷ xs) [] = false
le_bytes (x ∷ xs) (y ∷ ys) = ltb x y || (x == y && le_bytes xs ys)

pub le_bytes_refl : (a : Bytes) → le_bytes a a ≡ true
unfolding le_bytes
le_bytes_refl [] = refl
le_bytes_refl (x ∷ xs) = ground (arith, le_bytes_refl xs)

pub le_bytes_total : (a b : Bytes) → le_bytes a b ≡ false → le_bytes b a ≡ true
unfolding le_bytes
le_bytes_total [] b h = ground arith
le_bytes_total (x ∷ xs) [] h = refl
le_bytes_total (x ∷ xs) (y ∷ ys) h = ground (arith, le_bytes_total xs ys)

pub le_bytes_antisymm : (a b : Bytes) → le_bytes a b ≡ true → le_bytes b a ≡ true → a ≡ b
unfolding le_bytes
le_bytes_antisymm [] [] h k = refl
le_bytes_antisymm [] (y ∷ ys) h k = ground arith
le_bytes_antisymm (x ∷ xs) [] h k = ground arith
le_bytes_antisymm (x ∷ xs) (y ∷ ys) h k = ground (arith, le_bytes_antisymm xs ys)

pub le_bytes_trans :
    (a b c : Bytes) → le_bytes a b ≡ true → le_bytes b c ≡ true → le_bytes a c ≡ true
unfolding le_bytes
le_bytes_trans [] b c h k = refl
le_bytes_trans (x ∷ xs) [] c h k = ground arith
le_bytes_trans (x ∷ xs) (y ∷ ys) [] h k = ground arith
le_bytes_trans (x ∷ xs) (y ∷ ys) (z ∷ zs) h k = ground (arith, le_bytes_trans xs ys zs)
