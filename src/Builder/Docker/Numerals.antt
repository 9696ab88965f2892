-- ===== src/Builder/Docker/Numerals.antt =====
-- Numerals of 64 bits, and `strconv.ParseInt` on them.
use buildfarm.Base.{
  ℕ, zero, suc, ◌+◌, ◌*◌, ◌-◌, ◌<◌, ◌≤◌, List, [], ◌∷◌, Bool, false, if◌then◌else◌, ◌==◌, All,
  Bytes, ◌≡◌, refl, inl, inr, Bool-cases, arith,
}
use buildfarm.Base.Int.{ℤ, pos, negsuc}
use buildfarm.Base.Result.{ok}
use buildfarm.Builder.Docker.Numbers.{two_63, two_64, parse_digits, parse_int64, within, negative}

-- A decimal numeral: a sign, and digits, the first apart.
pub record Numeral : Type 0 where
  pub is_negative : Bool
  pub first : ℕ
  pub rest : List ℕ

abbrev pub show_digits : List ℕ → Bytes
show_digits [] = []
show_digits (d ∷ ds) = (48 + d) ∷ show_digits ds

-- The value of the digits behind those of `n`.
abbrev pub value_from : ℕ → List ℕ → ℕ
value_from n [] = n
value_from n (d ∷ ds) = value_from (n * 10 + d) ds

abbrev pub magnitude : Numeral → ℕ
magnitude n = value_from 0 (n.first ∷ n.rest)

abbrev pub show_numeral : Numeral → Bytes
show_numeral n =
    if n.is_negative then b'-' ∷ show_digits (n.first ∷ n.rest) else show_digits (n.first ∷ n.rest)

abbrev pub negated : ℕ → ℤ
negated zero = pos 0
negated (suc n) = negsuc n

abbrev pub numeral_value : Numeral → ℤ
numeral_value n = if n.is_negative then negated (magnitude n) else pos (magnitude n)

-- The digits are digits, and the value is one of 64 bits.
pub record IsNumeral (n : Numeral) : Type 0 where
  pub first : n.first < 10
  pub rest : All (λ d. d < 10) n.rest
  pub bound : magnitude n < (if n.is_negative then suc two_63 else two_63)

value_from-ge : (n : ℕ) (ds : List ℕ) → n ≤ value_from n ds
value_from-ge n [] = omega arith
value_from-ge n (d ∷ ds) = omega (arith, value_from-ge (n * 10 + d) ds)

parse_digits-value :
    (s : Bytes) (n : ℕ) (ds : List ℕ)
    → All (λ d. d < 10) ds
    → value_from n ds < two_64
    → parse_digits s n (show_digits ds) ≡ ok (value_from n ds)
unfolding parse_digits
parse_digits-value s n [] h v = refl
parse_digits-value s n (d ∷ ds) h v =
    let big = value_from-ge (n * 10 + d) ds in
    let ih = parse_digits-value s (n * 10 + d) ds h.1 v in
    let e : 48 + d - 48 ≡ d = omega arith in rw e (ground (arith, ih, big))

within-value : (s : Bytes) (n : ℕ) → n < two_63 → within s n ≡ ok (pos n)
within-value s n h = ground arith

negative-value : (s : Bytes) (n : ℕ) → n < suc two_63 → negative s n ≡ ok (negated n)
negative-value s zero h = refl
negative-value s (suc n) h = ground arith

parse_unsigned :
    (d : ℕ) (ds : List ℕ)
    → All (λ e. e < 10) (d ∷ ds)
    → value_from 0 (d ∷ ds) < two_63
    → parse_int64 (show_digits (d ∷ ds)) ≡ ok (pos (value_from 0 (d ∷ ds)))
unfolding parse_int64
parse_unsigned d ds h v =
    let s = show_digits (d ∷ ds) in
    let small : d < 10 = h.0 in
    let minus : ((48 + d) == b'-') ≡ false = ground arith in
    let plus : ((48 + d) == b'+') ≡ false = ground arith in
    rw (minus, plus, parse_digits-value s 0 (d ∷ ds) h (omega (arith, v)))
      (within-value s (value_from 0 (d ∷ ds)) v)

parse_negative :
    (d : ℕ) (ds : List ℕ)
    → All (λ e. e < 10) (d ∷ ds)
    → value_from 0 (d ∷ ds) < suc two_63
    → parse_int64 (b'-' ∷ show_digits (d ∷ ds)) ≡ ok (negated (value_from 0 (d ∷ ds)))
unfolding parse_int64
parse_negative d ds h v =
    let s = b'-' ∷ show_digits (d ∷ ds) in
    rw (parse_digits-value s 0 (d ∷ ds) h (omega (arith, v)))
      (negative-value s (value_from 0 (d ∷ ds)) v)

-- `strconv.ParseInt` reads a numeral of 64 bits back as its value.
pub parse_int64-numeral :
    (n : Numeral) → IsNumeral n → parse_int64 (show_numeral n) ≡ ok (numeral_value n)
parse_int64-numeral n h = elim (Bool-cases n.is_negative) [
  | inl e ↦ rw e (parse_negative n.first n.rest (h.first, h.rest) (rw e at h.bound))
  | inr e ↦ rw e (parse_unsigned n.first n.rest (h.first, h.rest) (rw e at h.bound))
]
