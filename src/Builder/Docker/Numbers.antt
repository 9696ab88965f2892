-- ===== src/Builder/Docker/Numbers.antt =====
-- `strconv.ParseInt` at base 10 and 64 bits, and the conversion of a uint64 to an int64.
use buildfarm.Base.{
  ℕ, zero, suc, ◌+◌, ◌-◌, ◌*◌, ◌%◌, [], ◌∷◌, ◌&&◌, if◌then◌else◌, ltb, leb, ◌==◌, Bytes,
}
use buildfarm.Base.Int.{ℤ, pos, negsuc}
use buildfarm.Base.Result.{Error, errorf, Result, ok, err, ◌>>=◌}

abbrev pub two_63 : ℕ
two_63 = 9223372036854775808

abbrev pub two_64 : ℕ
two_64 = 18446744073709551616

abbrev pub invalid_syntax : Bytes → Error
invalid_syntax s = errorf "strconv.ParseInt: parsing %q: invalid syntax" (s ∷ [])

abbrev pub out_of_range : Bytes → Error
out_of_range s = errorf "strconv.ParseInt: parsing %q: value out of range" (s ∷ [])

-- The loop of `strconv.ParseUint` over the digits; `s` is the text for the error.
unfoldable pub parse_digits : Bytes → ℕ → Bytes → Result ℕ
parse_digits s n [] = ok n
parse_digits s n (c ∷ cs) =
    let next = n * 10 + (c - 48) in
    let rest = parse_digits s next cs in
    if leb 48 c && leb c 57
    then if ltb next two_64 then rest else err (out_of_range s)
    else err (invalid_syntax s)

abbrev pub parse_uint64 : Bytes → Bytes → Result ℕ
parse_uint64 s [] = err (invalid_syntax s)
parse_uint64 s (c ∷ cs) = parse_digits s 0 (c ∷ cs)

abbrev pub within : Bytes → ℕ → Result ℤ
within s n = if ltb n two_63 then ok (pos n) else err (out_of_range s)

abbrev pub negative : Bytes → ℕ → Result ℤ
negative s zero = ok (pos 0)
negative s (suc n) = if ltb n two_63 then ok (negsuc n) else err (out_of_range s)

-- `strconv.ParseInt(s, 10, 64)`
unfoldable pub parse_int64 : Bytes → Result ℤ
unfolding parse_digits
parse_int64 [] = err (invalid_syntax [])
parse_int64 (c ∷ cs) =
    if c == b'-'
    then parse_uint64 (c ∷ cs) cs >>= negative (c ∷ cs)
    else if c == b'+'
    then parse_uint64 (c ∷ cs) cs >>= within (c ∷ cs)
    else parse_uint64 (c ∷ cs) (c ∷ cs) >>= within (c ∷ cs)

-- `int64(n)` of a uint64
abbrev pub to_int64 : ℕ → ℤ
to_int64 n = let m = n % two_64 in if ltb m two_63 then pos m else negsuc (two_64 - 1 - m)
