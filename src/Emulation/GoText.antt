-- ===== src/Emulation/GoText.antt =====
-- What emulation/binfmtmisc_linux.go uses of Go's bufio, strings, strconv and encoding/hex, over
-- ASCII text: white space is the six ASCII spaces.
pub mod Fields
pub mod Lines
pub mod Hex
use buildfarm.Base.{
  ℕ, ◌+◌, ◌*◌, ◌-◌, List, [], ◌∷◌, ◌++◌, Bool, ◌&&◌, ◌||◌, Option, none, some, length, leb, ◌==◌,
  if◌then◌else◌, Bytes,
}
use mathlib.Core.List.{reverse}
pub use buildfarm.Base.Int.{ℤ, pos, negsuc}

unfoldable pub is_space : ℕ → Bool
is_space c = c == b' ' || (leb 9 c && leb c 13)

-- `bufio.ScanLines` drops one carriage return at the end of a line.
unfoldable pub drop_cr : Bytes → Bytes
drop_cr [] = []
drop_cr (c ∷ []) = if c == 13 then [] else c ∷ []
drop_cr (c ∷ d ∷ r) = c ∷ drop_cr (d ∷ r)

-- `bufio.MaxScanTokenSize`: a line that fills the buffer ends the scan.
abbrev pub max_scan_token_size : ℕ
max_scan_token_size = 65536

abbrev pub last_line : Bytes → List Bytes
last_line [] = []
last_line (x ∷ line) =
    if leb max_scan_token_size (length (x ∷ line)) then [] else drop_cr (x ∷ line) ∷ []

-- The texts of `for scanner.Scan()`; `line` is the line read so far. A scan that stops at a line
-- that is too long stops as at the end of the input, for nothing looks at `scanner.Err()`.
unfoldable pub scan_from : Bytes → Bytes → List Bytes
unfolding drop_cr
scan_from line [] = last_line line
scan_from line (c ∷ cs) =
    let next = scan_from [] cs in
    let longer = scan_from (line ++ c ∷ []) cs in
    if c == b'\n'
    then (if leb max_scan_token_size (length line) then [] else drop_cr line ∷ next)
    else longer

unfoldable pub scan_lines : Bytes → List Bytes
unfolding scan_from
scan_lines = scan_from []

unfoldable pub trim_left : Bytes → Bytes
unfolding is_space
trim_left [] = []
trim_left (c ∷ cs) = let rest = trim_left cs in if is_space c then rest else c ∷ cs

-- `strings.TrimSpace`
unfoldable pub trim_space : Bytes → Bytes
unfolding trim_left
trim_space s = reverse (trim_left (reverse (trim_left s)))

abbrev pub flush : Bytes → List Bytes
flush [] = []
flush (x ∷ word) = (x ∷ word) ∷ []

-- `strings.Fields`; `word` is the field read so far.
unfoldable pub fields_from : Bytes → Bytes → List Bytes
unfolding is_space
fields_from word [] = flush word
fields_from word (c ∷ cs) =
    let next = fields_from [] cs in
    let longer = fields_from (word ++ c ∷ []) cs in
    if is_space c then flush word ++ next else longer

unfoldable pub fields : Bytes → List Bytes
unfolding fields_from
fields = fields_from []

-- `strings.Contains(s, string(c))`
unfoldable pub contains_byte : Bytes → ℕ → Bool
contains_byte [] c = Bool.false
contains_byte (x ∷ xs) c = x == c || contains_byte xs c

unfoldable pub hex_digit : ℕ → Option ℕ
hex_digit c =
    if leb b'0' c && leb c b'9'
    then some (c - b'0')
    else if leb b'a' c && leb c b'f'
    then some (c - b'a' + 10)
    else if leb b'A' c && leb c b'F'
    then some (c - b'A' + 10)
    else none

abbrev pub hex_byte : Option ℕ → Option ℕ → Option Bytes → Option Bytes
hex_byte (some x) (some y) (some rest) = some ((16 * x + y) ∷ rest)
hex_byte _ _ _ = none

-- `hex.DecodeString`
unfoldable pub decode_hex : Bytes → Option Bytes
unfolding hex_digit
decode_hex [] = some []
decode_hex (a ∷ []) = none
decode_hex (a ∷ b ∷ r) = hex_byte (hex_digit a) (hex_digit b) (decode_hex r)

unfoldable pub decimal : ℕ → Bytes → Option ℕ
decimal n [] = some n
decimal n (c ∷ cs) =
    let rest = decimal (n * 10 + (c - b'0')) cs in if leb b'0' c && leb c b'9' then rest else none

abbrev pub magnitude : Bytes → Option ℕ
magnitude [] = none
magnitude (c ∷ cs) = decimal 0 (c ∷ cs)

abbrev pub positive8 : Option ℕ → Option ℤ
positive8 none = none
positive8 (some n) = if leb n 127 then some (pos n) else none

abbrev pub negated : ℕ → ℤ
negated ℕ.zero = pos 0
negated (ℕ.suc n) = negsuc n

abbrev pub negative8 : Option ℕ → Option ℤ
negative8 none = none
negative8 (some n) = if leb n 128 then some (negated n) else none

-- `strconv.ParseInt(s, 10, 8)`
unfoldable pub parse_int8 : Bytes → Option ℤ
unfolding decimal
parse_int8 [] = none
parse_int8 (c ∷ cs) =
    if c == b'-'
    then negative8 (magnitude cs)
    else if c == b'+'
    then positive8 (magnitude cs)
    else positive8 (decimal 0 (c ∷ cs))
