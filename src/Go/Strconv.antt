-- ===== src/Go/Strconv.antt =====
-- `strconv.Itoa`, `strconv.Atoi` and `strconv.ParseBool`. Atoi's two errors are one, since no caller
-- tells them apart.
pub mod Laws
use mx_chain_simulator_go.Common.{
  ℕ, zero, suc, ◌+◌, ◌-◌, ◌*◌, ◌/◌, ◌%◌, ◌^◌, ◌<◌, Bool, true, false, ◌&&◌, ◌||◌, Option, none,
  some, [], ◌∷◌, ◌++◌, Bytes, codes, bytes_eq, ltb, leb, ◌==◌, if◌then◌else◌,
}
use mx_chain_simulator_go.Common.Int.{ℤ, pos, negsuc, neg}

-- The decimal digits of a number; the fuel is more than enough when it is above the number.
digits : ℕ → ℕ → Bytes
digits zero n = []
digits (suc fuel) n = elim (ltb n 10) [
  | true ↦ (b'0' + n) ∷ []
  | false ↦ digits fuel (n / 10) ++ (b'0' + n % 10) ∷ []
]

-- `%d` of an unsigned number.
unfoldable pub format_uint : ℕ → Bytes
unfolding digits
format_uint n = digits (suc n) n

-- `strconv.Itoa(z)`, and `%d` of an `int`.
unfoldable pub itoa : ℤ → Bytes
unfolding format_uint
itoa (pos n) = format_uint n
itoa (negsuc n) = b'-' ∷ format_uint (suc n)

abbrev pub is_digit : ℕ → Bool
is_digit c = leb b'0' c && leb c b'9'

-- The number that the digits spell behind `n`, if all bytes are digits.
scan : Bytes → ℕ → Option ℕ
scan [] n = some n
scan (c ∷ s) n = let rest = scan s (n * 10 + (c - b'0')) in if is_digit c then rest else none

-- One digit at least.
magnitude : Bytes → Option ℕ
unfolding scan
magnitude [] = none
magnitude (c ∷ s) = scan (c ∷ s) 0

-- A 64-bit `int` holds up to 2 ^ 63 - 1.
abbrev pub as_positive : Option ℕ → Option ℤ
as_positive none = none
as_positive (some n) = if ltb n (2 ^ 63) then some (pos n) else none

abbrev pub as_negative : Option ℕ → Option ℤ
as_negative none = none
as_negative (some n) = if leb n (2 ^ 63) then some (neg n) else none

-- `strconv.Atoi(s)`, with `none` for a syntax or a range error.
unfoldable pub atoi : Bytes → Option ℤ
unfolding magnitude
atoi [] = none
atoi (c ∷ s) =
    if c == b'-'
    then as_negative (magnitude s)
    else if c == b'+'
    then as_positive (magnitude s)
    else as_positive (magnitude (c ∷ s))

-- `strconv.ParseBool(s)`
unfoldable pub parse_bool : Bytes → Option Bool
parse_bool s =
    if bytes_eq s (codes "1")
      || bytes_eq s (codes "t")
      || bytes_eq s (codes "T")
      || bytes_eq s (codes "true")
      || bytes_eq s (codes "TRUE")
      || bytes_eq s (codes "True")
    then some true
    else if bytes_eq s (codes "0")
        || bytes_eq s (codes "f")
        || bytes_eq s (codes "F")
        || bytes_eq s (codes "false")
        || bytes_eq s (codes "FALSE")
        || bytes_eq s (codes "False")
    then some false
    else none

abbrev lower_digit : ℕ → ℕ
lower_digit n = if ltb n 10 then b'0' + n else b'a' + n - 10

-- One byte between the quotes of `strconv.Quote`.
abbrev quoted : ℕ → Bytes
quoted c =
    if c == b'"'
    then codes "\\\""
    else if c == b'\\'
    then codes "\\\\"
    else if leb 32 c && leb c 126
    then c ∷ []
    else if c == 7
    then codes "\\a"
    else if c == 8
    then codes "\\b"
    else if c == 9
    then codes "\\t"
    else if c == 10
    then codes "\\n"
    else if c == 11
    then codes "\\v"
    else if c == 12
    then codes "\\f"
    else if c == 13
    then codes "\\r"
    else codes "\\x" ++ lower_digit (c / 16) ∷ lower_digit (c % 16) ∷ []

abbrev quote_rest : Bytes → Bytes
quote_rest [] = b'"' ∷ []
quote_rest (c ∷ s) = quoted c ++ quote_rest s

-- `strconv.Quote(s)`, exact on ASCII.
unfoldable pub quote : Bytes → Bytes
quote s = b'"' ∷ quote_rest s
