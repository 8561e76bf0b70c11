-- ===== src/Go/Hex.antt =====
-- `hex.EncodeToString` and `hex.DecodeString`.
pub mod RoundTrip
use mx_chain_simulator_go.Common.{
  ℕ, Bool, ◌+◌, ◌-◌, ◌*◌, ◌/◌, ◌%◌, ◌&&◌, ◌||◌, Option, none, some, [], ◌∷◌, ◌++◌, Bytes, codes,
  ltb, leb, ◌==◌, if◌then◌else◌,
}
use mx_chain_simulator_go.Common.Outcome.{Error, message, Try, value, error}

abbrev pub hex_digit : ℕ → ℕ
hex_digit n = if ltb n 10 then b'0' + n else b'a' + n - 10

-- `reverseHexTable[c]`, with `none` for 0xff.
abbrev pub nibble : ℕ → Option ℕ
nibble c =
    if leb b'0' c && leb c b'9'
    then some (c - b'0')
    else if leb b'a' c && leb c b'f'
    then some (c - b'a' + 10)
    else if leb b'A' c && leb c b'F'
    then some (c - b'A' + 10)
    else none

abbrev upper_digit : ℕ → ℕ
upper_digit n = if ltb n 10 then b'0' + n else b'A' + n - 10

-- A rune below 256 as UTF-8.
abbrev utf8 : ℕ → Bytes
utf8 c = if ltb c 128 then c ∷ [] else (192 + c / 64) ∷ (128 + c % 64) ∷ []

-- `strconv.IsPrint` below 256.
abbrev is_print : ℕ → Bool
is_print c = leb 32 c && leb c 126 || leb 161 c && (ltb c 173 || ltb 173 c)

-- `%#U` of a byte.
abbrev unicode : ℕ → Bytes
unicode c =
    codes "U+00"
    ++ (upper_digit (c / 16)
        ∷ upper_digit (c % 16)
        ∷ (if is_print c then codes " '" ++ (utf8 c ++ codes "'") else []))

abbrev pub invalid_byte : ℕ → Error
invalid_byte c = message (codes "encoding/hex: invalid byte: " ++ unicode c)

abbrev pub odd_length : Error
odd_length = message (codes "encoding/hex: odd length hex string")

-- A pair's value in front of what the rest gives.
abbrev pub onto_decoded : ℕ → Try Bytes → Try Bytes
onto_decoded b (value s) = value (b ∷ s)
onto_decoded b (error e) = error e

abbrev pub decode_pair : ℕ → ℕ → Try Bytes → Try Bytes
decode_pair p q rest = elim (nibble p) [
  | none ↦ error (invalid_byte p)
  | some a ↦ elim (nibble q) [
    | none ↦ error (invalid_byte q)
    | some b ↦ onto_decoded (a * 16 + b) rest
  ]
]

-- `hex.DecodeString(s)`: the first bad byte is reported, and an odd length only behind good bytes.
unfoldable pub decode : Bytes → Try Bytes
decode [] = value []
decode (p ∷ []) = elim (nibble p) [ none ↦ error (invalid_byte p) | some _ ↦ error odd_length ]
decode (p ∷ q ∷ s) = let rest = decode s in decode_pair p q rest

-- `hex.EncodeToString(s)`
unfoldable pub encode : Bytes → Bytes
encode [] = []
encode (b ∷ s) = hex_digit (b / 16) ∷ hex_digit (b % 16) ∷ encode s
