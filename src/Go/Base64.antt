-- ===== src/Go/Base64.antt =====
-- `base64.StdEncoding`: EncodeToString and DecodeString.
pub mod RoundTrip
use mx_chain_simulator_go.Common.{
  ℕ, ◌+◌, ◌-◌, ◌*◌, ◌/◌, ◌%◌, Bool, true, false, ◌&&◌, ◌||◌, Option, none, some, [], ◌∷◌, ◌++◌,
  Bytes, codes, ltb, leb, ◌==◌, if◌then◌else◌,
}
use mx_chain_simulator_go.Common.Outcome.{Error, message, Try, value, error}
use mx_chain_simulator_go.Go.Strconv.{format_uint}

-- The alphabet.
unfoldable pub letter : ℕ → ℕ
letter n =
    if ltb n 26
    then b'A' + n
    else if ltb n 52
    then b'a' + n - 26
    else if ltb n 62
    then b'0' + n - 52
    else if n == 62
    then b'+'
    else b'/'

-- `decodeMap[c]`, with `none` for 0xff.
unfoldable pub sextet : ℕ → Option ℕ
sextet c =
    if leb b'A' c && leb c b'Z'
    then some (c - b'A')
    else if leb b'a' c && leb c b'z'
    then some (c - b'a' + 26)
    else if leb b'0' c && leb c b'9'
    then some (c - b'0' + 52)
    else if c == b'+'
    then some 62
    else if c == b'/'
    then some 63
    else none

abbrev is_newline : ℕ → Bool
is_newline c = c == b'\n' || c == b'\r'

abbrev pub pad : ℕ
pad = b'='

abbrev pub corrupt : ℕ → Error
corrupt offset = message (codes "illegal base64 data at input byte " ++ format_uint offset)

-- The sextets read of the current quantum.
pub data Quantum : Type 0 where
  q0 : Quantum
  q1 : ℕ → Quantum
  q2 : ℕ → ℕ → Quantum
  q3 : ℕ → ℕ → ℕ → Quantum

abbrev sextets : Quantum → ℕ
sextets q0 = 0
sextets (q1 _) = 1
sextets (q2 _ _) = 2
sextets (q3 _ _ _) = 3

abbrev pub byte0 : ℕ → ℕ → ℕ
byte0 a b = a * 4 + b / 16

abbrev pub byte1 : ℕ → ℕ → ℕ
byte1 b c = b % 16 * 16 + c / 4

abbrev pub byte2 : ℕ → ℕ → ℕ
byte2 c d = c % 4 * 64 + d

-- One more sextet: the next quantum, and the bytes so far.
abbrev pub push : ℕ → Quantum → Bytes → Quantum × Bytes
push v q0 out = (q1 v, out)
push v (q1 a) out = (q2 a v, out)
push v (q2 a b) out = (q3 a b v, out)
push v (q3 a b c) out = (q0, out ++ byte0 a b ∷ byte1 b c ∷ byte2 c v ∷ [])

-- Behind the padding only newlines may stand.
trailing : Bytes → ℕ → Bytes → Try Bytes
trailing [] si out = value out
trailing (c ∷ s) si out = if is_newline c then trailing s (si + 1) out else error (corrupt si)

-- The second pad character of a quantum of two sextets; newlines may stand before it.
second_pad : Bytes → ℕ → Bytes → Try Bytes
unfolding trailing
second_pad [] si out = error (corrupt si)
second_pad (c ∷ s) si out =
    if is_newline c
    then second_pad s (si + 1) out
    else if c == pad
    then trailing s (si + 1) out
    else error (corrupt (si - 1))

-- What follows a pad character; `si` is the position behind it.
padding : Quantum → Bytes → ℕ → Bytes → Try Bytes
unfolding second_pad
padding q0 s si out = error (corrupt (si - 1))
padding (q1 _) s si out = error (corrupt (si - 1))
padding (q2 a b) s si out = second_pad s si (out ++ byte0 a b ∷ [])
padding (q3 a b c) s si out = trailing s si (out ++ byte0 a b ∷ byte1 b c ∷ [])

decode_from : Bytes → ℕ → Quantum → Bytes → Try Bytes
unfolding padding
decode_from [] si q0 out = value out
decode_from [] si q out = error (corrupt (si - sextets q))
decode_from (c ∷ s) si q out = elim (sextet c) [
  | some v ↦ let (q', out') = push v q out in decode_from s (si + 1) q' out'
  | none ↦ elim (is_newline c) [
    | true ↦ decode_from s (si + 1) q out
    | false ↦ if c == pad then padding q s (si + 1) out else error (corrupt si)
  ]
]

-- `base64.StdEncoding.DecodeString(s)`
unfoldable pub decode : Bytes → Try Bytes
unfolding decode_from sextet
decode s = decode_from s 0 q0 []

-- `base64.StdEncoding.EncodeToString(s)`
unfoldable pub encode : Bytes → Bytes
unfolding letter
encode [] = []
encode (x ∷ []) = letter (x / 4) ∷ letter (x % 4 * 16) ∷ pad ∷ pad ∷ []
encode (x ∷ y ∷ []) = letter (x / 4) ∷ letter (x % 4 * 16 + y / 16) ∷ letter (y % 16 * 4) ∷ pad ∷ []
encode (x ∷ y ∷ z ∷ s) =
    letter (x / 4)
    ∷ letter (x % 4 * 16 + y / 16)
    ∷ letter (y % 16 * 4 + z / 64)
    ∷ letter (z % 64)
    ∷ encode s
