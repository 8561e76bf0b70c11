-- ===== src/Go/Hex/RoundTrip.antt =====
-- Decoding undoes encoding.
use mx_chain_simulator_go.Common.{
  ℕ, ◌/◌, ◌%◌, ◌<◌, ◌≡◌, refl, some, [], ◌∷◌, arith, Bytes, AreBytes,
}
use mx_chain_simulator_go.Common.Outcome.{value}
use mx_chain_simulator_go.Go.Hex.{hex_digit, nibble, decode_pair, decode, encode}

nibble-hex_digit : (n : ℕ) → n < 16 → nibble (hex_digit n) ≡ some n
nibble-hex_digit n h = ground arith

-- The two digits of a byte are read back as the byte.
decode_pair-hex_digit :
    (b : ℕ) (s : Bytes)
    → b < 256
    → decode_pair (hex_digit (b / 16)) (hex_digit (b % 16)) (value s) ≡ value (b ∷ s)
decode_pair-hex_digit b s h = ground arith

pub decode-encode : (s : Bytes) → AreBytes s → decode (encode s) ≡ value s
unfolding decode encode
decode-encode [] _ = refl
decode-encode (b ∷ s) (hb, hs) = rw (decode-encode s hs) (decode_pair-hex_digit b s hb)
