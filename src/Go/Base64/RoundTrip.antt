-- ===== src/Go/Base64/RoundTrip.antt =====
-- Decoding undoes encoding.
use mx_chain_simulator_go.Common.{
  ℕ, ◌+◌, ◌*◌, ◌/◌, ◌%◌, ◌<◌, ◌≡◌, refl, ap, ◌∙◌, some, [], ◌∷◌, ◌++◌, append_assoc, append-nil,
  arith, Bytes, AreBytes,
}
use mathlib.Core.Path.{ap₂}
use mx_chain_simulator_go.Common.Outcome.{value}
use mx_chain_simulator_go.Go.Base64.{
  letter, sextet, Quantum, q0, q1, q2, q3, push, pad, decode_from, decode, encode, byte0, byte1,
  byte2,
}

sextet-letter : (n : ℕ) → n < 64 → sextet (letter n) ≡ some n
unfolding sextet letter
sextet-letter n h = ground arith

decode_from-sextet :
    (c v : ℕ) (s : Bytes) (si : ℕ) (q : Quantum) (out : Bytes)
    → sextet c ≡ some v
    → decode_from (c ∷ s) si q out ≡ decode_from s (si + 1) (push v q out).0 (push v q out).1
unfolding decode_from
decode_from-sextet c v s si q out h = rw (h, decode_from)

decode_from-letter :
    (v : ℕ) (s : Bytes) (si : ℕ) (q : Quantum) (out : Bytes)
    → v < 64
    → decode_from (letter v ∷ s) si q out ≡ decode_from s (si + 1) (push v q out).0 (push v q out).1
decode_from-letter v s si q out h = decode_from-sextet _ v s si q out (sextet-letter v h)

module _ {a b : ℕ} (si : ℕ) (out : Bytes) (ha : a < 64) (hb : b < 64) where
  -- Two sextets and the padding are one byte.
  decode_from-two :
      decode_from (letter a ∷ letter b ∷ pad ∷ pad ∷ []) si q0 out ≡ value (out ++ byte0 a b ∷ [])
  decode_from-two =
      decode_from-letter a _ si q0 out ha
      ∙ decode_from-letter b _ (si + 1) (q1 a) out hb
      ∙ (unfold decode_from sextet in refl)

  -- Three sextets and the padding are two bytes.
  decode_from-three :
      (c : ℕ)
      → c < 64
      → decode_from (letter a ∷ letter b ∷ letter c ∷ pad ∷ []) si q0 out
        ≡ value (out ++ byte0 a b ∷ byte1 b c ∷ [])
  decode_from-three c hc =
      decode_from-letter a _ si q0 out ha
      ∙ decode_from-letter b _ (si + 1) (q1 a) out hb
      ∙ decode_from-letter c _ (si + 1 + 1) (q2 a b) out hc
      ∙ (unfold decode_from sextet in refl)

  -- Four sextets are three bytes, and the decoder goes on behind them.
  decode_from-four :
      (c d : ℕ) (s : Bytes)
      → c < 64
      → d < 64
      → decode_from (letter a ∷ letter b ∷ letter c ∷ letter d ∷ s) si q0 out
        ≡ decode_from s (si + 1 + 1 + 1 + 1) q0 (out ++ byte0 a b ∷ byte1 b c ∷ byte2 c d ∷ [])
  decode_from-four c d s hc hd =
      decode_from-letter a _ si q0 out ha
      ∙ decode_from-letter b _ (si + 1) (q1 a) out hb
      ∙ decode_from-letter c _ (si + 1 + 1) (q2 a b) out hc
      ∙ decode_from-letter d _ (si + 1 + 1 + 1) (q3 a b c) out hd

byte0_of : (x y : ℕ) → x < 256 → y < 256 → byte0 (x / 4) (x % 4 * 16 + y / 16) ≡ x
byte0_of x y hx hy = omega arith

byte1_of : (x y z : ℕ) → y < 256 → z < 256 → byte1 (x % 4 * 16 + y / 16) (y % 16 * 4 + z / 64) ≡ y
byte1_of x y z hy hz = omega arith

byte2_of : (y z : ℕ) → z < 256 → byte2 (y % 16 * 4 + z / 64) (z % 64) ≡ z
byte2_of y z hz = omega arith

decode_from-encode :
    (s : Bytes) (si : ℕ) (out : Bytes)
    → AreBytes s
    → decode_from (encode s) si q0 out ≡ value (out ++ s)
unfolding encode
decode_from-encode [] si out h = unfold decode_from in rw append-nil
decode_from-encode (x ∷ []) si out (hx, _) =
    decode_from-two {a = x / 4} {b = x % 4 * 16} si out (omega arith) (omega arith)
    ∙ ap (λ (b : ℕ). value (out ++ b ∷ [])) (omega arith)
decode_from-encode (x ∷ y ∷ []) si out (hx, (hy, _)) =
    decode_from-three {a = x / 4} {b = x % 4 * 16 + y / 16} si out (omega arith) (omega arith)
      (y % 16 * 4) (omega arith)
    ∙ ap₂ (λ (a b : ℕ). value (out ++ a ∷ b ∷ [])) (byte0_of x y hx hy) (omega arith)
decode_from-encode (x ∷ y ∷ z ∷ s) si out (hx, (hy, (hz, hs))) =
    decode_from-four {a = x / 4} {b = x % 4 * 16 + y / 16} si out (omega arith) (omega arith)
      (y % 16 * 4 + z / 64) (z % 64) (encode s) (omega arith) (omega arith)
    ∙ decode_from-encode s _ _ hs
    ∙ rw (append_assoc, byte0_of x y hx hy, byte1_of x y z hy hz, byte2_of y z hz)

-- Every byte string is read back from its base64 print.
pub decode-encode : (s : Bytes) → AreBytes s → decode (encode s) ≡ value s
unfolding decode
decode-encode s h = decode_from-encode s 0 [] h
