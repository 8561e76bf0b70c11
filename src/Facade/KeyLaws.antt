-- ===== src/Facade/KeyLaws.antt =====
-- `AddValidatorKeys`: which keys reach the simulator.
use mx_chain_simulator_go.Common.{
  ℕ, suc, ◌+◌, ◌≡◌, refl, List, [], ◌∷◌, ◌++◌, append-nil, append_assoc, map, Bytes, All, AreBytes,
  arith, length,
}
use native.Mathlib.Nat.{add-zero, zero-add}
use mx_chain_simulator_go.Common.Outcome.{err, Error, value, error}
use mx_chain_simulator_go.Facade.Interface.{SimulatorHandler}
use mx_chain_simulator_go.Facade.Defs.{add_validator_keys}
use mx_chain_simulator_go.Facade.Keys.{decode_key, decode_keys}
use mx_chain_simulator_go.Go.Base64
use mx_chain_simulator_go.Go.Base64.RoundTrip as Base64Laws
use mx_chain_simulator_go.Go.Hex
use mx_chain_simulator_go.Go.Hex.RoundTrip as HexLaws

-- The text of a key as the endpoint expects it.
abbrev pub encode_key : Bytes → Bytes
encode_key key = Base64.encode (Hex.encode key)

encode-AreBytes : (s : Bytes) → AreBytes s → AreBytes (Hex.encode s)
unfolding Hex.encode
encode-AreBytes [] _ = tt
encode-AreBytes (b ∷ s) (hb, hs) = (ground arith, (ground arith, encode-AreBytes s hs))

decode_key-encode_key :
    (idx : ℕ) (key : Bytes) → AreBytes key → decode_key idx (encode_key key) ≡ value key
unfolding decode_key
decode_key-encode_key idx key h = ground (
  arith,
  Base64Laws.decode-encode (Hex.encode key) (encode-AreBytes key h),
  HexLaws.decode-encode key h,
)

decode_keys-append :
    (keys rest done : List Bytes) (idx : ℕ)
    → All AreBytes keys
    → decode_keys idx (map encode_key keys ++ rest) done
      ≡ decode_keys (idx + length keys) rest (done ++ keys)
unfolding decode_keys
decode_keys-append [] rest done idx _ = rw (add-zero, append-nil)
decode_keys-append (k ∷ ks) rest done idx (hk, hks) = ground (
  arith,
  decode_key-encode_key idx k hk,
  decode_keys-append ks rest (done ++ k ∷ []) (idx + 1) hks,
  append_assoc done (k ∷ []) ks,
  idx_step idx (length ks),
)
  where
    idx_step : (a b : ℕ) → a + 1 + b ≡ a + suc b
    idx_step a b = omega arith

decode_keys_nil : (idx : ℕ) (done : List Bytes) → decode_keys idx [] done ≡ value done
unfolding decode_keys
decode_keys_nil idx done = refl

decode_keys_bad :
    (idx : ℕ) (bad : Bytes) (rest done : List Bytes) (e : Error)
    → decode_key idx bad ≡ error e
    → decode_keys idx (bad ∷ rest) done ≡ error e
unfolding decode_keys
decode_keys_bad idx bad rest done e h = ground arith

module _ (sim : SimulatorHandler) where
  open sim use {State}

  -- Keys that are sent in the expected encoding reach the simulator, all of them and in order.
  pub add_validator_keys-encode_key :
      (keys : List Bytes) (s : State)
      → All AreBytes keys
      → add_validator_keys sim (record { private_keys_base64 = map encode_key keys }) s
        ≡ sim.add_validator_keys keys s
  unfolding add_validator_keys
  add_validator_keys-encode_key keys s h = ground (
    arith,
    decode_keys-append keys [] [] 0 h,
    append-nil (map encode_key keys),
    decode_keys_nil (length keys) keys,
  )

  -- Behind any number of good keys, a key that does not decode is reported with its index, and the
  -- simulator is not called.
  pub add_validator_keys_fails :
      (keys rest : List Bytes) (bad : Bytes) (e : Error) (s : State)
      → All AreBytes keys
      → decode_key (length keys) bad ≡ error e
      → add_validator_keys sim
          (record { private_keys_base64 = map encode_key keys ++ bad ∷ rest })
          s
        ≡ (err e, s)
  unfolding add_validator_keys
  add_validator_keys_fails keys rest bad e s h fails = ground (
    arith,
    decode_keys-append keys (bad ∷ rest) [] 0 h,
    zero-add (length keys),
    decode_keys_bad (length keys) bad rest keys e fails,
  )
