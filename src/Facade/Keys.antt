-- ===== src/Facade/Keys.antt =====
-- The loop of `AddValidatorKeys`: every key is base64 of the hexadecimal text of the key's bytes.
use mx_chain_simulator_go.Common.{ℕ, ◌+◌, List, [], ◌∷◌, ◌++◌, Bytes, codes}
use mx_chain_simulator_go.Common.Outcome.{Error, message, error_text, Try, value, error}
use mx_chain_simulator_go.Go.Base64
use mx_chain_simulator_go.Go.Hex
use mx_chain_simulator_go.Go.Strconv.{format_uint}

-- `fmt.Errorf("cannot ... decode key index=%d, error=%s", idx, err.Error())`
abbrev pub decode_failure : Bytes → ℕ → Error → Error
decode_failure what idx e = message (
    what ++ (codes " decode key index=" ++ (format_uint idx ++ (codes ", error=" ++ error_text e))))

-- One round of the loop.
unfoldable pub decode_key : ℕ → Bytes → Try Bytes
decode_key idx private_key_base64 = elim (Base64.decode private_key_base64) [
  | error e ↦ error (decode_failure (codes "cannot base64") idx e)
  | value private_key_hex ↦ elim (Hex.decode private_key_hex) [
    | error e ↦ error (decode_failure (codes "cannot hex") idx e)
    | value private_key ↦ value private_key
  ]
]

-- The loop from index `idx` on, with the keys decoded so far.
unfoldable pub decode_keys : ℕ → List Bytes → List Bytes → Try (List Bytes)
decode_keys idx [] keys = value keys
decode_keys idx (k ∷ ks) keys = elim (decode_key idx k) [
  | error e ↦ error e
  | value key ↦ decode_keys (idx + 1) ks (keys ++ key ∷ [])
]
