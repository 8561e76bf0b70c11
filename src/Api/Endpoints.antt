-- ===== src/Api/Endpoints.antt =====
-- The handlers. One takes the context of a request and returns it with the responses written.
use mx_chain_simulator_go.Common.{
  ⊤, ℕ, Bool, false, none, some, [], ◌++◌, Bytes, codes, is_empty, if◌then◌else◌,
}
use mx_chain_simulator_go.Common.Int.{ℤ, pos, uint32, int32}
use mx_chain_simulator_go.Common.Outcome.{
  Error, message, error_text, Action, pure, gets, ◌>>=◌, Try, value, error, attempt,
}
use mx_chain_simulator_go.Api.Interface.{SimulatorFacade, Gin, Payload, nothing, observers, wallets}
use mx_chain_simulator_go.Go.Strconv.{atoi, parse_bool, quote}

abbrev pub status_ok : ℕ
status_ok = 200

abbrev pub status_bad_request : ℕ
status_bad_request = 400

abbrev pub max_num_of_block_to_generate_until_tx_processed : ℤ
max_num_of_block_to_generate_until_tx_processed = pos 20

abbrev pub query_param_no_generate : Bytes
query_param_no_generate = codes "noGenerate"

abbrev pub query_param_target_epoch : Bytes
query_param_target_epoch = codes "targetEpoch"

abbrev pub query_param_max_num_blocks : Bytes
query_param_max_num_blocks = codes "maxNumBlocks"

abbrev pub cannot_convert : Bytes
cannot_convert = codes "cannot convert string to number"

-- The error of `strconv.ParseBool`, whose text goes into a response.
abbrev pub parse_bool_error : Bytes → Error
parse_bool_error s =
    message (codes "strconv.ParseBool: parsing " ++ (quote s ++ codes ": invalid syntax"))

module _ (facade : SimulatorFacade) (gin : Gin facade.InitialWalletKeys facade.AddressState) where
  open facade use {State, InitialWalletKeys}
  open gin use {Context}

  abbrev pub Handler : Type 0
  Handler = Context → Action State Context

  -- `shared.RespondWith(c, http.StatusOK, data, "", data.ReturnCodeSuccess)`
  abbrev pub succeed : Context → Payload InitialWalletKeys → Context
  succeed c data' = gin.respond_with c status_ok data' [] gin.return_code_success

  abbrev pub succeed_or : Context → (Error → Context) → Try ⊤ → Context
  succeed_or c on_error (value _) = succeed c nothing
  succeed_or c on_error (error e) = on_error e

  abbrev pub get_target_epoch_query_param : Context → Context × Try ℤ
  get_target_epoch_query_param c =
      let epoch_str = gin.query c query_param_target_epoch in
      if is_empty epoch_str then (c, value (pos 0)) else elim (atoi epoch_str) [
        | none ↦ (gin.respond_with_bad_request c cannot_convert, error (message cannot_convert))
        | some epoch ↦ (c, value epoch)
      ]

  -- No `return` follows the response to a facade's error.
  abbrev pub after_force : Context → Try ⊤ → Context
  after_force c (value _) = succeed c nothing
  after_force c (error e) = succeed (gin.json_error c status_bad_request (error_text e)) nothing

  unfoldable pub force_epoch_change : Handler
  force_epoch_change c =
      let (c', epoch) = get_target_epoch_query_param c in
      elim epoch [
        | error e ↦ pure (gin.json_error c' status_bad_request (error_text e))
        | value target_epoch ↦ do
          result ← attempt (facade.force_change_of_epoch (uint32 target_epoch))
          pure (after_force c' result)
      ]

  abbrev pub cannot_generate_blocks : Context → Error → Context
  cannot_generate_blocks c =
      gin.respond_with_internal_error c (message (codes "cannot generate blocks"))

  unfoldable pub generate_blocks : Handler
  generate_blocks c =
      let num_str = gin.param c (codes "num") in
      if is_empty num_str
      then pure (gin.respond_with_bad_request c (codes "invalid number of blocks"))
      else elim (atoi num_str) [
        | none ↦ pure (gin.respond_with_bad_request c cannot_convert)
        | some num ↦ do
          result ← attempt (facade.generate_blocks num)
          pure (succeed_or c (cannot_generate_blocks c) result)
      ]

  unfoldable pub generate_blocks_until_epoch_reached : Handler
  generate_blocks_until_epoch_reached c =
      let epoch_str = gin.param c (codes "epoch") in
      if is_empty epoch_str
      then pure (gin.respond_with_bad_request c (codes "invalid epoch"))
      else elim (atoi epoch_str) [
        | none ↦ pure (gin.respond_with_bad_request c cannot_convert)
        | some epoch ↦ do
          result ← attempt (facade.generate_blocks_until_epoch_is_reached (int32 epoch))
          pure (succeed_or c (cannot_generate_blocks c) result)
      ]

  unfoldable pub get_max_num_blocks_to_generate : Context → ℤ
  get_max_num_blocks_to_generate c =
      let with_results_str = gin.query c query_param_max_num_blocks in
      if is_empty with_results_str
      then max_num_of_block_to_generate_until_tx_processed
      else elim (atoi with_results_str) [
        | none ↦ max_num_of_block_to_generate_until_tx_processed
        | some max ↦ max
      ]

  unfoldable pub generate_blocks_until_transaction_processed : Handler
  unfolding get_max_num_blocks_to_generate
  generate_blocks_until_transaction_processed c = do
    result ← attempt (
        facade.generate_blocks_until_transaction_is_processed (gin.param c (codes "txHash"))
          (get_max_num_blocks_to_generate c))
    pure (succeed_or c (cannot_generate_blocks c) result)

  unfoldable pub get_observers_info : Handler
  get_observers_info c = do
    observers_data ← attempt facade.get_observers_info
    pure (elim observers_data [
      | error e ↦ gin.respond_with_internal_error c (message (codes "cannot get observers info")) e
      | value info ↦ succeed c (observers info)
    ])

  unfoldable pub initial_wallets : Handler
  initial_wallets c = do keys ← gets facade.get_initial_wallet_keys; pure (succeed c (wallets keys))

  unfoldable pub set_key_value : Handler
  set_key_value c =
      let address = gin.param c (codes "address") in
      if is_empty address
      then pure (gin.respond_with_bad_request c (codes "invalid provided address"))
      else elim (gin.bind_key_values c) [
        | error e ↦ pure (
            gin.respond_with_bad_request c (codes "invalid key value map, error: " ++ error_text e))
        | value key_value_map ↦ do
          result ← attempt (facade.set_key_value_for_address address key_value_map)
          pure (
              succeed_or c
                (gin.respond_with_internal_error c (message (codes "cannot set key value pairs")))
                result)
      ]

  unfoldable pub get_query_param_no_generate : Context → Try Bool
  get_query_param_no_generate c =
      let with_results_str = gin.query c query_param_no_generate in
      if is_empty with_results_str then value false else elim (parse_bool with_results_str) [
        | none ↦ error (parse_bool_error with_results_str)
        | some no_generate ↦ value no_generate
      ]

  abbrev bad_query : Context → Error → Context
  bad_query c e =
      gin.respond_with_bad_request c
        (codes "invalid query parameter noGenerate, error: " ++ error_text e)

  abbrev bad_request : Context → Bytes → Error → Context
  bad_request c what e = gin.respond_with_bad_request c (what ++ error_text e)

  unfoldable pub set_state_multiple : Handler
  unfolding get_query_param_no_generate
  set_state_multiple c = elim (get_query_param_no_generate c) [
    | error e ↦ pure (bad_query c e)
    | value no_generate ↦ elim (gin.bind_states c) [
      | error e ↦ pure (bad_request c (codes "invalid state structure, error: ") e)
      | value state_slice ↦ do
        result ← attempt (facade.set_state_multiple state_slice no_generate)
        pure (succeed_or c (bad_request c (codes "cannot set state, error: ")) result)
    ]
  ]

  unfoldable pub set_state_multiple_overwrite : Handler
  unfolding get_query_param_no_generate
  set_state_multiple_overwrite c = elim (get_query_param_no_generate c) [
    | error e ↦ pure (bad_query c e)
    | value no_generate ↦ elim (gin.bind_states c) [
      | error e ↦ pure (bad_request c (codes "invalid state structure, error: ") e)
      | value state_slice ↦ do
        result ← attempt (facade.set_state_multiple_overwrite state_slice no_generate)
        pure (succeed_or c (bad_request c (codes "cannot overwrite state, error: ")) result)
    ]
  ]

  unfoldable pub add_validator_keys : Handler
  add_validator_keys c = elim (gin.bind_validator_keys c) [
    | error e ↦ pure (bad_request c (codes "invalid validators keys structure, error: ") e)
    | value validators_keys ↦ do
      result ← attempt (facade.add_validator_keys validators_keys)
      pure (succeed_or c (bad_request c (codes "cannot add validator keys, error: ")) result)
  ]

  unfoldable pub force_update_validator_statistics : Handler
  force_update_validator_statistics c = do
    result ← attempt facade.force_update_validator_statistics
    pure (
        succeed_or c
          (bad_request c (codes "cannot force reset the validators statistics cache, error: "))
          result)
