-- ===== src/Facade/Defs.antt =====
-- The facade's methods.
use mx_chain_simulator_go.Common.{
  ⊤, ℕ, zero, suc, Bool, true, false, Option, none, some, List, [], ◌∷◌, ◌++◌, Bytes, codes,
  bytes_eq, not, ltb, leb, ◌==◌, if◌then◌else◌,
}
use mx_chain_simulator_go.Common.Int.{ℤ, pos, is_nonpositive, rounds}
use mx_chain_simulator_go.Common.Outcome.{
  Error, message, error_text, ok, runs_on, Action, pure, fail, crash, gets, ◌>>=◌, ◌>>◌, Try, value,
  error, attempt, lift,
}
use mx_chain_simulator_go.Dtos.{ObserverInfo, ValidatorKeys}
use mx_chain_simulator_go.Facade.Interface.{SimulatorHandler, ProxyTransactionsHandler}
use mx_chain_simulator_go.Facade.Keys.{decode_keys}
use mx_chain_simulator_go.Facade.Observers.{ShardMap, observers_info}
use mx_chain_simulator_go.Go.Strings.{contains}
use mx_chain_simulator_go.Go.Strconv.{format_uint}

abbrev pub err_msg_target_epoch_lower_than_current_epoch : Bytes
err_msg_target_epoch_lower_than_current_epoch =
    codes "target epoch must be greater than current epoch"

abbrev pub err_msg_account_not_found : Bytes
err_msg_account_not_found = codes "account was not found"

abbrev pub err_pending_transaction : Error
err_pending_transaction = message (codes "something went wrong, transaction is still in pending")

abbrev pub err_nil_simulator_handler : Error
err_nil_simulator_handler = message (codes "nil simulator handler ")

abbrev pub err_invalid_num_of_blocks : Error
err_invalid_num_of_blocks = message (codes "num of blocks must be greater than zero")

abbrev pub err_nil_proxy_transactions_handler : Error
err_nil_proxy_transactions_handler = message (codes "nil proxy transactions handler ")

-- `fmt.Errorf("%s, current epoch: %d target epoch: %d", ...)`
abbrev pub target_epoch_error : ℕ → ℕ → Error
target_epoch_error current target = message (
    err_msg_target_epoch_lower_than_current_epoch
    ++ (codes ", current epoch: "
        ++ (format_uint current ++ (codes " target epoch: " ++ format_uint target))))

module _ (sim : SimulatorHandler) where
  open sim use {State, AddressState}

  unfoldable pub generate_blocks : ℤ → Action State ⊤
  generate_blocks num_of_blocks =
      if is_nonpositive num_of_blocks
      then fail err_invalid_num_of_blocks
      else sim.generate_blocks num_of_blocks

  -- The methods that pass the call on.
  unfoldable pub get_initial_wallet_keys : State → sim.InitialWalletKeys
  get_initial_wallet_keys = sim.get_initial_wallet_keys

  unfoldable pub set_key_value_for_address : Bytes → List (Bytes × Bytes) → Action State ⊤
  set_key_value_for_address = sim.set_key_value_for_address

  unfoldable pub generate_blocks_until_epoch_is_reached : ℤ → Action State ⊤
  generate_blocks_until_epoch_is_reached = sim.generate_blocks_until_epoch_is_reached

  unfoldable pub force_update_validator_statistics : Action State ⊤
  force_update_validator_statistics = sim.force_reset_validator_statistics_cache

  -- What `SetStateMultiple` and `SetStateMultipleOverwrite` end in.
  unfoldable pub set_state_multiple : List (Option AddressState) → Bool → Action State ⊤
  set_state_multiple state_slice no_generate =
      sim.set_state_multiple state_slice
      >> (if no_generate then pure tt else sim.generate_blocks (pos 1))

  -- `err != nil && !strings.Contains(err.Error(), errMsgAccountNotFound)`
  unfoldable pub should_return_err : Error → Bool
  should_return_err e = not (contains (error_text e) err_msg_account_not_found)

  abbrev pub returned : Try ⊤ → Action State ⊤
  returned (value _) = pure tt
  returned (error e) = if should_return_err e then fail e else pure tt

  -- A round of the loop of `SetStateMultipleOverwrite`.
  unfoldable pub remove_account : AddressState → Action State ⊤
  unfolding should_return_err
  remove_account state = attempt (sim.remove_accounts (sim.address state ∷ [])) >>= returned

  -- The loop; `state.Address` of a nil pointer panics.
  unfoldable pub remove_all : List (Option AddressState) → Action State ⊤
  remove_all [] = pure tt
  remove_all (none ∷ states) = crash
  remove_all (some state ∷ states) = remove_account state >> remove_all states

  unfoldable pub set_state_multiple_overwrite : List (Option AddressState) → Bool → Action State ⊤
  unfolding remove_all set_state_multiple
  set_state_multiple_overwrite state_slice no_generate =
      remove_all state_slice >> set_state_multiple state_slice no_generate

  unfoldable pub add_validator_keys : ValidatorKeys → Action State ⊤
  add_validator_keys validators = do
    keys ← lift (decode_keys 0 validators.private_keys_base64 [])
    sim.add_validator_keys keys

  abbrev pub get_current_epoch : State → ℕ
  get_current_epoch s = sim.epoch s (sim.get_node_handler s sim.metachain_shard_id)

  -- `for currentEpoch < targetEpoch { ... }`
  unfoldable pub force_loop : ℕ → ℕ → ℕ → Action State ⊤
  force_loop zero target current s = if ltb current target then (runs_on, s) else (ok tt, s)
  force_loop (suc fuel) target current s = elim (ltb current target) [
    | true ↦
        (do sim.force_change_of_epoch; next ← gets get_current_epoch; force_loop fuel target next) s
    | false ↦ (ok tt, s)
  ]

  unfoldable pub force_change_of_epoch : ℕ → ℕ → Action State ⊤
  unfolding force_loop
  force_change_of_epoch fuel target s =
      if target == 0
      then sim.force_change_of_epoch s
      else let current = get_current_epoch s in
        if leb target current
        then fail (target_epoch_error current target) s
        else force_loop fuel target current s

  unfoldable pub get_observers_info : Action State (ShardMap ObserverInfo)
  get_observers_info s = lift (observers_info (sim.get_rest_api_interfaces s) []) s

  module _ (transaction_handler : ProxyTransactionsHandler State) where
    open transaction_handler use {tx_status_pending, get_processed_transaction_status}

    -- `for i := 0; i < maxNumOfBlocksToGenerate; i++ { ... }`, by the rounds left.
    unfoldable pub until_processed : ℕ → Bytes → Action State ⊤
    unfolding generate_blocks
    until_processed zero tx_hash = fail err_pending_transaction
    until_processed (suc left) tx_hash = do
      status ← get_processed_transaction_status tx_hash
      elim (bytes_eq status tx_status_pending) [
        | false ↦ pure tt
        | true ↦ generate_blocks (pos 1) >> until_processed left tx_hash
      ]

    unfoldable pub generate_blocks_until_transaction_is_processed : Bytes → ℤ → Action State ⊤
    unfolding until_processed
    generate_blocks_until_transaction_is_processed tx_hash max_num_of_blocks_to_generate =
        until_processed (rounds max_num_of_blocks_to_generate) tx_hash
