-- ===== src/Api/Interface.antt =====
-- pkg/proxy/api/interface.go, and what the handlers use of gin and of the proxy's response helpers.
use mx_chain_simulator_go.Common.{⊤, ℕ, Bool, Option, List, Bytes}
use mx_chain_simulator_go.Common.Int.{ℤ}
use mx_chain_simulator_go.Common.Outcome.{Error, Action, Try}
use mx_chain_simulator_go.Dtos.{ObserverInfo, ValidatorKeys}
use mx_chain_simulator_go.Facade.Observers.{ShardMap}

-- `SimulatorFacade`, over the state of the simulator behind it.
pub record SimulatorFacade : Type 1 where
  pub State : Type 0
  pub InitialWalletKeys : Type 0
  pub AddressState : Type 0
  pub generate_blocks : ℤ → Action State ⊤
  pub get_initial_wallet_keys : State → InitialWalletKeys
  pub set_key_value_for_address : Bytes → List (Bytes × Bytes) → Action State ⊤
  pub set_state_multiple : List (Option AddressState) → Bool → Action State ⊤
  pub set_state_multiple_overwrite : List (Option AddressState) → Bool → Action State ⊤
  pub add_validator_keys : ValidatorKeys → Action State ⊤
  pub generate_blocks_until_epoch_is_reached : ℤ → Action State ⊤
  pub generate_blocks_until_transaction_is_processed : Bytes → ℤ → Action State ⊤
  pub force_update_validator_statistics : Action State ⊤
  pub get_observers_info : Action State (ShardMap ObserverInfo)
  pub force_change_of_epoch : ℕ → Action State ⊤

-- The `data` of a response: `gin.H{}`, the observers or the wallets.
pub data Payload (Wallets : Type 0) : Type 0 where
  nothing : Payload Wallets
  observers : ShardMap ObserverInfo → Payload Wallets
  wallets : Wallets → Payload Wallets

-- `*gin.Context` with what is read of the request (`Param`, `Request.URL.Query().Get`, and
-- `ShouldBindJSON` at the three types of body), `c.JSON(status, gin.H{"error": text})`, and the
-- functions of the package `shared` with `data.ReturnCodeSuccess`.
pub record Gin (Wallets AddressState : Type 0) : Type 1 where
  pub Context : Type 0
  pub param : Context → Bytes → Bytes
  pub query : Context → Bytes → Bytes
  pub bind_key_values : Context → Try (List (Bytes × Bytes))
  pub bind_states : Context → Try (List (Option AddressState))
  pub bind_validator_keys : Context → Try ValidatorKeys
  pub return_code_success : Bytes
  pub json_error : Context → ℕ → Bytes → Context
  pub respond_with : Context → ℕ → Payload Wallets → Bytes → Bytes → Context
  pub respond_with_bad_request : Context → Bytes → Context
  pub respond_with_internal_error : Context → Error → Error → Context
