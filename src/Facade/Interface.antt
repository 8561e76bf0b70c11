-- ===== src/Facade/Interface.antt =====
-- pkg/facade/interface.go: what the facade asks of the simulator and of the proxy.
use mx_chain_simulator_go.Common.{⊤, ℕ, List, Option, Bytes}
use mx_chain_simulator_go.Common.Int.{ℤ}
use mx_chain_simulator_go.Common.Outcome.{Action}

-- `SimulatorHandler`. The types are those of mx-chain-go of which the code reads nothing but the
-- address of an `AddressState`, and `metachain_shard_id` is the constant of mx-chain-core-go. An
-- `AddressState` is passed by pointer, which may be nil. `epoch` is the chain
-- `GetProcessComponents().EpochStartTrigger().Epoch()` of a node.
pub record SimulatorHandler : Type 1 where
  pub State : Type 0
  pub InitialWalletKeys : Type 0
  pub AddressState : Type 0
  pub address : AddressState → Bytes
  pub NodeHandler : Type 0
  pub metachain_shard_id : ℕ
  pub get_initial_wallet_keys : State → InitialWalletKeys
  pub generate_blocks : ℤ → Action State ⊤
  pub set_key_value_for_address : Bytes → List (Bytes × Bytes) → Action State ⊤
  pub set_state_multiple : List (Option AddressState) → Action State ⊤
  pub remove_accounts : List Bytes → Action State ⊤
  pub add_validator_keys : List Bytes → Action State ⊤
  pub generate_blocks_until_epoch_is_reached : ℤ → Action State ⊤
  pub force_reset_validator_statistics_cache : Action State ⊤
  pub get_rest_api_interfaces : State → List (ℕ × Bytes)
  pub force_change_of_epoch : Action State ⊤
  pub get_node_handler : State → ℕ → NodeHandler
  pub epoch : State → NodeHandler → ℕ

-- `ProxyTransactionsHandler`, over the simulator's state; it returns the field `Status` of the
-- response. `tx_status_pending` is `transaction.TxStatusPending.String()` of mx-chain-core-go.
pub record ProxyTransactionsHandler (State : Type 0) : Type 0 where
  pub tx_status_pending : Bytes
  pub get_processed_transaction_status : Bytes → Action State Bytes
