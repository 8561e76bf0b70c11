-- ===== src/Testscommon/Node.antt =====
-- testscommon/nodeHandlerStub.go: a node of which only the process components can be given.
use mx_chain_simulator_go.Common.{⊤, ℕ, Option, none, some, List, Bytes}
use mx_chain_simulator_go.Common.Outcome.{Action, pure}

-- `NodeHandler` of mx-chain-go over types of its own; an interface or a map that is nil is `none`.
pub record NodeHandler (State ProcessComponents Component PeerId AddressState : Type 0)
    : Type 0 where
  pub get_network_components : State → Option Component
  pub get_base_peers : State → Option (List (ℕ × PeerId))
  pub set_base_peers : Option (List (ℕ × PeerId)) → State → State
  pub get_process_components : State → Option ProcessComponents
  pub get_chain_handler : State → Option Component
  pub get_broadcast_messenger : State → Option Component
  pub get_shard_coordinator : State → Option Component
  pub get_crypto_components : State → Option Component
  pub get_core_components : State → Option Component
  pub get_data_components : State → Option Component
  pub get_state_components : State → Option Component
  pub get_facade_handler : State → Option Component
  pub get_status_core_components : State → Option Component
  pub set_key_value_for_address : Bytes → List (Bytes × Bytes) → Action State ⊤
  pub set_state_for_address : Bytes → Option AddressState → Action State ⊤
  pub remove_account : Bytes → Action State ⊤
  pub force_change_of_epoch : Action State ⊤
  pub close : Action State ⊤

-- `NodeHandlerStub`
pub record NodeHandlerStub (State ProcessComponents : Type 0) : Type 0 where
  pub get_process_components_called : Option (State → Option ProcessComponents)

module _ {State ProcessComponents : Type 0} where
  abbrev pub get_process_components :
      NodeHandlerStub State ProcessComponents → State → Option ProcessComponents
  get_process_components n s = elim n.get_process_components_called [ none ↦ none | some f ↦ f s ]

  unfoldable pub node_handler_stub :
      {Component PeerId AddressState : Type 0}
      → NodeHandlerStub State ProcessComponents
      → NodeHandler State ProcessComponents Component PeerId AddressState
  node_handler_stub n = record {
    get_network_components = λ s. none;
    get_base_peers = λ s. none;
    set_base_peers = λ peers s. s;
    get_process_components = get_process_components n;
    get_chain_handler = λ s. none;
    get_broadcast_messenger = λ s. none;
    get_shard_coordinator = λ s. none;
    get_crypto_components = λ s. none;
    get_core_components = λ s. none;
    get_data_components = λ s. none;
    get_state_components = λ s. none;
    get_facade_handler = λ s. none;
    get_status_core_components = λ s. none;
    set_key_value_for_address = λ address key_value_map. pure tt;
    set_state_for_address = λ address state. pure tt;
    remove_account = λ address. pure tt;
    force_change_of_epoch = pure tt;
    close = pure tt;
  }
