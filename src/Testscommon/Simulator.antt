-- ===== src/Testscommon/Simulator.antt =====
-- testscommon/simulatorHandlerMock.go: each method calls its function if one is set, and else returns
-- nil.
use mx_chain_simulator_go.Common.{⊤, ℕ, ◌≡◌, refl, Option, none, some, List, [], Bytes}
use mx_chain_simulator_go.Common.Int.{ℤ}
use mx_chain_simulator_go.Common.Outcome.{Action, pure}
use mx_chain_simulator_go.Facade.Interface.{SimulatorHandler}

-- A function that is nil is `none`.
pub record SimulatorHandlerMock (State Keys AddressState NodeHandler : Type 0) : Type 0 where
  pub get_initial_wallet_keys_called : Option (State → Keys)
  pub generate_blocks_called : Option (ℤ → Action State ⊤)
  pub set_key_value_for_address_called : Option (Bytes → List (Bytes × Bytes) → Action State ⊤)
  pub set_state_multiple_called : Option (List (Option AddressState) → Action State ⊤)
  pub add_validator_keys_called : Option (List Bytes → Action State ⊤)
  pub generate_blocks_until_epoch_is_reached_called : Option (ℤ → Action State ⊤)
  pub force_reset_validator_statistics_cache_called : Option (Action State ⊤)
  pub remove_accounts_called : Option (List Bytes → Action State ⊤)
  pub get_rest_api_interfaces_called : Option (State → List (ℕ × Bytes))
  pub force_change_of_epoch_called : Option (Action State ⊤)
  pub get_node_handler_called : Option (State → ℕ → NodeHandler)

-- The function, or what is done where it is nil.
abbrev called {ℓ} : {F : Type ℓ} → Option F → F → F
called none otherwise = otherwise
called (some f) otherwise = f

module _ {State Keys AddressState NodeHandler : Type 0} where
  -- No function is set.
  abbrev pub empty_mock : SimulatorHandlerMock State Keys AddressState NodeHandler
  empty_mock = record {
    get_initial_wallet_keys_called = none;
    generate_blocks_called = none;
    set_key_value_for_address_called = none;
    set_state_multiple_called = none;
    add_validator_keys_called = none;
    generate_blocks_until_epoch_is_reached_called = none;
    force_reset_validator_statistics_cache_called = none;
    remove_accounts_called = none;
    get_rest_api_interfaces_called = none;
    force_change_of_epoch_called = none;
    get_node_handler_called = none;
  }

  module _ (mock : SimulatorHandlerMock State Keys AddressState NodeHandler) where
    abbrev pub get_node_handler : NodeHandler → State → ℕ → NodeHandler
    get_node_handler nil_node = called mock.get_node_handler_called (λ s shard. nil_node)

    abbrev pub force_change_of_epoch : Action State ⊤
    force_change_of_epoch = called mock.force_change_of_epoch_called (pure tt)

    abbrev pub get_rest_api_interfaces : State → List (ℕ × Bytes)
    get_rest_api_interfaces = called mock.get_rest_api_interfaces_called (λ s. [])

    abbrev pub remove_accounts : List Bytes → Action State ⊤
    remove_accounts = called mock.remove_accounts_called (λ addresses. pure tt)

    abbrev pub get_initial_wallet_keys : Keys → State → Keys
    get_initial_wallet_keys nil_keys = called mock.get_initial_wallet_keys_called (λ s. nil_keys)

    abbrev pub generate_blocks : ℤ → Action State ⊤
    generate_blocks = called mock.generate_blocks_called (λ num_of_blocks. pure tt)

    abbrev pub set_key_value_for_address : Bytes → List (Bytes × Bytes) → Action State ⊤
    set_key_value_for_address =
        called mock.set_key_value_for_address_called (λ address key_value_map. pure tt)

    abbrev pub set_state_multiple : List (Option AddressState) → Action State ⊤
    set_state_multiple = called mock.set_state_multiple_called (λ state_slice. pure tt)

    abbrev pub add_validator_keys : List Bytes → Action State ⊤
    add_validator_keys = called mock.add_validator_keys_called (λ validators_private_keys. pure tt)

    abbrev pub generate_blocks_until_epoch_is_reached : ℤ → Action State ⊤
    generate_blocks_until_epoch_is_reached =
        called mock.generate_blocks_until_epoch_is_reached_called (λ target_epoch. pure tt)

    abbrev pub force_reset_validator_statistics_cache : Action State ⊤
    force_reset_validator_statistics_cache =
        called mock.force_reset_validator_statistics_cache_called (pure tt)

  -- The mock as the facade's `SimulatorHandler`. The nil values, and what the code reads of an
  -- `AddressState` and of a node, are those of mx-chain-go.
  abbrev pub simulator_handler_mock :
      Keys
      → NodeHandler
      → (AddressState → Bytes)
      → ℕ
      → (State → NodeHandler → ℕ)
      → SimulatorHandlerMock State Keys AddressState NodeHandler
      → SimulatorHandler
  simulator_handler_mock nil_keys nil_node address metachain_shard_id epoch mock = record {
    State = State;
    InitialWalletKeys = Keys;
    AddressState = AddressState;
    address = address;
    NodeHandler = NodeHandler;
    metachain_shard_id = metachain_shard_id;
    get_initial_wallet_keys = get_initial_wallet_keys mock nil_keys;
    generate_blocks = generate_blocks mock;
    set_key_value_for_address = set_key_value_for_address mock;
    set_state_multiple = set_state_multiple mock;
    remove_accounts = remove_accounts mock;
    add_validator_keys = add_validator_keys mock;
    generate_blocks_until_epoch_is_reached = generate_blocks_until_epoch_is_reached mock;
    force_reset_validator_statistics_cache = force_reset_validator_statistics_cache mock;
    get_rest_api_interfaces = get_rest_api_interfaces mock;
    force_change_of_epoch = force_change_of_epoch mock;
    get_node_handler = get_node_handler mock nil_node;
    epoch = epoch;
  }

-- The mock that is given all methods of a simulator.
abbrev pub mock_of :
    (sim : SimulatorHandler)
    → SimulatorHandlerMock sim.State sim.InitialWalletKeys sim.AddressState sim.NodeHandler
mock_of sim = record {
  get_initial_wallet_keys_called = some sim.get_initial_wallet_keys;
  generate_blocks_called = some sim.generate_blocks;
  set_key_value_for_address_called = some sim.set_key_value_for_address;
  set_state_multiple_called = some sim.set_state_multiple;
  add_validator_keys_called = some sim.add_validator_keys;
  generate_blocks_until_epoch_is_reached_called = some sim.generate_blocks_until_epoch_is_reached;
  force_reset_validator_statistics_cache_called = some sim.force_reset_validator_statistics_cache;
  remove_accounts_called = some sim.remove_accounts;
  get_rest_api_interfaces_called = some sim.get_rest_api_interfaces;
  force_change_of_epoch_called = some sim.force_change_of_epoch;
  get_node_handler_called = some sim.get_node_handler;
}

-- A mock that is given all methods of a simulator is that simulator, whatever the nil values are.
pub simulator_handler_mock-mock_of :
    (sim : SimulatorHandler) (nil_keys : sim.InitialWalletKeys) (nil_node : sim.NodeHandler)
    → simulator_handler_mock nil_keys nil_node sim.address sim.metachain_shard_id sim.epoch
        (mock_of sim)
      ≡ sim
simulator_handler_mock-mock_of sim nil_keys nil_node = refl
