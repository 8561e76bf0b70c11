-- ===== src/Facade/New.antt =====
-- `NewSimulatorFacade`: the facade that the endpoints are given.
use mx_chain_simulator_go.Common.{⊤, ℕ, Option, none, some}
use mx_chain_simulator_go.Common.Outcome.{Try, value, error}
use mx_chain_simulator_go.Api.Interface.{SimulatorFacade}
use mx_chain_simulator_go.Facade.Interface.{SimulatorHandler, ProxyTransactionsHandler}
use mx_chain_simulator_go.Facade.Defs
use mx_chain_simulator_go.Facade.Defs.{
  err_nil_simulator_handler, err_nil_proxy_transactions_handler,
}

module _ (sim : SimulatorHandler) (transaction_handler : ProxyTransactionsHandler sim.State) where
  -- The facade as its interface; `fuel` bounds the rounds of `ForceChangeOfEpoch`.
  abbrev pub simulator_facade : ℕ → SimulatorFacade
  simulator_facade fuel = record {
    State = sim.State;
    InitialWalletKeys = sim.InitialWalletKeys;
    AddressState = sim.AddressState;
    generate_blocks = Defs.generate_blocks sim;
    get_initial_wallet_keys = Defs.get_initial_wallet_keys sim;
    set_key_value_for_address = Defs.set_key_value_for_address sim;
    set_state_multiple = Defs.set_state_multiple sim;
    set_state_multiple_overwrite = Defs.set_state_multiple_overwrite sim;
    add_validator_keys = Defs.add_validator_keys sim;
    generate_blocks_until_epoch_is_reached = Defs.generate_blocks_until_epoch_is_reached sim;
    generate_blocks_until_transaction_is_processed =
        Defs.generate_blocks_until_transaction_is_processed sim transaction_handler;
    force_update_validator_statistics = Defs.force_update_validator_statistics sim;
    get_observers_info = Defs.get_observers_info sim;
    force_change_of_epoch = Defs.force_change_of_epoch sim fuel;
  }

-- The state of the simulator, if there is one.
abbrev pub StateOf : Option SimulatorHandler → Type 0
StateOf none = ⊤
StateOf (some sim) = sim.State

-- A nil interface is `none`.
unfoldable pub new_simulator_facade :
    ℕ
    → (simulator : Option SimulatorHandler) → Option (ProxyTransactionsHandler (StateOf simulator))
    → Try SimulatorFacade
new_simulator_facade fuel none transaction_handler = error err_nil_simulator_handler
new_simulator_facade fuel (some sim) none = error err_nil_proxy_transactions_handler
new_simulator_facade fuel (some sim) (some handler) = value (simulator_facade sim handler fuel)
