-- ===== src/Api/Routes.antt =====
-- `NewEndpointsProcessor`, `ExtendProxyServer` and `registerLoggerWsRoute`: which handler serves
-- which route.
use mx_chain_simulator_go.Common.{true, Bool, Option, none, some, Bytes, codes}
use mx_chain_simulator_go.Common.Outcome.{message, Action, pure, Try, value, error}
use mx_chain_simulator_go.Api.Interface.{SimulatorFacade, Gin}
use mx_chain_simulator_go.Api.Endpoints
use mx_chain_simulator_go.Api.Endpoints.{Handler}

abbrev pub generate_blocks_endpoint : Bytes
generate_blocks_endpoint = codes "/simulator/generate-blocks/:num"

abbrev pub generate_blocks_until_epoch_reached_endpoint : Bytes
generate_blocks_until_epoch_reached_endpoint =
    codes "/simulator/generate-blocks-until-epoch-reached/:epoch"

abbrev pub generate_blocks_until_transaction_processed_endpoint : Bytes
generate_blocks_until_transaction_processed_endpoint =
    codes "/simulator/generate-blocks-until-transaction-processed/:txHash"

abbrev pub initial_wallets_endpoint : Bytes
initial_wallets_endpoint = codes "/simulator/initial-wallets"

abbrev pub set_key_values_endpoint : Bytes
set_key_values_endpoint = codes "/simulator/address/:address/set-state"

abbrev pub set_state_multiple_endpoint : Bytes
set_state_multiple_endpoint = codes "/simulator/set-state"

abbrev pub set_state_multiple_overwrite_endpoint : Bytes
set_state_multiple_overwrite_endpoint = codes "/simulator/set-state-overwrite"

abbrev pub add_validators_keys : Bytes
add_validators_keys = codes "/simulator/add-keys"

abbrev pub force_update_validator_statistics_endpoint : Bytes
force_update_validator_statistics_endpoint = codes "/simulator/force-reset-validator-statistics"

abbrev pub observers_info_endpoint : Bytes
observers_info_endpoint = codes "/simulator/observers"

abbrev pub epoch_change : Bytes
epoch_change = codes "/simulator/force-epoch-change"

-- The handlers that `ExtendProxyServer` registers.
pub data Endpoint : Type 0 where
  generate_blocks : Endpoint
  generate_blocks_until_epoch_reached : Endpoint
  generate_blocks_until_transaction_processed : Endpoint
  initial_wallets : Endpoint
  set_key_value : Endpoint
  set_state_multiple : Endpoint
  set_state_multiple_overwrite : Endpoint
  add_validator_keys : Endpoint
  force_update_validator_statistics : Endpoint
  get_observers_info : Endpoint
  force_epoch_change : Endpoint
  log_stream : Endpoint

-- What the log route uses of the websocket and of the log sender of mx-chain-go. `upgrade` is given
-- the answer of `CheckOrigin`; `start_sending_blocking` sends until the connection ends.
pub record LogStream (State Context : Type 0) : Type 1 where
  pub Conn : Type 0
  pub Sender : Type 0
  pub upgrade : Bool → Context → Context × Try Conn
  pub new_log_sender : Conn → Try Sender
  pub start_sending_blocking : Sender → Context → Action State Context

-- `*gin.Engine` behind `http.Server`: the cast, and the registration of a handler for a path.
pub record Router : Type 1 where
  pub Server : Type 0
  pub Engine : Type 0
  pub as_engine : Server → Option Engine
  pub post : Bytes → Endpoint → Engine → Engine
  pub get : Bytes → Endpoint → Engine → Engine

module _ (facade : SimulatorFacade) (gin : Gin facade.InitialWalletKeys facade.AddressState)
    (logs : LogStream facade.State gin.Context) where
  -- The closure of `registerLoggerWsRoute`; an error is logged and the request is over.
  unfoldable pub serve_log : Handler facade gin
  serve_log c =
      let (c', conn) = logs.upgrade true c in
      elim conn [
        | error _ ↦ pure c'
        | value conn ↦ elim (logs.new_log_sender conn) [
          | error _ ↦ pure c'
          | value ls ↦ logs.start_sending_blocking ls c'
        ]
      ]

  -- The handler that a registered endpoint names.
  unfoldable pub handle : Endpoint → Handler facade gin
  handle generate_blocks = Endpoints.generate_blocks facade gin
  handle generate_blocks_until_epoch_reached =
      Endpoints.generate_blocks_until_epoch_reached facade gin
  handle generate_blocks_until_transaction_processed =
      Endpoints.generate_blocks_until_transaction_processed facade gin
  handle initial_wallets = Endpoints.initial_wallets facade gin
  handle set_key_value = Endpoints.set_key_value facade gin
  handle set_state_multiple = Endpoints.set_state_multiple facade gin
  handle set_state_multiple_overwrite = Endpoints.set_state_multiple_overwrite facade gin
  handle add_validator_keys = Endpoints.add_validator_keys facade gin
  handle force_update_validator_statistics = Endpoints.force_update_validator_statistics facade gin
  handle get_observers_info = Endpoints.get_observers_info facade gin
  handle force_epoch_change = Endpoints.force_epoch_change facade gin
  handle log_stream = serve_log

-- `endpointsProcessor`
pub record EndpointsProcessor : Type 1 where
  pub facade : SimulatorFacade

unfoldable pub new_endpoints_processor : SimulatorFacade → Try EndpointsProcessor
new_endpoints_processor facade = value (record { facade = facade })

module _ (router : Router) where
  open router use {Server, Engine, as_engine, post, get}

  unfoldable pub register_logger_ws_route : Engine → Engine
  register_logger_ws_route = get (codes "/log") log_stream

  -- The registrations, in the order of the source.
  unfoldable pub register : Engine → Engine
  unfolding register_logger_ws_route
  register ws =
      let ws = post generate_blocks_endpoint generate_blocks ws in
      let ws =
        post generate_blocks_until_epoch_reached_endpoint generate_blocks_until_epoch_reached ws in
      let ws =
        post generate_blocks_until_transaction_processed_endpoint
          generate_blocks_until_transaction_processed ws in
      let ws = get initial_wallets_endpoint initial_wallets ws in
      let ws = post set_key_values_endpoint set_key_value ws in
      let ws = post set_state_multiple_endpoint set_state_multiple ws in
      let ws = post set_state_multiple_overwrite_endpoint set_state_multiple_overwrite ws in
      let ws = post add_validators_keys add_validator_keys ws in
      let ws =
        post force_update_validator_statistics_endpoint force_update_validator_statistics ws in
      let ws = get observers_info_endpoint get_observers_info ws in
      let ws = post epoch_change force_epoch_change ws in register_logger_ws_route ws

  unfoldable pub extend_proxy_server : Server → Try Engine
  unfolding register
  extend_proxy_server http_server = elim (as_engine http_server) [
    | none ↦ error (message (codes "cannot cast httpServer.Handler to gin.Engine"))
    | some ws ↦ value (register ws)
  ]
