-- ===== src/Api/RouteLaws.antt =====
-- Which handler the proxy's server has for which method and path.
use mx_chain_simulator_go.Common.{
  ◌≡◌, Bool, true, false, ◌&&◌, Option, some, Bytes, codes, bytes_eq, arith, if◌then◌else◌,
}
use mx_chain_simulator_go.Common.Outcome.{value}
use mx_chain_simulator_go.Api.Routes.{
  Endpoint, Router, generate_blocks, generate_blocks_until_epoch_reached,
  generate_blocks_until_transaction_processed, initial_wallets, set_key_value, set_state_multiple,
  set_state_multiple_overwrite, add_validator_keys, force_update_validator_statistics,
  get_observers_info, force_epoch_change, log_stream, register, register_logger_ws_route,
  extend_proxy_server,
}

pub data Method : Type 0 where
  get_method : Method
  post_method : Method

abbrev pub is_get : Method → Bool
is_get get_method = true
is_get post_method = false

abbrev pub is_post : Method → Bool
is_post get_method = false
is_post post_method = true

-- The methods and the paths as a client knows them.
abbrev pub method_of : Endpoint → Method
method_of initial_wallets = get_method
method_of get_observers_info = get_method
method_of log_stream = get_method
method_of _ = post_method

abbrev pub path_of : Endpoint → Bytes
path_of generate_blocks = codes "/simulator/generate-blocks/:num"
path_of generate_blocks_until_epoch_reached =
    codes "/simulator/generate-blocks-until-epoch-reached/:epoch"
path_of generate_blocks_until_transaction_processed =
    codes "/simulator/generate-blocks-until-transaction-processed/:txHash"
path_of initial_wallets = codes "/simulator/initial-wallets"
path_of set_key_value = codes "/simulator/address/:address/set-state"
path_of set_state_multiple = codes "/simulator/set-state"
path_of set_state_multiple_overwrite = codes "/simulator/set-state-overwrite"
path_of add_validator_keys = codes "/simulator/add-keys"
path_of force_update_validator_statistics = codes "/simulator/force-reset-validator-statistics"
path_of get_observers_info = codes "/simulator/observers"
path_of force_epoch_change = codes "/simulator/force-epoch-change"
path_of log_stream = codes "/log"

module _ (router : Router) where
  open router use {Server, Engine, as_engine, post, get}

  -- What gin documents: a registration serves its method and path, and changes no other.
  pub record Serving : Type 0 where
    pub served : Engine → Method → Bytes → Option Endpoint
    pub post_adds :
        (p : Bytes) (e : Endpoint) (ws : Engine) (m : Method) (q : Bytes)
        → served (post p e ws) m q ≡ (if is_post m && bytes_eq q p then some e else served ws m q)
    pub get_adds :
        (p : Bytes) (e : Endpoint) (ws : Engine) (m : Method) (q : Bytes)
        → served (get p e ws) m q ≡ (if is_get m && bytes_eq q p then some e else served ws m q)

  module _ (s : Serving) where
    open s use {served, post_adds, get_adds}

    -- On a router where a registration serves its method and path and no other: a server whose handler
    -- is an engine is extended, and behind that each endpoint is what serves its own method and path,
    -- so none hides another.
    pub extend_proxy_server-path_of :
        (server : Server) (ws : Engine) (e : Endpoint)
        → as_engine server ≡ some ws
        → (ws' : Engine) × (extend_proxy_server router server ≡ value ws')
          × (served ws' (method_of e) (path_of e) ≡ some e)
    unfolding extend_proxy_server register register_logger_ws_route
    extend_proxy_server-path_of server ws e engine =
        (register router ws, ground (arith, engine), each_served ws e)
      where
        each_served :
            (ws : Engine) (e : Endpoint)
            → served (register router ws) (method_of e) (path_of e) ≡ some e
        each_served ws generate_blocks = simp (post_adds, get_adds)
        each_served ws generate_blocks_until_epoch_reached = simp (post_adds, get_adds)
        each_served ws generate_blocks_until_transaction_processed = simp (post_adds, get_adds)
        each_served ws initial_wallets = simp (post_adds, get_adds)
        each_served ws set_key_value = simp (post_adds, get_adds)
        each_served ws set_state_multiple = simp (post_adds, get_adds)
        each_served ws set_state_multiple_overwrite = simp (post_adds, get_adds)
        each_served ws add_validator_keys = simp (post_adds, get_adds)
        each_served ws force_update_validator_statistics = simp (post_adds, get_adds)
        each_served ws get_observers_info = simp (post_adds, get_adds)
        each_served ws force_epoch_change = simp (post_adds, get_adds)
        each_served ws log_stream = simp (get_adds)
