-- ===== src/Configs/ProxyConfigs.antt =====
-- pkg/proxy/configs/configs.go: the proxy's configuration, its list of observers and its wallet file.
pub mod Laws
use mx_chain_simulator_go.Common.{
  ⊤, ℕ, ◌+◌, Bool, true, Option, none, some, List, [], ◌∷◌, ◌++◌, Bytes, codes, length,
}
use mx_chain_simulator_go.Common.Int.{ℤ}
use mx_chain_simulator_go.Common.Outcome.{Outcome, Action, pure, crash, lift, ◌>>=◌, ◌>>◌, Try}
use mx_chain_simulator_go.Facade.Observers.{ShardMap}
use mx_chain_simulator_go.Go.Os.{Node, FilePath}
use mx_chain_simulator_go.Go.Os.Files.{open_write, write_at}
use mx_chain_simulator_go.Go.Pem
use mx_chain_simulator_go.Configs.Copy.{on_tree}

abbrev pub http_prefix : Bytes
http_prefix = codes "http://"

abbrev pub wallet_pem : Bytes
wallet_pem = codes "walletKey.pem"

-- `data.NodeData` of mx-chain-proxy-go, as it is filled here.
pub record NodeData : Type 0 where
  pub shard_id : ℕ
  pub address : Bytes
  pub is_synced : Bool

-- `config.Config` of mx-chain-proxy-go: the fields that are set here, and the rest.
pub record ProxyConfig (Rest : Type 0) : Type 0 where
  pub allow_entire_tx_pool_fetch : Bool
  pub server_port : ℤ
  pub observers : List NodeData
  pub rest : Rest

-- What is read of a `dtos.WalletKey` of mx-chain-go.
pub record WalletKey : Type 0 where
  pub bech32 : Bytes
  pub private_key_hex : Bytes

-- `ArgsProxyConfigs`; a map is the list of its entries in the order of one visit, and a wallet is a
-- pointer.
pub record ArgsProxyConfigs : Type 0 where
  pub tem_dir : FilePath
  pub path_to_proxy_config : FilePath
  pub server_port : ℤ
  pub rest_api_interfaces : ShardMap Bytes
  pub initial_wallets : ShardMap (Option WalletKey)

pub record ArgsOutputConfig (Rest : Type 0) : Type 0 where
  pub config : ProxyConfig Rest
  pub path_to_temp_config : FilePath
  pub path_to_pem_file : FilePath

abbrev pub pem_block : WalletKey → Bytes
pem_block wallet = Pem.encode (codes "PRIVATE KEY for " ++ wallet.bech32) wallet.private_key_hex

-- The loop, with the file's offset; a nil wallet panics.
unfoldable pub write_wallets : FilePath → ℕ → ShardMap (Option WalletKey) → Action Node ⊤
unfolding write_at
write_wallets file_name offset [] = pure tt
write_wallets file_name offset ((_, none) ∷ wallets) = crash
write_wallets file_name offset ((_, some wallet) ∷ wallets) =
    on_tree (write_at file_name offset (pem_block wallet))
    >> write_wallets file_name (offset + length (pem_block wallet)) wallets

unfoldable pub generate_pem_from_initial_address :
    FilePath → ShardMap (Option WalletKey) → Action Node ⊤
unfolding open_write write_wallets
generate_pem_from_initial_address file_name initial_addresses =
    on_tree (open_write file_name) >> write_wallets file_name 0 initial_addresses

abbrev pub observer : ℕ × Bytes → NodeData
observer (shard, node_api_interface) = record {
  shard_id = shard;
  address = http_prefix ++ node_api_interface;
  is_synced = true;
}

-- The loop over the interfaces, with the observers so far.
unfoldable pub add_observers : List NodeData → ShardMap Bytes → List NodeData
add_observers observers [] = observers
add_observers observers (interface ∷ interfaces) =
    add_observers (observers ++ observer interface ∷ []) interfaces

abbrev pub new_configs_path : ArgsProxyConfigs → FilePath
new_configs_path args = args.tem_dir ++ codes "proxyConfig" ∷ []

-- The command `cp -r`, and the reader of the TOML file.
module _ {Rest : Type 0} (copy_command : FilePath → FilePath → Action Node ⊤)
    (load_toml_file : FilePath → Node → Try (ProxyConfig Rest)) where
  unfoldable pub create_proxy_configs : ArgsProxyConfigs → Action Node (ArgsOutputConfig Rest)
  unfolding generate_pem_from_initial_address add_observers
  create_proxy_configs args = do
    copy_command args.path_to_proxy_config (new_configs_path args)
    cfg ← (λ fs. lift (load_toml_file (new_configs_path args ++ codes "config.toml" ∷ []) fs) fs)
    generate_pem_from_initial_address (new_configs_path args ++ wallet_pem ∷ [])
        args.initial_wallets
    pure (record {
      config = record cfg {
        allow_entire_tx_pool_fetch = true;
        server_port = args.server_port;
        observers = add_observers [] args.rest_api_interfaces;
      };
      path_to_temp_config = new_configs_path args;
      path_to_pem_file = new_configs_path args ++ wallet_pem ∷ [];
    })
