-- ===== src/Configs/ProxyConfigs/Laws.antt =====
-- The observers and the wallet file that the proxy is given.
use mx_chain_simulator_go.Common.{
  ⊤, ℕ, ◌+◌, ◌≡◌, refl, sym, true, Option, some, List, [], ◌∷◌, ◌++◌, map, append-nil, append_assoc,
  Bytes, codes, length, arith,
}
use mx_chain_simulator_go.Common.Outcome.{ok, Action, Try, value}
use mx_chain_simulator_go.Facade.Observers.{ShardMap}
use mx_chain_simulator_go.Go.Os.{Node, file, dir, Entries, FilePath, found, missing, find, stat}
use mx_chain_simulator_go.Go.Os.Files.{open_write, write_at_end, open_write_new}
use mx_chain_simulator_go.Configs.ProxyConfigs.{
  NodeData, ProxyConfig, WalletKey, ArgsProxyConfigs, pem_block, write_wallets,
  generate_pem_from_initial_address, observer, add_observers, new_configs_path,
  create_proxy_configs, wallet_pem,
}

-- No wallet is nil.
abbrev pub present : ShardMap WalletKey → ShardMap (Option WalletKey)
present [] = []
present ((shard, wallet) ∷ wallets) = (shard, some wallet) ∷ present wallets

-- The blocks of the wallets, one behind the other.
abbrev pub blocks : ShardMap WalletKey → Bytes
blocks [] = []
blocks ((_, wallet) ∷ wallets) = pem_block wallet ++ blocks wallets

length-append : (s t : Bytes) → length (s ++ t) ≡ length s + length t
length-append [] t = omega arith
length-append (c ∷ s) t = ground (arith, length-append s t)

write_wallets-blocks :
    (p : FilePath) (fs : Node) (w : Bytes) (wallets : ShardMap WalletKey)
    → stat p fs ≡ found (file w)
    → (fs' : Node) × (write_wallets p (length w) (present wallets) fs ≡ (ok tt, fs'))
      × (stat p fs' ≡ found (file (w ++ blocks wallets)))
unfolding write_wallets
write_wallets-blocks p fs w [] h = (fs, refl, rw (append-nil w) h)
write_wallets-blocks p fs w ((shard, wallet) ∷ wallets) h =
    let (fs1, written, there) = write_at_end p fs w (pem_block wallet) h in
    let (fs2, rest, all) = write_wallets-blocks p fs1 (w ++ pem_block wallet) wallets there in
    (
      fs2,
      ground (arith, written, rest, length-append w (pem_block wallet)),
      rw (sym (append_assoc w (pem_block wallet) (blocks wallets))) all,
    )

add_observers-map :
    (observers : List NodeData) (interfaces : ShardMap Bytes)
    → add_observers observers interfaces ≡ observers ++ map observer interfaces
unfolding add_observers
add_observers-map observers [] = sym (append-nil observers)
add_observers-map observers (i ∷ is) =
    rw (add_observers-map (observers ++ observer i ∷ []) is)
      (append_assoc observers (observer i ∷ []) (map observer is))

module _ {Rest : Type 0} (copy_command : FilePath → FilePath → Action Node ⊤)
    (load_toml_file : FilePath → Node → Try (ProxyConfig Rest)) where
  -- If the command copies the proxy's folder to the temporary one, a directory with no wallet file,
  -- whose configuration can be read, and no wallet is nil, then the configuration is the one read, with
  -- the port that was asked for, fetches of the whole pool allowed, and one synced observer for each
  -- interface, at its address behind the prefix; the wallet file holds the blocks of the wallets in the
  -- order of the visit, and nothing else.
  pub create_proxy_configs-blocks :
      (args : ArgsProxyConfigs) (wallets : ShardMap WalletKey) (fs fs1 : Node) (mode : ℕ)
      (es : Entries) (cfg : ProxyConfig Rest)
      → copy_command args.path_to_proxy_config (new_configs_path args) fs ≡ (ok tt, fs1)
      → stat (new_configs_path args) fs1 ≡ found (dir mode es)
      → find wallet_pem es ≡ missing
      → load_toml_file (new_configs_path args ++ codes "config.toml" ∷ []) fs1 ≡ value cfg
      → args.initial_wallets ≡ present wallets
      → (fs' : Node) × (create_proxy_configs copy_command load_toml_file args fs ≡ (
        ok (record {
          config = record cfg {
            allow_entire_tx_pool_fetch = true;
            server_port = args.server_port;
            observers = map observer args.rest_api_interfaces;
          };
          path_to_temp_config = new_configs_path args;
          path_to_pem_file = new_configs_path args ++ wallet_pem ∷ [];
        }),
        fs',
      ))
        × (stat (new_configs_path args ++ wallet_pem ∷ []) fs' ≡ found (file (blocks wallets)))
  unfolding create_proxy_configs generate_pem_from_initial_address open_write
  create_proxy_configs-blocks args wallets fs fs1 mode es cfg copied there fresh read given =
      let (fs2, made, absent, empty) =
        open_write_new (new_configs_path args) wallet_pem fs1 mode es there fresh in
      let (fs3, written, all) =
        write_wallets-blocks (new_configs_path args ++ wallet_pem ∷ []) fs2 [] wallets empty in
      (
        fs3,
        ground (
          arith,
          copied,
          read,
          given,
          made,
          absent,
          written,
          add_observers-map [] args.rest_api_interfaces,
        ),
        all,
      )
