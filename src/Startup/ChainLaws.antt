-- ===== src/Startup/ChainLaws.antt =====
-- The system accounts of a chain that is made, and the address of the proxy.
use mx_chain_simulator_go.Common.{
  ℕ, zero, suc, ◌+◌, ◌≡◌, ◌∙◌, refl, Bool, false, ◌&&◌, ◌||◌, none, some, ◌++◌, Bytes, codes, arith,
  ltb, leb, ◌==◌, if◌then◌else◌,
}
use mx_chain_simulator_go.Common.Int.{ℤ, pos, negsuc, uint32, IsInt64}
use mx_chain_simulator_go.Common.Outcome.{Error, ok, value}
use mx_chain_simulator_go.Go.Strconv.{itoa}
use mx_chain_simulator_go.Go.Strconv.Laws.{atoi-itoa}
use mx_chain_simulator_go.Process.Factory.{AnyGenerator, create_blocks_generator}
use mx_chain_simulator_go.Facade.Interface.{SimulatorHandler}
use mx_chain_simulator_go.Startup.Flags.{CliContext}
use mx_chain_simulator_go.Startup.Prepare.{Host, Prepared}
use mx_chain_simulator_go.Startup.Chain.{
  ChainMaker, args_chain_simulator, set_system_accounts, start_blocks, make_chain, temp_dir_pattern,
  local_rest_api_interface, proxy_port,
}

abbrev pub is_zero : ℤ → Bool
is_zero (pos n) = n == 0
is_zero (negsuc _) = false

abbrev pub address_of : ℤ → Bytes
address_of port = local_rest_api_interface ++ (codes ":" ++ itoa port)

-- The proxy's port is the configured one, or the free one that the configurator gives if that is zero,
-- and the address that is shown is the host with this port.
pub proxy_port-address_of :
    (atoi_error : Bytes → Error) (configured free : ℤ)
    → IsInt64 free
    → proxy_port atoi_error (address_of free) configured
      ≡ (let port = if is_zero configured then free else configured in ok (address_of port, port))
unfolding proxy_port
proxy_port-address_of atoi_error (pos zero) free fits = ground (arith, atoi-itoa free fits)
proxy_port-address_of atoi_error (pos (suc n)) free fits = ground arith
proxy_port-address_of atoi_error (negsuc n) free fits = refl

module _ {OverridableConfig : Type 0} (sim : SimulatorHandler)
    (host : Host sim.State OverridableConfig) (ctx : CliContext)
    (maker : ChainMaker sim.State OverridableConfig) where
  open sim use {State}

  -- What `has_account` shows of the system accounts: one is set at a shard and no other is touched.
  pub record SetsAccounts (has_account : State → ℕ → Bool) : Type 0 where
    pub put : ℕ → State → State
    pub sets : (shard : ℕ) (s : State) → maker.set_system_account shard s ≡ (ok tt, put shard s)
    pub shows :
        (shard k : ℕ) (s : State) → has_account (put shard s) k ≡ (k == shard || has_account s k)

  module _ (has_account : State → ℕ → Bool) (laws : SetsAccounts has_account) where
    open laws use {put, sets, shows}

    set_system_accounts_from :
        (left shard : ℕ) (s : State)
        → (t : State) × (set_system_accounts sim host ctx maker left shard s ≡ (ok tt, t))
          × ((k : ℕ) → has_account t k ≡ ((leb shard k && ltb k (shard + left)) || has_account s k))
    unfolding set_system_accounts
    set_system_accounts_from zero shard s = (s, refl, λ k. ground arith)
    set_system_accounts_from (suc left) shard s =
        let (t, done, shown) = set_system_accounts_from left (shard + 1) (put shard s) in
        (t, ground (arith, sets shard s, done), λ k. ground (arith, shown k, shows shard k s))

    -- If a temporary folder and a chain can be made and the configurations altered, setting a system
    -- account shows at its shard alone, a block is generated and shows no change of an account, and
    -- the blocks generator can be made, then the chain is made, and the shards whose system account is
    -- set behind the call are those below the configured number, cut to 32 bits, and those where it was
    -- set when the chain had been made.
    pub make_chain-accounts :
        (p : Prepared host ctx) (temp_dir : Bytes) (g : AnyGenerator State) (s s1 s2 : State)
        (block : State → State)
        → maker.mkdir_temp temp_dir_pattern s ≡ (ok temp_dir, s1)
        → maker.new_chain_simulator (args_chain_simulator sim host ctx maker p temp_dir) s1
          ≡ (ok none, s2)
        → ((t : State) → sim.generate_blocks (pos 1) t ≡ (ok tt, block t))
        → ((t : State) (k : ℕ) → has_account (block t) k ≡ has_account t k)
        → create_blocks_generator
            (some (record { generate_blocks = sim.generate_blocks }))
            p.config.blocks_generator
          ≡ value g
        → (t : State) × (make_chain sim host ctx maker p s ≡ (ok (temp_dir, g), t))
          × ((k : ℕ)
              → has_account t k
                ≡ (ltb k (uint32 p.config.simulator.num_of_shards) || has_account s2 k))
    unfolding make_chain start_blocks
    make_chain-accounts p temp_dir g s s1 s2 block dir chain blocks quiet made =
        let (t, done, shown) =
          set_system_accounts_from (uint32 p.config.simulator.num_of_shards) 0 s2 in
        (
          block t,
          ground (arith, dir, chain, done, blocks t, made),
          λ k. quiet t k ∙ (shown k ∙ from_zero k (uint32 p.config.simulator.num_of_shards) _),
        )
      where
        from_zero : (k n : ℕ) (b : Bool) → ((leb 0 k && ltb k (0 + n)) || b) ≡ (ltb k n || b)
        from_zero k n b = ground arith
