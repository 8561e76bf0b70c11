-- ===== src/Creator/Quiet.antt =====
-- The workers behind the components of a proxy, and which calls leave them as they are.
use mx_chain_simulator_go.Common.{
  ⊤, ℕ, ◌≡◌, refl, Bool, true, false, not, ◌&&◌, ◌||◌, inl, inr, List, [], ◌∷◌, Bytes, arith,
}
use mx_chain_simulator_go.Common.Int.{ℤ}
use mx_chain_simulator_go.Common.Outcome.{Error, ok, Action, pure, fail, ◌>>=◌, ◌>>◌, Outcome-cases}
use mx_chain_simulator_go.Go.Os.{FilePath}
use mx_chain_simulator_go.Configs.ProxyConfigs.{ProxyConfig}
use mx_chain_simulator_go.Creator.Library.{Components, FacadeArgs, ProxyLibrary}
use mx_chain_simulator_go.Creator.Defs.{ignored}

-- The goroutines that a proxy starts.
pub data Worker : Type 0 where
  sync_checks : Worker
  val_stats_updates : Worker
  node_status_updates : Worker
  http_serving : Worker

abbrev pub is_worker : Worker → Worker → Bool
is_worker sync_checks sync_checks = true
is_worker val_stats_updates val_stats_updates = true
is_worker node_status_updates node_status_updates = true
is_worker http_serving http_serving = true
is_worker _ _ = false

module _ {State : Type 0} (running : State → Worker → Bool) where
  -- The call starts and stops no worker, however it ends.
  pub record IsQuiet {A : Type 0} (m : Action State A) : Type 0 where
    pub keeps : (s : State) (k : Worker) → running (m s).1 k ≡ running s k

  -- The call starts a worker.
  pub record Starts (w : Worker) (m : Action State ⊤) : Type 0 where
    pub returns : (s : State) → (m s).0 ≡ ok tt
    pub runs : (s : State) (k : Worker) → running (m s).1 k ≡ (is_worker k w || running s k)

  -- The call stops a worker, with an error or with none.
  pub record Stops (w : Worker) (m : Action State ⊤) : Type 0 where
    pub returns : (s : State) → (ignored m s).0 ≡ ok tt
    pub ends : (s : State) (k : Worker) → running (m s).1 k ≡ (not (is_worker k w) && running s k)

  pub pure-IsQuiet : {A : Type 0} (a : A) → IsQuiet (pure a)
  pure-IsQuiet a = record { keeps = λ s k. refl }

  pub fail-IsQuiet : {A : Type 0} (e : Error) → IsQuiet {A = A} (fail e)
  fail-IsQuiet e = record { keeps = λ s k. refl }

  bind-keeps :
      {A B : Type 0} (m : Action State A) (f : A → Action State B)
      → IsQuiet m
      → ((a : A) → IsQuiet (f a))
      → (s : State) (k : Worker) → running ((m >>= f) s).1 k ≡ running s k
  bind-keeps m f q r s k = elim (Outcome-cases (m s).0) [
    | inl (a, e) ↦ ground (arith, e, q.keeps s k, (r a).keeps (m s).1 k)
    | inr other ↦ ground (arith, other, q.keeps s k)
  ]

  -- Two calls that leave the workers as they are do so one behind the other.
  pub bind-IsQuiet :
      {A B : Type 0} {m : Action State A} {f : A → Action State B}
      → IsQuiet m
      → ((a : A) → IsQuiet (f a))
      → IsQuiet (m >>= f)
  bind-IsQuiet {m} {f} q r = record { keeps = bind-keeps m f q r }

-- Each call of a list, its error dropped.
abbrev pub each : {State : Type 0} → List (Action State ⊤) → Action State ⊤
each [] = pure tt
each (m ∷ ms) = ignored m >> each ms

-- What is relied on: no constructor starts or stops a worker; the three starts, and `serve`, start one
-- each; a component that is closed stops its worker, the components of a handler are all closed, in
-- the order in which they were added, and a server that is shut down or closed serves no more.
pub record IsLawful {c : Components} {Rest State : Type 0} (lib : ProxyLibrary c Rest State)
    (running : State → Worker → Bool) : Type 0 where
  pub quiet_factory :
      (cfg : ProxyConfig Rest) (path : Bytes) (shards : ℕ)
      → IsQuiet running (lib.new_nodes_provider_factory cfg path shards)
  pub quiet_observers : (f : c.NodesProviderFactory) → IsQuiet running (lib.create_observers f)
  pub quiet_full_history :
      (f : c.NodesProviderFactory) → IsQuiet running (lib.create_full_history_nodes f)
  pub quiet_base :
      (timeout : ℤ) (coord : c.ShardCoordinator) (o h : c.NodesProvider) (pk : c.PubKeyConverter)
      (b : Bool)
      → IsQuiet running (lib.new_base_processor timeout coord o h pk b)
  pub quiet_account :
      (bp : c.BaseProcessor) (pk : c.PubKeyConverter)
      → IsQuiet running (lib.new_account_processor bp pk)
  pub quiet_faucet :
      (bp : c.BaseProcessor) (coord : c.ShardCoordinator) (v : ℕ) (pk : c.PubKeyConverter)
      (path : FilePath)
      → IsQuiet running (lib.create_faucet_processor bp coord v pk path)
  pub quiet_transaction :
      (bp : c.BaseProcessor) (pk : c.PubKeyConverter) (h : c.Hasher) (m : c.Marshalizer) (b : Bool)
      → IsQuiet running (lib.create_transaction_processor bp pk h m b)
  pub quiet_sc_query :
      (bp : c.BaseProcessor) (pk : c.PubKeyConverter)
      → IsQuiet running (lib.new_sc_query_processor bp pk)
  pub quiet_node_group :
      (bp : c.BaseProcessor) (h : c.HeartbeatCacher) (d : ℤ)
      → IsQuiet running (lib.new_node_group_processor bp h d)
  pub quiet_val_stats :
      (bp : c.BaseProcessor) (h : c.ValidatorsStatsCacher) (d : ℤ)
      → IsQuiet running (lib.new_validator_statistics_processor bp h d)
  pub quiet_node_status :
      (bp : c.BaseProcessor) (h : c.ResponseCacher) (d : ℤ)
      → IsQuiet running (lib.new_node_status_processor bp h d)
  pub quiet_block : (bp : c.BaseProcessor) → IsQuiet running (lib.new_block_processor bp)
  pub quiet_blocks : (bp : c.BaseProcessor) → IsQuiet running (lib.new_blocks_processor bp)
  pub quiet_proof :
      (bp : c.BaseProcessor) (pk : c.PubKeyConverter)
      → IsQuiet running (lib.new_proof_processor bp pk)
  pub quiet_esdt_supply :
      (bp : c.BaseProcessor) (q : c.ScQueryProcessor)
      → IsQuiet running (lib.new_esdt_supply_processor bp q)
  pub quiet_status :
      (bp : c.BaseProcessor) (m : c.StatusMetrics) → IsQuiet running (lib.new_status_processor bp m)
  pub quiet_about :
      (bp : c.BaseProcessor) (a b : Bytes) → IsQuiet running (lib.new_about_processor bp a b)
  pub quiet_parser : (path : FilePath) → IsQuiet running (lib.new_api_config_parser path)
  pub quiet_registry :
      (args : FacadeArgs c) (p : c.ApiConfigParser)
      → IsQuiet running (lib.create_versions_registry args p)
  pub quiet_server :
      (r : c.VersionsRegistry) (port : ℤ) (l : c.ApiLogging) (m : c.StatusMetrics) (w : ℤ)
      (a b : Bool)
      → IsQuiet running (lib.create_server r port l m w a b)
  pub starts_checks :
      (bp : c.BaseProcessor) → Starts running sync_checks (lib.start_nodes_sync_state_checks bp)
  pub starts_val_stats :
      (p : c.ValidatorStatisticsProcessor)
      → Starts running val_stats_updates (lib.start_val_stats_update p)
  pub starts_node_status :
      (p : c.NodeStatusProcessor)
      → Starts running node_status_updates (lib.start_node_status_update p)
  pub starts_server : (h : c.HttpServer) → Starts running http_serving (lib.serve h)
  pub closes_all : (ms : List (Action State ⊤)) (s : State) → lib.close_all ms s ≡ each ms s
  pub closes_node_group_quietly :
      (p : c.NodeGroupProcessor) → IsQuiet running (lib.close_node_group p)
  pub closes_node_group :
      (p : c.NodeGroupProcessor) (s : State) → (ignored (lib.close_node_group p) s).0 ≡ ok tt
  pub stops_val_stats :
      (p : c.ValidatorStatisticsProcessor) → Stops running val_stats_updates (lib.close_val_stats p)
  pub stops_node_status :
      (p : c.NodeStatusProcessor) → Stops running node_status_updates (lib.close_node_status p)
  pub stops_checks : (bp : c.BaseProcessor) → Stops running sync_checks (lib.close_base bp)
  pub shuts_down :
      (h : c.HttpServer) (timeout : ℕ) → Stops running http_serving (lib.shutdown h timeout)
  pub stops_server : (h : c.HttpServer) → Stops running http_serving (lib.close_server h)
