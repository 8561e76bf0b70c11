-- ===== src/Launch/Main.antt =====
-- `main` of cmd/chainsimulator/main.go: the flags that the program knows, and its exit code.
use mx_chain_simulator_go.Common.{⊤, ℕ, List, [], ◌∷◌, Bytes, codes}
use mx_chain_simulator_go.Common.Int.{pos}
use mx_chain_simulator_go.Common.Outcome.{Action, pure, ◌>>=◌, attempt, value, error}
use mx_chain_simulator_go.Startup.Flags

abbrev pub app_name : Bytes
app_name = codes "Chain Simulator"

-- `app.Flags`, by the names of the flags.
abbrev pub app_flags : List Bytes
app_flags =
    Flags.configuration_file.name
    ∷ Flags.node_override_configuration_file.name
    ∷ (Flags.log_level []).name
    ∷ Flags.log_save_file.name
    ∷ Flags.disable_ansi_color.name
    ∷ Flags.path_to_node_configs.name
    ∷ Flags.path_to_proxy_configs.name
    ∷ (Flags.start_time (pos 0)).name
    ∷ Flags.rounds_per_epoch.name
    ∷ Flags.num_of_shards.name
    ∷ Flags.server_port.name
    ∷ Flags.round_duration_in_ms.name
    ∷ Flags.bypass_transactions_signature.name
    ∷ Flags.num_validators_per_shard.name
    ∷ Flags.num_waiting_validators_per_shard.name
    ∷ Flags.num_validators_meta.name
    ∷ Flags.num_waiting_validators_meta.name
    ∷ Flags.initial_round.name
    ∷ Flags.initial_nonce.name
    ∷ Flags.initial_epoch.name
    ∷ Flags.auto_generate_blocks.name
    ∷ Flags.block_time_in_ms.name
    ∷ Flags.skip_configs_download.name
    ∷ Flags.fetch_configs_and_close.name
    ∷ Flags.path_where_to_save_logs.name
    ∷ []

-- `app.Run(os.Args)` of urfave/cli, given the name, the flags and the action; the error is logged, and
-- the program exits with 1.
module _ {State : Type 0} (run : Bytes → List Bytes → Action State ⊤ → Action State ⊤) where
  unfoldable pub main : Action State ⊤ → Action State ℕ
  main start_chain_simulator = attempt (run app_name app_flags start_chain_simulator) >>= λ result.
      elim result [ value _ ↦ pure 0 | error _ ↦ pure 1 ]
