-- ===== src/Startup/FlagLaws.antt =====
-- `applyFlags`: where each field of the configuration comes from.
use mx_chain_simulator_go.Common.{◌%◌, ◌^◌, ◌≡◌, refl, Bytes, arith, if◌then◌else◌}
use mx_chain_simulator_go.Config.{Config}
use mx_chain_simulator_go.Startup.Flags
use mx_chain_simulator_go.Startup.Flags.{
  CliContext, apply_flags, apply_shard_flags, apply_server_flags, apply_initial_flags,
  apply_generator_flags,
}

module _ (ctx : CliContext) where
  -- The value of a flag that is set, and else the value of the file.
  abbrev pub flag_or : {V : Type 0} → Bytes → V → V → V
  flag_or name given from_file = if ctx.is_set name then given else from_file

  -- The configuration in one piece: each field from its flag or from the file.
  abbrev pub effective : Config → Config
  effective cfg = record {
    simulator = record {
      server_port =
          flag_or Flags.server_port.name (ctx.global_int Flags.server_port.name)
            cfg.simulator.server_port;
      num_of_shards =
          flag_or Flags.num_of_shards.name (ctx.global_int Flags.num_of_shards.name)
            cfg.simulator.num_of_shards;
      rounds_per_epoch =
          flag_or Flags.rounds_per_epoch.name (ctx.global_int Flags.rounds_per_epoch.name)
            cfg.simulator.rounds_per_epoch;
      round_duration_in_ms =
          flag_or Flags.round_duration_in_ms.name (ctx.global_int Flags.round_duration_in_ms.name)
            cfg.simulator.round_duration_in_ms;
      initial_round =
          flag_or Flags.initial_round.name (ctx.global_int64 Flags.initial_round.name)
            cfg.simulator.initial_round;
      initial_nonce =
          flag_or Flags.initial_nonce.name (ctx.global_uint64 Flags.initial_nonce.name)
            cfg.simulator.initial_nonce;
      initial_epoch =
          flag_or Flags.initial_epoch.name (ctx.global_uint Flags.initial_epoch.name % 2 ^ 32)
            cfg.simulator.initial_epoch;
      mx_chain_repo = cfg.simulator.mx_chain_repo;
      mx_proxy_repo = cfg.simulator.mx_proxy_repo;
    };
    logs = cfg.logs;
    blocks_generator = record {
      auto_generate_blocks =
          flag_or Flags.auto_generate_blocks.name (ctx.global_bool Flags.auto_generate_blocks.name)
            cfg.blocks_generator.auto_generate_blocks;
      block_time_in_ms =
          flag_or Flags.block_time_in_ms.name (ctx.global_uint64 Flags.block_time_in_ms.name)
            cfg.blocks_generator.block_time_in_ms;
    };
  }

  apply_shard_flags-fields :
      (cfg : Config)
      → apply_shard_flags ctx cfg ≡ record cfg {
        simulator = record cfg.simulator {
          rounds_per_epoch = (effective cfg).simulator.rounds_per_epoch;
          num_of_shards = (effective cfg).simulator.num_of_shards;
        };
      }
  unfolding apply_shard_flags
  apply_shard_flags-fields cfg = ground arith

  apply_server_flags-fields :
      (cfg : Config)
      → apply_server_flags ctx cfg ≡ record cfg {
        simulator = record cfg.simulator {
          server_port = (effective cfg).simulator.server_port;
          round_duration_in_ms = (effective cfg).simulator.round_duration_in_ms;
        };
      }
  unfolding apply_server_flags
  apply_server_flags-fields cfg = ground arith

  apply_initial_flags-fields :
      (cfg : Config)
      → apply_initial_flags ctx cfg ≡ record cfg {
        simulator = record cfg.simulator {
          initial_round = (effective cfg).simulator.initial_round;
          initial_nonce = (effective cfg).simulator.initial_nonce;
          initial_epoch = (effective cfg).simulator.initial_epoch;
        };
      }
  unfolding apply_initial_flags
  apply_initial_flags-fields cfg = ground arith

  apply_generator_flags-fields :
      (cfg : Config)
      → apply_generator_flags ctx cfg
        ≡ record cfg { blocks_generator = (effective cfg).blocks_generator }
  unfolding apply_generator_flags
  apply_generator_flags-fields cfg = ground arith

  -- The flags, applied one behind the other, come to the configuration in which each of the nine fields
  -- that have a flag is the flag's value if the flag is set and the file's if not, the epoch cut to 32
  -- bits, and in which the repositories and the settings of the logs are the file's.
  pub apply_flags-effective : (cfg : Config) → apply_flags ctx cfg ≡ effective cfg
  unfolding apply_flags
  apply_flags-effective cfg = rw (apply_generator_flags-fields _) (
      rw (apply_initial_flags-fields _)
        (rw (apply_server_flags-fields _) (rw (apply_shard_flags-fields cfg) refl)))
