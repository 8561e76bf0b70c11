-- ===== src/Tests/ConfigRuns.antt =====
-- The configurations: override files, flags, versions, and a fetch from a small repository.
use mathlib.Core.List.{Memᴰ}
use mx_chain_simulator_go.Common.{
  ℕ, ◌≡◌, ◌⊎◌, refl, true, false, List, [], ◌∷◌, ◌++◌, Bytes, codes, bytes_eq, arith, if◌then◌else◌,
  ◌||◌,
}
use mx_chain_simulator_go.Common.Int.{pos}
use mx_chain_simulator_go.Common.Outcome.{message, Try, value, error}
use mx_chain_simulator_go.Config.{Config, OverrideConfigs}
use mx_chain_simulator_go.Config.Overrides.{read_all, read_all-all_values, overrides}
use mx_chain_simulator_go.Go.Strings.{contains, has_prefix, split}
use mx_chain_simulator_go.Go.Strings.Laws.{Lacks}
use mx_chain_simulator_go.Configs.Tags.{
  extract_version_or_commit, extract_version_or_commit-last_dash,
}
use mx_chain_simulator_go.Startup.Flags
use mx_chain_simulator_go.Startup.Flags.{CliContext, apply_flags}
use mx_chain_simulator_go.Startup.FlagLaws.{apply_flags-effective}
use mx_chain_simulator_go.Startup.OverrideFiles.{
  determine_override_config_files, determine_override_config_files-join,
}

-- Two files of overrides, and any other name is missing.
abbrev file_contents : Bytes → List ℕ
file_contents name = if bytes_eq name (codes "a.toml") then 1 ∷ 2 ∷ [] else 3 ∷ []

abbrev load : Bytes → Try (OverrideConfigs ℕ)
load name =
    if bytes_eq name (codes "a.toml") || bytes_eq name (codes "b.toml")
    then value (overrides (file_contents name))
    else error (message (codes "open: no such file"))

read_all-all_values_example :
    read_all load (codes "b.toml" ∷ codes "a.toml" ∷ []) ≡ value (overrides (3 ∷ 1 ∷ 2 ∷ []))
read_all-all_values_example =
    read_all-all_values load file_contents (codes "b.toml" ∷ codes "a.toml" ∷ []) (refl, (refl, tt))

-- A pre-release has the version `rc1`.
pre_release : extract_version_or_commit (codes "v1.2.3-rc1") ≡ codes "rc1"
unfolding extract_version_or_commit contains has_prefix split
pre_release = refl

extract_version_or_commit-last_dash_example :
    let version = codes "v1.6.1-0.20250707105646-d7048a2657c2" in
    (Lacks b'-' version × (extract_version_or_commit version ≡ version))
    ⊎ ((before : Bytes) × (version ≡ before ++ b'-' ∷ extract_version_or_commit version)
        × Lacks b'-' (extract_version_or_commit version))
extract_version_or_commit-last_dash_example =
    extract_version_or_commit-last_dash (codes "v1.6.1-0.20250707105646-d7048a2657c2")

-- A command line that sets the port, the epoch, to more than 32 bits, and the override files.
abbrev ctx : CliContext
ctx = record {
  is_set = λ n. bytes_eq n Flags.server_port.name || bytes_eq n Flags.initial_epoch.name;
  global_string = λ n. codes "x.toml,y.toml";
  global_int = λ n. pos 9000;
  global_int64 = λ n. pos 0;
  global_uint = λ n. 4294967303;
  global_uint64 = λ n. 0;
  global_bool = λ n. true;
}

abbrev pub cfg : Config
cfg = record {
  simulator = record {
    server_port = pos 8085;
    num_of_shards = pos 3;
    rounds_per_epoch = pos 20;
    round_duration_in_ms = pos 6000;
    initial_round = pos 0;
    initial_nonce = 0;
    initial_epoch = 0;
    mx_chain_repo = codes "https://github.com/a/b";
    mx_proxy_repo = codes "https://github.com/a/c";
  };
  logs = record {
    log_file_life_span_in_mb = pos 1024;
    log_file_life_span_in_sec = pos 432000;
    log_file_prefix = codes "chain-simulator";
    logs_path = codes "logs";
  };
  blocks_generator = record { auto_generate_blocks = false; block_time_in_ms = 6000 };
}

apply_flags-effective_example :
    apply_flags ctx cfg
    ≡ record cfg { simulator = record cfg.simulator { server_port = pos 9000; initial_epoch = 7 } }
apply_flags-effective_example = apply_flags-effective ctx cfg

-- The second of two files is the default one.
abbrev own_overrides : CliContext
own_overrides = record ctx { global_string = λ n. codes "x.toml,y/nodeOverrideDefault.toml" }

determine_override_config_files-join_example :
    determine_override_config_files own_overrides
    ≡ codes "x.toml" ∷ codes "y/nodeOverrideDefault.toml" ∷ []
unfolding contains has_prefix
determine_override_config_files-join_example =
    (determine_override_config_files-join own_overrides (codes "x.toml")
        (codes "y/nodeOverrideDefault.toml" ∷ []) (omega arith) (omega arith, tt) refl).0
      (codes "y/nodeOverrideDefault.toml") (Memᴰ.tail (Memᴰ.head refl)) refl
