-- ===== src/Startup/PrepareLaws.antt =====
-- What a prepared start has checked, and a start whose parts all succeed.
use mx_chain_simulator_go.Common.{
  ℕ, zero, suc, sym, ◌≡◌, ◌∙◌, refl, true, false, inl, inr, Option, none, some, List, [], Bytes,
  All, arith,
}
use mx_chain_simulator_go.Common.Int.{ℤ, pos, negsuc, is_nonpositive}
use mx_chain_simulator_go.Common.Outcome.{ok, ◌>>◌, value, Try-cases, bind-eq-ok, then-eq-ok}
use mx_chain_simulator_go.Config.{Config, OverrideConfigs}
use mx_chain_simulator_go.Config.Overrides.{read_all-all_values, overrides, all_values, Holds}
use mx_chain_simulator_go.Configs.Tags.{Module}
use mx_chain_simulator_go.Startup.Flags
use mx_chain_simulator_go.Startup.Flags.{CliContext, apply_flags}
use mx_chain_simulator_go.Startup.FlagLaws.{effective, apply_flags-effective}
use mx_chain_simulator_go.Startup.OverrideFiles.{determine_override_config_files}
use mx_chain_simulator_go.Startup.Logger.{initialize_logger}
use mx_chain_simulator_go.Startup.Fetch.{fetch_configs}
use mx_chain_simulator_go.Startup.Prepare.{
  Host, Validators, Prepared, check_validators, prepare, is_negative, check_start, read_config,
  read_overrides, start_logging, load_main_config, with_config, with_overrides, fetch,
}

-- One validator at least in each shard and on the metachain, and no negative number of waiting ones.
abbrev pub IsValid : Validators → Type 0
IsValid v =
    ((n : ℕ) × (v.shard ≡ pos (suc n)))
    × ((n : ℕ) × (v.waiting_shard ≡ pos n))
    × ((n : ℕ) × (v.meta ≡ pos (suc n)))
    × ((n : ℕ) × (v.waiting_meta ≡ pos n))

positive : (z : ℤ) → is_nonpositive z ≡ false → (n : ℕ) × (z ≡ pos (suc n))
positive (pos zero) h = cc
positive (pos (suc n)) h = (n, refl)
positive (negsuc n) h = cc

natural : (z : ℤ) → is_negative z ≡ false → (n : ℕ) × (z ≡ pos n)
natural (pos n) h = (n, refl)
natural (negsuc n) h = cc

module _ (ctx : CliContext) where
  abbrev numbers : Validators
  numbers = record {
    shard = ctx.global_int Flags.num_validators_per_shard.name;
    waiting_shard = ctx.global_int Flags.num_waiting_validators_per_shard.name;
    meta = ctx.global_int Flags.num_validators_meta.name;
    waiting_meta = ctx.global_int Flags.num_waiting_validators_meta.name;
  }

  accepted :
      (v : Validators)
      → check_validators ctx ≡ value v
      → (is_nonpositive numbers.shard ≡ false)
        × (is_negative numbers.waiting_shard ≡ false)
        × (is_nonpositive numbers.meta ≡ false)
        × (is_negative numbers.waiting_meta ≡ false)
        × (numbers ≡ v)
  unfolding check_validators
  accepted v h = ground arith

  check_validators-IsValid : (v : Validators) → check_validators ctx ≡ value v → IsValid v
  check_validators-IsValid v h =
      let (a, b, c, d, e) = accepted v h in
      rw (sym e) (positive _ a, natural _ b, positive _ c, natural _ d)

  check_validators_complete : IsValid numbers → check_validators ctx ≡ value numbers
  unfolding check_validators
  check_validators_complete ((a, ha), (b, hb), (c, hc), (d, hd)) = ground (arith, ha, hb, hc, hd)

  module _ {State OverridableConfig : Type 0} (host : Host State OverridableConfig) where
    config_read :
        (s s1 : State) (cfg : Config)
        → read_config host ctx s ≡ (ok cfg, s1)
        → host.load_config s (ctx.global_string Flags.configuration_file.name) ≡ value cfg
    unfolding load_main_config
    config_read s s1 cfg h =
        elim (Try-cases (host.load_config s (ctx.global_string Flags.configuration_file.name))) [
          | inl (a, e) ↦ ground (arith, e)
          | inr (x, e) ↦ ground (arith, e)
        ]

    start_checked :
        (cfg : Config) (ov : OverrideConfigs OverridableConfig)
        (fl : Option host.logger.FileLogging) (s s' : State) (p : Prepared host ctx)
        → check_start host ctx cfg ov fl s ≡ (ok (some p), s')
        → (p.config ≡ cfg) × IsValid p.validators
    unfolding check_start
    start_checked cfg ov fl s s' p h = elim (Try-cases (check_validators ctx)) [
      | inr (x, e) ↦ ground (arith, e)
      | inl (v, e) ↦
          let same : p.validators ≡ v = ground (arith, e) in
          (ground (arith, e), rw same (check_validators-IsValid v e))
    ]

    -- A start that is prepared, and is not to end with the fetching, has one validator at least in
    -- each shard and on the metachain, and no negative number of waiting validators, and its
    -- configuration is the file's with the flags that are set.
    pub prepare-IsValid :
        (s s' : State) (p : Prepared host ctx)
        → prepare host ctx s ≡ (ok (some p), s')
        → (cfg : Config) × (host.load_config s (ctx.global_string Flags.configuration_file.name)
            ≡ value cfg)
          × (p.config ≡ effective ctx cfg)
          × IsValid p.validators
    unfolding prepare
    prepare-IsValid s s' p h =
        let (cfg, s1, read, h1) = bind-eq-ok (read_config host ctx) (with_config host ctx) s s' h in
        let c = apply_flags ctx cfg in
        let (ov, s2, _, h2) =
          bind-eq-ok (read_overrides host ctx) (with_overrides host ctx c) s1 s' h1 in
        let (fl, s3, _, h3) =
          bind-eq-ok (start_logging host ctx c)
            (λ fl. fetch host ctx c >> check_start host ctx c ov fl) s2 s' h2 in
        let (s4, _, h4) = then-eq-ok (fetch host ctx c) (check_start host ctx c ov fl) s3 s' h3 in
        let (same, valid) = start_checked c ov fl s4 s' p h4 in
        (cfg, config_read s s1 cfg read, same ∙ apply_flags-effective ctx cfg, valid)

    -- If the configuration and every override file can be read, no log file is asked for and the log
    -- level is taken, the download is skipped in a build that has its information, the program is not
    -- to end with the fetching, and the numbers of validators are valid, then the start is prepared,
    -- with the file's configuration and the flags that are set, and with the values of the override
    -- files in their order; the state is that behind the setting of the log level.
    pub prepare_success :
        (contents : Bytes → List OverridableConfig) (deps : List Module) (cfg : Config)
        (s s1 : State)
        → host.load_config s (ctx.global_string Flags.configuration_file.name) ≡ value cfg
        → All (Holds (host.load_overrides s) contents) (determine_override_config_files ctx)
        → ctx.global_bool Flags.log_save_file.name ≡ false
        → host.logger.set_log_level (ctx.global_string (Flags.log_level []).name) s ≡ (ok tt, s1)
        → ctx.global_bool Flags.skip_configs_download.name ≡ true
        → host.build_info ≡ some deps
        → host.with_files s1 (host.files s1) ≡ s1
        → ctx.global_bool Flags.fetch_configs_and_close.name ≡ false
        → IsValid numbers
        → prepare host ctx s ≡ (
          ok (
              some (record {
                config = effective ctx cfg;
                override_configs = overrides (
                    all_values
                      (host.load_overrides s)
                      contents
                      (determine_override_config_files ctx));
                file_logging = none;
                validators = numbers;
              })),
          s1,
        )
    unfolding prepare load_main_config initialize_logger fetch_configs check_start
    prepare_success contents deps cfg s s1 read held no_file level skip build lens go_on valid =
        let merged = read_all-all_values (host.load_overrides s) contents _ held in
        let checked = check_validators_complete valid in
        ground (arith, merged, checked, apply_flags-effective ctx cfg)
