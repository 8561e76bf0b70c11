-- ===== src/Startup/Logger.antt =====
-- `initializeLogger` and `removeANSIColorsForLoggerIfNeeded` of cmd/chainsimulator/main.go.
use mx_chain_simulator_go.Common.{
  ⊤, ℕ, ◌-◌, ◌*◌, ◌%◌, ◌^◌, Bool, true, false, Option, none, some, [], Bytes, codes, ltb,
  if◌then◌else◌,
}
use mx_chain_simulator_go.Common.Int.{ℤ, pos, negsuc}
use mx_chain_simulator_go.Common.Outcome.{wrap, Action, pure, ◌>>=◌, ◌>>◌, map_error}
use mx_chain_simulator_go.Config.{Config}
use mx_chain_simulator_go.Startup.Flags.{
  CliContext, log_level, log_save_file, path_where_to_save_logs, disable_ansi_color,
}

-- `uint64(z)` for an `int` z.
abbrev pub uint64 : ℤ → ℕ
uint64 (pos n) = n % 2 ^ 64
uint64 (negsuc n) = 2 ^ 64 - 1 - n % 2 ^ 64

-- `time.Second * time.Duration(z)`, in nanoseconds, which wraps around at 64 bits.
abbrev pub seconds : ℤ → ℤ
seconds z =
    let u = uint64 z * 1000000000 % 2 ^ 64 in
    if ltb u (2 ^ 63) then pos u else negsuc (2 ^ 64 - 1 - u)

-- mx-chain-logger-go. The observer that is removed and added writes to the standard output.
pub record Logger (State : Type 0) : Type 1 where
  pub FileLogging : Type 0
  pub set_log_level : Bytes → Action State ⊤
  pub new_file_logging : Bytes → Bytes → Bytes → Action State FileLogging
  pub change_file_life_span : FileLogging → ℤ → ℕ → Action State ⊤
  pub remove_log_observer : Action State ⊤
  pub add_plain_log_observer : Action State ⊤
  pub close : FileLogging → Action State ⊤

module _ {State : Type 0} (logger : Logger State) (ctx : CliContext) where
  unfoldable pub remove_ansi_colors_for_logger_if_needed : Bool → Action State ⊤
  remove_ansi_colors_for_logger_if_needed disable_ansi =
      if disable_ansi then logger.remove_log_observer >> logger.add_plain_log_observer else pure tt

  -- The case of a log file.
  unfoldable pub log_to_file : Config → Action State (Option logger.FileLogging)
  unfolding remove_ansi_colors_for_logger_if_needed
  log_to_file cfg = do
    file_logging ←
        map_error (λ e. wrap [] e (codes " creating a log file"))
          (logger.new_file_logging (ctx.global_string path_where_to_save_logs.name)
            cfg.logs.logs_path cfg.logs.log_file_prefix)
    logger.change_file_life_span file_logging (seconds cfg.logs.log_file_life_span_in_sec)
        (uint64 cfg.logs.log_file_life_span_in_mb)
    remove_ansi_colors_for_logger_if_needed (ctx.global_bool disable_ansi_color.name)
    pure (some file_logging)

  unfoldable pub initialize_logger : Config → Action State (Option logger.FileLogging)
  unfolding log_to_file
  initialize_logger cfg = do
    logger.set_log_level (ctx.global_string (log_level []).name)
    elim (ctx.global_bool log_save_file.name) [ false ↦ pure none | true ↦ log_to_file cfg ]
