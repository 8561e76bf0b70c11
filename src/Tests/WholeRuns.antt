-- ===== src/Tests/WholeRuns.antt =====
-- A whole run of the program over the small library: it starts, gets its signal, and ends.
use mx_chain_simulator_go.Common.{
  none, ⊤, ◌≡◌, refl, sym, ap, true, false, not, ◌||◌, some, codes, bytes_eq, arith,
}
use mx_chain_simulator_go.Common.Int.{uint32}
use mx_chain_simulator_go.Common.Outcome.{ok}
use mx_chain_simulator_go.Config.Overrides.{read_all}
use mx_chain_simulator_go.Configs.ProxyConfigs.{create_proxy_configs}
use mx_chain_simulator_go.Creator.Defs.{create_proxy, proxy_handler, close}
use mx_chain_simulator_go.Go.Os
use mx_chain_simulator_go.Go.Os.{stat}
use mx_chain_simulator_go.Go.Strconv.{itoa}
use mx_chain_simulator_go.Go.Strings.{split, contains}
use mx_chain_simulator_go.Startup.Chain.{proxy_port}
use mx_chain_simulator_go.Startup.Fetch.{fetch_configs}
use mx_chain_simulator_go.Startup.Logger.{initialize_logger}
use mx_chain_simulator_go.Startup.OverrideFiles.{determine_override_config_files}
use mx_chain_simulator_go.Launch.Defs.{Running, start_chain_simulator}
use mx_chain_simulator_go.Launch.FetchOnly.{start_chain_simulator-fetch_only}
use mx_chain_simulator_go.Startup.Prepare.{prepare, load_main_config, check_start}
use mx_chain_simulator_go.Launch.Parts.{the_log}
use mx_chain_simulator_go.Launch.Shutdown
use mx_chain_simulator_go.Launch.Shutdown.{
  waiting, Program, Reach, here, next, interrupt, close_generator, close_chain, close_proxy,
  close_file, close_log,
}
use mx_chain_simulator_go.Launch.WholeRun.{ClosesRest, start_chain_simulator-IsClosed}
use mx_chain_simulator_go.Process.Factory.{disabled, close_any}
use mx_chain_simulator_go.Startup.Flags
use mx_chain_simulator_go.Startup.Flags.{CliContext}
use mx_chain_simulator_go.Tests.LaunchRuns.{
  sim, host, ctx, maker, router, around, routes, with_wallets, with_proxy, Idle, same_running,
  closed_log_running,
}
use mx_chain_simulator_go.Tests.ProxyRuns.{
  Site, running, components, library, lawful, empty_site, created,
}

-- No download, and a log file.
abbrev flags : CliContext
flags = record ctx {
  global_bool =
      λ n. bytes_eq n Flags.skip_configs_download.name || bytes_eq n Flags.log_save_file.name;
}

abbrev program : Running components Site ⊤
program = record {
  file_logging = some tt;
  generator = disabled;
  proxy_instance = created.proxy_handler;
  proxy_url = codes "localhost:8085";
}

abbrev waiting_site : Site
waiting_site = record with_proxy { engine = some routes; serving = true; blocks = 1 }

starts :
    start_chain_simulator sim host flags maker router library around 5 empty_site
    ≡ (ok (some program), waiting_site)
unfolding start_chain_simulator read_all determine_override_config_files split contains
    initialize_logger fetch_configs uint32 Flags.apply_flags create_proxy_configs stat Os.create
    proxy_port create_proxy proxy_handler itoa
starts = refl

closes_rest :
    ClosesRest sim host flags maker router library around 5 Idle
      (λ s. s.sim_closed)
      running
      (λ s. s.log_open)
      program
unfolding proxy_handler close
closes_rest = record {
  generate_keeps = λ s. record { sim_kept = refl; workers_kept = same_running s; log_kept = refl };
  works_keep = λ s t same. record {
    sim_kept = ap (λ u. u.sim_closed) (sym same);
    workers_kept = λ k. ap (λ u. running u k) (sym same);
    log_kept = ap (λ u. u.log_open) (sym same);
  };
  chain_closes = λ s t h. ground (arith, h);
  proxy_keeps = λ s t h. ground (arith, h);
  log_closes = λ f s. (refl, closed_log_running s, refl);
}

abbrev last_site : Site
last_site = record empty_site {
  disk = with_wallets;
  engine = some routes;
  sim_closed = true;
  log_open = false;
  blocks = 1;
}

ends :
    Reach host.logger around.close_simulator program.proxy_instance program.file_logging Idle
      (record { stage = waiting; generator = disabled; state = waiting_site })
      (record { stage = Shutdown.ended; generator = disabled; state = last_site })
unfolding proxy_handler close close_log close_any
ends =
    next
      (next
        (next (next (next here refl interrupt) refl close_generator) refl
          (close_chain {t = record waiting_site { sim_closed = true }} refl))
        refl (close_proxy {t = record last_site { log_open = true }} refl))
      refl (close_file refl)

-- The log file is closed at the end.
start_chain_simulator-IsClosed_example : not last_site.log_open ≡ true
start_chain_simulator-IsClosed_example =
    start_chain_simulator-IsClosed sim host flags maker router library around 5 Idle
      (λ s. s.sim_closed) running (λ s. s.log_open) lawful empty_site waiting_site program
      (record { stage = Shutdown.ended; generator = disabled; state = last_site }) the_log starts
      closes_rest ends refl

-- The program is to fetch and to end.
abbrev fetch_flags : CliContext
fetch_flags = record ctx {
  global_bool = λ n.
      bytes_eq n Flags.skip_configs_download.name || bytes_eq n Flags.fetch_configs_and_close.name;
}

start_chain_simulator-fetch_only_example :
    start_chain_simulator sim host fetch_flags maker router library around 5 empty_site
    ≡ (ok none, empty_site)
unfolding prepare load_main_config check_start read_all determine_override_config_files split
    contains initialize_logger fetch_configs
start_chain_simulator-fetch_only_example =
    start_chain_simulator-fetch_only sim host fetch_flags maker router library around 5 empty_site
      refl
