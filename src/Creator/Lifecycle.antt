-- ===== src/Creator/Lifecycle.antt =====
-- Which workers run behind `CreateProxy`, however it ends, and behind `Close`.
use mx_chain_simulator_go.Common.{
  ◌≡◌, refl, Bool, true, false, ◌&&◌, ◌||◌, if◌then◌else◌, ◌⊎◌, inl, inr, Option, none, some, arith,
}
use mx_chain_simulator_go.Common.Outcome.{Error, Outcome, ok, ◌>>=◌, Outcome-cases}
use mx_chain_simulator_go.Creator.Library.{Components, FacadeArgs, ProxyLibrary}
use mx_chain_simulator_go.Creator.Defs.{
  ArgsProxy, ArgsOutputProxy, Processors, output_proxy, tolerate_empty, full_history_nodes,
  make_base_processor, make_processors, make_facade_args, make_server, finish_proxy, create_proxy,
}
use mx_chain_simulator_go.Creator.Quiet.{
  Worker, is_worker, sync_checks, val_stats_updates, node_status_updates, IsQuiet, IsLawful,
  bind-IsQuiet, pure-IsQuiet,
}

-- How far a call of `CreateProxy` has come: before its first worker, behind the start of the checks,
-- or behind the start of the updates of the caches.
pub data Progress : Type 0 where
  nothing_started : Progress
  checks_started : Progress
  updates_started : Progress

-- The workers that are started by then.
abbrev pub started : Progress → Worker → Bool
started checks_started sync_checks = true
started updates_started sync_checks = true
started updates_started val_stats_updates = true
started updates_started node_status_updates = true
started _ _ = false

abbrev pub is_ok : {A : Type 0} → Outcome A → Bool
is_ok (ok _) = true
is_ok _ = false

module _ {c : Components} {Rest State : Type 0} (lib : ProxyLibrary c Rest State)
    (running : State → Worker → Bool) (law : IsLawful lib running) (args : ArgsProxy c Rest) where
  tolerate_empty-IsQuiet :
      (found : c.NodesProvider × Option Error) → IsQuiet running (tolerate_empty lib found)
  unfolding tolerate_empty
  tolerate_empty-IsQuiet (p, none) = pure-IsQuiet running p
  tolerate_empty-IsQuiet (p, some e) = record { keeps = λ s k. ground arith }

  full_history_nodes-IsQuiet :
      (f : c.NodesProviderFactory) → IsQuiet running (full_history_nodes lib f)
  unfolding full_history_nodes
  full_history_nodes-IsQuiet f =
      bind-IsQuiet running (law.quiet_full_history f) tolerate_empty-IsQuiet

  make_base_processor-IsQuiet : IsQuiet running (make_base_processor lib args)
  unfolding make_base_processor
  make_base_processor-IsQuiet = bind-IsQuiet running (law.quiet_factory args.config _ _) (λ f.
      bind-IsQuiet running (law.quiet_observers f) (λ o.
        bind-IsQuiet running (full_history_nodes-IsQuiet f) (λ h. law.quiet_base _ _ o h _ _)))

  make_processors-IsQuiet : (bp : c.BaseProcessor) → IsQuiet running (make_processors lib args bp)
  unfolding make_processors
  make_processors-IsQuiet bp = bind-IsQuiet running (law.quiet_account bp _) (λ a.
      bind-IsQuiet running (law.quiet_faucet bp _ _ _ _) (λ f.
        bind-IsQuiet running (law.quiet_transaction bp _ _ _ _) (λ t.
          bind-IsQuiet running (law.quiet_sc_query bp _) (λ q.
            bind-IsQuiet running (law.quiet_node_group bp _ _) (λ g.
              bind-IsQuiet running (law.quiet_val_stats bp _ _) (λ v.
                bind-IsQuiet running (law.quiet_node_status bp _ _)
                  (λ n. pure-IsQuiet running _)))))))

  make_facade_args-IsQuiet :
      (bp : c.BaseProcessor) (ps : Processors c) → IsQuiet running (make_facade_args lib args bp ps)
  unfolding make_facade_args
  make_facade_args-IsQuiet bp ps = bind-IsQuiet running (law.quiet_block bp) (λ b.
      bind-IsQuiet running (law.quiet_blocks bp) (λ bs.
        bind-IsQuiet running (law.quiet_proof bp _) (λ p.
          bind-IsQuiet running (law.quiet_esdt_supply bp _) (λ e.
            bind-IsQuiet running (law.quiet_status bp _)
              (λ s. bind-IsQuiet running (law.quiet_about bp _ _) (λ a. pure-IsQuiet running _))))))

  make_server-IsQuiet : (fa : FacadeArgs c) → IsQuiet running (make_server lib args fa)
  unfolding make_server
  make_server-IsQuiet fa =
      bind-IsQuiet running (law.quiet_parser _)
        (λ p. bind-IsQuiet running (law.quiet_registry fa p) (λ r. law.quiet_server r _ _ _ _ _ _))

  -- The two updates are running behind the rest of the call, however it ends.
  finish_proxy-running :
      (bp : c.BaseProcessor) (ps : Processors c) (s : State) (k : Worker)
      → running (finish_proxy lib args bp ps s).1 k
        ≡ (is_worker k node_status_updates || (is_worker k val_stats_updates || running s k))
  unfolding finish_proxy
  finish_proxy-running bp ps s k =
      let val_stats = law.starts_val_stats ps.val_stats_proc in
      let node_status = law.starts_node_status ps.node_status_proc in
      let s1 = (lib.start_val_stats_update ps.val_stats_proc s).1 in
      let s2 = (lib.start_node_status_update ps.node_status_proc s1).1 in
      let quiet = bind-IsQuiet running (make_facade_args-IsQuiet bp ps) (λ fa.
        bind-IsQuiet running (make_server-IsQuiet fa)
          (λ h. pure-IsQuiet running (output_proxy lib args bp ps h))) in
      ground (
        arith,
        val_stats.returns s,
        node_status.returns s1,
        quiet.keeps s2 k,
        node_status.runs s1 k,
        val_stats.runs s k,
      )

  -- From the processors on: the updates are started, or the call fails before.
  rest_of_proxy-running :
      (bp : c.BaseProcessor) (s : State)
      → (late : Bool) × ((k : Worker)
          → running ((make_processors lib args bp >>= finish_proxy lib args bp) s).1 k ≡ (
              (late && (is_worker k node_status_updates || is_worker k val_stats_updates))
              || running s k))
        × ((late ≡ true)
            ⊎ (is_ok ((make_processors lib args bp >>= finish_proxy lib args bp) s).0 ≡ false))
  rest_of_proxy-running bp s = elim (Outcome-cases (make_processors lib args bp s).0) [
    | inl (ps, e) ↦ (
      true,
      λ k. ground (
        arith,
        e,
        finish_proxy-running bp ps (make_processors lib args bp s).1 k,
        (make_processors-IsQuiet bp).keeps s k,
      ),
      inl refl,
    )
    | inr other ↦ (
      false,
      λ k. ground (arith, other, (make_processors-IsQuiet bp).keeps s k),
      ground (arith, other),
    )
  ]

  -- On a library whose constructors start and stop nothing and whose three starts start a worker each:
  -- however `CreateProxy` ends, the workers that run behind it are those that ran before and those
  -- that are started at some point of the call, which is behind all three starts if it returns a proxy.
  pub create_proxy-running :
      (s : State)
      → (p : Progress) × ((k : Worker)
          → running (create_proxy lib args s).1 k ≡ (started p k || running s k))
        × ((p ≡ updates_started) ⊎ (is_ok (create_proxy lib args s).0 ≡ false))
  unfolding create_proxy
  create_proxy-running s = elim (Outcome-cases (make_base_processor lib args s).0) [
    | inl (bp, e) ↦
        let s1 = (make_base_processor lib args s).1 in
        let (late, shown, end) =
          rest_of_proxy-running bp (lib.start_nodes_sync_state_checks bp s1).1 in
        (
          (if late then updates_started else checks_started),
          λ k. ground (
            arith,
            e,
            (law.starts_checks bp).returns s1,
            (law.starts_checks bp).runs s1 k,
            shown k,
            make_base_processor-IsQuiet.keeps s k,
          ),
          ground (arith, e, (law.starts_checks bp).returns s1, end),
        )
    | inr other ↦ (
      nothing_started,
      λ k. ground (arith, other, make_base_processor-IsQuiet.keeps s k),
      ground (arith, other),
    )
  ]

  -- Behind a call that returns a proxy all three run.
  pub created-running :
      (s t : State) (out : ArgsOutputProxy c State)
      → create_proxy lib args s ≡ (ok out, t)
      → (k : Worker) → running t k ≡ (started updates_started k || running s k)
  created-running s t out made k =
      let (p, shown, end) = create_proxy-running s in
      elim end [
        | inl last ↦ ground (arith, made, last, shown k)
        | inr failed ↦ absurd (ground (arith, made, failed))
      ]
