-- ===== src/Creator/Closing.antt =====
-- What `Close` leaves running of a proxy that `CreateProxy` has made.
use mx_chain_simulator_go.Common.{⊤, ◌≡◌, Bool, false, not, ◌&&◌, inl, inr, arith}
use mx_chain_simulator_go.Common.Outcome.{
  ok, Action, pure, ◌>>=◌, ◌>>◌, Outcome-cases, bind-eq-ok, then-eq-ok,
}
use mx_chain_simulator_go.Creator.Library.{Components, FacadeArgs, ProxyLibrary}
use mx_chain_simulator_go.Creator.Defs.{
  ArgsProxy, ArgsOutputProxy, Processors, output_proxy, make_base_processor, make_processors,
  make_facade_args, make_server, finish_proxy, create_proxy, closables, proxy_handler, close,
  ignored,
}
use mx_chain_simulator_go.Creator.Quiet.{
  Worker, is_worker, sync_checks, val_stats_updates, node_status_updates, http_serving, IsLawful,
  each,
}

ignored-ok :
    {State : Type 0} (m : Action State ⊤) (s : State)
    → (ignored m s).0 ≡ ok tt
    → ignored m s ≡ (ok tt, (m s).1)
ignored-ok m s h = elim (Outcome-cases (m s).0) [
  | inl (a, e) ↦ ground (arith, e)
  | inr other ↦ ground (arith, other)
]

module _ {c : Components} {Rest State : Type 0} (lib : ProxyLibrary c Rest State)
    (args : ArgsProxy c Rest) where
  finish_proxy-output :
      (bp : c.BaseProcessor) (ps : Processors c) (s t : State) (out : ArgsOutputProxy c State)
      → finish_proxy lib args bp ps s ≡ (ok out, t)
      → (h : c.HttpServer) × (out ≡ output_proxy lib args bp ps h)
  unfolding finish_proxy
  finish_proxy-output bp ps s t out made =
      let serve = λ (fa : FacadeArgs c).
        make_server lib args fa >>= λ h. pure (output_proxy lib args bp ps h) in
      let with_facade = make_facade_args lib args bp ps >>= serve in
      let (s1, _, made) =
        then-eq-ok (lib.start_val_stats_update ps.val_stats_proc)
          (lib.start_node_status_update ps.node_status_proc >> with_facade) s t made in
      let (s2, _, made) =
        then-eq-ok (lib.start_node_status_update ps.node_status_proc) with_facade s1 t made in
      let (fa, s3, _, made) = bind-eq-ok (make_facade_args lib args bp ps) serve s2 t made in
      let (h, s4, _, made) =
        bind-eq-ok (make_server lib args fa) (λ h. pure (output_proxy lib args bp ps h)) s3 t
          made in
      (h, ground (arith, made))

  -- A proxy that is made has a server, and closes the components of one base processor.
  create_proxy-output :
      (s t : State) (out : ArgsOutputProxy c State)
      → create_proxy lib args s ≡ (ok out, t)
      → (bp : c.BaseProcessor) × (ps : Processors c) × (h : c.HttpServer) × (out
          ≡ output_proxy lib args bp ps h)
  unfolding create_proxy
  create_proxy-output s t out made =
      let rest =
        λ (bp : c.BaseProcessor). make_processors lib args bp >>= finish_proxy lib args bp in
      let (bp, s1, _, made) =
        bind-eq-ok (make_base_processor lib args)
          (λ bp. lib.start_nodes_sync_state_checks bp >> rest bp) s t made in
      let (s2, _, made) = then-eq-ok (lib.start_nodes_sync_state_checks bp) (rest bp) s1 t made in
      let (ps, s3, _, made) =
        bind-eq-ok (make_processors lib args bp) (finish_proxy lib args bp) s2 t made in
      let (h, made) = finish_proxy-output bp ps s3 t out made in (bp, ps, h, made)

module _ {c : Components} {Rest State : Type 0} (lib : ProxyLibrary c Rest State)
    (running : State → Worker → Bool) (law : IsLawful lib running) where
  each-closables :
      (args : ArgsProxy c Rest) (bp : c.BaseProcessor) (ps : Processors c) (u : State)
      → (v : State) × (each (closables lib args bp ps) u ≡ (ok tt, v))
        × ((k : Worker) → running v k ≡ (is_worker k http_serving && running u k))
  each-closables args bp ps u =
      let u1 = (lib.close_node_group ps.node_group_proc u).1 in
      let u2 = (lib.close_val_stats ps.val_stats_proc u1).1 in
      let u3 = (lib.close_node_status ps.node_status_proc u2).1 in
      (
        (lib.close_base bp u3).1,
        ground (
          arith,
          ignored-ok (lib.close_node_group ps.node_group_proc) u
              (law.closes_node_group ps.node_group_proc u),
          ignored-ok (lib.close_val_stats ps.val_stats_proc) u1
              ((law.stops_val_stats ps.val_stats_proc).returns u1),
          ignored-ok (lib.close_node_status ps.node_status_proc) u2
              ((law.stops_node_status ps.node_status_proc).returns u2),
          ignored-ok (lib.close_base bp) u3 ((law.stops_checks bp).returns u3),
        ),
        λ k.
            four_stopped k (running u k) _ _ _ _
              ((law.closes_node_group_quietly ps.node_group_proc).keeps u k)
              ((law.stops_val_stats ps.val_stats_proc).ends u1 k)
              ((law.stops_node_status ps.node_status_proc).ends u2 k)
              ((law.stops_checks bp).ends u3 k),
      )
    where
      four_stopped :
          (k : Worker) (b b1 b2 b3 b4 : Bool)
          → b1 ≡ b
          → b2 ≡ (not (is_worker k val_stats_updates) && b1)
          → b3 ≡ (not (is_worker k node_status_updates) && b2)
          → b4 ≡ (not (is_worker k sync_checks) && b3)
          → b4 ≡ (is_worker k http_serving && b)
      four_stopped k b b1 b2 b3 b4 h1 h2 h3 h4 = ground arith

  close_output-running :
      (args : ArgsProxy c Rest) (bp : c.BaseProcessor) (ps : Processors c) (h : c.HttpServer)
      (u : State)
      → (v : State) × ((output_proxy lib args bp ps h).proxy_handler.close u ≡ (ok tt, v))
        × ((k : Worker) → running v k ≡ false)
  unfolding proxy_handler close
  close_output-running args bp ps h u =
      let (u1, closed, shown) = each-closables args bp ps u in
      let u2 = (lib.shutdown h 1000000000 u1).1 in
      (
        (lib.close_server h u2).1,
        ground (
          arith,
          law.closes_all (closables lib args bp ps) u,
          closed,
          ignored-ok (lib.shutdown h 1000000000) u1 ((law.shuts_down h 1000000000).returns u1),
          ignored-ok (lib.close_server h) u2 ((law.stops_server h).returns u2),
        ),
        λ k. ground (
          arith,
          shown k,
          (law.shuts_down h 1000000000).ends u1 k,
          (law.stops_server h).ends u2 k,
        ),
      )

  -- On a library in which a component that is closed stops its worker, a handler closes all components
  -- it was given, and a server that is closed serves no more: `Close` of a proxy that `CreateProxy`
  -- made, called at any later time, returns, and none of the proxy's four workers runs behind it.
  pub close-running :
      (args : ArgsProxy c Rest) (s t : State) (out : ArgsOutputProxy c State) (u : State)
      → create_proxy lib args s ≡ (ok out, t)
      → (v : State) × (out.proxy_handler.close u ≡ (ok tt, v))
        × ((k : Worker) → running v k ≡ false)
  close-running args s t out u made =
      let (bp, ps, h, same) = create_proxy-output lib args s t out made in
      rw same (close_output-running args bp ps h u)

  -- What a close that returns leaves.
  pub close-stops :
      (args : ArgsProxy c Rest) (s t : State) (out : ArgsOutputProxy c State) (u v : State)
      → create_proxy lib args s ≡ (ok out, t)
      → out.proxy_handler.close u ≡ (ok tt, v)
      → (k : Worker) → running v k ≡ false
  close-stops args s t out u v made closed k =
      let (w, closed', stopped) = close-running args s t out u made in
      ground (arith, closed, closed', stopped k)
