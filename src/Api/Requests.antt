-- ===== src/Api/Requests.antt =====
-- The endpoints over the facade of pkg/facade: what a request with a number in its text comes to.
use mx_chain_simulator_go.Common.{
  ℕ, ◌+◌, ◌-◌, ◌^◌, ◌≤◌, ◌<◌, ◌≡◌, ◌∙◌, true, false, [], Bytes, codes, arith, iterate,
}
use mx_chain_simulator_go.Common.Int.{
  ℤ, pos, IsInt64, is_nonpositive, uint32, int32, int32_add_modulus, int32_of_small, rounds,
}
use mx_chain_simulator_go.Common.Outcome.{Error, ok, err}
use mx_chain_simulator_go.Api.Interface.{SimulatorFacade, Gin, Payload}
use mx_chain_simulator_go.Api.Endpoints
use mx_chain_simulator_go.Api.Endpoints.{
  succeed, cannot_generate_blocks, get_target_epoch_query_param,
}
use mx_chain_simulator_go.Facade.Interface.{SimulatorHandler, ProxyTransactionsHandler}
use mx_chain_simulator_go.Facade.New.{simulator_facade}
use mx_chain_simulator_go.Facade.Defs
use mx_chain_simulator_go.Facade.Defs.{
  err_invalid_num_of_blocks, err_pending_transaction, get_current_epoch,
}
use mx_chain_simulator_go.Facade.Epoch.{IsSteady, forced, force_change_of_epoch-iterate}
use mx_chain_simulator_go.Facade.Transaction.{
  Answers, IsPendingFor, is_pending, processed_in_time, processed_too_late,
}
use mx_chain_simulator_go.Go.Strconv.{itoa}
use mx_chain_simulator_go.Go.Strconv.Laws.{atoi-itoa, is_empty-itoa}

module _ (sim : SimulatorHandler) (proxy : ProxyTransactionsHandler sim.State) (fuel : ℕ)
    (gin : Gin sim.InitialWalletKeys sim.AddressState) where
  open sim use {State}
  open gin use {Context}

  abbrev facade : SimulatorFacade
  facade = simulator_facade sim proxy fuel

  -- A request for a positive number of blocks in decimal, below 2 ^ 63, reaches the simulator as that
  -- number, and is answered by a success if the simulator makes them.
  pub generate_blocks_request :
      (n : ℕ) (c : Context) (s t : State)
      → gin.param c (codes "num") ≡ itoa (pos n)
      → 0 < n
      → n < 2 ^ 63
      → sim.generate_blocks (pos n) s ≡ (ok tt, t)
      → Endpoints.generate_blocks facade gin c s ≡ (ok (succeed facade gin c Payload.nothing), t)
  unfolding Endpoints.generate_blocks Defs.generate_blocks
  generate_blocks_request n c s t text low high done =
      ground (arith, atoi-itoa (pos n), is_empty-itoa (pos n))

  -- A request for no or a negative number of blocks is answered by an internal error, and does not
  -- reach the simulator.
  pub generate_blocks_request_refused :
      (z : ℤ) (c : Context) (s : State)
      → gin.param c (codes "num") ≡ itoa z
      → IsInt64 z
      → is_nonpositive z ≡ true
      → Endpoints.generate_blocks facade gin c s
        ≡ (ok (cannot_generate_blocks facade gin c err_invalid_num_of_blocks), s)
  unfolding Endpoints.generate_blocks Defs.generate_blocks
  generate_blocks_request_refused z c s text fits low =
      ground (arith, atoi-itoa z fits, is_empty-itoa z)

  module _ (law : IsSteady sim) (c : Context) (s : State) where
    -- On a simulator whose every change of epoch succeeds and raises the epoch by one, a target epoch
    -- that is above the current one, fits 32 bits and is within the fuel is reached by exactly the missing
    -- changes of epoch, and answered by a success.
    pub force_epoch_change_request :
        (n : ℕ)
        → gin.query c (codes "targetEpoch") ≡ itoa (pos n)
        → n < 2 ^ 32
        → get_current_epoch sim s < n
        → n ≤ get_current_epoch sim s + fuel
        → Endpoints.force_epoch_change facade gin c s ≡ (
          ok (succeed facade gin c Payload.nothing),
          iterate (forced sim) (n - get_current_epoch sim s) s,
        )
    unfolding Endpoints.force_epoch_change uint32
    force_epoch_change_request n text fits above near = ground (
      arith,
      atoi-itoa (pos n) (omega arith),
      is_empty-itoa (pos n),
      force_change_of_epoch-iterate sim law fuel n s near,
    )

    -- On a simulator whose every change of epoch succeeds and raises the epoch by one, a target epoch of 64 bits that is a multiple of 2 ^ 32 is taken for no target:
    -- the epoch is changed once, and the answer is a success.
    pub force_epoch_change_request_wraps :
        (z : ℤ)
        → gin.query c (codes "targetEpoch") ≡ itoa z
        → IsInt64 z
        → uint32 z ≡ 0
        → Endpoints.force_epoch_change facade gin c s
          ≡ (ok (succeed facade gin c Payload.nothing), forced sim s)
    unfolding Endpoints.force_epoch_change
    force_epoch_change_request_wraps z text fits wraps =
        ground
          (arith, atoi-itoa z fits, is_empty-itoa z, force_change_of_epoch-iterate sim law fuel 0 s)

  -- The epoch of `generate-blocks-until-epoch-reached` is cut to 32 bits: a request for the epoch
  -- n + 2 ^ 32, for an n below 2 ^ 31, reaches the simulator as the epoch n, and is answered by a
  -- success if the simulator reaches n, and by an internal error with the simulator's error if not.
  pub generate_blocks_until_epoch_reached_wraps :
      (n : ℕ) (c : Context) (s t : State)
      → gin.param c (codes "epoch") ≡ itoa (pos (n + 2 ^ 32))
      → n < 2 ^ 31
      → (sim.generate_blocks_until_epoch_is_reached (pos n) s ≡ (ok tt, t)
          → Endpoints.generate_blocks_until_epoch_reached facade gin c s
            ≡ (ok (succeed facade gin c Payload.nothing), t))
        × ((e : Error)
            → sim.generate_blocks_until_epoch_is_reached (pos n) s ≡ (err e, t)
            → Endpoints.generate_blocks_until_epoch_reached facade gin c s
              ≡ (ok (cannot_generate_blocks facade gin c e), t))
  unfolding Endpoints.generate_blocks_until_epoch_reached
      Defs.generate_blocks_until_epoch_is_reached
  generate_blocks_until_epoch_reached_wraps n c s t text low =
      let read = atoi-itoa (pos (n + 2 ^ 32)) (omega arith) in
      let given = is_empty-itoa (pos (n + 2 ^ 32)) in
      let cut : int32 (pos (n + 2 ^ 32)) ≡ pos n = int32_add_modulus n ∙ int32_of_small n low in
      (
        λ done. ground (arith, read, given, cut, done),
        λ e failed. ground (arith, read, given, cut, failed),
      )

  module _ (status : State → Bytes → Bytes) (block : State → State)
      (law : Answers sim proxy status block) (c : Context) (s : State) where
    abbrev tx_hash : Bytes
    tx_hash = gin.param c (codes "txHash")

    -- Where asking for a status changes nothing and every block is generated, a transaction that is
    -- first not pending behind k blocks, for a k below the bound in the request, is answered by a success
    -- behind exactly k blocks.
    pub transaction_request_in_time :
        (k : ℕ) (max : ℤ)
        → gin.query c (codes "maxNumBlocks") ≡ itoa max
        → IsInt64 max
        → IsPendingFor sim proxy status block tx_hash k s
        → is_pending sim proxy status block tx_hash (iterate block k s) ≡ false
        → k < rounds max
        → Endpoints.generate_blocks_until_transaction_processed facade gin c s
          ≡ (ok (succeed facade gin c Payload.nothing), iterate block k s)
    unfolding Endpoints.generate_blocks_until_transaction_processed
    transaction_request_in_time k max text fits before done lt = ground (
      arith,
      atoi-itoa max fits,
      is_empty-itoa max,
      processed_in_time sim proxy status block tx_hash law k max s before done lt,
    )

    -- Where asking for a status changes nothing and every block is generated, with no bound in the
    -- request, a transaction that is pending behind every number of blocks below 20 is answered by an
    -- internal error behind 20 blocks.
    pub transaction_request_default :
        gin.query c (codes "maxNumBlocks") ≡ []
        → IsPendingFor sim proxy status block tx_hash 20 s
        → Endpoints.generate_blocks_until_transaction_processed facade gin c s
          ≡ (ok (cannot_generate_blocks facade gin c err_pending_transaction), iterate block 20 s)
    unfolding Endpoints.generate_blocks_until_transaction_processed
    transaction_request_default text before =
        ground (arith, processed_too_late sim proxy status block tx_hash law (pos 20) s before)
