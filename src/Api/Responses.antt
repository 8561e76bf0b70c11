-- ===== src/Api/Responses.antt =====
-- How many responses a handler writes, and with which status.
use mx_chain_simulator_go.Common.{
  ℕ, ◌≡◌, ◌≢◌, refl, ◌⊎◌, inl, inr, false, none, some, Bool, Option, List, [], ◌∷◌, ◌++◌,
  append_assoc, Bytes, codes, arith, is_empty,
}
use mx_chain_simulator_go.Common.Int.{ℤ, uint32}
use mx_chain_simulator_go.Common.Outcome.{
  Error, Outcome, ok, err, panics, runs_on, value, error_text, Try-cases,
}
use mx_chain_simulator_go.Dtos.{ValidatorKeys}
use mx_chain_simulator_go.Api.Interface.{SimulatorFacade, Gin, Payload}
use mx_chain_simulator_go.Api.Endpoints
use mx_chain_simulator_go.Api.Endpoints.{Handler, succeed_or, succeed}
use mx_chain_simulator_go.Go.Strconv.{atoi}
use mx_chain_simulator_go.Api.Routes.{Endpoint, LogStream, handle}

-- The call returned a value or an error.
abbrev pub IsDone : {A : Type 0} → Outcome A → Type 0
IsDone (ok _) = Unit
IsDone (err _) = Unit
IsDone panics = ⊥
IsDone runs_on = ⊥

-- No entry is nil.
abbrev pub NoNil : {A : Type 0} → List (Option A) → Type 0
NoNil [] = Unit
NoNil (none ∷ _) = ⊥
NoNil (some _ ∷ entries) = NoNil entries

module _ (facade : SimulatorFacade) (gin : Gin facade.InitialWalletKeys facade.AddressState) where
  open facade use {State, InitialWalletKeys}
  open gin use {Context}

  -- What is relied on: a view of the context as the statuses of the responses that were written, to
  -- which each of the four calls adds one.
  pub record Responses : Type 0 where
    pub statuses : Context → List ℕ
    pub json_error_adds :
        (c : Context) (status : ℕ) (text : Bytes)
        → statuses (gin.json_error c status text) ≡ statuses c ++ status ∷ []
    pub respond_with_adds :
        (c : Context) (status : ℕ) (data' : Payload InitialWalletKeys) (text code : Bytes)
        → statuses (gin.respond_with c status data' text code) ≡ statuses c ++ status ∷ []
    pub bad_request_adds :
        (c : Context) (text : Bytes)
        → statuses (gin.respond_with_bad_request c text) ≡ statuses c ++ 400 ∷ []
    pub internal_error_adds :
        (c : Context) (what e : Error)
        → statuses (gin.respond_with_internal_error c what e) ≡ statuses c ++ 500 ∷ []

  -- What is relied on: the facade's methods return, with a value or with an error, where no account
  -- of a slice is nil.
  pub record Returning : Type 0 where
    pub blocks : (n : ℤ) (s : State) → IsDone (facade.generate_blocks n s).0
    pub epoch_reached :
        (n : ℤ) (s : State) → IsDone (facade.generate_blocks_until_epoch_is_reached n s).0
    pub processed :
        (h : Bytes) (n : ℤ) (s : State)
        → IsDone (facade.generate_blocks_until_transaction_is_processed h n s).0
    pub key_value :
        (a : Bytes) (kv : List (Bytes × Bytes)) (s : State)
        → IsDone (facade.set_key_value_for_address a kv s).0
    pub set :
        (states : List (Option facade.AddressState)) (b : Bool) (s : State)
        → NoNil states
        → IsDone (facade.set_state_multiple states b s).0
    pub overwrite :
        (states : List (Option facade.AddressState)) (b : Bool) (s : State)
        → NoNil states
        → IsDone (facade.set_state_multiple_overwrite states b s).0
    pub keys : (v : ValidatorKeys) (s : State) → IsDone (facade.add_validator_keys v s).0
    pub statistics : (s : State) → IsDone (facade.force_update_validator_statistics s).0
    pub info : (s : State) → IsDone (facade.get_observers_info s).0

  module _ (view : Responses) where
    open view use {statuses}

    -- The handler returns, and one response was written: a success, a bad request or an internal error.
    abbrev pub RespondsOnce : Context → Outcome Context → Type 0
    RespondsOnce c (ok c') =
        (statuses c' ≡ statuses c ++ 200 ∷ [])
        ⊎ ((statuses c' ≡ statuses c ++ 400 ∷ []) ⊎ (statuses c' ≡ statuses c ++ 500 ∷ []))
    RespondsOnce c (err _) = ⊥
    RespondsOnce c panics = ⊥
    RespondsOnce c runs_on = ⊥

    module _ (logs : LogStream facade.State gin.Context) where
      -- Where the facade's methods return, with a value or an error, and no account in the request's
      -- body is nil, every endpoint but the change of epoch and the stream of the log returns, and has
      -- written exactly one response, on every path: a success, a bad request or an internal error.
      pub handle-RespondsOnce :
          (law : Returning) (e : Endpoint) (c : Context) (s : State)
          → ((states : List (Option facade.AddressState))
              → gin.bind_states c ≡ value states
              → NoNil states)
          → e ≢ Endpoint.force_epoch_change
          → e ≢ Endpoint.log_stream
          → RespondsOnce c (handle facade gin logs e c s).0
      unfolding handle Endpoints.generate_blocks Endpoints.generate_blocks_until_epoch_reached
          Endpoints.generate_blocks_until_transaction_processed Endpoints.initial_wallets
          Endpoints.set_key_value Endpoints.set_state_multiple
          Endpoints.set_state_multiple_overwrite Endpoints.add_validator_keys
          Endpoints.force_update_validator_statistics Endpoints.get_observers_info
      handle-RespondsOnce law Endpoint.generate_blocks c s _ _ _ = grind (
        arith, law.blocks, view.respond_with_adds, view.bad_request_adds, view.internal_error_adds,
      )
      handle-RespondsOnce law Endpoint.generate_blocks_until_epoch_reached c s _ _ _ = grind (
        arith, law.epoch_reached, view.respond_with_adds, view.bad_request_adds,
        view.internal_error_adds,
      )
      handle-RespondsOnce law Endpoint.generate_blocks_until_transaction_processed c s _ _ _ =
          grind (
            arith, law.processed, view.respond_with_adds, view.bad_request_adds,
            view.internal_error_adds,
          )
      handle-RespondsOnce law Endpoint.initial_wallets c s _ _ _ =
          grind (arith, view.respond_with_adds, view.bad_request_adds, view.internal_error_adds)
      handle-RespondsOnce law Endpoint.set_key_value c s _ _ _ = grind (
        arith, law.key_value, view.respond_with_adds, view.bad_request_adds,
        view.internal_error_adds,
      )
      handle-RespondsOnce law Endpoint.set_state_multiple c s body _ _ =
          elim (Try-cases (gin.bind_states c)) [
            | inl (states, bound) ↦
                let done = λ (b : Bool). law.set states b s (body states bound) in
                grind (
                  arith, bound, done, view.respond_with_adds, view.bad_request_adds,
                  view.internal_error_adds,
                )
            | inr (e, unbound) ↦ grind (arith, unbound, view.bad_request_adds)
          ]
      handle-RespondsOnce law Endpoint.set_state_multiple_overwrite c s body _ _ =
          elim (Try-cases (gin.bind_states c)) [
            | inl (states, bound) ↦
                let done = λ (b : Bool). law.overwrite states b s (body states bound) in
                grind (
                  arith, bound, done, view.respond_with_adds, view.bad_request_adds,
                  view.internal_error_adds,
                )
            | inr (e, unbound) ↦ grind (arith, unbound, view.bad_request_adds)
          ]
      handle-RespondsOnce law Endpoint.add_validator_keys c s _ _ _ =
          grind (
            arith, law.keys, view.respond_with_adds, view.bad_request_adds,
            view.internal_error_adds,
          )
      handle-RespondsOnce law Endpoint.force_update_validator_statistics c s _ _ _ = grind (
        arith,
        law.statistics s,
        view.respond_with_adds,
        view.bad_request_adds,
        view.internal_error_adds,
      )
      handle-RespondsOnce law Endpoint.get_observers_info c s _ _ _ = grind (
        arith,
        law.info s,
        view.respond_with_adds,
        view.bad_request_adds,
        view.internal_error_adds,
      )
      handle-RespondsOnce law Endpoint.force_epoch_change c s _ n _ = absurd (n refl)
      handle-RespondsOnce law Endpoint.log_stream c s _ _ n = absurd (n refl)

    module _ (c : Context) (s t : State) (target_epoch : ℤ) where
      -- A failed change of epoch is answered twice, by a bad request and then by a success, since the
      -- handler goes on behind the first response; the client sees an error and a success at once.
      pub force_epoch_change_error :
          (e : Error)
          → Endpoints.get_target_epoch_query_param facade gin c ≡ (c, value target_epoch)
          → facade.force_change_of_epoch (uint32 target_epoch) s ≡ (err e, t)
          → (c' : Context) × (Endpoints.force_epoch_change facade gin c s ≡ (ok c', t))
            × (statuses c' ≡ statuses c ++ 400 ∷ 200 ∷ [])
      unfolding Endpoints.force_epoch_change
      force_epoch_change_error e read failed = (
        succeed facade gin (gin.json_error c 400 (error_text e)) Payload.nothing,
        ground (arith, read, failed),
        rw (view.respond_with_adds, view.json_error_adds, append_assoc),
      )

      -- A successful one is answered once, by a success.
      pub force_epoch_change_success :
          Endpoints.get_target_epoch_query_param facade gin c ≡ (c, value target_epoch)
          → facade.force_change_of_epoch (uint32 target_epoch) s ≡ (ok tt, t)
          → (c' : Context) × (Endpoints.force_epoch_change facade gin c s ≡ (ok c', t))
            × (statuses c' ≡ statuses c ++ 200 ∷ [])
      unfolding Endpoints.force_epoch_change
      force_epoch_change_success read done = (
        succeed facade gin c Payload.nothing,
        ground (arith, read, done),
        view.respond_with_adds c 200 _ _ _,
      )

    -- A target epoch that is not a number is answered twice by a bad request, and changes nothing.
    pub force_epoch_change_bad_query :
        (c : Context) (s : State)
        → is_empty (gin.query c (codes "targetEpoch")) ≡ false
        → atoi (gin.query c (codes "targetEpoch")) ≡ none
        → (c' : Context) × (Endpoints.force_epoch_change facade gin c s ≡ (ok c', s))
          × (statuses c' ≡ statuses c ++ 400 ∷ 400 ∷ [])
    unfolding Endpoints.force_epoch_change
    force_epoch_change_bad_query c s given bad = (
      gin.json_error (gin.respond_with_bad_request c Endpoints.cannot_convert) 400
          Endpoints.cannot_convert,
      ground (arith, given, bad),
      rw (view.json_error_adds, view.bad_request_adds, append_assoc),
    )
