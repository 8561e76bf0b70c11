-- ===== src/Api/Served.antt =====
-- The endpoints over the facade of pkg/facade: its methods return where the simulator's do.
use mx_chain_simulator_go.Common.{
  ⊤, ℕ, zero, suc, ◌≡◌, ◌≢◌, Bool, true, false, Option, none, some, inl, inr, List, [], ◌∷◌, Bytes,
  bytes_eq, Bool-cases, arith,
}
use mx_chain_simulator_go.Common.Int.{ℤ, pos, rounds}
use mx_chain_simulator_go.Common.Outcome.{
  Action, value, Try, error, Outcome-cases, ◌>>=◌, ◌>>◌, pure, lift, attempt,
}
use mx_chain_simulator_go.Api.Interface.{Gin}
use mx_chain_simulator_go.Api.Responses.{
  IsDone, NoNil, Responses, Returning, RespondsOnce, handle-RespondsOnce,
}
use mx_chain_simulator_go.Api.Routes.{Endpoint, LogStream, handle}
use mx_chain_simulator_go.Facade.Defs
use mx_chain_simulator_go.Facade.Interface.{SimulatorHandler, ProxyTransactionsHandler}
use mx_chain_simulator_go.Facade.Keys.{decode_keys}
use mx_chain_simulator_go.Facade.New.{simulator_facade}
use mx_chain_simulator_go.Facade.Observers.{observers_info}

module _ {S : Type 0} where
  bind-IsDone :
      {A B : Type 0} (m : Action S A) (k : A → Action S B) (s : S)
      → IsDone (m s).0
      → ((a : A) (t : S) → IsDone (k a t).0)
      → IsDone ((m >>= k) s).0
  bind-IsDone m k s first rest = elim (Outcome-cases (m s).0) [
    | inl (a, e) ↦ let rest = rest a (m s).1 in ground (arith, e, rest)
    | inr other ↦ ground (arith, first, other)
  ]

  lift-IsDone : {A : Type 0} (t : Try A) (s : S) → IsDone (lift t s).0
  lift-IsDone (value a) s = tt
  lift-IsDone (error e) s = tt

  attempt-IsDone : {A : Type 0} (m : Action S A) (s : S) → IsDone (m s).0 → IsDone (attempt m s).0
  attempt-IsDone m s done = ground (arith, done)

module _ (sim : SimulatorHandler) (proxy : ProxyTransactionsHandler sim.State) where
  open sim use {State}

  -- What is relied on: what is called of the simulator and of the proxy returns, with a value or an
  -- error, where no account of a slice is nil.
  pub record CallsReturn : Type 0 where
    pub blocks : (n : ℤ) (s : State) → IsDone (sim.generate_blocks n s).0
    pub epoch_reached :
        (n : ℤ) (s : State) → IsDone (sim.generate_blocks_until_epoch_is_reached n s).0
    pub status : (h : Bytes) (s : State) → IsDone (proxy.get_processed_transaction_status h s).0
    pub key_value :
        (a : Bytes) (kv : List (Bytes × Bytes)) (s : State)
        → IsDone (sim.set_key_value_for_address a kv s).0
    pub set :
        (states : List (Option sim.AddressState)) (s : State)
        → NoNil states
        → IsDone (sim.set_state_multiple states s).0
    pub remove : (addresses : List Bytes) (s : State) → IsDone (sim.remove_accounts addresses s).0
    pub keys : (ks : List Bytes) (s : State) → IsDone (sim.add_validator_keys ks s).0
    pub statistics : (s : State) → IsDone (sim.force_reset_validator_statistics_cache s).0

  module _ (law : CallsReturn) where
    generate_blocks-IsDone : (n : ℤ) (s : State) → IsDone (Defs.generate_blocks sim n s).0
    unfolding Defs.generate_blocks
    generate_blocks-IsDone n s = ground (arith, law.blocks n s)

    until_processed-IsDone :
        (left : ℕ) (h : Bytes) (s : State) → IsDone (Defs.until_processed sim proxy left h s).0
    unfolding Defs.until_processed
    until_processed-IsDone zero h s = tt
    until_processed-IsDone (suc left) h s =
        let go_on : Bytes → Action State ⊤ = λ status.
          elim (bytes_eq status proxy.tx_status_pending) [
            | false ↦ pure tt
            | true ↦ Defs.generate_blocks sim (pos 1) >> Defs.until_processed sim proxy left h
          ] in
        bind-IsDone (proxy.get_processed_transaction_status h) go_on s (law.status h s) (λ status t.
          elim (Bool-cases (bytes_eq status proxy.tx_status_pending)) [
            | inl pending ↦ rw pending (
                bind-IsDone (Defs.generate_blocks sim (pos 1))
                  (λ _. Defs.until_processed sim proxy left h) t (generate_blocks-IsDone (pos 1) t)
                  (λ _ u. until_processed-IsDone left h u))
            | inr other ↦ rw other tt
          ])

    set_state_multiple-IsDone :
        (states : List (Option sim.AddressState)) (b : Bool) (s : State)
        → NoNil states
        → IsDone (Defs.set_state_multiple sim states b s).0
    unfolding Defs.set_state_multiple
    set_state_multiple-IsDone states true s given =
        bind-IsDone (sim.set_state_multiple states) (λ _. pure tt) s (law.set states s given)
          (λ _ t. tt {0})
    set_state_multiple-IsDone states false s given =
        bind-IsDone (sim.set_state_multiple states) (λ _. sim.generate_blocks (pos 1)) s
          (law.set states s given) (λ _ t. law.blocks (pos 1) t)

    returned-IsDone : (r : Try ⊤) (s : State) → IsDone (Defs.returned sim r s).0
    returned-IsDone (value _) s = tt
    returned-IsDone (error e) s = elim (Bool-cases (Defs.should_return_err sim e)) [
      | inl fatal ↦ rw fatal tt
      | inr mild ↦ rw mild tt
    ]

    remove_account-IsDone :
        (a : sim.AddressState) (s : State) → IsDone (Defs.remove_account sim a s).0
    unfolding Defs.remove_account
    remove_account-IsDone a s =
        bind-IsDone (attempt (sim.remove_accounts (sim.address a ∷ []))) (Defs.returned sim) s
          (attempt-IsDone (sim.remove_accounts (sim.address a ∷ [])) s (law.remove _ s))
          returned-IsDone

    remove_all-IsDone :
        (states : List (Option sim.AddressState)) (s : State)
        → NoNil states
        → IsDone (Defs.remove_all sim states s).0
    unfolding Defs.remove_all
    remove_all-IsDone [] s given = tt
    remove_all-IsDone (none ∷ states) s given = absurd given
    remove_all-IsDone (some a ∷ states) s given =
        bind-IsDone (Defs.remove_account sim a) (λ _. Defs.remove_all sim states) s
          (remove_account-IsDone a s) (λ _ t. remove_all-IsDone states t given)

    module _ (fuel : ℕ) (gin : Gin sim.InitialWalletKeys sim.AddressState) where
      simulator_facade-Returning : Returning (simulator_facade sim proxy fuel) gin
      unfolding Defs.generate_blocks_until_transaction_is_processed
          Defs.set_state_multiple_overwrite Defs.add_validator_keys Defs.get_observers_info
          Defs.set_key_value_for_address Defs.generate_blocks_until_epoch_is_reached
          Defs.force_update_validator_statistics
      simulator_facade-Returning = record {
        blocks = generate_blocks-IsDone;
        epoch_reached = law.epoch_reached;
        processed = λ h n s. until_processed-IsDone (rounds n) h s;
        key_value = law.key_value;
        set = set_state_multiple-IsDone;
        overwrite = λ states b s given.
            bind-IsDone (Defs.remove_all sim states) (λ _. Defs.set_state_multiple sim states b) s
              (remove_all-IsDone states s given)
              (λ _ t. set_state_multiple-IsDone states b t given);
        keys = λ v s.
            bind-IsDone (lift (decode_keys 0 v.private_keys_base64 [])) sim.add_validator_keys s
              (lift-IsDone (decode_keys 0 v.private_keys_base64 []) s) law.keys;
        statistics = law.statistics;
        info = λ s. lift-IsDone (observers_info (sim.get_rest_api_interfaces s) []) s;
      }

      -- Where the calls of the simulator and of the proxy return, with a value or an error, and no
      -- account in the request's body is nil: over the facade of pkg/facade every endpoint but the
      -- change of epoch and the stream of the log returns, and has written exactly one response, on
      -- every path: a success, a bad request or an internal error.
      pub served-RespondsOnce :
          (view : Responses (simulator_facade sim proxy fuel) gin)
          (logs : LogStream State gin.Context) (e : Endpoint) (c : gin.Context) (s : State)
          → ((states : List (Option sim.AddressState))
              → gin.bind_states c ≡ value states
              → NoNil states)
          → e ≢ Endpoint.force_epoch_change
          → e ≢ Endpoint.log_stream
          → RespondsOnce
              (simulator_facade sim proxy fuel)
              gin
              view
              c
              (handle (simulator_facade sim proxy fuel) gin logs e c s).0
      served-RespondsOnce view logs =
          handle-RespondsOnce (simulator_facade sim proxy fuel) gin view logs
            simulator_facade-Returning
