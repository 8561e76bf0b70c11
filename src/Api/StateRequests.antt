-- ===== src/Api/StateRequests.antt =====
-- Runs of requests to the two endpoints that set states, down to the keys of the accounts.
use mx_chain_simulator_go.Common.{
  ⊤, ℕ, ◌≡◌, refl, Bool, inl, inr, Option, none, some, List, [], ◌∷◌, ◌++◌, Bytes, codes, arith,
}
use mathlib.Core.Option
use mathlib.Core.Path.{subst}
use mx_chain_simulator_go.Common.Int.{pos}
use mx_chain_simulator_go.Common.Outcome.{
  error_text, ok, Action, pure, attempt, ◌>>=◌, value, error, Try-cases, Outcome-cases, bind-eq-ok,
}
use mx_chain_simulator_go.Api.Endpoints
use mx_chain_simulator_go.Api.Endpoints.{get_query_param_no_generate}
use mx_chain_simulator_go.Api.Interface.{SimulatorFacade, Gin}
use mx_chain_simulator_go.Api.Responses.{Responses}
use mx_chain_simulator_go.Facade.Interface.{SimulatorHandler, ProxyTransactionsHandler}
use mx_chain_simulator_go.Facade.New.{simulator_facade}
use mx_chain_simulator_go.Facade.Overwrite.{View, IsLawful}
use mx_chain_simulator_go.Facade.Refinement.{
  Call, set_state, overwrite, perform, perform_all, specified_all, perform_all-specified,
}

module _ (sim : SimulatorHandler) (handler : ProxyTransactionsHandler sim.State) (fuel : ℕ)
    (gin : Gin sim.InitialWalletKeys sim.AddressState) where
  open sim use {State, AddressState}
  open gin use {Context}

  abbrev pub facade : SimulatorFacade
  facade = simulator_facade sim handler fuel

  -- A request to /simulator/set-state, or to /simulator/set-state-overwrite.
  pub data Request : Type 0 where
    to_set_state : Context → Request
    to_overwrite : Context → Request

  abbrev pub context_of : Request → Context
  context_of (to_set_state c) = c
  context_of (to_overwrite c) = c

  abbrev pub serve : Request → Action State Context
  serve (to_set_state c) = Endpoints.set_state_multiple facade gin c
  serve (to_overwrite c) = Endpoints.set_state_multiple_overwrite facade gin c

  -- The requests one behind the other, with the contexts behind them.
  abbrev pub serve_all : List Request → Action State (List Context)
  serve_all [] = pure []
  serve_all (r ∷ rs) = serve r >>= λ c. serve_all rs >>= λ cs. pure (c ∷ cs)

  -- What a request asks for, by its query and its body.
  abbrev pub with_body :
      (List (Option AddressState) → Bool → Call AddressState) → Context → Option (Call AddressState)
  with_body call c = elim (get_query_param_no_generate facade gin c) [
    | error e ↦ none
    | value no_generate ↦ elim (gin.bind_states c) [
      | error e ↦ none
      | value states ↦ some (call states no_generate)
    ]
  ]

  abbrev pub asked : Request → Option (Call AddressState)
  asked (to_set_state c) = with_body set_state c
  asked (to_overwrite c) = with_body overwrite c

  abbrev pub all_asked : List Request → Option (List (Call AddressState))
  all_asked [] = some []
  all_asked (r ∷ rs) = elim (asked r) [
    | none ↦ none
    | some call ↦ Option.map (λ calls. call ∷ calls) (all_asked rs)
  ]

  -- What the two handlers share, by the call and by the text of its error.
  abbrev both_handlers :
      (List (Option AddressState) → Bool → Action State ⊤) → Bytes → Context → Action State Context
  both_handlers set text c = elim (get_query_param_no_generate facade gin c) [
    | error e ↦ pure (
        gin.respond_with_bad_request c
          (codes "invalid query parameter noGenerate, error: " ++ error_text e))
    | value no_generate ↦ elim (gin.bind_states c) [
      | error e ↦ pure (
          gin.respond_with_bad_request c (codes "invalid state structure, error: " ++ error_text e))
      | value states ↦ attempt (set states no_generate) >>= λ result. pure (
          Endpoints.succeed_or facade gin c
            (λ e. gin.respond_with_bad_request c (text ++ error_text e)) result)
    ]
  ]

  module _ (view : Responses facade gin) where
    open view use {statuses, respond_with_adds, bad_request_adds}

    -- Nothing is written yet; and a success alone is written.
    abbrev pub AllFresh : List Request → Type 0
    AllFresh [] = ⊤
    AllFresh (r ∷ rs) = (statuses (context_of r) ≡ []) × AllFresh rs

    abbrev pub AllSucceed : List Context → Type 0
    AllSucceed [] = ⊤
    AllSucceed (c ∷ cs) = (statuses c ≡ 200 ∷ []) × AllSucceed cs

    serve-asked_lem :
        (set : List (Option AddressState) → Bool → Action State ⊤) (text : Bytes)
        (call : List (Option AddressState) → Bool → Call AddressState) (c c' : Context)
        (s t : State)
        → ((states : List (Option AddressState)) (b : Bool)
            → perform sim (call states b) ≡ set states b)
        → statuses c ≡ []
        → both_handlers set text c s ≡ (ok c', t)
        → statuses c' ≡ 200 ∷ []
        → (x : Call AddressState) × (with_body call c ≡ some x) × (perform sim x s ≡ (ok tt, t))
    serve-asked_lem set text call c c' s t performs fresh served succeeded =
        elim (Try-cases (get_query_param_no_generate facade gin c)) [
          | inl (b, e) ↦ elim (Try-cases (gin.bind_states c)) [
            | inl (states, f) ↦ elim (Outcome-cases (set states b s).0) [
              | inl (_, done) ↦ (
                call states b,
                ground (arith, e, f),
                ground (arith, e, f, done, served, performs states b),
              )
              | inr (inl (e', failed)) ↦
                  absurd (
                    ground
                      (arith, e, f, failed, served, bad_request_adds c (text ++ error_text e')))
              | inr (inr (inl crashed)) ↦ absurd (ground (arith, e, f, crashed, served))
              | inr (inr (inr stuck)) ↦ absurd (ground (arith, e, f, stuck, served))
            ]
            | inr (e', bad) ↦ absurd (
                ground (
                  arith,
                  e,
                  bad,
                  served,
                  bad_request_adds c (codes "invalid state structure, error: " ++ error_text e'),
                ))
          ]
          | inr (e', bad) ↦ absurd (
              ground (
                arith,
                bad,
                served,
                bad_request_adds c
                    (codes "invalid query parameter noGenerate, error: " ++ error_text e'),
              ))
        ]

    serve-asked :
        (r : Request) (c' : Context) (s t : State)
        → statuses (context_of r) ≡ []
        → serve r s ≡ (ok c', t)
        → statuses c' ≡ 200 ∷ []
        → (call : Call AddressState) × (asked r ≡ some call) × (perform sim call s ≡ (ok tt, t))
    unfolding Endpoints.set_state_multiple Endpoints.set_state_multiple_overwrite
    serve-asked (to_set_state c) c' s t =
        serve-asked_lem facade.set_state_multiple (codes "cannot set state, error: ") set_state c c'
          s t (λ states b. refl)
    serve-asked (to_overwrite c) c' s t =
        serve-asked_lem facade.set_state_multiple_overwrite
          (codes "cannot overwrite state, error: ") overwrite c c' s t (λ states b. refl)

    serve_all-asked :
        (rs : List Request) (cs : List Context) (s t : State)
        → AllFresh rs
        → serve_all rs s ≡ (ok cs, t)
        → AllSucceed cs
        → (calls : List (Call AddressState)) × (all_asked rs ≡ some calls)
          × (perform_all sim calls s ≡ (ok tt, t))
    serve_all-asked [] cs s t fresh served succeed = ([], refl, ground (arith, served))
    serve_all-asked (r ∷ rs) cs s t (fresh, fresh') served succeed =
        let (c', u, first, rest) =
          bind-eq-ok (serve r) (λ c. serve_all rs >>= λ cs. pure (c ∷ cs)) s t served in
        let (cs', v, more, done) = bind-eq-ok (serve_all rs) (λ cs. pure (c' ∷ cs)) u t rest in
        let same : cs ≡ c' ∷ cs' = ground (arith, done) in
        let both : AllSucceed (c' ∷ cs') = subst AllSucceed same succeed in
        let (call, asks, done1) = serve-asked r c' s u fresh first both.0 in
        let (calls, asks', done2) = serve_all-asked rs cs' u v fresh' more both.1 in
        (call ∷ calls, ground (arith, asks, asks'), ground (arith, done, done1, done2))

    -- On a simulator that removes and writes keys as it is asked, and whose blocks change none: if the
    -- requests of a run to the two endpoints that set states are all answered by a success alone, then
    -- each has a body and a query that can be read, and the keys of all accounts behind the run are
    -- those that the specification computes from the keys before it and from what the requests ask for.
    pub serve_all-specified :
        (v : View sim) (law : IsLawful sim v)
        (blocks_keep : (s : State) (a k : Bytes)
          → v.key (sim.generate_blocks (pos 1) s).1 a k ≡ v.key s a k)
        (rs : List Request) (cs : List Context) (s t : State)
        → AllFresh rs
        → serve_all rs s ≡ (ok cs, t)
        → AllSucceed cs
        → (calls : List (Call AddressState)) × (all_asked rs ≡ some calls)
          × (v.key t ≡ specified_all sim v calls (v.key s))
    serve_all-specified v law blocks_keep rs cs s t fresh served succeed =
        let (calls, asks, performed) = serve_all-asked rs cs s t fresh served succeed in
        (calls, asks, perform_all-specified sim v law blocks_keep calls s t performed)
