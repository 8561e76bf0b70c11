-- ===== src/Tests/StateRequestRuns.antt =====
-- Two requests that set states, over the small chain.
use mx_chain_simulator_go.Common.{◌≡◌, refl, Option, some, List, [], ◌∷◌, codes}
use mx_chain_simulator_go.Api.Endpoints
use mx_chain_simulator_go.Api.StateRequests
use mx_chain_simulator_go.Api.StateRequests.{
  to_set_state, to_overwrite, serve_all, all_asked, serve_all-specified,
}
use mx_chain_simulator_go.Facade.Defs
use mx_chain_simulator_go.Facade.Refinement.{Call, specified_all}
use mx_chain_simulator_go.Go.Strconv.{parse_bool}
use mx_chain_simulator_go.Go.Strings.{contains}
use mx_chain_simulator_go.Tests.Chain.{Entry, Chain, sim, proxy, genesis, view, sim-IsLawful}
use mx_chain_simulator_go.Tests.Context.{Request, gin, recorded, request}

abbrev body : List (Option Entry)
body = some (record { owner = codes "a"; name = codes "new"; content = codes "2" }) ∷ []

-- The first asks for no block.
abbrev first : Request
first = record (request [] (codes "true")) { entries = body }

abbrev second : Request
second = record (request [] []) { entries = body }

abbrev requests : List (StateRequests.Request sim proxy 10 gin)
requests = to_set_state first ∷ to_overwrite second ∷ []

abbrev answered : Request → Request
answered c = record c { written = 200 ∷ [] }

abbrev end_chain : Chain
end_chain = (serve_all sim proxy 10 gin requests genesis).1

serve_all-specified_example :
    (calls : List (Call Entry)) × (all_asked sim proxy 10 gin requests ≡ some calls)
    × (view.key end_chain ≡ specified_all sim view calls (view.key genesis))
unfolding Endpoints.set_state_multiple Endpoints.set_state_multiple_overwrite
    Defs.set_state_multiple Defs.set_state_multiple_overwrite Defs.remove_all Defs.remove_account
    contains parse_bool
serve_all-specified_example =
    serve_all-specified sim proxy 10 gin recorded view sim-IsLawful (λ s a k. refl) requests
      (answered first ∷ answered second ∷ []) genesis end_chain (refl, (refl, tt)) refl
      (refl, (refl, tt))
