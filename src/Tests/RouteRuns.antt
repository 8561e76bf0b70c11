-- ===== src/Tests/RouteRuns.antt =====
-- A router that keeps its registrations in a list.
use mx_chain_simulator_go.Common.{
  ◌≡◌, refl, Bool, ◌&&◌, Option, none, some, List, [], ◌∷◌, Bytes, codes, bytes_eq, if◌then◌else◌,
}
use mx_chain_simulator_go.Common.Outcome.{value}
use mx_chain_simulator_go.Api.Routes
use mx_chain_simulator_go.Api.Routes.{Endpoint, Router, extend_proxy_server}
use mx_chain_simulator_go.Api.RouteLaws.{
  Method, get_method, post_method, is_get, is_post, Serving, extend_proxy_server-path_of,
}

abbrev Engine : Type 0
Engine = List (Method × Bytes × Endpoint)

abbrev router : Router
router = record {
  Server = Option Engine;
  Engine = Engine;
  as_engine = λ server. server;
  post = λ p e ws. (post_method, p, e) ∷ ws;
  get = λ p e ws. (get_method, p, e) ∷ ws;
}

abbrev is_method : Method → Method → Bool
is_method get_method m = is_get m
is_method post_method m = is_post m

abbrev lookup_route : Engine → Method → Bytes → Option Endpoint
lookup_route [] m q = none
lookup_route ((r, p, e) ∷ ws) m q =
    if is_method r m && bytes_eq q p then some e else lookup_route ws m q

serving : Serving router
serving = record {
  served = lookup_route;
  post_adds = λ p e ws m q. refl;
  get_adds = λ p e ws m q. refl;
}

extend_proxy_server-path_of_example :
    (ws : Engine) × (extend_proxy_server router (some []) ≡ value ws)
    × (lookup_route ws post_method (codes "/simulator/add-keys") ≡ some Routes.add_validator_keys)
unfolding serving
extend_proxy_server-path_of_example =
    extend_proxy_server-path_of router serving (some []) [] Routes.add_validator_keys refl
