-- ===== src/Tests/Context.antt =====
-- A request context that records the responses.
use mx_chain_simulator_go.Common.{ℕ, refl, Option, List, ◌∷◌, [], ◌++◌, Bytes, codes}
use mx_chain_simulator_go.Common.Outcome.{value}
use mx_chain_simulator_go.Api.Interface.{Gin, SimulatorFacade}
use mx_chain_simulator_go.Api.Responses.{Responses}
use mx_chain_simulator_go.Facade.New.{simulator_facade}
use mx_chain_simulator_go.Tests.Chain.{Entry, sim, proxy}

pub record Request : Type 0 where
  pub params : Bytes
  pub queries : Bytes
  pub entries : List (Option Entry)
  pub keys : List Bytes
  pub written : List ℕ

abbrev add : Request → ℕ → Request
add c status = record c { written = c.written ++ status ∷ [] }

abbrev pub gin : Gin Bytes Entry
gin = record {
  Context = Request;
  param = λ c name. c.params;
  query = λ c name. c.queries;
  bind_key_values = λ c. value [];
  bind_states = λ c. value c.entries;
  bind_validator_keys = λ c. value (record { private_keys_base64 = c.keys });
  return_code_success = codes "successful";
  json_error = λ c status text. add c status;
  respond_with = λ c status data' text code. add c status;
  respond_with_bad_request = λ c text. add c 400;
  respond_with_internal_error = λ c what e. add c 500;
}

abbrev pub facade : SimulatorFacade
facade = simulator_facade sim proxy 10

abbrev pub recorded : Responses facade gin
recorded = record {
  statuses = λ c. c.written;
  json_error_adds = λ c status text. refl;
  respond_with_adds = λ c status data' text code. refl;
  bad_request_adds = λ c text. refl;
  internal_error_adds = λ c what e. refl;
}

-- One value for every parameter of the path, and one for every parameter of the query.
abbrev pub request : Bytes → Bytes → Request
request params queries = record {
  params = params;
  queries = queries;
  entries = [];
  keys = [];
  written = [];
}
