-- ===== src/Tests/ApiRuns.antt =====
-- The endpoints over the small chain and a recording context.
use mx_chain_simulator_go.Common.{
  ⊤, ℕ, zero, suc, ◌≡◌, refl, Option, none, some, List, [], ◌∷◌, Bytes, codes, arith, iterate,
}
use mx_chain_simulator_go.Common.Int.{pos, uint32}
use mx_chain_simulator_go.Common.Outcome.{ok, Try, value}
use mx_chain_simulator_go.Api.Interface.{Payload}
use mx_chain_simulator_go.Api.Endpoints
use mx_chain_simulator_go.Api.Endpoints.{succeed, cannot_generate_blocks}
use mx_chain_simulator_go.Api.Routes.{Endpoint, LogStream, handle}
use mx_chain_simulator_go.Api.Responses.{IsDone, NoNil, RespondsOnce, force_epoch_change_error}
use mx_chain_simulator_go.Api.Served.{CallsReturn, served-RespondsOnce}
use mx_chain_simulator_go.Api.Requests.{
  generate_blocks_request, force_epoch_change_request, force_epoch_change_request_wraps,
  generate_blocks_until_epoch_reached_wraps,
}
use mx_chain_simulator_go.Facade.Defs
use mx_chain_simulator_go.Facade.Defs.{
  target_epoch_error, err_invalid_num_of_blocks, err_pending_transaction,
}
use mx_chain_simulator_go.Go.Strconv.{itoa, atoi}
use mx_chain_simulator_go.Facade.Interface.{ProxyTransactionsHandler}
use mx_chain_simulator_go.Facade.Transaction.{Answers, IsPendingFor}
use mx_chain_simulator_go.Tests.Chain.{
  Entry, remove, write, with_entry, Chain, sim, proxy, one_more, next, genesis, sim-IsSteady,
}
use mx_chain_simulator_go.Tests.Context.{Request, gin, facade, recorded, request}

-- Two accounts are written over, one of them new.
abbrev overwriting : Request
overwriting = record (request [] []) {
  entries =
      some (record { owner = codes "a"; name = codes "k"; content = codes "1" })
      ∷ some (record { owner = codes "b"; name = codes "k"; content = codes "2" })
      ∷ [];
}

abbrev chain_logs : LogStream Chain Request
chain_logs = record {
  Conn = ⊤;
  Sender = ⊤;
  upgrade = λ check c. (c, value tt);
  new_log_sender = λ conn. value tt;
  start_sending_blocking = λ ls c s. (ok c, s);
}

write-IsDone :
    (entries : List (Option Entry)) (s : Chain) → NoNil entries → IsDone (write entries s).0
write-IsDone [] s given = tt
write-IsDone (none ∷ entries) s given = absurd given
write-IsDone (some e ∷ entries) s given =
    write-IsDone entries (record s { accounts = with_entry e s.accounts }) given

remove-IsDone : (addresses : List Bytes) (s : Chain) → IsDone (remove addresses s).0
remove-IsDone [] s = tt
remove-IsDone (a ∷ addresses) s = ground arith

calls_return : CallsReturn sim proxy
calls_return = record {
  blocks = λ n s. tt;
  epoch_reached = λ n s. tt;
  status = λ h s. tt;
  key_value = λ a kv s. tt;
  set = write-IsDone;
  remove = remove-IsDone;
  keys = λ ks s. tt;
  statistics = λ s. tt;
}

same_entries :
    (states : List (Option Entry))
    → Path (Try (List (Option Entry))) (value overwriting.entries) (value states)
    → NoNil states
same_entries states e = let same : states ≡ overwriting.entries = ground (arith, e) in rw same tt

served-RespondsOnce_example :
    RespondsOnce facade gin recorded overwriting
      (handle facade gin chain_logs Endpoint.set_state_multiple_overwrite overwriting genesis).0
served-RespondsOnce_example =
    served-RespondsOnce sim proxy calls_return 10 gin recorded chain_logs
      Endpoint.set_state_multiple_overwrite overwriting genesis same_entries (cc) (cc)

-- The chain is at epoch 4, and the target is 2.
force_epoch_change_error_example :
    (c' : Request) × (Endpoints.force_epoch_change facade gin (request [] (codes "2")) genesis
      ≡ (ok c', genesis))
    × (c'.written ≡ 400 ∷ 200 ∷ [])
unfolding atoi uint32 Defs.force_change_of_epoch
force_epoch_change_error_example =
    force_epoch_change_error facade gin recorded (request [] (codes "2")) genesis genesis (pos 2)
      (target_epoch_error 4 2) refl refl

generate_blocks_request_example :
    Endpoints.generate_blocks facade gin (request (codes "3") []) genesis ≡ (
      ok (succeed facade gin (request (codes "3") []) Payload.nothing),
      record genesis { blocks = 4 },
    )
unfolding itoa
generate_blocks_request_example =
    generate_blocks_request sim proxy 10 gin 3 (request (codes "3") []) genesis
      (record genesis { blocks = 4 }) refl (omega arith) (omega arith) refl

force_epoch_change_request_example :
    Endpoints.force_epoch_change facade gin (request [] (codes "7")) genesis
    ≡ (ok (succeed facade gin (request [] (codes "7")) Payload.nothing), iterate next 3 genesis)
unfolding itoa
force_epoch_change_request_example =
    force_epoch_change_request sim proxy 10 gin sim-IsSteady (request [] (codes "7")) genesis 7 refl
      (omega arith) (omega arith) (omega arith)

-- 4294967296 is 2 ^ 32.
force_epoch_change_request_wraps_example :
    Endpoints.force_epoch_change facade gin (request [] (codes "4294967296")) genesis
    ≡ (ok (succeed facade gin (request [] (codes "4294967296")) Payload.nothing), next genesis)
unfolding uint32 itoa
force_epoch_change_request_wraps_example =
    force_epoch_change_request_wraps sim proxy 10 gin sim-IsSteady (request [] (codes "4294967296"))
      genesis (pos 4294967296) refl (omega arith) refl

-- 4294967301 is 5 + 2 ^ 32.
generate_blocks_until_epoch_reached_wraps_example :
    Endpoints.generate_blocks_until_epoch_reached facade gin
      (request (codes "4294967301") [])
      genesis
    ≡ (
      ok (succeed facade gin (request (codes "4294967301") []) Payload.nothing),
      record genesis { current = 5 },
    )
unfolding itoa
generate_blocks_until_epoch_reached_wraps_example =
    (generate_blocks_until_epoch_reached_wraps sim proxy 10 gin 5 (request (codes "4294967301") [])
        genesis (record genesis { current = 5 }) refl (omega arith)).0
      refl

-- A proxy for which every transaction is pending.
abbrev stuck_proxy : ProxyTransactionsHandler Chain
stuck_proxy = record {
  tx_status_pending = codes "pending";
  get_processed_transaction_status = λ tx_hash s. (ok (codes "pending"), s);
}

abbrev stuck : Chain → Bytes → Bytes
stuck s tx_hash = codes "pending"

stuck-Answers : Answers sim stuck_proxy stuck one_more
stuck-Answers = record { asks = λ s h. refl; generates = λ s. ground arith }

stuck-IsPendingFor :
    (n : ℕ) (s : Chain) → IsPendingFor sim stuck_proxy stuck one_more (codes "t") n s
stuck-IsPendingFor zero s = tt
stuck-IsPendingFor (suc n) s = (refl, stuck-IsPendingFor n (one_more s))
