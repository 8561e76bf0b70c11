-- ===== src/Tests/FacadeRuns.antt =====
-- The facade over the small chain.
use mx_chain_simulator_go.Common.{
  ℕ, ◌≡◌, refl, sym, true, false, Option, none, some, List, [], ◌∷◌, ◌++◌, Bytes, codes, arith,
  iterate, ◌==◌, Bool-cases, inl, inr, if◌then◌else◌,
}
use mathlib.Core.Option
use mathlib.Core.Quot
use mathlib.Core.Quot.{Quot}
use mx_chain_simulator_go.Common.Int.{ℤ, pos}
use mx_chain_simulator_go.Common.Outcome.{ok, err, panics, message}
use mx_chain_simulator_go.Facade.Defs
use mx_chain_simulator_go.Facade.Defs.{err_pending_transaction, target_epoch_error}
use mx_chain_simulator_go.Facade.Keys.{decode_key}
use mx_chain_simulator_go.Facade.KeyLaws.{
  encode_key, add_validator_keys-encode_key, add_validator_keys_fails,
}
use mx_chain_simulator_go.Facade.Epoch.{
  Reaches, force_change_of_epoch-Reaches, force_change_of_epoch-iterate,
}
use mx_chain_simulator_go.Facade.Transaction.{processed_in_time, processed_too_late}
use mx_chain_simulator_go.Facade.Overwrite.{overwrite_stops, overwrite_nil_panics}
use mx_chain_simulator_go.Facade.Observers.{lookup, ShardMap}
use mx_chain_simulator_go.Facade.ObserverLaws.{
  info, SameMap, IsInterface, get_observers_info-ports, NodupKeys,
}
use mx_chain_simulator_go.Facade.ObserverMap.{
  GoMap, answered, observers_of, get_observers_info-observers_of,
}
use mx_chain_simulator_go.Dtos.{ObserverInfo}
use mx_chain_simulator_go.Go.Strconv.{format_uint, itoa}
use mx_chain_simulator_go.Go.Strings.{contains}
use mx_chain_simulator_go.Go.Base64
use mx_chain_simulator_go.Tests.Chain.{
  Entry, sim, proxy, status, one_more, next, genesis, sim-IsAdvancing, sim-IsSteady, sim-Answers,
  shard0, meta,
}

force_change_of_epoch-Reaches_example : Reaches sim 7 genesis (ok tt, iterate next 3 genesis)
unfolding Defs.force_change_of_epoch Defs.force_loop
force_change_of_epoch-Reaches_example =
    force_change_of_epoch-Reaches sim sim-IsAdvancing 10 7 genesis (omega arith) (omega arith)

force_change_of_epoch-iterate_example :
    Defs.force_change_of_epoch sim 3 7 genesis ≡ (ok tt, iterate next 3 genesis)
force_change_of_epoch-iterate_example =
    force_change_of_epoch-iterate sim sim-IsSteady 3 7 genesis (omega arith)

processed_in_time_example :
    Defs.generate_blocks_until_transaction_is_processed sim proxy (codes "t") (pos 20) genesis
    ≡ (ok tt, iterate one_more 2 genesis)
processed_in_time_example =
    processed_in_time sim proxy status one_more (codes "t") sim-Answers 2 (pos 20) genesis
      (refl, (refl, tt)) refl (omega arith)

-- With a bound of two blocks the transaction is processed by the second, and the answer is an error.
processed_too_late_example :
    Defs.generate_blocks_until_transaction_is_processed sim proxy (codes "t") (pos 2) genesis
    ≡ (err err_pending_transaction, iterate one_more 2 genesis)
processed_too_late_example =
    processed_too_late sim proxy status one_more (codes "t") sim-Answers (pos 2) genesis
      (refl, (refl, tt))

abbrev key1 : Bytes
key1 = 245 ∷ 219 ∷ 7 ∷ []

add_validator_keys-encode_key_example :
    Defs.add_validator_keys sim
      (record { private_keys_base64 = encode_key key1 ∷ encode_key [] ∷ [] })
      genesis
    ≡ (ok tt, record genesis { keys = key1 ∷ [] ∷ [] })
add_validator_keys-encode_key_example =
    add_validator_keys-encode_key sim (key1 ∷ [] ∷ []) genesis (omega arith)

-- The second key is no base64.
add_validator_keys_fails_example :
    Defs.add_validator_keys sim
      (record { private_keys_base64 = encode_key key1 ∷ codes "a?" ∷ encode_key key1 ∷ [] })
      genesis
    ≡ (
      err (
          message
            (codes "cannot base64 decode key index=1, error=illegal base64 data at input byte 1")),
      genesis,
    )
unfolding decode_key Base64.decode format_uint
add_validator_keys_fails_example =
    add_validator_keys_fails sim (key1 ∷ []) (encode_key key1 ∷ []) (codes "a?")
      (message
        (codes "cannot base64 decode key index=1, error=illegal base64 data at input byte 1"))
      genesis (omega arith) refl

abbrev slice : List (Option Entry)
slice =
    some (record { owner = codes "a"; name = codes "new"; content = codes "2" })
    ∷ some (record { owner = codes "b"; name = codes "k"; content = codes "3" })
    ∷ []

overwrite_stops_example :
    Defs.set_state_multiple_overwrite sim
      (slice ++ some (record { owner = codes "locked"; name = []; content = [] }) ∷ [])
      false
      genesis
    ≡ (err (message (codes "account is locked")), (Defs.remove_all sim slice genesis).1)
unfolding Defs.remove_all Defs.remove_account contains
overwrite_stops_example =
    overwrite_stops sim slice [] (record { owner = codes "locked"; name = []; content = [] }) false
      (message (codes "account is locked")) genesis (Defs.remove_all sim slice genesis).1
      (Defs.remove_all sim slice genesis).1 refl refl refl

overwrite_nil_panics_example :
    Defs.set_state_multiple_overwrite sim (slice ++ none ∷ []) true genesis
    ≡ (panics, (Defs.remove_all sim slice genesis).1)
unfolding Defs.remove_all Defs.remove_account contains
overwrite_nil_panics_example =
    overwrite_nil_panics sim slice [] true genesis (Defs.remove_all sim slice genesis).1 refl

abbrev ports : ℕ → ℤ
ports shard = if shard == 0 then pos 8080 else pos 9090

shard0-IsInterface : IsInterface shard0 (pos 8080)
unfolding itoa
shard0-IsInterface = (codes "localhost", omega arith, omega arith, refl)

meta-IsInterface : IsInterface meta (pos 9090)
unfolding itoa
meta-IsInterface = (codes "localhost", omega arith, omega arith, refl)

IsInterface-ports :
    (shard : ℕ) (a : Bytes)
    → lookup shard (sim.get_rest_api_interfaces genesis) ≡ some a
    → IsInterface a (ports shard)
unfolding lookup
IsInterface-ports shard a found = elim (Bool-cases (shard == 0)) [
  | inl zero ↦ let e : a ≡ shard0 = ground (arith, zero) in rw (zero, e) shard0-IsInterface
  | inr other ↦ let e : a ≡ meta = ground (arith, other) in rw (other, e) meta-IsInterface
]

same_interfaces :
    SameMap (sim.get_rest_api_interfaces genesis) (sim.get_rest_api_interfaces (one_more genesis))
unfolding lookup
same_interfaces shard = ground arith

get_observers_info-ports_example :
    (r : ShardMap ObserverInfo) × (Defs.get_observers_info sim genesis ≡ (ok r, genesis))
    × ((shard : ℕ)
        → lookup shard r
          ≡ Option.map
              (λ _. info (ports shard))
              (lookup shard (sim.get_rest_api_interfaces genesis)))
unfolding lookup
get_observers_info-ports_example =
    get_observers_info-ports sim ports genesis (refl, (refl, tt)) IsInterface-ports

other_NodupKeys : NodupKeys (sim.get_rest_api_interfaces (one_more genesis))
unfolding lookup
other_NodupKeys = (refl, (refl, tt))

-- The map as another visit lists it.
abbrev the_map : GoMap Bytes
the_map = Quot.mk (sim.get_rest_api_interfaces (one_more genesis), other_NodupKeys)

get_observers_info-observers_of_example :
    answered (Defs.get_observers_info sim genesis).0 ≡ observers_of the_map
unfolding lookup
get_observers_info-observers_of_example =
    get_observers_info-observers_of sim genesis (refl, (refl, tt)) the_map
      (sym (Quot.sound same_interfaces))
