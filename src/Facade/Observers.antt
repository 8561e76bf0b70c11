-- ===== src/Facade/Observers.antt =====
-- The loop of `GetObserversInfo`.
use mx_chain_simulator_go.Common.{
  ℕ, Option, none, some, List, [], ◌∷◌, ◌++◌, Bytes, codes, ◌==◌, if◌then◌else◌,
}
use mx_chain_simulator_go.Common.Int.{ℤ}
use mx_chain_simulator_go.Common.Outcome.{Error, message, Try, value, error}
use mx_chain_simulator_go.Dtos.{ObserverInfo}
use mx_chain_simulator_go.Go.Strings.{split}
use mx_chain_simulator_go.Go.Strconv.{format_uint, atoi}

-- A `map[uint32]V`.
abbrev pub ShardMap : Type 0 → Type 0
ShardMap V = List (ℕ × V)

-- `m[shard] = v`
unfoldable pub insert : {V : Type 0} → ℕ → V → ShardMap V → ShardMap V
insert shard v [] = (shard, v) ∷ []
insert shard v ((j, w) ∷ m) = if shard == j then (shard, v) ∷ m else (j, w) ∷ insert shard v m

-- `v, ok := m[shard]`
unfoldable pub lookup : {V : Type 0} → ℕ → ShardMap V → Option V
lookup shard [] = none
lookup shard ((j, v) ∷ m) = if shard == j then some v else lookup shard m

abbrev pub no_port : ℕ → Error
no_port shard = message (codes "cannot extract port for shard ID=" ++ format_uint shard)

abbrev pub bad_port : ℕ → Error
bad_port shard = message (codes "cannot cast port string to int for shard ID=" ++ format_uint shard)

-- The port behind the only colon of an interface.
unfoldable pub parts_port : ℕ → List Bytes → Try ℤ
parts_port shard (_ ∷ port ∷ []) = elim (atoi port) [
  | none ↦ error (bad_port shard)
  | some p ↦ value p
]
parts_port shard _ = error (no_port shard)

-- One round of the loop.
unfoldable pub observer_port : ℕ → Bytes → Try ℤ
unfolding parts_port
observer_port shard api_interface = parts_port shard (split api_interface b':')

-- The loop over the interfaces, with the response so far.
unfoldable pub observers_info : ShardMap Bytes → ShardMap ObserverInfo → Try (ShardMap ObserverInfo)
observers_info [] response = value response
observers_info ((shard, api_interface) ∷ rest) response = elim (observer_port shard api_interface) [
  | error e ↦ error e
  | value port ↦ observers_info rest (insert shard (record { api_port = port }) response)
]
