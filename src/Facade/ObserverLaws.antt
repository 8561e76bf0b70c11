-- ===== src/Facade/ObserverLaws.antt =====
-- `GetObserversInfo`: the ports that are answered, in whatever order the map is visited.
use mx_chain_simulator_go.Common.{
  ⊤, ℕ, ◌≡◌, refl, inl, inr, Option, none, some, [], ◌∷◌, ◌++◌, Bytes, arith, if◌then◌else◌, ◌==◌,
  Bool-cases, Option-cases,
}
use mathlib.Core.Option
use mx_chain_simulator_go.Common.Int.{ℤ, IsInt64}
use mx_chain_simulator_go.Common.Outcome.{ok, value, Try-cases, lift-eq-ok}
use mx_chain_simulator_go.Dtos.{ObserverInfo}
use mx_chain_simulator_go.Facade.Interface.{SimulatorHandler}
use mx_chain_simulator_go.Facade.Defs.{get_observers_info}
use mx_chain_simulator_go.Facade.Observers.{ShardMap, insert, lookup, observer_port, observers_info}
use mx_chain_simulator_go.Go.Strings.Laws.{Lacks, split_pair}
use mx_chain_simulator_go.Go.Strconv.{itoa}
use mx_chain_simulator_go.Go.Strconv.Laws.{atoi-itoa, itoa-no_colon}

-- No shard is listed twice, as in every Go map.
abbrev pub NodupKeys : {V : Type 0} → ShardMap V → Type 0
NodupKeys [] = ⊤
NodupKeys ((shard, _) ∷ m) = (lookup shard m ≡ none) × NodupKeys m

-- Two lists of the entries of one map.
abbrev pub SameMap : {V : Type 0} → ShardMap V → ShardMap V → Type 0
SameMap {V} m n = (shard : ℕ) → ◌≡◌ {A = Option V} (lookup shard m) (lookup shard n)

lookup-insert :
    {V : Type 0} (j shard : ℕ) (v : V) (m : ShardMap V)
    → lookup j (insert shard v m) ≡ (if j == shard then some v else lookup j m)
unfolding lookup insert
lookup-insert j shard v [] = refl
lookup-insert j shard v ((i, w) ∷ m) = ground (arith, lookup-insert j shard v m)

-- The port of a shard is what stands in its interface behind the colon.
observer_port-itoa :
    (shard : ℕ) (host : Bytes) (port : ℤ)
    → Lacks b':' host
    → IsInt64 port
    → observer_port shard (host ++ b':' ∷ itoa port) ≡ value port
unfolding observer_port
observer_port-itoa shard host port h fits =
    rw (split_pair host (itoa port) b':' h (itoa-no_colon port))
      (ground (arith, atoi-itoa port fits))

abbrev pub info : ℤ → ObserverInfo
info p = record { api_port = p }

lookup-observers_info_absent :
    (j : ℕ) (xs : ShardMap Bytes) (before after : ShardMap ObserverInfo)
    → observers_info xs before ≡ value after
    → lookup j xs ≡ none
    → lookup j after ≡ lookup j before
unfolding observers_info lookup
lookup-observers_info_absent j [] before after h absent = ground arith
lookup-observers_info_absent j ((i, a) ∷ xs) before after h absent =
    elim (Try-cases (observer_port i a)) [
      | inl (p, e) ↦ ground (
        arith,
        e,
        lookup-insert j i (info p) before,
        lookup-observers_info_absent j xs (insert i (info p) before) after,
      )
      | inr (e, bad) ↦ ground (arith, bad)
    ]

-- In a map whose visit ends with no error, every shard's interface has a port, which is answered.
lookup-observers_info :
    (j : ℕ) (a : Bytes) (xs : ShardMap Bytes) (before after : ShardMap ObserverInfo)
    → NodupKeys xs
    → observers_info xs before ≡ value after
    → lookup j xs ≡ some a
    → (p : ℤ) × (observer_port j a ≡ value p) × (lookup j after ≡ some (info p))
unfolding observers_info lookup
lookup-observers_info j a [] before after u h found = cc
lookup-observers_info j a ((i, b) ∷ xs) before after (fresh, u) h found =
    elim (Try-cases (observer_port i b)) [
      | inl (p, e) ↦ elim (Bool-cases (j == i)) [
        | inl same ↦ (
          p,
          ground (arith, e),
          ground (
            arith,
            e,
            lookup-insert j i (info p) before,
            lookup-observers_info_absent j xs (insert i (info p) before) after,
          ),
        )
        | inr other ↦
            lookup-observers_info j a xs (insert i (info p) before) after u (ground (arith, e))
              (ground arith)
      ]
      | inr (e, bad) ↦ ground (arith, bad)
    ]

-- If every shard's interface has a port, the visit ends with no error.
observers_info_total :
    (xs : ShardMap Bytes) (before : ShardMap ObserverInfo)
    → NodupKeys xs
    → ((j : ℕ) (a : Bytes) → lookup j xs ≡ some a → (p : ℤ) × (observer_port j a ≡ value p))
    → (after : ShardMap ObserverInfo) × (observers_info xs before ≡ value after)
unfolding observers_info lookup
observers_info_total [] before u all = (before, refl)
observers_info_total ((i, a) ∷ xs) before (fresh, u) all =
    let (p, e) = all i a (ground arith) in
    let (after, h) =
      observers_info_total xs (insert i (info p) before) u (λ j b found. all j b (ground arith)) in
    (after, ground (arith, e, h))

SameMap-observers_info :
    (xs ys : ShardMap Bytes) {r r' : ShardMap ObserverInfo}
    → NodupKeys xs
    → NodupKeys ys
    → SameMap xs ys
    → observers_info xs [] ≡ value r
    → observers_info ys [] ≡ value r'
    → SameMap r r'
SameMap-observers_info xs ys {r} {r'} u v same h h' j = elim (Option-cases (lookup j xs)) [
  | inl absent ↦ ground (
    arith,
    same j,
    lookup-observers_info_absent j xs [] r h absent,
    lookup-observers_info_absent j ys [] r' h',
  )
  | inr (a, found) ↦
      let (p, e, answered) = lookup-observers_info j a xs [] r u h found in
      let (p', e', answered') = lookup-observers_info j a ys [] r' v h' (ground (arith, same j)) in
      ground (arith, e, e', answered, answered')
]

-- If one visit of a map succeeds, so does any other, with the same map.
pub observers_info-order :
    (xs ys : ShardMap Bytes) {r : ShardMap ObserverInfo}
    → NodupKeys xs
    → NodupKeys ys
    → SameMap xs ys
    → observers_info xs [] ≡ value r
    → (r' : ShardMap ObserverInfo) × (observers_info ys [] ≡ value r') × SameMap r r'
observers_info-order xs ys {r} u v same visited =
    let (r', h') = observers_info_total ys [] v λ j a found.
      let (p, e, _) = lookup-observers_info j a xs [] r u visited (ground (arith, same j)) in
      (p, e) in
    (r', h', SameMap-observers_info xs ys u v same visited h')

-- An interface as the simulator writes it: a host with no colon, a colon and the port.
abbrev pub IsInterface : Bytes → ℤ → Type 0
IsInterface a port =
    (host : Bytes) × Lacks b':' host × IsInt64 port × (a ≡ host ++ b':' ∷ itoa port)

module _ (sim : SimulatorHandler) where
  open sim use {State, get_rest_api_interfaces}

  -- If every shard's interface is a host and a port, the call succeeds and changes nothing, and the
  -- answer has the port for every shard that has an interface, and nothing for any other.
  pub get_observers_info-ports :
      (ports : ℕ → ℤ) (s : State)
      → NodupKeys (get_rest_api_interfaces s)
      → ((shard : ℕ) (a : Bytes)
          → lookup shard (get_rest_api_interfaces s) ≡ some a
          → IsInterface a (ports shard))
      → (r : ShardMap ObserverInfo) × (get_observers_info sim s ≡ (ok r, s))
        × ((shard : ℕ)
            → lookup shard r
              ≡ Option.map (λ _. info (ports shard)) (lookup shard (get_rest_api_interfaces s)))
  unfolding get_observers_info lookup
  get_observers_info-ports ports s u all =
      let port_of : (shard : ℕ) (a : Bytes)
          → lookup shard (get_rest_api_interfaces s) ≡ some a
          → observer_port shard a ≡ value (ports shard) =
        λ shard a found.
          let (host, lacks, fits, e) = all shard a found in
          rw e (observer_port-itoa shard host (ports shard) lacks fits) in
      let (r, h) = observers_info_total _ [] u λ j a found. (ports j, port_of j a found) in
      (
        r,
        ground (arith, h),
        λ j. elim (Option-cases (lookup j (get_rest_api_interfaces s))) [
          | inl absent ↦ rw absent (lookup-observers_info_absent j _ [] r h absent)
          | inr (a, found) ↦
              let (p, e, answered) = lookup-observers_info j a _ [] r u h found in
              rw found (ground (arith, e, port_of j a found, answered))
        ],
      )

  -- The answer does not depend on the order in which Go visits the map: if one visit succeeds, so
  -- does a visit of the same map in any other order, and the two answers are the same map.
  pub get_observers_info-order :
      (s t : State) {r : ShardMap ObserverInfo}
      → NodupKeys (get_rest_api_interfaces s)
      → NodupKeys (get_rest_api_interfaces t)
      → SameMap (get_rest_api_interfaces s) (get_rest_api_interfaces t)
      → get_observers_info sim s ≡ (ok r, s)
      → (r' : ShardMap ObserverInfo) × (get_observers_info sim t ≡ (ok r', t)) × SameMap r r'
  unfolding get_observers_info
  get_observers_info-order s t {r} u v same h =
      let visited : observers_info (get_rest_api_interfaces s) [] ≡ value r =
        lift-eq-ok (observers_info (get_rest_api_interfaces s) []) s h in
      let (r', h', kept) =
        observers_info-order (get_rest_api_interfaces s) (get_rest_api_interfaces t) u v same
          visited in
      (r', ground (arith, h'), kept)
