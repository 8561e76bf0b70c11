-- ===== src/Facade/ObserverMap.antt =====
-- `GetObserversInfo` as a function of the simulator's map, which has no order.
use mx_chain_simulator_go.Common.{
  ◌≡◌, refl, sym, ap, ◌∙◌, inl, inr, Option, none, some, [], Bytes, arith,
}
use mathlib.Core.Quot
use mathlib.Core.Quot.{Quot, Quot-set}
use mx_chain_simulator_go.Common.Outcome.{
  Outcome, ok, err, panics, runs_on, Try, value, error, Try-cases, lift,
}
use mx_chain_simulator_go.Dtos.{ObserverInfo}
use mx_chain_simulator_go.Facade.Interface.{SimulatorHandler}
use mx_chain_simulator_go.Facade.Defs.{get_observers_info}
use mx_chain_simulator_go.Facade.Observers.{ShardMap, observers_info}
use mx_chain_simulator_go.Facade.ObserverLaws.{NodupKeys, SameMap, observers_info-order}

-- A visit of a map, which lists no shard twice.
abbrev pub Visit : Type 0 → Type 0
Visit V = (m : ShardMap V) × NodupKeys m

abbrev pub SameVisits : {V : Type 0} → Visit V → Visit V → Type 0
SameVisits x y = SameMap x.0 y.0

-- A Go map: its visits, up to what is found in them.
abbrev pub GoMap : Type 0 → Type 0
GoMap V = Quot (SameVisits {V = V})

-- An answer, as a map of the shards.
abbrev pub AnswerMap : Type 0
AnswerMap = Quot (SameMap {V = ObserverInfo})

-- The answer of a loop, which error it is forgotten: that depends on the order.
abbrev pub answer_of : Try (ShardMap ObserverInfo) → Option AnswerMap
answer_of (value r) = some (Quot.mk r)
answer_of (error e) = none

abbrev pub visited : Visit Bytes → Option AnswerMap
visited x = answer_of (observers_info x.0 [])

pub answer-set : IsSet (Option AnswerMap)
answer-set = hlevel (Quot-set)

pub answer_of-same : (x y : Visit Bytes) → SameVisits x y → visited x ≡ visited y
answer_of-same x y same = elim (Try-cases (observers_info x.0 [])) [
  | inl (r, e) ↦
      let (r', e', s) = observers_info-order x.0 y.0 x.1 y.1 same e in
      ap answer_of e ∙ (ap some (Quot.sound s) ∙ ap answer_of (sym e'))
  | inr (e, bad) ↦ elim (Try-cases (observers_info y.0 [])) [
    | inl (r, good) ↦
        let (r', e', s) = observers_info-order y.0 x.0 y.1 x.1 (λ j. sym (same j)) good in
        absurd (ground (arith, bad, e'))
    | inr (e', bad') ↦ ground (arith, bad, bad')
  ]
]

-- What is answered for a map, which no visit is asked for.
unfoldable pub observers_of : GoMap Bytes → Option AnswerMap
observers_of = Quot.lift answer-set visited answer_of-same

abbrev pub answered : Outcome (ShardMap ObserverInfo) → Option AnswerMap
answered (ok r) = some (Quot.mk r)
answered (err e) = none
answered panics = none
answered runs_on = none

answered-lift :
    {State : Type 0} (t : Try (ShardMap ObserverInfo)) (s : State)
    → answered (lift t s).0 ≡ answer_of t
answered-lift (value r) s = refl
answered-lift (error e) s = refl

module _ (sim : SimulatorHandler) where
  -- `GetObserversInfo` is a function of the map of the interfaces, in which no shard is listed twice:
  -- whether it succeeds, and the map that it answers, are computed from the map by a function that
  -- knows no order of its entries.
  pub get_observers_info-observers_of :
      (s : sim.State) (u : NodupKeys (sim.get_rest_api_interfaces s)) (m : GoMap Bytes)
      → m ≡ Quot.mk (sim.get_rest_api_interfaces s, u)
      → answered (get_observers_info sim s).0 ≡ observers_of m
  unfolding get_observers_info observers_of
  get_observers_info-observers_of s u m same =
      answered-lift (observers_info (sim.get_rest_api_interfaces s) []) s
      ∙ ap observers_of (sym same)
