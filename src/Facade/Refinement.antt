-- ===== src/Facade/Refinement.antt =====
-- Runs of `SetStateMultiple` and `SetStateMultipleOverwrite` against a specification that knows the
-- keys of the accounts alone.
use mx_chain_simulator_go.Common.{
  ⊤, ◌≡◌, sym, ap, ◌∙◌, Bool, true, false, Option, none, List, [], ◌∷◌, Bytes, arith, inl, inr,
  if◌then◌else◌,
}
use mathlib.Core.Path.{fun_ext}
use mx_chain_simulator_go.Common.Int.{pos}
use mx_chain_simulator_go.Common.Outcome.{ok, Action, pure, ◌>>◌, then-eq-ok, Outcome-cases}
use mx_chain_simulator_go.Facade.Interface.{SimulatorHandler}
use mx_chain_simulator_go.Facade.Defs.{remove_all, set_state_multiple, set_state_multiple_overwrite}
use mx_chain_simulator_go.Facade.Overwrite.{
  View, IsLawful, written, mentions, remove_all-key, set_state_multiple-key,
}

-- A call, with its slice and its `noGenerate`.
pub data Call (AddressState : Type 0) : Type 0 where
  set_state : List (Option AddressState) → Bool → Call AddressState
  overwrite : List (Option AddressState) → Bool → Call AddressState

-- The specification's state: the value of each key of each account.
abbrev pub KeyStore : Type 0
KeyStore = Bytes → Bytes → Option Bytes

module _ (sim : SimulatorHandler) where
  open sim use {State, AddressState}

  abbrev pub perform : Call AddressState → Action State ⊤
  perform (set_state states no_generate) = set_state_multiple sim states no_generate
  perform (overwrite states no_generate) = set_state_multiple_overwrite sim states no_generate

  -- The calls one behind the other, up to the first error.
  abbrev pub perform_all : List (Call AddressState) → Action State ⊤
  perform_all [] = pure tt
  perform_all (call ∷ calls) = perform call >> perform_all calls

  module _ (v : View sim) where
    -- What the specification makes of a call: the slice is written over the old keys, or over nothing
    -- in an account that an overwrite mentions.
    abbrev pub specified : Call AddressState → KeyStore → KeyStore
    specified (set_state states _) keys a k = written sim v states a k (keys a k)
    specified (overwrite states _) keys a k =
        written sim v states a k (if mentions sim v a states then none else keys a k)

    abbrev pub specified_all : List (Call AddressState) → KeyStore → KeyStore
    specified_all [] keys = keys
    specified_all (call ∷ calls) keys = specified_all calls (specified call keys)

    module _ (law : IsLawful sim v)
        (blocks_keep : (s : State) (a k : Bytes)
          → v.key (sim.generate_blocks (pos 1) s).1 a k ≡ v.key s a k) where
      -- A block behind the call, if one is asked for, shows nowhere.
      set_state-key :
          (states : List (Option AddressState)) (no_generate : Bool) (s : State) (a k : Bytes)
          → (set_state_multiple sim states no_generate s).0 ≡ ok tt
          → v.key (set_state_multiple sim states no_generate s).1 a k
            ≡ written sim v states a k (v.key s a k)
      unfolding set_state_multiple
      set_state-key states true s a k h = set_state_multiple-key sim v law states s a k h
      set_state-key states false s a k h =
          elim (Outcome-cases (sim.set_state_multiple states s).0) [
            | inl (_, e) ↦ ground (
              arith,
              e,
              law.set_ok s states a k,
              blocks_keep (sim.set_state_multiple states s).1 a k,
            )
            | inr other ↦ ground (arith, other)
          ]

      overwrite_any-key :
          (states : List (Option AddressState)) (no_generate : Bool) (s : State) (a k : Bytes)
          → (set_state_multiple_overwrite sim states no_generate s).0 ≡ ok tt
          → v.key (set_state_multiple_overwrite sim states no_generate s).1 a k
            ≡ written sim v states a k (if mentions sim v a states then none else v.key s a k)
      unfolding set_state_multiple_overwrite
      overwrite_any-key states no_generate s a k h =
          elim (Outcome-cases (remove_all sim states s).0) [
            | inl (_, e) ↦ ground (
              arith,
              e,
              remove_all-key sim v law states s a k,
              set_state-key states no_generate (remove_all sim states s).1 a k,
            )
            | inr other ↦ ground (arith, other)
          ]

      perform-specified :
          (call : Call AddressState) (s : State) (a k : Bytes)
          → (perform call s).0 ≡ ok tt
          → v.key (perform call s).1 a k ≡ specified call (v.key s) a k
      perform-specified (set_state states no_generate) s a k h =
          set_state-key states no_generate s a k h
      perform-specified (overwrite states no_generate) s a k h =
          overwrite_any-key states no_generate s a k h

      perform-keys :
          (call : Call AddressState) (s u : State)
          → perform call s ≡ (ok tt, u)
          → v.key u ≡ specified call (v.key s)
      perform-keys call s u h =
          fun_ext (λ a. fun_ext (λ k. ground (arith, h, perform-specified call s a k)))

      -- On a simulator that removes and writes keys as it is asked, and whose blocks change none: where
      -- a run of set-state and overwriting calls, with and without a block behind each, ends with no
      -- error, the keys of all accounts are those that the specification computes from the keys before
      -- the run and the calls alone.
      pub perform_all-specified :
          (calls : List (Call AddressState)) (s t : State)
          → perform_all calls s ≡ (ok tt, t)
          → v.key t ≡ specified_all calls (v.key s)
      perform_all-specified [] s t h = ap v.key (sym (ap (λ r. r.1) h))
      perform_all-specified (call ∷ calls) s t h =
          let (u, first, rest) = then-eq-ok (perform call) (perform_all calls) s t h in
          perform_all-specified calls u t rest
          ∙ ap (specified_all calls) (perform-keys call s u first)
