-- ===== src/Facade/Overwrite.antt =====
-- `SetStateMultiple` and `SetStateMultipleOverwrite`: what becomes of the keys of the accounts.
use mx_chain_simulator_go.Common.{
  ◌≡◌, refl, Bool, true, false, inl, inr, Option, none, some, List, [], ◌∷◌, ◌++◌, Bytes, bytes_eq,
  bytes_eq→eq, arith, if◌then◌else◌, Bool-cases, ◌||◌,
}
use mx_chain_simulator_go.Common.Outcome.{ok, err, panics, Error, error_text, Outcome-cases}
use mx_chain_simulator_go.Facade.Interface.{SimulatorHandler}
use mx_chain_simulator_go.Facade.Defs.{
  remove_account, remove_all, set_state_multiple, set_state_multiple_overwrite,
  err_msg_account_not_found,
}
use mx_chain_simulator_go.Go.Strings.{contains}

module _ (sim : SimulatorHandler) where
  open sim use {State, AddressState, address}

  -- A view of the simulator: the value of a key of an account, and the keys that an `AddressState` sets.
  pub record View : Type 0 where
    pub key : State → Bytes → Bytes → Option Bytes
    pub sets : AddressState → Bytes → Option Bytes

  abbrev pub or_old : Option Bytes → Option Bytes → Option Bytes
  or_old none old = old
  or_old (some v) _ = some v

  module _ (v : View) where
    -- The value of a key behind the writes of a slice, from the value before them.
    abbrev pub written : List (Option AddressState) → Bytes → Bytes → Option Bytes → Option Bytes
    written [] a k old = old
    written (none ∷ states) a k old = written states a k old
    written (some state ∷ states) a k old =
        written states a k (if bytes_eq a (address state) then or_old (v.sets state k) old else old)

    -- An entry of the slice is for the account.
    abbrev pub mentions : Bytes → List (Option AddressState) → Bool
    mentions a [] = false
    mentions a (none ∷ states) = mentions a states
    mentions a (some state ∷ states) = bytes_eq a (address state) || mentions a states

    -- What is relied on: an account that is removed has no keys left and the others keep theirs; one
    -- that is not found has none and nothing changes; and a slice that is set is written in order.
    pub record IsLawful : Type 0 where
      pub remove_ok :
          (s : State) (a b k : Bytes)
          → (sim.remove_accounts (a ∷ []) s).0 ≡ ok tt
          → v.key (sim.remove_accounts (a ∷ []) s).1 b k
            ≡ (if bytes_eq b a then none else v.key s b k)
      pub remove_not_found :
          (s : State) (a : Bytes) (e : Error)
          → (sim.remove_accounts (a ∷ []) s).0 ≡ err e
          → contains (error_text e) err_msg_account_not_found ≡ true
          → ((sim.remove_accounts (a ∷ []) s).1 ≡ s) × ((k : Bytes) → v.key s a k ≡ none)
      pub set_ok :
          (s : State) (states : List (Option AddressState)) (a k : Bytes)
          → (sim.set_state_multiple states s).0 ≡ ok tt
          → v.key (sim.set_state_multiple states s).1 a k ≡ written states a k (v.key s a k)

    module _ (law : IsLawful) where
      remove_not_found-key :
          (s : State) (a b k : Bytes) (e : Error)
          → (sim.remove_accounts (a ∷ []) s).0 ≡ err e
          → contains (error_text e) err_msg_account_not_found ≡ true
          → v.key (sim.remove_accounts (a ∷ []) s).1 b k
            ≡ (if bytes_eq b a then none else v.key s b k)
      remove_not_found-key s a b k e failed found =
          let (same, absent) = law.remove_not_found s a e failed found in
          rw same (elim (Bool-cases (bytes_eq b a)) [
            | inl here ↦ rw (here, bytes_eq→eq b a here) (absent k)
            | inr there ↦ rw there
          ])

      remove_account-key :
          (state : AddressState) (s : State) (b k : Bytes)
          → (remove_account sim state s).0 ≡ ok tt
          → v.key (remove_account sim state s).1 b k
            ≡ (if bytes_eq b (address state) then none else v.key s b k)
      unfolding remove_account
      remove_account-key state s b k h =
          elim (Outcome-cases (sim.remove_accounts (address state ∷ []) s).0) [
            | inl (_, e) ↦ ground (arith, e, law.remove_ok s (address state) b k)
            | inr (inl (e, failed)) ↦
                ground (arith, failed, remove_not_found-key s (address state) b k e)
            | inr (inr (inl e)) ↦ ground (arith, e)
            | inr (inr (inr e)) ↦ ground (arith, e)
          ]

      pub remove_all-key :
          (states : List (Option AddressState)) (s : State) (a k : Bytes)
          → (remove_all sim states s).0 ≡ ok tt
          → v.key (remove_all sim states s).1 a k
            ≡ (if mentions a states then none else v.key s a k)
      unfolding remove_all
      remove_all-key [] s a k h = refl
      remove_all-key (none ∷ states) s a k h = cc
      remove_all-key (some state ∷ states) s a k h = ground (
        arith,
        remove_account-key state s a k,
        remove_all-key states (remove_account sim state s).1 a k,
      )

      -- On a simulator that removes the keys of the account that it is asked to remove, and of no other,
      -- says "not found" only of one that has none, and writes a slice in its order: behind a successful
      -- overwrite with no block, a key of any account holds what the slice writes, over nothing if the
      -- slice mentions the account, and over its old value if not.
      pub overwrite-key :
          (states : List (Option AddressState)) (s : State) (a k : Bytes)
          → (set_state_multiple_overwrite sim states true s).0 ≡ ok tt
          → v.key (set_state_multiple_overwrite sim states true s).1 a k
            ≡ written states a k (if mentions a states then none else v.key s a k)
      unfolding set_state_multiple_overwrite set_state_multiple
      overwrite-key states s a k h =
          ground
            (arith, remove_all-key states s a k, law.set_ok (remove_all sim states s).1 states a k)

      -- Without the overwrite, a key that the slice does not write keeps its old value.
      pub set_state_multiple-key :
          (states : List (Option AddressState)) (s : State) (a k : Bytes)
          → (set_state_multiple sim states true s).0 ≡ ok tt
          → v.key (set_state_multiple sim states true s).1 a k ≡ written states a k (v.key s a k)
      unfolding set_state_multiple
      set_state_multiple-key states s a k h = ground (arith, law.set_ok s states a k)

  remove_all-append :
      (xs ys : List (Option AddressState)) (s : State)
      → (remove_all sim xs s).0 ≡ ok tt
      → remove_all sim (xs ++ ys) s ≡ remove_all sim ys (remove_all sim xs s).1
  unfolding remove_all
  remove_all-append [] ys s h = refl
  remove_all-append (none ∷ xs) ys s h = cc
  remove_all-append (some state ∷ xs) ys s h =
      ground (arith, remove_all-append xs ys (remove_account sim state s).1)

  -- If an account cannot be removed, for another reason than that it was not found, the call answers
  -- that error: the accounts before it in the slice are gone, and no state is set.
  pub overwrite_stops :
      (xs ys : List (Option AddressState)) (state : AddressState) (no_generate : Bool) (e : Error)
      (s t u : State)
      → remove_all sim xs s ≡ (ok tt, t)
      → sim.remove_accounts (address state ∷ []) t ≡ (err e, u)
      → contains (error_text e) err_msg_account_not_found ≡ false
      → set_state_multiple_overwrite sim (xs ++ some state ∷ ys) no_generate s ≡ (err e, u)
  unfolding set_state_multiple_overwrite remove_account remove_all
  overwrite_stops xs ys state no_generate e s t u before failed other =
      ground (arith, remove_all-append xs (some state ∷ ys) s)

  -- A nil entry, as in the body `[null]`, makes the call panic, behind the removal of the accounts
  -- before it.
  pub overwrite_nil_panics :
      (xs ys : List (Option AddressState)) (no_generate : Bool) (s t : State)
      → remove_all sim xs s ≡ (ok tt, t)
      → set_state_multiple_overwrite sim (xs ++ none ∷ ys) no_generate s ≡ (panics, t)
  unfolding set_state_multiple_overwrite remove_all
  overwrite_nil_panics xs ys no_generate s t before =
      ground (arith, remove_all-append xs (none ∷ ys) s)
