-- ===== src/Facade/Epoch.antt =====
-- `ForceChangeOfEpoch`: the loop ends, and where it ends.
use mx_chain_simulator_go.Common.{
  inl, inr, ⊤, ℕ, zero, suc, ◌+◌, ◌-◌, ◌≤◌, ◌<◌, ◌≡◌, ◌≢◌, arith, iterate, leb, ltb, ◌==◌,
  if◌then◌else◌, Bool, true, false, Bool-cases,
}
use mx_chain_simulator_go.Common.Outcome.{Error, Outcome, ok, err, panics, runs_on, Outcome-cases}
use mx_chain_simulator_go.Facade.Interface.{SimulatorHandler}
use mx_chain_simulator_go.Facade.Defs.{
  get_current_epoch, force_loop, force_change_of_epoch, target_epoch_error,
}

module _ (sim : SimulatorHandler) where
  open sim use {State}

  -- What is relied on: a forced change of epoch comes back, and a successful one raises the epoch.
  pub record IsAdvancing : Type 0 where
    pub comes_back : (s : State) → (sim.force_change_of_epoch s).0 ≢ runs_on
    pub grows :
        (s : State)
        → (sim.force_change_of_epoch s).0 ≡ ok tt
        → get_current_epoch sim s < get_current_epoch sim (sim.force_change_of_epoch s).1

  -- What the calls for a target come to: the epoch is changed as long as it is below the target, up
  -- to the first change that fails.
  pub data Reaches (target : ℕ) : State → Outcome ⊤ × State → Type 0 where
    reached : {s : State} → target ≤ get_current_epoch sim s → Reaches target s (ok tt, s)
    fails :
        {e : Error} {s t : State}
        → get_current_epoch sim s < target
        → sim.force_change_of_epoch s ≡ (err e, t)
        → Reaches target s (err e, t)
    crashes :
        {s t : State}
        → get_current_epoch sim s < target
        → sim.force_change_of_epoch s ≡ (panics, t)
        → Reaches target s (panics, t)
    changes :
        {s t : State} {r : Outcome ⊤ × State}
        → get_current_epoch sim s < target
        → sim.force_change_of_epoch s ≡ (ok tt, t)
        → Reaches target t r
        → Reaches target s r

  force_loop-above :
      (fuel target : ℕ) (s : State)
      → target ≤ get_current_epoch sim s
      → force_loop sim fuel target (get_current_epoch sim s) s ≡ (ok tt, s)
  unfolding force_loop
  force_loop-above zero target s h = ground arith
  force_loop-above (suc fuel) target s h = ground arith

  force_loop-changes :
      (fuel target : ℕ) (s t : State)
      → get_current_epoch sim s < target
      → sim.force_change_of_epoch s ≡ (ok tt, t)
      → force_loop sim (suc fuel) target (get_current_epoch sim s) s
        ≡ force_loop sim fuel target (get_current_epoch sim t) t
  unfolding force_loop
  force_loop-changes fuel target s t below done = ground (arith, done)

  -- A change that does not succeed is the last.
  abbrev is_ok : Outcome ⊤ → Bool
  is_ok (ok _) = true
  is_ok _ = false

  force_loop_ends :
      (fuel target : ℕ) (s : State)
      → get_current_epoch sim s < target
      → is_ok (sim.force_change_of_epoch s).0 ≡ false
      → force_loop sim (suc fuel) target (get_current_epoch sim s) s ≡ sim.force_change_of_epoch s
  unfolding force_loop
  force_loop_ends fuel target s below failed = ground (arith, failed)

  force_loop-Reaches :
      IsAdvancing
      → (fuel target : ℕ) (s : State) → target ≤ get_current_epoch sim s + fuel
      → Reaches target s (force_loop sim fuel target (get_current_epoch sim s) s)
  force_loop-Reaches law zero target s fits =
      rw (force_loop-above zero target s (omega arith)) (reached (omega arith))
  force_loop-Reaches law (suc fuel) target s fits =
      elim (Bool-cases (ltb (get_current_epoch sim s) target)) [
        | inr above ↦
            let above : target ≤ get_current_epoch sim s = ground (arith, above) in
            rw (force_loop-above (suc fuel) target s above) (reached above)
        | inl below ↦
            let below : get_current_epoch sim s < target = ground (arith, below) in
            let t = (sim.force_change_of_epoch s).1 in
            elim (Outcome-cases (sim.force_change_of_epoch s).0) [
              | inl (_, e) ↦
                  let done : sim.force_change_of_epoch s ≡ (ok tt, t) = ground (arith, e) in
                  let grows = law.grows s e in
                  rw (force_loop-changes fuel target s t below done)
                    (changes below done (force_loop-Reaches law fuel target t (omega arith)))
              | inr (inl (e, h)) ↦
                  let failed : sim.force_change_of_epoch s ≡ (err e, t) = ground (arith, h) in
                  rw (force_loop_ends fuel target s below (ground (arith, h)), failed)
                    (fails below failed)
              | inr (inr (inl h)) ↦
                  let failed : sim.force_change_of_epoch s ≡ (panics, t) = ground (arith, h) in
                  rw (force_loop_ends fuel target s below (ground (arith, h)), failed)
                    (crashes below failed)
              | inr (inr (inr h)) ↦ absurd (law.comes_back s h)
            ]
      ]

  -- On a simulator whose changes of epoch come back, and raise the epoch where they succeed, for a
  -- target above the current epoch and with fuel for the epochs in between: the call returns; it
  -- changes the epoch as long as that is below the target, and ends with no error where the epoch is
  -- at least the target, or with the error or panic of the first change that fails.
  pub force_change_of_epoch-Reaches :
      IsAdvancing
      → (fuel target : ℕ) (s : State) → get_current_epoch sim s < target
      → target ≤ get_current_epoch sim s + fuel
      → Reaches target s (force_change_of_epoch sim fuel target s)
  unfolding force_change_of_epoch
  force_change_of_epoch-Reaches law fuel target s above fits =
      let same : force_change_of_epoch sim fuel target s
          ≡ force_loop sim fuel target (get_current_epoch sim s) s =
        ground arith in
      rw same (force_loop-Reaches law fuel target s fits)

  -- A simulator whose every forced change succeeds and raises the epoch by one.
  pub record IsSteady : Type 0 where
    pub succeeds : (s : State) → (sim.force_change_of_epoch s).0 ≡ ok tt
    pub by_one :
        (s : State)
        → get_current_epoch sim (sim.force_change_of_epoch s).1 ≡ suc (get_current_epoch sim s)

  abbrev pub forced : State → State
  forced s = (sim.force_change_of_epoch s).1

  get_current_epoch-iterate :
      IsSteady
      → (n : ℕ) (s : State)
      → get_current_epoch sim (iterate forced n s) ≡ n + get_current_epoch sim s
  get_current_epoch-iterate law zero s = omega arith
  get_current_epoch-iterate law (suc n) s =
      omega (arith, get_current_epoch-iterate law n (forced s), law.by_one s)

  force_loop-iterate :
      IsSteady
      → (gap fuel target : ℕ) (s : State) → target ≡ gap + get_current_epoch sim s
      → gap ≤ fuel
      → force_loop sim fuel target (get_current_epoch sim s) s ≡ (ok tt, iterate forced gap s)
  unfolding force_loop
  force_loop-iterate law zero zero target s e h = ground arith
  force_loop-iterate law zero (suc fuel) target s e h = ground arith
  force_loop-iterate law (suc gap) zero target s e h = absurd (omega arith)
  force_loop-iterate law (suc gap) (suc fuel) target s e h =
      ground
        (arith, law.succeeds s, law.by_one s, force_loop-iterate law gap fuel target (forced s))

  -- On a simulator whose every change of epoch succeeds and raises the epoch by one, with fuel for the
  -- epochs up to the target, the call makes one change for the target 0, returns an error and makes no
  -- change for a target that is not above the current epoch, and makes exactly the missing changes for
  -- any other.
  pub force_change_of_epoch-iterate :
      IsSteady
      → (fuel target : ℕ) (s : State) → target ≤ get_current_epoch sim s + fuel
      → force_change_of_epoch sim fuel target s ≡ (
          if target == 0
          then (ok tt, forced s)
          else if leb target (get_current_epoch sim s)
          then (err (target_epoch_error (get_current_epoch sim s) target), s)
          else (ok tt, iterate forced (target - get_current_epoch sim s) s))
  unfolding force_change_of_epoch
  force_change_of_epoch-iterate law fuel target s fits = ground (
    arith,
    law.succeeds s,
    force_loop-iterate law (target - get_current_epoch sim s) fuel target s,
  )

  -- On a simulator whose every change of epoch succeeds and raises the epoch by one, with fuel for the
  -- epochs up to the target, the epoch behind a call for a target above the current epoch is
  -- that target.
  pub epoch-force_change_of_epoch :
      IsSteady
      → (fuel target : ℕ) (s : State) → get_current_epoch sim s < target
      → target ≤ get_current_epoch sim s + fuel
      → get_current_epoch sim (force_change_of_epoch sim fuel target s).1 ≡ target
  epoch-force_change_of_epoch law fuel target s above fits =
      rw (force_change_of_epoch-iterate law fuel target s fits)
        (ground (arith, get_current_epoch-iterate law (target - get_current_epoch sim s) s))
