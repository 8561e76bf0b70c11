-- ===== src/Process/Traces.antt =====
-- What holds of the generator's goroutine under every schedule.
use mx_chain_simulator_go.Common.{
  ⊤, ℕ, zero, suc, ◌+◌, ◌≤◌, ◌≡◌, ◌≢◌, refl, sym, ◌⊎◌, inl, inr, Bool, true, false, some, List, [],
  ◌∷◌, arith, iterate, Option-cases,
}
use mathlib.Core.Path.{subst}
use mathlib.Core.Option.{some-injective}
use mathlib.Core.List.{Memᴰ}
use mx_chain_simulator_go.Common.Int.{pos}
use mx_chain_simulator_go.Common.Outcome.{ok}
use mx_chain_simulator_go.Process.Generator.{
  SimulatorHandler, BlocksGenerator, World, looping, stopped, Event, tick, take_tick, take_done,
  call_close, elsewhere, start, close, step, run,
}

abbrev held : Bool → ℕ
held true = 1
held false = 0

module _ {State : Type 0} where
  abbrev is_tick : Event State → ℕ
  is_tick tick = 1
  is_tick _ = 0

  -- How often the ticker fires in a schedule.
  abbrev pub ticks : List (Event State) → ℕ
  ticks [] = 0
  ticks (e ∷ es) = is_tick e + ticks es

  -- A property that every step keeps holds behind every schedule.
  run_inv {ℓ} :
      (P : World State → Type ℓ)
      → ((e : Event State) (w w' : World State) → step e w ≡ some w' → P w → P w')
      → (es : List (Event State)) (w w' : World State) → run es w ≡ some w'
      → P w
      → P w'
  unfolding run
  run_inv P keep [] w w' h p = subst P (some-injective _ _ h) p
  run_inv P keep (e ∷ es) w w' h p = elim (Option-cases (step e w)) [
    | inl stuck ↦ absurd (ground (arith, stuck))
    | inr (v, stepped) ↦ run_inv P keep es v w' (ground (arith, stepped)) (keep e w v stepped p)
  ]

  -- Nobody else works on the simulator.
  abbrev pub Alone : List (Event State) → Type 0
  Alone [] = ⊤
  Alone (elsewhere _ ∷ es) = ⊥
  Alone (_ ∷ es) = Alone es

  module _ (blocks : State → ℕ) where
    -- What is relied on: asked for n blocks, a simulator makes at most n, whether it fails or not.
    abbrev pub MakesAtMost : SimulatorHandler State → Type 0
    MakesAtMost simulator =
        (n : ℕ) (s : State) → blocks (simulator.generate_blocks (pos n) s).1 ≤ n + blocks s

    step-blocks :
        (e : Event State) (es : List (Event State)) (w w' : World State)
        → MakesAtMost w.0.simulator
        → Alone (e ∷ es)
        → step e w ≡ some w'
        → (blocks w'.1 + held w'.0.ticked ≤ blocks w.1 + held w.0.ticked + is_tick e)
          × (w'.0.simulator ≡ w.0.simulator)
          × Alone es
    unfolding step
    step-blocks (elsewhere _) es w w' law alone h = absurd alone
    step-blocks start es w w' law alone h = (ground arith, ground arith, alone)
    step-blocks tick es w w' law alone h = (ground arith, ground arith, alone)
    step-blocks take_tick es w w' law alone h = (ground (arith, law 1 w.1), ground arith, alone)
    step-blocks take_done es w w' law alone h = (ground arith, ground arith, alone)
    step-blocks call_close es w w' law alone h = (ground arith, ground arith, alone)

    run-blocks :
        (es : List (Event State)) (w w' : World State)
        → MakesAtMost w.0.simulator
        → Alone es
        → run es w ≡ some w'
        → blocks w'.1 + held w'.0.ticked ≤ blocks w.1 + held w.0.ticked + ticks es
    unfolding run
    run-blocks [] w w' law alone h = ground arith
    run-blocks (e ∷ es) w w' law alone h = elim (Option-cases (step e w)) [
      | inl stuck ↦ absurd (ground (arith, stuck))
      | inr (v, stepped) ↦
          let (here, same, alone) = step-blocks e es w v law alone stepped in
          let law : MakesAtMost v.0.simulator = rw same law in
          omega (arith, here, run-blocks es v w' law alone (ground (arith, stepped)))
    ]

    -- On a simulator that makes at most as many blocks as it is asked for: from a generator with no
    -- tick in its channel, and with nobody else at work on the simulator, the blocks that a schedule
    -- makes are at most as many as its ticker fires.
    pub blocks-le-ticks :
        (es : List (Event State)) (w w' : World State)
        → MakesAtMost w.0.simulator
        → Alone es
        → w.0.ticked ≡ false
        → run es w ≡ some w'
        → blocks w'.1 ≤ blocks w.1 + ticks es
    blocks-le-ticks es w w' law alone fresh h = ground (arith, run-blocks es w w' law alone h)

  step_keeps_open :
      (e : Event State) (w w' : World State)
      → step e w ≡ some w'
      → w.0.cancelled ≡ false
      → w.0.phase ≢ stopped
      → (e ≡ call_close) ⊎ ((w'.0.cancelled ≡ false) × (w'.0.phase ≢ stopped))
  unfolding step
  step_keeps_open e w w' h c p = ground arith

  -- The goroutine returns only behind a call of `Close`, also when the simulator fails to make blocks.
  pub stopped_needs_close :
      (es : List (Event State)) (w w' : World State)
      → w.0.cancelled ≡ false
      → w.0.phase ≢ stopped
      → run es w ≡ some w'
      → w'.0.phase ≡ stopped
      → Memᴰ call_close es
  unfolding run
  stopped_needs_close [] w w' c p h s = absurd (ground arith)
  stopped_needs_close (e ∷ es) w w' c p h s = elim (Option-cases (step e w)) [
    | inl stuck ↦ absurd (ground (arith, stuck))
    | inr (v, stepped) ↦ elim (step_keeps_open e w v stepped c p) [
      | inl closes ↦ Memᴰ.head (sym closes)
      | inr (c', p') ↦ Memᴰ.tail (stopped_needs_close es v w' c' p' (ground (arith, stepped)) s)
    ]
  ]

  step_of_stopped :
      (n : ℕ) (e : Event State) (w w' : World State)
      → step e w ≡ some w'
      → (w.0.phase ≡ stopped) × (w.0.generated ≡ n)
      → (w'.0.phase ≡ stopped) × (w'.0.generated ≡ n)
  unfolding step
  step_of_stopped n e w w' h (s, k) = ground arith

  -- Once the goroutine has returned it stays so and makes no block, whatever happens.
  pub stopped_is_final :
      (es : List (Event State)) (w w' : World State)
      → w.0.phase ≡ stopped
      → run es w ≡ some w'
      → (w'.0.phase ≡ stopped) × (w'.0.generated ≡ w.0.generated)
  stopped_is_final es w w' s h =
      run_inv (λ v. (v.0.phase ≡ stopped) × (v.0.generated ≡ w.0.generated))
        (step_of_stopped w.0.generated) es w w' h (s, refl)

  step-cancelled :
      (e : Event State) (w w' : World State)
      → step e w ≡ some w'
      → w.0.cancelled ≡ true
      → w'.0.cancelled ≡ true
  unfolding step
  step-cancelled e w w' h c = ground arith

  -- Behind a call of `Close`, whatever happened since, a goroutine that waits can return at once.
  pub close_lets_stop :
      (es : List (Event State)) (w w' : World State)
      → run (call_close ∷ es) w ≡ some w'
      → w'.0.phase ≡ looping
      → step take_done w' ≡ some (record w'.0 { phase = stopped }, w'.1)
  unfolding run step
  close_lets_stop es w w' h waits =
      let cancelled =
        run_inv (λ v. v.0.cancelled ≡ true) step-cancelled es (close w.0, w.1) w' h refl in
      ground (arith, cancelled)

  -- The ticker fires and the tick is taken, so many times.
  abbrev pub tick_rounds : ℕ → List (Event State)
  tick_rounds zero = []
  tick_rounds (suc n) = tick ∷ take_tick ∷ tick_rounds n

  module _ (block : State → State) where
    run-tick_rounds :
        (n : ℕ) (g : BlocksGenerator State) (s : State)
        → ((t : State) → g.simulator.generate_blocks (pos 1) t ≡ (ok tt, block t))
        → g.phase ≡ looping
        → g.ticked ≡ false
        → run (tick_rounds n) (g, s)
          ≡ some (record g { generated = n + g.generated }, iterate block n s)
    unfolding run step
    run-tick_rounds zero g s law waits fresh = ground arith
    run-tick_rounds (suc n) g s law waits fresh = ground (
      arith,
      law s,
      run-tick_rounds n (record g { generated = suc g.generated }) (block s) law waits fresh,
    )

    -- `Close` does not wait: behind it the goroutine may still take any number of ticks, and make a
    -- block at each, before it sees that it is to stop.
    pub close_allows_blocks :
        (n : ℕ) (g : BlocksGenerator State) (s : State)
        → ((t : State) → g.simulator.generate_blocks (pos 1) t ≡ (ok tt, block t))
        → g.phase ≡ looping
        → g.ticked ≡ false
        → run (call_close ∷ tick_rounds n) (g, s)
          ≡ some (record g { cancelled = true; generated = n + g.generated }, iterate block n s)
    unfolding run step
    close_allows_blocks n g s law waits fresh = run-tick_rounds n (close g) s law waits fresh
