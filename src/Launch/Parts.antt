-- ===== src/Launch/Parts.antt =====
-- The parts that the program closes, and what a step of the generator's goroutine leaves.
use mx_chain_simulator_go.Common.{⊤, ◌≡◌, ◌⊎◌, inl, inr, Bool, true, false, some, arith}
use mx_chain_simulator_go.Common.Int.{pos}
use mx_chain_simulator_go.Common.Outcome.{ok, Action, Outcome-cases}
use mx_chain_simulator_go.Creator.Defs.{ignored}
use mx_chain_simulator_go.Process.Factory.{AnyGenerator, disabled, automatic}
use mx_chain_simulator_go.Process.Generator.{BlocksGenerator, Event, step}
use mx_chain_simulator_go.Launch.Shutdown.{
  Stage, closing_simulator, closing_proxy, closing_log, ended, is_own,
}

-- The parts that the program closes.
pub data Part : Type 0 where
  the_generator : Part
  the_simulator : Part
  the_proxy : Part
  the_log : Part

-- The function is behind the closing of the part.
abbrev pub past : Stage → Part → Bool
past closing_simulator the_generator = true
past closing_proxy the_generator = true
past closing_proxy the_simulator = true
past closing_log the_log = false
past closing_log _ = true
past ended _ = true
past _ _ = false

-- The generator's context is cancelled, or it has none.
abbrev pub is_cancelled : {State : Type 0} → AnyGenerator State → Bool
is_cancelled disabled = true
is_cancelled (automatic g) = g.cancelled

-- What is left where the other case is ruled out.
pub sure : {A : Type 0} → (true ≡ false) ⊎ A → A
sure (inl h) = absurd (ground (arith, h))
sure (inr a) = a

-- A step of the goroutine leaves the state or makes a block, and leaves the context.
pub own-step :
    {State : Type 0} (e : Event State) (g g' : BlocksGenerator State) (s t : State)
    → is_own e ≡ true
    → step e (g, s) ≡ some (g', t)
    → ((t ≡ s) ⊎ (t ≡ (g.simulator.generate_blocks (pos 1) s).1))
      × (g'.simulator ≡ g.simulator)
      × (g'.cancelled ≡ g.cancelled)
unfolding step
own-step e g g' s t own stepped = ground arith

-- The state behind a call whose error is dropped.
pub ignored-state :
    {State : Type 0} (m : Action State ⊤) (s t : State) → ignored m s ≡ (ok tt, t) → t ≡ (m s).1
ignored-state m s t h = elim (Outcome-cases (m s).0) [
  | inl (a, e) ↦ ground (arith, e)
  | inr other ↦ ground (arith, other)
]
