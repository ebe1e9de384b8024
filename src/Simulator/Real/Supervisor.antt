-- ===== src/Simulator/Real/Supervisor.antt =====
-- The link over any sequence of supervisor passes, operator requests and commands.
pub mod Reconnects
use virtual_helmsman.Prelude.{ℕ, ◌≤◌, ◌≡◌, ◌≢◌, ◌⊎◌, Bool, Option, none, some, List, [], ◌∷◌, arith}
use virtual_helmsman.Simulator.{disconnected, connected, Reply}
use virtual_helmsman.Simulator.Real.{
  WrapperSnapshot, Setpoint, Session, idle, watching, recovering, backing_off, RealSimulatorClient,
  connect, disconnect, watch, recover, end_backoff, interrupt,
}
use virtual_helmsman.Simulator.Real.Commands.{Exchange, stage_and_confirm}
use virtual_helmsman.Simulator.Real.Delivery.{staged_orders}

-- What happens to a client between two awaits.
pub data LinkStep : Type 0 where
  passes : Bool → Option WrapperSnapshot → LinkStep
  recovers wakes connects disconnects cancels : LinkStep
  orders : ℕ → Setpoint → Exchange → LinkStep

abbrev cancel_build : Option Session → RealSimulatorClient → RealSimulatorClient
cancel_build none r = disconnect (interrupt r)
cancel_build (some session) r = r

abbrev after_order :
    RealSimulatorClient → Option (Reply × RealSimulatorClient) → RealSimulatorClient
after_order r none = r
after_order r (some (reply, r')) = r'

-- The supervisor's steps happen where the task stands, and `cancels`, a disconnection out of a
-- build, where a build may be under way; the others at any time.
unfoldable pub link_step : LinkStep → RealSimulatorClient → RealSimulatorClient
unfolding watch recover end_backoff connect disconnect interrupt
link_step (passes built snapshot) r = elim r.phase [ watching ↦ watch built snapshot r | _ ↦ r ]
link_step recovers r = elim r.phase [ recovering ↦ recover r | _ ↦ r ]
link_step wakes r = elim r.phase [ backing_off ↦ end_backoff r | _ ↦ r ]
link_step connects r = connect r
link_step disconnects r = disconnect r
link_step cancels r = elim r.phase [ watching ↦ cancel_build r.wrapper r | _ ↦ r ]
link_step (orders unit order x) r = after_order r (stage_and_confirm unit order x r)

unfoldable pub run_link : List LinkStep → RealSimulatorClient → RealSimulatorClient
unfolding link_step
run_link [] r = r
run_link (s ∷ ss) r = run_link ss (link_step s r)

-- What the states promise.
pub record IsSound (r : RealSimulatorClient) : Type 0 where
  pub linked : r.state ≡ connected → r.wrapper ≢ none
  pub idle_is_down : r.phase ≡ idle → (r.state ≡ disconnected) × (r.wrapper ≡ none)
  pub capped : r.backoff ≤ r.reconnect_max
  pub starts_capped : r.reconnect_initial ≤ r.reconnect_max

abbrev pub IsOrder : LinkStep → Type 0
IsOrder (orders unit order x) = Unit
IsOrder _ = ⊥

-- Only a command stages an order: a reconnection, a lost link and a disconnection leave the
-- orders of the session as they are, or no order at all. So an order never reaches a later
-- session.
staged_orders-link_step :
    (s : LinkStep) (r : RealSimulatorClient)
    → ¬ IsOrder s
    → (staged_orders (link_step s r).wrapper ≡ staged_orders r.wrapper)
      ⊎ (staged_orders (link_step s r).wrapper ≡ [])
unfolding link_step
staged_orders-link_step (passes built snapshot) r h = ground arith
staged_orders-link_step (orders unit order x) r h = absurd (h tt)
staged_orders-link_step recovers r h = ground arith
staged_orders-link_step _ r h = ground arith
