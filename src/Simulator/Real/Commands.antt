-- ===== src/Simulator/Real/Commands.antt =====
-- The command path of voice_agent/backends/simulator/real.py: `_stage_and_confirm`,
-- `set_rudder`, `set_engine_telegraph` and `get_state`, and the client as a step system.
use virtual_helmsman.Prelude.{
  ℕ, ◌+◌, Bool, ◌&&◌, Option, none, some, List, [], ◌∷◌, ◌++◌, leb, if◌then◌else◌,
}
use virtual_helmsman.Prelude.Int.{ℤ}
use virtual_helmsman.Simulator.{EngineOrder, connected, stale, ShipState, Reply, answered, failed}
use virtual_helmsman.Simulator.Levers.{lever_by_order, order_from_lever}
use virtual_helmsman.Simulator.Real.{
  WrapperSnapshot, Setpoint, rudder_to, lever_to, Session, RealSimulatorClient, same_state,
  set_state, drop_session, is_fresh,
}

-- `_DELIVERY_FRAMES`
abbrev pub delivery_frames : ℕ
delivery_frames = 2

unfoldable pub to_ship_state : ℕ → ℕ → WrapperSnapshot → ShipState
unfolding order_from_lever
to_ship_state unit now snapshot = record {
  heading_deg = snapshot.heading_deg;
  speed_kn = snapshot.speed_kn;
  engine_order = order_from_lever unit snapshot.engine_lever;
  rudder_angle_deg = snapshot.rudder_angle_deg;
  timestamp = now;
  sim_time_s = some snapshot.sim_time_s;
  lat_deg = snapshot.lat_deg;
  lon_deg = snapshot.lon_deg;
}

-- `_require_live`
unfoldable pub require_live : RealSimulatorClient → Option Session
require_live r = if same_state r.state connected then r.wrapper else none

-- One round of the confirmation loop: the snapshot read, and the loop's clock at its test.
pub record Poll : Type 0 where
  pub snapshot : Option WrapperSnapshot
  pub time : ℕ

pub data Confirmation : Type 0 where
  delivered : WrapperSnapshot → Confirmation
  undelivered broken unfinished : Confirmation

-- one round: `unfinished` goes on to the next
abbrev pub confirm_round : (wanted deadline : ℕ) → Poll → Confirmation
confirm_round wanted deadline poll = elim poll.snapshot [
  | none ↦ broken
  | some snapshot ↦
      if leb wanted snapshot.frame_count
      then delivered snapshot
      else if leb deadline poll.time
      then undelivered
      else unfinished
]

-- the `while True` loop, over the rounds that the wrapper and the clock give
unfoldable pub confirm : (wanted deadline : ℕ) → List Poll → Confirmation
confirm wanted deadline [] = unfinished
confirm wanted deadline (poll ∷ polls) = elim (confirm_round wanted deadline poll) [
  | unfinished ↦ confirm wanted deadline polls
  | delivered snapshot ↦ delivered snapshot
  | undelivered ↦ undelivered
  | broken ↦ broken
]

-- What the wrapper and the clock do during one command.
pub record Exchange : Type 0 where
  pub before : Option WrapperSnapshot
  pub stage_accepts : Bool
  pub started : ℕ
  pub polls : List Poll
  pub now : ℕ

abbrev pub stage : Setpoint → Session → RealSimulatorClient → RealSimulatorClient
stage order session r = record r {
  wrapper = some (record session { staged = session.staged ++ order ∷ [] });
}

-- `none`: the command is still waiting for frames.
unfoldable pub conclude :
    ℕ → ℕ → Confirmation → RealSimulatorClient → Option (Reply × RealSimulatorClient)
unfolding to_ship_state set_state drop_session
conclude unit now (delivered snapshot) r = some (answered (to_ship_state unit now snapshot), r)
conclude unit now undelivered r = some (failed, drop_session (set_state stale r))
conclude unit now broken r = some (failed, r)
conclude unit now unfinished r = none

-- `_stage_and_confirm` behind the first snapshot
unfoldable pub stage_on :
    ℕ
    → Setpoint
    → Exchange
    → WrapperSnapshot
    → Session
    → RealSimulatorClient
    → Option (Reply × RealSimulatorClient)
unfolding confirm conclude
stage_on unit order x before session r =
    if is_fresh before.frame_age r.stale_after
    then (if x.stage_accepts
        then conclude unit x.now
            (confirm (before.frame_count + delivery_frames) (x.started + r.stale_after) x.polls)
            (stage order session r)
        else some (failed, r))
    else some (failed, r)

abbrev pub from_snapshot :
    ℕ
    → Setpoint
    → Exchange
    → Session
    → RealSimulatorClient
    → Option WrapperSnapshot
    → Option (Reply × RealSimulatorClient)
from_snapshot unit order x session r none = some (failed, r)
from_snapshot unit order x session r (some before) = stage_on unit order x before session r

abbrev pub from_session :
    ℕ
    → Setpoint
    → Exchange
    → RealSimulatorClient
    → Option Session
    → Option (Reply × RealSimulatorClient)
from_session unit order x r none = some (failed, r)
from_session unit order x r (some session) = from_snapshot unit order x session r x.before

-- `_stage_and_confirm` with the handlers of its callers: every exception is a `SimulatorError`
unfoldable pub stage_and_confirm :
    ℕ → Setpoint → Exchange → RealSimulatorClient → Option (Reply × RealSimulatorClient)
unfolding require_live stage_on
stage_and_confirm unit order x r = from_session unit order x r (require_live r)

unfoldable pub set_rudder :
    ℕ → ℤ → Exchange → RealSimulatorClient → Option (Reply × RealSimulatorClient)
unfolding stage_and_confirm
set_rudder unit angle_deg x r = stage_and_confirm unit (rudder_to angle_deg) x r

unfoldable pub set_engine_telegraph :
    ℕ → EngineOrder → Exchange → RealSimulatorClient → Option (Reply × RealSimulatorClient)
unfolding stage_and_confirm lever_by_order
set_engine_telegraph unit order x r =
    stage_and_confirm unit (lever_to (lever_by_order unit order)) x r

-- `get_state`: a snapshot that is old or of no scenario is refused
unfoldable pub get_state : ℕ → ℕ → Option WrapperSnapshot → RealSimulatorClient → Reply
unfolding require_live to_ship_state
get_state unit now snapshot r = elim (require_live r) [
  | none ↦ failed
  | some session ↦ elim snapshot [
    | none ↦ failed
    | some s ↦
        if s.initialized && is_fresh s.frame_age r.stale_after
        then answered (to_ship_state unit now s)
        else failed
  ]
]
