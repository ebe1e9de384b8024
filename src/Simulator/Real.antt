-- ===== src/Simulator/Real.antt =====
-- voice_agent/backends/simulator/real.py: the supervised link. Each block that the code runs under
-- its session lock is one function, with what the vendored wrapper did meanwhile as an argument:
-- a snapshot or, as `none`, an exception. Times and ages are numbers of ticks.
pub mod Commands
pub mod Delivery
pub mod Supervisor
use virtual_helmsman.Prelude.{
  ℕ, zero, suc, ◌+◌, ◌*◌, ◌≡◌, Bool, true, false, not, ◌&&◌, Option, none, some, List, [], ◌∷◌,
  ◌++◌, ltb, leb, min, if◌then◌else◌,
}
use virtual_helmsman.Prelude.Int.{ℤ}
use virtual_helmsman.Simulator.{
  EngineOrder, ConnectionState, disconnected, connecting, connected, stale, ShipState, Reply,
  answered, failed,
}
use virtual_helmsman.Simulator.Levers.{order_from_lever}

-- wrapper_api.py; an age of `none` is the float inf
pub record WrapperSnapshot : Type 0 where
  pub initialized : Bool
  pub frame_age : Option ℕ
  pub frame_count : ℕ
  pub heading_deg : ℤ
  pub speed_kn : ℤ
  pub rudder_angle_deg : ℤ
  pub engine_lever : ℤ
  pub sim_time_s : ℤ
  pub lat_deg : Option ℤ
  pub lon_deg : Option ℤ

-- what `order_rudder` and `order_engine_lever` stage
pub data Setpoint : Type 0 where
  rudder_to lever_to : ℤ → Setpoint

-- A wrapper object: its number, and what has been staged in it.
pub record Session : Type 0 where
  pub id : ℕ
  pub staged : List Setpoint

-- Where the supervisor task stands between two blocks.
pub data Phase : Type 0 where
  idle watching recovering backing_off : Phase

pub record RealSimulatorClient : Type 0 where
  pub stale_after : ℕ
  pub reconnect_initial : ℕ
  pub reconnect_max : ℕ
  pub wrapper : Option Session
  pub pending_build : Option ℕ
  pub state : ConnectionState
  pub notified : List ConnectionState
  pub retry_now : Bool
  pub phase : Phase
  pub backoff : ℕ
  pub opened : List ℕ
  pub stopped : List ℕ
  pub next_id : ℕ

-- __init__
unfoldable pub new_real : (stale_after reconnect_initial reconnect_max : ℕ) → RealSimulatorClient
new_real stale_after reconnect_initial reconnect_max = record {
  stale_after = stale_after;
  reconnect_initial = reconnect_initial;
  reconnect_max = reconnect_max;
  wrapper = none;
  pending_build = none;
  state = disconnected;
  notified = [];
  retry_now = false;
  phase = idle;
  backoff = reconnect_initial;
  opened = [];
  stopped = [];
  next_id = 0;
}

abbrev pub same_state : ConnectionState → ConnectionState → Bool
same_state disconnected disconnected = true
same_state connecting connecting = true
same_state connected connected = true
same_state stale stale = true
same_state _ _ = false

-- `_set_state`: a listener is told of a change, and what it raises is swallowed
unfoldable pub set_state : ConnectionState → RealSimulatorClient → RealSimulatorClient
set_state new r =
    if same_state new r.state
    then r
    else record r { state = new; notified = r.notified ++ new ∷ [] }

-- `_stop_wrapper` on the session object of this number
abbrev pub stop_wrapper : ℕ → RealSimulatorClient → RealSimulatorClient
stop_wrapper i r = record r { stopped = i ∷ r.stopped }

abbrev pub stop_held : Option Session → RealSimulatorClient → RealSimulatorClient
stop_held none r = r
stop_held (some session) r = stop_wrapper session.id r

-- `_drop_session`
unfoldable pub drop_session : RealSimulatorClient → RealSimulatorClient
drop_session r = stop_held r.wrapper (record r { wrapper = none })

abbrev pub reap : Option ℕ → RealSimulatorClient → RealSimulatorClient
reap none r = r
reap (some i) r = stop_wrapper i r

-- the part of `connect` under the lock; the wait behind it changes nothing
unfoldable pub connect : RealSimulatorClient → RealSimulatorClient
unfolding set_state
connect r = elim r.phase [
  | idle ↦ record (set_state connecting r) { phase = watching; backoff = r.reconnect_initial }
  | _ ↦ record r { retry_now = true }
]

-- A supervisor that is cancelled out of its backoff clears the request to retry.
abbrev pub retry_left : Phase → Bool → Bool
retry_left backing_off asked = false
retry_left _ asked = asked

-- `disconnect`: the supervisor is cancelled and a build it was cancelled out of is reaped
unfoldable pub disconnect : RealSimulatorClient → RealSimulatorClient
unfolding drop_session set_state
disconnect r = set_state disconnected (
    drop_session (
      reap r.pending_build (record r {
        phase = idle;
        pending_build = none;
        retry_now = retry_left r.phase r.retry_now;
      })))

-- The supervisor is cancelled from outside while a build runs: the thread finishes anyway, and
-- its session is left to `disconnect`.
unfoldable pub interrupt : RealSimulatorClient → RealSimulatorClient
unfolding set_state
interrupt r = record (set_state connecting r) {
  phase = idle;
  pending_build = some r.next_id;
  opened = r.next_id ∷ r.opened;
  next_id = suc r.next_id;
}

abbrev pub is_fresh : Option ℕ → ℕ → Bool
is_fresh none limit = false
is_fresh (some age) limit = leb age limit

-- an exception in the supervisor's try block
abbrev pub fail : RealSimulatorClient → RealSimulatorClient
fail r = record r { phase = recovering }

abbrev pub is_healthy : WrapperSnapshot → ℕ → Bool
is_healthy snapshot limit = snapshot.initialized && is_fresh snapshot.frame_age limit

-- the supervisor's block behind the snapshot
unfoldable pub judge : Option WrapperSnapshot → RealSimulatorClient → RealSimulatorClient
unfolding set_state drop_session
judge none r = fail r
judge (some snapshot) r =
    if is_healthy snapshot r.stale_after
    then record (set_state connected r) { backoff = r.reconnect_initial; retry_now = false }
    else if same_state r.state connected
    then drop_session (set_state stale r)
    else r

-- `_build_session`: on success a new session is held; a session that did not start is stopped
unfoldable pub open_session : RealSimulatorClient → RealSimulatorClient
open_session r = record r {
  wrapper = some (record { id = r.next_id; staged = [] });
  opened = r.next_id ∷ r.opened;
  next_id = suc r.next_id;
}

-- One pass of `_supervise` under the lock. `built` tells whether a build, if one is due, succeeds.
unfoldable pub watch : Bool → Option WrapperSnapshot → RealSimulatorClient → RealSimulatorClient
unfolding set_state open_session judge
watch built snapshot r = elim r.wrapper [
  | some session ↦ judge snapshot r
  | none ↦
      if built
      then judge snapshot (open_session (set_state connecting r))
      else fail (set_state connecting r)
]

-- the `except` block: drop, report, and begin to back off
unfoldable pub recover : RealSimulatorClient → RealSimulatorClient
unfolding drop_session set_state
recover r = record (set_state connecting (drop_session r)) { phase = backing_off }

-- the end of `_sleep_backoff`, by its time or by a manual connect
unfoldable pub end_backoff : RealSimulatorClient → RealSimulatorClient
end_backoff r = record r {
  phase = watching;
  retry_now = false;
  backoff = min (r.backoff * 2) r.reconnect_max;
}
