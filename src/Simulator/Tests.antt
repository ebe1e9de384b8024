-- ===== src/Simulator/Tests.antt =====
-- The theorems on voice_agent/backends/simulator/ at concrete clients and exchanges.
use virtual_helmsman.Prelude.{
  ℕ, ◌≡◌, refl, ◌≢◌, ◌⊎◌, true, none, some, false, ◌++◌, List, [], ◌∷◌, arith,
}
use virtual_helmsman.Prelude.Int.{pos, negsuc}
use virtual_helmsman.Simulator.{connected, stale, failed}
use virtual_helmsman.Simulator.Real.{
  WrapperSnapshot, Setpoint, rudder_to, Session, watching, RealSimulatorClient,
}
use virtual_helmsman.Simulator.Real.Commands.{
  Poll, Exchange, stage, to_ship_state, stage_and_confirm,
}
use virtual_helmsman.Simulator.Real.Delivery.{
  stage_and_confirm_failed, IsDelivered, stage_and_confirm_answered, stage_and_confirm_ends,
}
use virtual_helmsman.Simulator.Real.Supervisor.Reconnects.{healthy_round, run_link_reconnects}
use virtual_helmsman.Simulator.Real.Supervisor.{
  LinkStep, passes, recovers, wakes, connects, disconnects, orders, run_link,
}

abbrev frame : ℕ → WrapperSnapshot
frame count = record {
  initialized = true;
  frame_age = some 1;
  frame_count = count;
  heading_deg = pos 900;
  speed_kn = pos 125;
  rudder_angle_deg = negsuc 99;
  engine_lever = pos 60;
  sim_time_s = pos 4000;
  lat_deg = none;
  lon_deg = none;
}

abbrev session : Session
session = record { id = 0; staged = [] }

abbrev live : RealSimulatorClient
live = record {
  stale_after = 3;
  reconnect_initial = 1;
  reconnect_max = 8;
  wrapper = some session;
  pending_build = none;
  state = connected;
  notified = connected ∷ [];
  retry_now = true;
  phase = watching;
  backoff = 1;
  opened = 0 ∷ [];
  stopped = [];
  next_id = 1;
}

abbrev port_ten : Setpoint
port_ten = rudder_to (negsuc 99)

abbrev poll : ℕ → ℕ → Poll
poll count time = record { snapshot = some (frame count); time = time }

abbrev exchange_of : List Poll → Exchange
exchange_of polls = record {
  before = some (frame 40);
  stage_accepts = true;
  started = 20;
  polls = polls;
  now = 26;
}

abbrev two_frames_come : Exchange
two_frames_come = exchange_of (poll 40 20 ∷ poll 41 21 ∷ poll 42 22 ∷ poll 43 23 ∷ [])

abbrev no_frames_come : Exchange
no_frames_come = exchange_of (poll 40 20 ∷ poll 40 21 ∷ poll 41 22 ∷ poll 41 23 ∷ [])

abbrev wrapper_raises : Exchange
wrapper_raises = exchange_of (record { snapshot = none; time = 20 } ∷ [])

abbrev dropped : RealSimulatorClient
dropped = record live {
  wrapper = none;
  state = stale;
  notified = connected ∷ stale ∷ [];
  stopped = 0 ∷ [];
}

stage_and_confirm_answered_example :
    IsDelivered 10 port_ten two_frames_come live
      (stage port_ten session live)
      (to_ship_state 10 26 (frame 42))
unfolding stage_and_confirm
stage_and_confirm_answered_example =
    stage_and_confirm_answered 10 port_ten two_frames_come live (stage port_ten session live)
      (to_ship_state 10 26 (frame 42)) refl

stage_and_confirm_failed_example :
    (dropped ≡ live) ⊎ ((dropped.wrapper ≡ none) × (dropped.state ≡ stale))
unfolding stage_and_confirm
stage_and_confirm_failed_example =
    stage_and_confirm_failed 10 port_ten no_frames_come live dropped
      (λ e. cc, (λ e. cc, (λ e. cc, (λ e. cc, tt)))) refl

stage_and_confirm_ends_example : stage_and_confirm 10 port_ten no_frames_come live ≢ none
stage_and_confirm_ends_example =
    stage_and_confirm_ends 10 port_ten no_frames_come live (omega arith) (omega arith)

-- The wrapper raises behind the staging: the order is reported failed and stays in the session.
failed_order_stays :
    stage_and_confirm 10 port_ten wrapper_raises live ≡ some (failed, stage port_ten session live)
unfolding stage_and_confirm
failed_order_stays = refl

abbrev trip : List LinkStep
trip =
    connects
    ∷ passes true (some (frame 7))
    ∷ orders 10 port_ten two_frames_come
    ∷ passes true none
    ∷ recovers
    ∷ wakes
    ∷ disconnects
    ∷ []

run_link_reconnects_example :
    ((run_link
        (connects ∷ (passes false none ∷ recovers ∷ []) ++ healthy_round (frame 7))
        dropped).state
      ≡ connected)
    × ((run_link
          (connects ∷ (passes false none ∷ recovers ∷ []) ++ healthy_round (frame 7))
          dropped).wrapper
        ≢ none)
    × ((run_link
          (connects ∷ (passes false none ∷ recovers ∷ []) ++ healthy_round (frame 7))
          dropped).phase
        ≡ watching)
run_link_reconnects_example =
    run_link_reconnects (passes false none ∷ recovers ∷ []) (frame 7) dropped (tt, (tt, tt)) refl
