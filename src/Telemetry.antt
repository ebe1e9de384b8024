-- ===== src/Telemetry.antt =====
-- voice_agent/telemetry.py: the publisher of the ship's state. A tick is one round of the loop; the
-- sleep between two rounds is left out, and `is_connected` is the client's link state.
use virtual_helmsman.Prelude.{ℕ, zero, suc, ◌≡◌, refl, Bool, false, if◌then◌else◌}
use virtual_helmsman.Simulator.{Reply, answered, failed, SimulatorClient}
use virtual_helmsman.Events.{EventBus, ship_state, publish}

module _ (c : SimulatorClient) (is_connected : c.State → Bool) where
  -- a read that fails publishes nothing
  abbrev after_read : Reply × c.State → EventBus → c.State × EventBus
  after_read (answered state, s) bus = (s, publish (ship_state state) bus)
  after_read (failed, s) bus = (s, bus)

  unfoldable pub tick : c.State × EventBus → c.State × EventBus
  unfolding publish
  tick (s, bus) = if is_connected s then after_read (c.get_state s) bus else (s, bus)

  -- the first rounds of the loop
  unfoldable pub run_ship_state_publisher : (rounds : ℕ) → c.State × EventBus → c.State × EventBus
  unfolding tick
  run_ship_state_publisher zero w = w
  run_ship_state_publisher (suc rounds) w = run_ship_state_publisher rounds (tick w)

  -- While the link is down the publisher leaves the client and the bus alone, for any number of
  -- rounds.
  run_ship_state_publisher_down :
      (rounds : ℕ) (s : c.State) (bus : EventBus)
      → is_connected s ≡ false
      → run_ship_state_publisher rounds (s, bus) ≡ (s, bus)
  unfolding run_ship_state_publisher
  run_ship_state_publisher_down zero s bus e = refl
  run_ship_state_publisher_down (suc rounds) s bus e =
      rw e (run_ship_state_publisher_down rounds s bus e)
