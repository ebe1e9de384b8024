-- ===== src/Actions/Dispatch/Telegraph.antt =====
-- The mapping from knots to a telegraph position, against the speeds of the mock simulator.
use virtual_helmsman.Prelude.{ℕ, ◌*◌, ◌≤◌, ◌<◌, ◌≡◌, arith}
use virtual_helmsman.Prelude.Int.{ℤ, pos, negsuc, neg, abs, ◌-ℤ◌, ◌≤ℤ◌, ◌<ℤ◌}
use virtual_helmsman.Simulator.{
  EngineOrder, full_astern, half_astern, slow_astern, dead_slow_astern, stop, dead_slow_ahead,
  slow_ahead, half_ahead, full_ahead,
}
use virtual_helmsman.Simulator.Mock.{speed_by_order}
use virtual_helmsman.Actions.Dispatch.{knots_to_telegraph}

-- the same engine speed the other way
abbrev pub reversed : EngineOrder → EngineOrder
reversed full_astern = full_ahead
reversed half_astern = half_ahead
reversed slow_astern = slow_ahead
reversed dead_slow_astern = dead_slow_ahead
reversed stop = stop
reversed dead_slow_ahead = dead_slow_astern
reversed slow_ahead = slow_astern
reversed half_ahead = half_astern
reversed full_ahead = full_astern

-- positions from full astern to full ahead
abbrev pub rank : EngineOrder → ℕ
rank full_astern = 0
rank half_astern = 1
rank slow_astern = 2
rank dead_slow_astern = 3
rank stop = 4
rank dead_slow_ahead = 5
rank slow_ahead = 6
rank half_ahead = 7
rank full_ahead = 8

-- A speed astern selects the position opposite to the one of the same speed ahead.
pub knots_to_telegraph-neg :
    (unit : ℕ) (knots : ℤ)
    → 0 < unit
    → knots_to_telegraph unit (neg knots) ≡ reversed (knots_to_telegraph unit knots)
unfolding knots_to_telegraph
knots_to_telegraph-neg unit (pos n) h = ground arith
knots_to_telegraph-neg unit (negsuc n) h = ground arith

-- A higher speed never selects a position further astern.
knots_to_telegraph_mono :
    (unit : ℕ) (a b : ℤ)
    → a ≤ℤ b
    → rank (knots_to_telegraph unit a) ≤ rank (knots_to_telegraph unit b)
unfolding knots_to_telegraph
knots_to_telegraph_mono unit a b h = ground arith

-- The speed that the mock simulator shows for a position selects that position again.
pub knots_to_telegraph-speed_by_order :
    (unit : ℕ) (order : EngineOrder)
    → 0 < unit
    → knots_to_telegraph unit (speed_by_order unit order) ≡ order
unfolding knots_to_telegraph speed_by_order
knots_to_telegraph-speed_by_order unit full_astern h = ground arith
knots_to_telegraph-speed_by_order unit _ h = ground arith

-- From 8 up to 9 knots the position chosen is not the nearest one by the speeds of the mock:
-- slow ahead is nearer than half ahead.
knots_to_telegraph_not_nearest :
    (unit : ℕ) (knots : ℤ)
    → pos (8 * unit) ≤ℤ knots
    → knots <ℤ pos (9 * unit)
    → abs (speed_by_order unit slow_ahead -ℤ knots)
      < abs (speed_by_order unit (knots_to_telegraph unit knots) -ℤ knots)
unfolding knots_to_telegraph speed_by_order
knots_to_telegraph_not_nearest unit knots h k = ground arith
