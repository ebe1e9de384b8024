-- ===== src/Simulator/Levers.antt =====
-- The engine lever of voice_agent/backends/simulator/real.py: `_LEVER_BY_ORDER` and
-- `_order_from_lever`. Lever values are multiples of 1 / (20 unit), so that 0.45 is 9 unit; the
-- rounding of the float subtraction is left out.
use virtual_helmsman.Prelude.{ℕ, ◌*◌, ◌≤◌, ◌<◌, ◌≡◌, List, [], ◌∷◌, arith, ltb, if◌then◌else◌}
use virtual_helmsman.Prelude.Int.{ℤ, pos, neg, abs, ◌-ℤ◌}
use virtual_helmsman.Simulator.{
  EngineOrder, full_astern, half_astern, slow_astern, dead_slow_astern, stop, dead_slow_ahead,
  slow_ahead, half_ahead, full_ahead,
}

unfoldable pub lever_by_order : ℕ → EngineOrder → ℤ
lever_by_order unit full_astern = neg (pos (20 * unit))
lever_by_order unit half_astern = neg (pos (14 * unit))
lever_by_order unit slow_astern = neg (pos (9 * unit))
lever_by_order unit dead_slow_astern = neg (pos (4 * unit))
lever_by_order unit stop = pos 0
lever_by_order unit dead_slow_ahead = pos (4 * unit)
lever_by_order unit slow_ahead = pos (9 * unit)
lever_by_order unit half_ahead = pos (14 * unit)
lever_by_order unit full_ahead = pos (20 * unit)

-- min(first, *rest, key=key): the first of the least
unfoldable pub min_by : (EngineOrder → ℕ) → EngineOrder → List EngineOrder → EngineOrder
min_by key best [] = best
min_by key best (o ∷ os) = min_by key (if ltb (key o) (key best) then o else best) os

abbrev pub distance : ℕ → ℤ → EngineOrder → ℕ
distance unit value o = abs (lever_by_order unit o -ℤ value)

-- the keys of the mapping behind the first, in its order
abbrev pub later_orders : List EngineOrder
later_orders =
    half_astern ∷ slow_astern ∷ dead_slow_astern ∷ stop ∷ dead_slow_ahead ∷ slow_ahead ∷ half_ahead
    ∷ full_ahead ∷ []

unfoldable pub order_from_lever : ℕ → ℤ → EngineOrder
unfolding lever_by_order min_by
order_from_lever unit value = min_by (distance unit value) full_astern later_orders

abbrev pub AllAtLeast : (EngineOrder → ℕ) → ℕ → List EngineOrder → Type 0
AllAtLeast key n [] = Unit
AllAtLeast key n (o ∷ os) = (n ≤ key o) × AllAtLeast key n os

min_by-le :
    (key : EngineOrder → ℕ) (best : EngineOrder) (os : List EngineOrder)
    → key (min_by key best os) ≤ key best
unfolding min_by
min_by-le key best [] = omega arith
min_by-le key best (o ∷ os) =
    ground (arith, min_by-le key (if ltb (key o) (key best) then o else best) os)

min_by-AllAtLeast :
    (key : EngineOrder → ℕ) (best : EngineOrder) (os : List EngineOrder)
    → AllAtLeast key (key (min_by key best os)) os
unfolding min_by
min_by-AllAtLeast key best [] = tt
min_by-AllAtLeast key best (o ∷ os) = (
  ground (arith, min_by-le key (if ltb (key o) (key best) then o else best) os),
  min_by-AllAtLeast key (if ltb (key o) (key best) then o else best) os,
)

at_least :
    (key : EngineOrder → ℕ) (n : ℕ) (o : EngineOrder)
    → n ≤ key full_astern
    → AllAtLeast key n later_orders
    → n ≤ key o
at_least key n full_astern h hs = h
at_least key n half_astern h hs = hs.0
at_least key n slow_astern h hs = hs.1.0
at_least key n dead_slow_astern h hs = hs.1.1.0
at_least key n stop h hs = hs.1.1.1.0
at_least key n dead_slow_ahead h hs = hs.1.1.1.1.0
at_least key n slow_ahead h hs = hs.1.1.1.1.1.0
at_least key n half_ahead h hs = hs.1.1.1.1.1.1.0
at_least key n full_ahead h hs = hs.1.1.1.1.1.1.1.0

-- No telegraph position is nearer to a lever reading than the one reported.
order_from_lever_nearest :
    (unit : ℕ) (value : ℤ) (o : EngineOrder)
    → distance unit value (order_from_lever unit value) ≤ distance unit value o
unfolding order_from_lever
order_from_lever_nearest unit value o =
    at_least (distance unit value) _ o (min_by-le (distance unit value) full_astern later_orders)
      (min_by-AllAtLeast (distance unit value) full_astern later_orders)

-- A lever set for a position reads back as that position.
order_from_lever-lever_by_order :
    (unit : ℕ) (o : EngineOrder) → 0 < unit → order_from_lever unit (lever_by_order unit o) ≡ o
unfolding lever_by_order
order_from_lever-lever_by_order unit o h =
    exact unit o (order_from_lever unit (lever_by_order unit o)) h
      (order_from_lever_nearest unit (lever_by_order unit o) o)
  where
    exact :
        (unit : ℕ) (o r : EngineOrder)
        → 0 < unit
        → distance unit (lever_by_order unit o) r ≤ distance unit (lever_by_order unit o) o
        → r ≡ o
    exact unit o r p q = ground arith
