-- ===== src/Simulator/Real/Delivery.antt =====
-- An order is acknowledged when it was delivered, and an order that failed goes no further.
use virtual_helmsman.Prelude.{
  ℕ, suc, ◌+◌, ◌≤◌, ◌<◌, ◌≡◌, refl, ◌≢◌, ◌⊎◌, true, Option, none, some, List, [], ◌∷◌, arith,
  length,
}
use virtual_helmsman.Simulator.{connected, stale, ShipState, answered, failed}
use virtual_helmsman.Simulator.Real.{
  WrapperSnapshot, Setpoint, Session, RealSimulatorClient, is_fresh,
}
use virtual_helmsman.Simulator.Real.Commands.{
  delivery_frames, to_ship_state, require_live, Poll, Confirmation, delivered, undelivered, broken,
  unfinished, confirm, Exchange, stage, conclude, stage_on, from_snapshot, from_session,
  stage_and_confirm,
}

-- the orders that would reach the ship if frames arrived
abbrev pub staged_orders : Option Session → List Setpoint
staged_orders none = []
staged_orders (some session) = session.staged

abbrev pub AllRead : List Poll → Type 0
AllRead [] = Unit
AllRead (p ∷ ps) = (p.snapshot ≢ none) × AllRead ps

confirm-ne-broken :
    (wanted deadline : ℕ) (polls : List Poll)
    → AllRead polls
    → confirm wanted deadline polls ≢ broken
unfolding confirm
confirm-ne-broken wanted deadline [] h = cc
confirm-ne-broken wanted deadline (p ∷ ps) (h, hs) =
    ground (arith, confirm-ne-broken wanted deadline ps hs)

-- A snapshot that the loop was given, behind the staging of the order.
abbrev pub IsPolled : WrapperSnapshot → List Poll → Type 0
IsPolled s [] = ⊥
IsPolled s (p ∷ ps) = (p.snapshot ≡ some s) ⊎ IsPolled s ps

confirm-delivered :
    (wanted deadline : ℕ) (polls : List Poll) (s : WrapperSnapshot)
    → confirm wanted deadline polls ≡ delivered s
    → (wanted ≤ s.frame_count) × IsPolled s polls
unfolding confirm
confirm-delivered wanted deadline [] s h = cc
confirm-delivered wanted deadline (p ∷ ps) s h =
    ground (arith, confirm-delivered wanted deadline ps s)

-- The loop's clock starts at or after `t` and moves by a tick a round at least.
abbrev pub Ticks : ℕ → List Poll → Type 0
Ticks t [] = Unit
Ticks t (p ∷ ps) = (t ≤ p.time) × Ticks (suc p.time) ps

confirm_ends :
    (wanted deadline t : ℕ) (polls : List Poll)
    → Ticks t polls
    → t ≤ deadline
    → deadline < t + length polls
    → confirm wanted deadline polls ≢ unfinished
unfolding confirm
confirm_ends wanted deadline t [] h le lt = absurd (omega arith)
confirm_ends wanted deadline t (p ∷ ps) (h, hs) le lt =
    ground (arith, confirm_ends wanted deadline (suc p.time) ps hs)

conclude-failed :
    (unit now : ℕ) (k : Confirmation) (r r' : RealSimulatorClient)
    → k ≢ broken
    → conclude unit now k r ≡ some (failed, r')
    → (r'.wrapper ≡ none) × (r'.state ≡ stale)
unfolding conclude
conclude-failed unit now k r r' h e = ground arith

conclude-answered :
    (unit now : ℕ) (k : Confirmation) (r r' : RealSimulatorClient) (state : ShipState)
    → conclude unit now k r ≡ some (answered state, r')
    → (after : WrapperSnapshot) × (k ≡ delivered after)
      × (state ≡ to_ship_state unit now after)
      × (r' ≡ r)
unfolding conclude
conclude-answered unit now (delivered after) r r' state e =
    (after, refl, ground arith, ground arith)
conclude-answered unit now undelivered r r' state e = cc
conclude-answered unit now broken r r' state e = cc
conclude-answered unit now unfinished r r' state e = cc

conclude-ne-none :
    (unit now : ℕ) (k : Confirmation) (r : RealSimulatorClient)
    → k ≢ unfinished
    → conclude unit now k r ≢ none
unfolding conclude
conclude-ne-none unit now k r h = ground arith

pub require_live-some :
    (r : RealSimulatorClient) (session : Session)
    → require_live r ≡ some session
    → (r.state ≡ connected) × (r.wrapper ≡ some session)
unfolding require_live
require_live-some r session h = ground arith

module _ (unit : ℕ) (order : Setpoint) (x : Exchange) where
  -- the confirmation of an order staged behind the snapshot `before`
  abbrev pub outcome : WrapperSnapshot → RealSimulatorClient → Confirmation
  outcome before r =
      confirm (before.frame_count + delivery_frames) (x.started + r.stale_after) x.polls

  -- Off a live link an order is refused and nothing changes.
  stage_and_confirm_refuses :
      (r : RealSimulatorClient)
      → (r.state ≢ connected) ⊎ (r.wrapper ≡ none)
      → stage_and_confirm unit order x r ≡ some (failed, r)
  unfolding stage_and_confirm
  stage_and_confirm_refuses r h = ground arith

  stage_on_failed :
      (before : WrapperSnapshot) (session : Session) (r r' : RealSimulatorClient)
      → AllRead x.polls
      → stage_on unit order x before session r ≡ some (failed, r')
      → (r' ≡ r) ⊎ ((r'.wrapper ≡ none) × (r'.state ≡ stale))
  unfolding stage_on
  stage_on_failed before session r r' h e = ground (
    arith,
    conclude-failed unit x.now (outcome before r) (stage order session r) r',
    confirm-ne-broken (before.frame_count + delivery_frames) (x.started + r.stale_after) x.polls h,
  )

  -- Where the wrapper does not raise, an order that is reported failed is in no session: either
  -- nothing was staged, or the session is dropped and the link is stale.
  pub stage_and_confirm_failed :
      (r r' : RealSimulatorClient)
      → AllRead x.polls
      → stage_and_confirm unit order x r ≡ some (failed, r')
      → (r' ≡ r) ⊎ ((r'.wrapper ≡ none) × (r'.state ≡ stale))
  unfolding stage_and_confirm
  stage_and_confirm_failed r r' h e = grind (arith, stage_on_failed)

  -- What an acknowledged order has behind it.
  pub record IsDelivered (r r' : RealSimulatorClient) (state : ShipState) : Type 0 where
    pub before : WrapperSnapshot
    pub after : WrapperSnapshot
    pub session : Session
    pub live : (r.state ≡ connected) × (r.wrapper ≡ some session)
    pub looked : x.before ≡ some before
    pub fresh : is_fresh before.frame_age r.stale_after ≡ true
    pub polled : IsPolled after x.polls
    pub two_frames : before.frame_count + 2 ≤ after.frame_count
    pub reported : state ≡ to_ship_state unit x.now after
    pub staged : r' ≡ stage order session r

  stage_on_answered :
      (before : WrapperSnapshot) (session : Session) (r r' : RealSimulatorClient)
      (state : ShipState)
      → require_live r ≡ some session
      → x.before ≡ some before
      → stage_on unit order x before session r ≡ some (answered state, r')
      → IsDelivered r r' state
  unfolding stage_on
  stage_on_answered before session r r' state live looked e =
      let fresh : is_fresh before.frame_age r.stale_after ≡ true = ground arith in
      let (after, k, reported, same) =
        conclude-answered unit x.now (outcome before r) (stage order session r) r' state
          (ground arith) in
      let (enough, polled) = confirm-delivered _ _ x.polls after k in
      record {
        before = before;
        after = after;
        polled = polled;
        session = session;
        live = require_live-some r session live;
        looked = looked;
        fresh = fresh;
        two_frames = enough;
        reported = reported;
        staged = same;
      }

  from_snapshot_answered :
      (b : Option WrapperSnapshot) (session : Session) (r r' : RealSimulatorClient)
      (state : ShipState)
      → require_live r ≡ some session
      → x.before ≡ b
      → from_snapshot unit order x session r b ≡ some (answered state, r')
      → IsDelivered r r' state
  from_snapshot_answered none session r r' state live looked e = cc
  from_snapshot_answered (some before) session r r' state live looked e =
      stage_on_answered before session r r' state live looked e

  from_session_answered :
      (o : Option Session) (r r' : RealSimulatorClient) (state : ShipState)
      → require_live r ≡ o
      → from_session unit order x r o ≡ some (answered state, r')
      → IsDelivered r r' state
  from_session_answered none r r' state live e = cc
  from_session_answered (some session) r r' state live e =
      from_snapshot_answered x.before session r r' state live refl e

  -- An answer means that the order was staged over a live link behind a fresh snapshot, and that a
  -- snapshot read after the staging counts at least two frames more; the reported state is that of
  -- this later snapshot.
  pub stage_and_confirm_answered :
      (r r' : RealSimulatorClient) (state : ShipState)
      → stage_and_confirm unit order x r ≡ some (answered state, r')
      → IsDelivered r r' state
  unfolding stage_and_confirm
  stage_and_confirm_answered r r' state e = from_session_answered (require_live r) r r' state refl e

  stage_on-ne-none :
      (before : WrapperSnapshot) (session : Session) (r : RealSimulatorClient)
      → Ticks x.started x.polls
      → r.stale_after < length x.polls
      → stage_on unit order x before session r ≢ none
  unfolding stage_on
  stage_on-ne-none before session r h lt =
      let ends =
        confirm_ends (before.frame_count + delivery_frames) (x.started + r.stale_after) x.started
          x.polls h (omega arith) (omega arith) in
      ground (arith, conclude-ne-none unit x.now (outcome before r) (stage order session r) ends)

  -- A command ends: the loop has an outcome as soon as the wrapper has been polled more often
  -- than the budget has ticks, if each round takes a tick at least.
  pub stage_and_confirm_ends :
      (r : RealSimulatorClient)
      → Ticks x.started x.polls
      → r.stale_after < length x.polls
      → stage_and_confirm unit order x r ≢ none
  unfolding stage_and_confirm
  stage_and_confirm_ends r h lt = grind (arith, stage_on-ne-none)
