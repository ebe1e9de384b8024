-- ===== src/Simulator/Real/Supervisor/Reconnects.antt =====
-- The link comes back: what a running supervisor reaches once the simulator answers again.
use virtual_helmsman.Prelude.{
  ℕ, ◌≡◌, ◌≢◌, refl, true, none, some, List, [], ◌∷◌, ◌++◌, arith, Option-cases, inl, inr,
}
use virtual_helmsman.Simulator.{connected, Reply}
use virtual_helmsman.Simulator.Real.{
  WrapperSnapshot, Setpoint, Session, idle, watching, RealSimulatorClient, is_healthy,
}
use virtual_helmsman.Simulator.Real.Commands.{
  Exchange, Confirmation, conclude, stage, stage_on, stage_and_confirm,
}
use virtual_helmsman.Simulator.Real.Delivery.{outcome}
use virtual_helmsman.Simulator.Real.Supervisor.{
  LinkStep, passes, recovers, wakes, connects, disconnects, cancels, orders, link_step, run_link,
  after_order,
}

-- A step that does not stop the supervisor.
abbrev pub Stays : LinkStep → Type 0
Stays disconnects = ⊥
Stays cancels = ⊥
Stays _ = Unit

abbrev pub AllStay : List LinkStep → Type 0
AllStay [] = Unit
AllStay (s ∷ ss) = Stays s × AllStay ss

record Runs (limit : ℕ) (r : RealSimulatorClient) : Type 0 where
  running : r.phase ≢ idle
  kept : r.stale_after ≡ limit

module _ (limit unit : ℕ) (order : Setpoint) (x : Exchange) where
  conclude-Runs :
      (now : ℕ) (k : Confirmation) (r r' : RealSimulatorClient) (reply : Reply)
      → Runs limit r
      → conclude unit now k r ≡ some (reply, r')
      → Runs limit r'
  unfolding conclude
  conclude-Runs now k r r' reply v e = ground arith

  stage_on-Runs :
      (before : WrapperSnapshot) (session : Session) (r r' : RealSimulatorClient) (reply : Reply)
      → Runs limit r
      → stage_on unit order x before session r ≡ some (reply, r')
      → Runs limit r'
  unfolding stage_on
  stage_on-Runs before session r r' reply v e =
      ground (
        arith,
        conclude-Runs x.now (outcome unit order x before r) (stage order session r) r' reply,
      )

  stage_and_confirm-Runs :
      (r r' : RealSimulatorClient) (reply : Reply)
      → Runs limit r
      → stage_and_confirm unit order x r ≡ some (reply, r')
      → Runs limit r'
  unfolding stage_and_confirm
  stage_and_confirm-Runs r r' reply v e = grind (arith, stage_on-Runs)

  after_order-Runs :
      (r : RealSimulatorClient)
      → Runs limit r
      → Runs limit (after_order r (stage_and_confirm unit order x r))
  after_order-Runs r v = elim (Option-cases (stage_and_confirm unit order x r)) [
    | inl e ↦ rw e v
    | inr ((reply, r'), e) ↦ rw e (stage_and_confirm-Runs r r' reply v e)
  ]

link_step-Runs :
    (limit : ℕ) (s : LinkStep) (r : RealSimulatorClient)
    → Stays s
    → Runs limit r
    → Runs limit (link_step s r)
unfolding link_step
link_step-Runs limit (passes built snapshot) r h v = ground arith
link_step-Runs limit recovers r h v = ground arith
link_step-Runs limit wakes r h v = ground arith
link_step-Runs limit connects r h v = ground arith
link_step-Runs limit disconnects r h v = elim h [ ]
link_step-Runs limit cancels r h v = elim h [ ]
link_step-Runs limit (orders unit order x) r h v = after_order-Runs limit unit order x r v

abbrev pub healthy_round : WrapperSnapshot → List LinkStep
healthy_round snapshot = recovers ∷ wakes ∷ passes true (some snapshot) ∷ []

run_link-healthy_round :
    (limit : ℕ) (snapshot : WrapperSnapshot) (r : RealSimulatorClient)
    → Runs limit r
    → is_healthy snapshot limit ≡ true
    → ((run_link (healthy_round snapshot) r).state ≡ connected)
      × ((run_link (healthy_round snapshot) r).wrapper ≢ none)
      × ((run_link (healthy_round snapshot) r).phase ≡ watching)
unfolding run_link link_step
run_link-healthy_round limit snapshot r v h = ground arith

run_link-append :
    (ss ts : List LinkStep) (r : RealSimulatorClient)
    → run_link (ss ++ ts) r ≡ run_link ts (run_link ss r)
unfolding run_link
run_link-append [] ts r = refl
run_link-append (s ∷ ss) ts r = run_link-append ss ts (link_step s r)

run_link-Runs :
    (limit : ℕ) (ss : List LinkStep) (r : RealSimulatorClient)
    → AllStay ss
    → Runs limit r
    → Runs limit (run_link ss r)
unfolding run_link
run_link-Runs limit [] r h v = v
run_link-Runs limit (s ∷ ss) r (h, hs) v =
    run_link-Runs limit ss (link_step s r) hs (link_step-Runs limit s r h v)

connect-Runs : (r : RealSimulatorClient) → Runs r.stale_after (link_step connects r)
unfolding link_step
connect-Runs r = ground arith

connected_run :
    (steps : List LinkStep) (r : RealSimulatorClient)
    → AllStay steps
    → Runs r.stale_after (run_link (connects ∷ steps) r)
unfolding run_link
connected_run steps r h =
    run_link-Runs r.stale_after steps (link_step connects r) h (connect-Runs r)

-- After a request to connect the link comes back whatever went wrong: behind any failed builds, lost
-- frames, exceptions, backoffs and commands, in any order and with no request to disconnect, one
-- round of the supervisor in which the build succeeds and the simulator reports fresh frames ends
-- with a connected link that holds a session and is watched.
pub run_link_reconnects :
    (steps : List LinkStep) (snapshot : WrapperSnapshot) (r : RealSimulatorClient)
    → AllStay steps
    → is_healthy snapshot r.stale_after ≡ true
    → ((run_link (connects ∷ steps ++ healthy_round snapshot) r).state ≡ connected)
      × ((run_link (connects ∷ steps ++ healthy_round snapshot) r).wrapper ≢ none)
      × ((run_link (connects ∷ steps ++ healthy_round snapshot) r).phase ≡ watching)
run_link_reconnects steps snapshot r h e =
    rw (run_link-append (connects ∷ steps) (healthy_round snapshot) r) (
      run_link-healthy_round r.stale_after snapshot (run_link (connects ∷ steps) r)
        (connected_run steps r h) e)
