-- ===== src/Api/Webrtc/Tests.antt =====
-- Two browsers, one of which fails to get a pipeline.
use virtual_helmsman.Prelude.{◌≡◌, refl, arith, true, false, none, some, List, [], ◌∷◌}
use virtual_helmsman.Api.Webrtc.{
  new_manager, started, not_assembled, refused, handle_offer, close, cleanup, is_connected,
  put_connection,
}
use virtual_helmsman.Api.Webrtc.Tasks.{tasks_of, unended}
use virtual_helmsman.Api.Webrtc.Owned.{
  ManagerStep, offers, disconnects, ends, ended, AllRegular, run, run-new_manager-owned,
}

abbrev visits : List ManagerStep
visits =
    offers true true started "peer#0" none
    ∷ offers true true not_assembled "peer#1" none
    ∷ offers true true started "peer#2" (some "peer#0")
    ∷ ends 0
    ∷ disconnects true "peer#1"
    ∷ offers true true started "peer#3" none
    ∷ disconnects true "peer#0"
    ∷ []

visits-AllRegular : AllRegular visits new_manager
unfolding handle_offer is_connected put_connection cleanup
visits-AllRegular = (refl, (refl, (refl, (omega arith, (refl, (refl, (refl, tt)))))))

run-new_manager-owned_example :
    ((run visits new_manager).running
      ≡ unended (ended visits []) (tasks_of (run visits new_manager).connections))
    × ((close (λ _. true) (run visits new_manager)).1.connections ≡ [])
    × ((close (λ _. true) (run visits new_manager)).1.running ≡ [])
run-new_manager-owned_example = run-new_manager-owned visits visits-AllRegular

one_runs : (run visits new_manager).running ≡ 1 ∷ []
unfolding run handle_offer is_connected put_connection cleanup
one_runs = refl

no_library : handle_offer false true started "peer#0" none new_manager ≡ (refused 503, new_manager)
unfolding handle_offer
no_library = refl

-- A cancellation that raises leaves a pipeline behind without its connection.
orphan :
    cleanup false "peer#0" (run (offers true true started "peer#0" none ∷ []) new_manager)
    ≡ (false, record { connections = []; running = 0 ∷ []; next_task = 1 })
unfolding run handle_offer is_connected put_connection cleanup
orphan = refl
