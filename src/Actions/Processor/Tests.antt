-- ===== src/Actions/Processor/Tests.antt =====
-- A port ten order on its way through the processor.
use virtual_helmsman.Prelude.{
  ◌*◌, String, ◌≡◌, ◌⊎◌, refl, true, false, some, none, List, [], ◌∷◌, ◌++◌, map, truthy, strip,
}
use virtual_helmsman.Prelude.Int.{negsuc}
use virtual_helmsman.Simulator.Mock.{mock_client, set_rudder, set_rudder_to}
use virtual_helmsman.Actions.Fence.{strip_code_fence}
use virtual_helmsman.Actions.Schema.{Decoder, other_error, schema_code}
use virtual_helmsman.Actions.Dispatch.{dispatch_action}
use virtual_helmsman.Actions.Tests.{decoder, printer, ship, at_port_ten}
use virtual_helmsman.Actions.Processor.{
  Frame, process_frame, response_start, llm_text, response_end, Processor, resolve, process_frames,
  joined, finish, resolve_parsed, end_of_response, downstream_frame,
}
use virtual_helmsman.Actions.Processor.Helm.{recorded, AllWithin, helm_bounded}
use virtual_helmsman.Actions.Processor.Turns.{resolve_speaks, process_frames-response}

abbrev processor : Processor (mock_client 10)
processor = record { parts = []; capturing = false; ship = ship; bus = none }

-- A turn on the simulator that records its rudder orders.
abbrev turn : List Frame
turn = response_start ∷ llm_text "PORT TEN" ∷ response_end ∷ []

abbrev bridge : Processor (recorded (mock_client 10))
bridge = record { parts = []; capturing = false; ship = (ship, []); bus = none }

abbrev steered : Processor (recorded (mock_client 10))
steered = record bridge {
  ship = (
    record ship {
      rudder_angle_deg = negsuc 99;
      command_history =
          record { ts = 7; command = set_rudder_to (negsuc 99); result = at_port_ten } ∷ [];
    },
    negsuc 99 ∷ [],
  );
}

helm_bounded_example : AllWithin (45 * 10) (negsuc 99 ∷ [])
unfolding schema_code process_frames process_frame downstream_frame end_of_response resolve
    resolve_parsed finish dispatch_action set_rudder strip joined
helm_bounded_example =
    helm_bounded 10 decoder printer (mock_client 10) turn
      (response_start ∷ llm_text "Port ten, sir." ∷ response_end ∷ []) bridge steered refl tt

-- A library that fails on deep nesting.
abbrev deep : Decoder
deep = record decoder { loads = λ s. other_error }

nesting_escapes : resolve 10 deep printer (mock_client 10) "[[[[" processor ≡ none
unfolding schema_code resolve resolve_parsed
nesting_escapes = refl

resolve_speaks_example :
    ((decoder.loads (strip_code_fence "PORT TEN") ≡ other_error)
      × (resolve 10 decoder printer (mock_client 10) "PORT TEN" processor ≡ none))
    ⊎ ((spoken : String) × (s' : Processor (mock_client 10)) × (resolve 10 decoder printer
            (mock_client 10)
            "PORT TEN"
            processor
          ≡ some (spoken, s'))
        × (truthy spoken ≡ true))
resolve_speaks_example = resolve_speaks 10 decoder printer (mock_client 10) "PORT TEN" processor

abbrev pieces : List String
pieces = "PORT" ∷ " TEN" ∷ []

process_frames-response_example :
    ((decoder.loads (strip_code_fence (strip (joined pieces))) ≡ other_error)
      × (process_frames 10 decoder printer
            (mock_client 10)
            (response_start ∷ map llm_text pieces ++ response_end ∷ [])
            processor
          ≡ none))
    ⊎ ((spoken : String) × (s' : Processor (mock_client 10)) × (resolve 10 decoder printer
            (mock_client 10)
            (strip (joined pieces))
            (record processor { parts = []; capturing = false })
          ≡ some (spoken, s'))
        × (process_frames 10 decoder printer
              (mock_client 10)
              (response_start ∷ map llm_text pieces ++ response_end ∷ [])
              processor
            ≡ some (response_start ∷ llm_text spoken ∷ response_end ∷ [], s')))
process_frames-response_example =
    process_frames-response 10 decoder printer (mock_client 10) pieces processor
