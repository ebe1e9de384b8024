-- ===== src/Api/Control.antt =====
-- voice_agent/api/control_router.py: the chatbox and the link routes. A `SimulatorClient`'s link
-- enters as its two requests and its state.
mod Tests
use virtual_helmsman.Prelude.{
  ℕ, suc, ◌≡◌, refl, ◌∙◌, ap, String, Bool, true, false, ◌&&◌, List, [], ◌∷◌, ◌++◌, leb, length,
  chars, strip, truthy, if◌then◌else◌,
}
use virtual_helmsman.Events.{EventBus, transcript, publish}
use virtual_helmsman.Simulator.{ConnectionState}
use virtual_helmsman.Pipeline.{
  PipelineTask, system_message, user_message, assemble_task, inject, ContextStep, run,
}
use virtual_helmsman.Pipeline.Context.{reply_over, messages-run-reply_over}

pub data Response : Type 0 where
  queued : Response
  refused : (status_code : ℕ) → Response
  state_payload : ConnectionState → Response

-- TextRequest: min_length=1, max_length=2000
abbrev pub within_bounds : String → Bool
within_bounds text = leb 1 (length (chars text)) && leb (length (chars text)) 2000

-- POST /api/control/text
unfoldable pub send_text : String → EventBus → PipelineTask → Response × EventBus × PipelineTask
unfolding inject
send_text text bus task =
    if within_bounds text
    then if truthy (strip text)
      then (queued, publish (transcript (strip text)) bus, inject (strip text) task)
      else (refused 400, bus, task)
    else (refused 422, bus, task)

-- What the link routes use of a simulator client.
pub record Link (S : Type 0) : Type 0 where
  pub connect : S → S
  pub disconnect : S → S
  pub connection_state : S → ConnectionState

module _ {S : Type 0} (link : Link S) where
  -- GET /api/control/simulator
  unfoldable pub simulator_state : S → Response
  simulator_state s = state_payload (link.connection_state s)

  -- POST /api/control/simulator/connect
  unfoldable pub simulator_connect : S → Response × S
  simulator_connect s = let s' = link.connect s in (state_payload (link.connection_state s'), s')

  -- POST /api/control/simulator/disconnect
  unfoldable pub simulator_disconnect : S → Response × S
  simulator_disconnect s =
      let s' = link.disconnect s in (state_payload (link.connection_state s'), s')

-- A typed command that is accepted behind a turn that is over, is published once, without the white
-- space at its ends, queues one run, and the language model is shown the system prompt and the
-- command alone.
send_text_alone :
    (prompt text : String) (before : List ContextStep) (bus : EventBus)
    → within_bounds text ≡ true
    → truthy (strip text) ≡ true
    → send_text text bus (run (before ++ reply_over ∷ []) (assemble_task prompt)) ≡ (
      queued,
      publish (transcript (strip text)) bus,
      record {
        messages = system_message prompt ∷ user_message (strip text) ∷ [];
        queued_runs = suc (run (before ++ reply_over ∷ []) (assemble_task prompt)).queued_runs;
      },
    )
unfolding send_text
send_text_alone prompt text before bus bounded full =
    rw (bounded, full)
      (ap
        (λ ms. (
          queued,
          publish (transcript (strip text)) bus,
          let t : PipelineTask = record {
            messages = ms ++ user_message (strip text) ∷ [];
            queued_runs = suc (run (before ++ reply_over ∷ []) (assemble_task prompt)).queued_runs;
          } in
              t,
        ))
        (messages-run-reply_over prompt before [] tt))
