-- ===== src/Pipeline/Tests.antt =====
-- A typed command behind a turn that is over.
use virtual_helmsman.Prelude.{◌≡◌, refl, true, [], ◌∷◌, ◌++◌}
use virtual_helmsman.Pipeline.{
  Message, system_message, other_frame, assemble_task, typed, added, passed, run,
}
use virtual_helmsman.Pipeline.Context.{reply_over, said, messages-run-reply_over}

abbrev reply : Message
reply = record { role = "assistant"; content = "Starboard ten, aye." }

messages-run-reply_over_example :
    (run
      ((typed "starboard ten" ∷ added reply ∷ [])
        ++ reply_over ∷ typed "midships" ∷ passed true other_frame ∷ [])
      (assemble_task "Steer.")).messages
    ≡ system_message "Steer." ∷ said (typed "midships" ∷ passed true other_frame ∷ [])
messages-run-reply_over_example =
    messages-run-reply_over "Steer." (typed "starboard ten" ∷ added reply ∷ [])
      (typed "midships" ∷ passed true other_frame ∷ []) (refl, tt)
