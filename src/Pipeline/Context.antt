-- ===== src/Pipeline/Context.antt =====
-- Single-turn mode: the language model is shown nothing of a turn that is over.
use virtual_helmsman.Prelude.{
  ◌≡◌, refl, ◌∙◌, ap, sym, String, Bool, true, false, List, [], ◌∷◌, ◌++◌, if◌then◌else◌,
}
use mathlib.Core.List.{append_assoc, append-nil}
use virtual_helmsman.Pipeline.{
  Message, system_message, user_message, Frame, assistant_timestamp, PipelineTask, assemble_task,
  inject, reset_messages, resets, ContextStep, typed, added, passed, step, run,
}

-- The messages that a step adds.
abbrev said_by : ContextStep → List Message
said_by (typed text) = user_message text ∷ []
said_by (added m) = m ∷ []
said_by (passed downstream frame) = []

abbrev pub said : List ContextStep → List Message
said [] = []
said (s ∷ ss) = said_by s ++ said ss

-- No spoken reply is over in these steps.
abbrev pub NoReset : List ContextStep → Type 0
NoReset [] = Unit
NoReset (typed text ∷ ss) = NoReset ss
NoReset (added m ∷ ss) = NoReset ss
NoReset (passed downstream frame ∷ ss) = (resets downstream frame ≡ false) × NoReset ss

-- A context that begins with the system prompt.
abbrev pub Prompted : String → PipelineTask → Type 0
Prompted prompt t = (rest : List Message) × (t.messages ≡ system_message prompt ∷ rest)

reset-Prompted :
    (prompt : String) (t : PipelineTask)
    → Prompted prompt t
    → reset_messages t.messages ≡ system_message prompt ∷ []
unfolding reset_messages
reset-Prompted prompt t (rest, e) = rw e refl

step-Prompted :
    (prompt : String) (s : ContextStep) (t : PipelineTask)
    → Prompted prompt t
    → Prompted prompt (step s t)
unfolding step
step-Prompted prompt (typed text) t (rest, e) =
    (rest ++ user_message text ∷ [], ap (λ ms. ms ++ user_message text ∷ []) e)
step-Prompted prompt (added m) t (rest, e) = (rest ++ m ∷ [], ap (λ ms. ms ++ m ∷ []) e)
step-Prompted prompt (passed downstream frame) t p = go (resets downstream frame)
  where
    go :
        (b : Bool)
        → Prompted prompt (if b then record t { messages = reset_messages t.messages } else t)
    go true = ([], reset-Prompted prompt t p)
    go false = p

run-Prompted :
    (prompt : String) (ss : List ContextStep) (t : PipelineTask)
    → Prompted prompt t
    → Prompted prompt (run ss t)
unfolding run
run-Prompted prompt [] t p = p
run-Prompted prompt (s ∷ ss) t p = run-Prompted prompt ss (step s t) (step-Prompted prompt s t p)

run-append : (ss rs : List ContextStep) (t : PipelineTask) → run (ss ++ rs) t ≡ run rs (run ss t)
unfolding run
run-append [] rs t = refl
run-append (s ∷ ss) rs t = run-append ss rs (step s t)

step-quiet :
    (downstream : Bool) (frame : Frame) (t : PipelineTask)
    → resets downstream frame ≡ false
    → step (passed downstream frame) t ≡ t
unfolding step
step-quiet downstream frame t e = rw e refl

-- Without a reset the context grows by what is said.
messages-run :
    (ss : List ContextStep) (t : PipelineTask)
    → NoReset ss
    → (run ss t).messages ≡ t.messages ++ said ss
unfolding run step
messages-run [] t h = sym (append-nil t.messages)
messages-run (typed text ∷ ss) t h =
    messages-run ss (inject text t) h ∙ append_assoc t.messages (user_message text ∷ []) (said ss)
messages-run (added m ∷ ss) t h =
    messages-run ss (record t { messages = t.messages ++ m ∷ [] }) h
    ∙ append_assoc t.messages (m ∷ []) (said ss)
messages-run (passed downstream frame ∷ ss) t (e, h) =
    ap (λ u. (run ss u).messages) (step-quiet downstream frame t e) ∙ messages-run ss t h

-- The end of a spoken reply.
abbrev pub reply_over : ContextStep
reply_over = passed true assistant_timestamp

-- Whatever happened before the end of a spoken reply, the language model is shown the system prompt
-- and what was typed or added since, and nothing else.
pub messages-run-reply_over :
    (prompt : String) (before after : List ContextStep)
    → NoReset after
    → (run (before ++ reply_over ∷ after) (assemble_task prompt)).messages
      ≡ system_message prompt ∷ said after
unfolding run step assemble_task
messages-run-reply_over prompt before after h =
    ap (λ t. t.messages) (run-append before (reply_over ∷ after) (assemble_task prompt))
    ∙ messages-run after
        (record (run before (assemble_task prompt)) {
          messages = reset_messages (run before (assemble_task prompt)).messages;
        })
        h
    ∙ ap (λ ms. ms ++ said after)
        (reset-Prompted prompt (run before (assemble_task prompt))
          (run-Prompted prompt before (assemble_task prompt) ([], refl)))
