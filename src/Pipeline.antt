-- ===== src/Pipeline.antt =====
-- voice_agent/pipeline.py: the context of a pipeline, which is the list of messages that the language
-- model is shown: how it is made, what a typed command adds to it, and how it is wiped after each
-- spoken reply. The aggregators of the framework, which add messages of their own, are steps.
pub mod Context
mod Tests
use virtual_helmsman.Prelude.{
  ℕ, suc, String, Bool, true, false, List, [], ◌∷◌, ◌++◌, text_eq, if◌then◌else◌,
}

pub record Message : Type 0 where
  pub role : String
  pub content : String

abbrev pub system_message : String → Message
system_message prompt = record { role = "system"; content = prompt }

abbrev pub user_message : String → Message
user_message text = record { role = "user"; content = text }

-- The frames that the wipe tells apart: the one that the assistant aggregator pushes behind its
-- message, and the rest.
pub data Frame : Type 0 where
  assistant_timestamp other_frame : Frame

-- A task with its context, and the number of `LLMRunFrame`s that were queued on it.
pub record PipelineTask : Type 0 where
  pub messages : List Message
  pub queued_runs : ℕ

-- the context that `assemble_task` and `assemble_text_task` make
unfoldable pub assemble_task : (system_prompt : String) → PipelineTask
assemble_task system_prompt = record {
  messages = system_message system_prompt ∷ [];
  queued_runs = 0;
}

-- `build_text_injector`
unfoldable pub inject : String → PipelineTask → PipelineTask
inject text t = record t {
  messages = t.messages ++ user_message text ∷ [];
  queued_runs = suc t.queued_runs;
}

-- `build_context_resetter`
unfoldable pub reset_messages : List Message → List Message
reset_messages [] = []
reset_messages (m ∷ ms) = if text_eq m.role "system" then m ∷ [] else []

abbrev pub resets : (downstream : Bool) → Frame → Bool
resets true assistant_timestamp = true
resets _ _ = false

-- SingleTurnContextReset.process_frame: the frame is pushed on whatever it is, and then the context
-- is wiped.
unfoldable pub process_frame : (downstream : Bool) → Frame → PipelineTask → Frame × PipelineTask
unfolding reset_messages
process_frame downstream frame t = (
  frame,
  if resets downstream frame then record t { messages = reset_messages t.messages } else t,
)

-- What happens to a context: a command is typed, an aggregator adds a message, or a frame comes to
-- the end of the pipeline.
pub data ContextStep : Type 0 where
  typed : String → ContextStep
  added : Message → ContextStep
  passed : (downstream : Bool) → Frame → ContextStep

unfoldable pub step : ContextStep → PipelineTask → PipelineTask
unfolding inject process_frame
step (typed text) t = inject text t
step (added m) t = record t { messages = t.messages ++ m ∷ [] }
step (passed downstream frame) t = (process_frame downstream frame t).1

unfoldable pub run : List ContextStep → PipelineTask → PipelineTask
unfolding step
run [] t = t
run (s ∷ ss) t = run ss (step s t)
