-- ===== src/Metrics/Conversation.antt =====
-- voice_agent/metrics.py: `ConversationLogger`, which writes the conversation of a session line by
-- line, at the end of the pipeline. The time stamp and the session id of a line are left out.
use virtual_helmsman.Prelude.{
  ℕ, ◌≡◌, refl, String, some, List, [], ◌∷◌, ◌++◌, map, strip, truthy, if◌then◌else◌, false,
}
use virtual_helmsman.Actions.Schema.{Decoder}
use virtual_helmsman.Actions.Dispatch.{Printer}
use virtual_helmsman.Simulator.{SimulatorClient}
use virtual_helmsman.Actions.Processor.{
  Frame, response_start, response_end, llm_text, other_frame, Processor, joined, process_frames,
  resolve,
}
use virtual_helmsman.Actions.Processor.Turns.{process_frames-resolved}

-- A line of the conversation file.
pub data Line : Type 0 where
  user_line : (transcript : String) → Line
  assistant_line : (text : String) → Line

pub record ConversationLogger : Type 0 where
  pub assistant_parts : List String
  pub lines : List Line

-- What comes by: a transcription, or a frame of the other kinds.
pub data LoggedFrame : Type 0 where
  transcription : String → LoggedFrame
  frame : Frame → LoggedFrame

abbrev pub emit_reply : String → ConversationLogger → ConversationLogger
emit_reply text l = record {
  assistant_parts = [];
  lines = if truthy text then l.lines ++ assistant_line text ∷ [] else l.lines;
}

-- ConversationLogger.process_frame; every frame is pushed on
unfoldable pub process_frame : LoggedFrame → ConversationLogger → ConversationLogger
process_frame (transcription text) l = record l { lines = l.lines ++ user_line text ∷ [] }
process_frame (frame response_start) l = record l { assistant_parts = [] }
process_frame (frame (llm_text text)) l = record l {
  assistant_parts = l.assistant_parts ++ text ∷ [];
}
process_frame (frame response_end) l = emit_reply (strip (joined l.assistant_parts)) l
process_frame (frame (other_frame n)) l = l

unfoldable pub log_frames : List LoggedFrame → ConversationLogger → ConversationLogger
unfolding process_frame
log_frames [] l = l
log_frames (f ∷ fs) l = log_frames fs (process_frame f l)

-- A response of one piece is logged as that piece.
log_frames-response :
    (spoken : String) (l : ConversationLogger)
    → log_frames (map frame (response_start ∷ llm_text spoken ∷ response_end ∷ [])) l
      ≡ emit_reply (strip (joined (spoken ∷ []))) l
unfolding log_frames
log_frames-response spoken l = refl

module _ (unit : ℕ) (d : Decoder) (p : Printer) (c : SimulatorClient) where
  -- What is spoken is what is logged: of a whole response of the language model that is resolved,
  -- in any number of pieces, the frames that the action processor sends on to the voice bring one
  -- line of the conversation, with the spoken line, or none if that line is blank.
  log_frames-process_frames :
      (texts : List String) (s s' : Processor c) (spoken : String) (l : ConversationLogger)
      → resolve unit d p c (strip (joined texts)) (record s { parts = []; capturing = false })
        ≡ some (spoken, s')
      → (out : List Frame) × (process_frames unit d p c
            (response_start ∷ map llm_text texts ++ response_end ∷ [])
            s
          ≡ some (out, s'))
        × (log_frames (map frame out) l ≡ emit_reply (strip (joined (spoken ∷ []))) l)
  log_frames-process_frames texts s s' spoken l resolved = (
    response_start ∷ llm_text spoken ∷ response_end ∷ [],
    process_frames-resolved unit d p c texts s s' spoken resolved,
    log_frames-response spoken l,
  )
