-- ===== src/Metrics.antt =====
-- voice_agent/metrics.py: the observer that stamps the latency of each turn. The clock counts
-- tenths of a millisecond, in which no metric is rounded. The log lines are left out, and so are the
-- percentiles of the session summary.
pub mod Turns
pub mod Latency
pub mod Crossings
pub mod Conversation
mod Tests
use virtual_helmsman.Prelude.{
  ℕ, suc, String, Bool, true, false, Option, none, some, List, [], ◌∷◌, ◌++◌, length, ◌==◌,
  if◌then◌else◌,
}
use virtual_helmsman.Prelude.Int.{ℤ, sub_ℕ}
use virtual_helmsman.Events.{turn_metrics, EventBus, publish}

pub record TurnMetrics : Type 0 where
  pub turn_index : ℕ
  pub vad_speech_end_ts : Option ℕ
  pub stt_first_partial_ts : Option ℕ
  pub stt_final_ts : Option ℕ
  pub llm_first_token_ts : Option ℕ
  pub llm_last_token_ts : Option ℕ
  pub tts_first_audio_ts : Option ℕ
  pub tts_last_audio_ts : Option ℕ

-- end - start, where both are stamped
abbrev pub elapsed : Option ℕ → Option ℕ → Option ℤ
elapsed (some end) (some start) = some (sub_ℕ end start)
elapsed _ _ = none

-- The metrics of `_DERIVED`.
unfoldable pub stt_latency_ms : TurnMetrics → Option ℤ
stt_latency_ms t = elapsed t.stt_final_ts t.vad_speech_end_ts

unfoldable pub llm_ttft_ms : TurnMetrics → Option ℤ
llm_ttft_ms t = elapsed t.llm_first_token_ts t.stt_final_ts

unfoldable pub llm_total_ms : TurnMetrics → Option ℤ
llm_total_ms t = elapsed t.llm_last_token_ts t.llm_first_token_ts

unfoldable pub tts_ttfa_ms : TurnMetrics → Option ℤ
tts_ttfa_ms t = elapsed t.tts_first_audio_ts t.llm_first_token_ts

unfoldable pub voice_to_voice_ms : TurnMetrics → Option ℤ
voice_to_voice_ms t = elapsed t.tts_first_audio_ts t.vad_speech_end_ts

abbrev pub named : String → Option ℤ → List (String × ℤ)
named name none = []
named name (some v) = (name, v) ∷ []

unfoldable pub derived_ms : TurnMetrics → List (String × ℤ)
unfolding stt_latency_ms llm_ttft_ms llm_total_ms tts_ttfa_ms voice_to_voice_ms
derived_ms t =
    named "stt_latency_ms" (stt_latency_ms t)
    ++ named "llm_ttft_ms" (llm_ttft_ms t)
    ++ named "llm_total_ms" (llm_total_ms t)
    ++ named "tts_ttfa_ms" (tts_ttfa_ms t)
    ++ named "voice_to_voice_ms" (voice_to_voice_ms t)

-- The classes of frames that the observer tells apart.
pub data FrameKind : Type 0 where
  vad_stopped session_end interim_transcription transcription llm_text llm_end : FrameKind
  tts_audio tts_stopped other_kind : FrameKind

-- A frame pushed from one processor to the next, with the clock at that time.
pub record FramePushed : Type 0 where
  pub id : ℕ
  pub kind : FrameKind
  pub is_downstream : Bool
  pub now : ℕ

-- A line of the session's file.
pub data Line : Type 0 where
  turn_line : ℕ → List (String × ℤ) → Line
  summary_line : (turns : ℕ) → Line

pub record LatencyTracker : Type 0 where
  pub turn_index : ℕ
  pub turn : Option TurnMetrics
  pub completed : List TurnMetrics
  pub summary_written : Bool
  pub lines : List Line
  pub bus : Option EventBus
  pub seen_order : List ℕ
  pub seen : List ℕ

-- the length of the history of frame ids
abbrev pub history : ℕ
history = 512

unfoldable pub new_tracker : Option EventBus → LatencyTracker
new_tracker bus = record {
  turn_index = 0;
  turn = none;
  completed = [];
  summary_written = false;
  lines = [];
  bus = bus;
  seen_order = [];
  seen = [];
}

unfoldable pub has_id : ℕ → List ℕ → Bool
has_id i [] = false
has_id i (j ∷ js) = let rest = has_id i js in if i == j then true else rest

-- set.discard
unfoldable pub discard_id : ℕ → List ℕ → List ℕ
discard_id i [] = []
discard_id i (j ∷ js) = let rest = discard_id i js in if i == j then rest else j ∷ rest

-- the oldest id leaves the set when the history is full
abbrev pub forget_oldest : List ℕ → List ℕ → List ℕ
forget_oldest [] seen = seen
forget_oldest (oldest ∷ order) seen = discard_id oldest seen

-- deque.append on a full deque drops its first element
abbrev pub append_bounded : ℕ → List ℕ → List ℕ
append_bounded i [] = i ∷ []
append_bounded i (j ∷ js) = if length (j ∷ js) == history then js ++ i ∷ [] else (j ∷ js) ++ i ∷ []

-- `_is_new` for a frame that is new
unfoldable pub remember : ℕ → LatencyTracker → LatencyTracker
unfolding discard_id
remember i l = record l {
  seen_order = append_bounded i l.seen_order;
  seen = i ∷ (if length l.seen_order == history then forget_oldest l.seen_order l.seen else l.seen);
}

-- the stamp of the first occurrence stays
abbrev pub stamp : ℕ → Option ℕ → Option ℕ
stamp now none = some now
stamp now (some t) = some t

abbrev pub publish_metrics : ℕ → List (String × ℤ) → Option EventBus → Option EventBus
publish_metrics i metrics none = none
publish_metrics i metrics (some bus) = some (publish (turn_metrics i metrics) bus)

-- `_finalize_turn` of the turn
unfoldable pub finalize_turn : TurnMetrics → LatencyTracker → LatencyTracker
unfolding derived_ms
finalize_turn t l = record l {
  completed = l.completed ++ t ∷ [];
  turn = none;
  turn_index = suc l.turn_index;
  lines = l.lines ++ turn_line t.turn_index (derived_ms t) ∷ [];
  bus = publish_metrics t.turn_index (derived_ms t) l.bus;
}

unfoldable pub finalize_session : LatencyTracker → LatencyTracker
finalize_session l = if l.summary_written then l else record l {
  summary_written = true;
  lines = l.lines ++ summary_line (length l.completed) ∷ [];
}

abbrev pub with_turn : TurnMetrics → LatencyTracker → LatencyTracker
with_turn t l = record l { turn = some t }

abbrev pub fresh_turn : ℕ → ℕ → TurnMetrics
fresh_turn i now = record {
  turn_index = i;
  vad_speech_end_ts = some now;
  stt_first_partial_ts = none;
  stt_final_ts = none;
  llm_first_token_ts = none;
  llm_last_token_ts = none;
  tts_first_audio_ts = none;
  tts_last_audio_ts = none;
}

-- a frame within a turn
unfoldable pub stamp_turn : FrameKind → ℕ → TurnMetrics → LatencyTracker → LatencyTracker
unfolding finalize_turn
stamp_turn interim_transcription now t l =
    with_turn (record t { stt_first_partial_ts = stamp now t.stt_first_partial_ts }) l
stamp_turn transcription now t l =
    with_turn (record t { stt_final_ts = stamp now t.stt_final_ts }) l
stamp_turn llm_text now t l =
    with_turn (record t { llm_first_token_ts = stamp now t.llm_first_token_ts }) l
stamp_turn llm_end now t l =
    with_turn (record t { llm_last_token_ts = stamp now t.llm_last_token_ts }) l
stamp_turn tts_audio now t l =
    with_turn (record t { tts_first_audio_ts = stamp now t.tts_first_audio_ts }) l
stamp_turn tts_stopped now t l = finalize_turn (record t { tts_last_audio_ts = some now }) l
stamp_turn _ now t l = l

abbrev pub stamp_open : FrameKind → ℕ → Option TurnMetrics → LatencyTracker → LatencyTracker
stamp_open k now none l = l
stamp_open k now (some t) l = stamp_turn k now t l

unfoldable pub on_new_frame : FrameKind → ℕ → LatencyTracker → LatencyTracker
unfolding stamp_turn finalize_session
on_new_frame vad_stopped now l = record l { turn = some (fresh_turn l.turn_index now) }
on_new_frame session_end now l = finalize_session l
on_new_frame k now l = stamp_open k now l.turn l

unfoldable pub on_push_frame : FramePushed → LatencyTracker → LatencyTracker
unfolding on_new_frame remember has_id
on_push_frame f l =
    if f.is_downstream
    then (if has_id f.id l.seen then l else on_new_frame f.kind f.now (remember f.id l))
    else l

unfoldable pub run_tracker : List FramePushed → LatencyTracker → LatencyTracker
unfolding on_push_frame
run_tracker [] l = l
run_tracker (f ∷ fs) l = run_tracker fs (on_push_frame f l)
