-- ===== src/Metrics/Tests.antt =====
-- The theorems on voice_agent/metrics.py at one turn.
use virtual_helmsman.Prelude.{true, some, none, List, [], ◌∷◌, arith}
use virtual_helmsman.Metrics.{
  TurnMetrics, FramePushed, vad_stopped, transcription, llm_text, tts_audio, tts_stopped,
  new_tracker, run_tracker,
}
use virtual_helmsman.Metrics.Turns.{IsTracked, last_time, run_tracker-new_tracker-IsTracked}

abbrev turn : TurnMetrics
turn = record {
  turn_index = 0;
  vad_speech_end_ts = some 100;
  stt_first_partial_ts = none;
  stt_final_ts = some 150;
  llm_first_token_ts = some 220;
  llm_last_token_ts = none;
  tts_first_audio_ts = some 300;
  tts_last_audio_ts = some 900;
}

abbrev heard : FramePushed
heard = record { id = 7; kind = vad_stopped; is_downstream = true; now = 100 }

abbrev frames : List FramePushed
frames =
    heard
    ∷ record { id = 8; kind = transcription; is_downstream = true; now = 150 }
    ∷ record { id = 9; kind = llm_text; is_downstream = true; now = 220 }
    ∷ record { id = 10; kind = tts_audio; is_downstream = true; now = 300 }
    ∷ record { id = 11; kind = tts_stopped; is_downstream = true; now = 900 }
    ∷ []

run_tracker-new_tracker-IsTracked_example :
    IsTracked (last_time 0 frames) (run_tracker frames (new_tracker none))
run_tracker-new_tracker-IsTracked_example =
    run_tracker-new_tracker-IsTracked none 0 frames
      (omega arith, (omega arith, (omega arith, (omega arith, (omega arith, tt)))))
