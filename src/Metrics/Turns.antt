-- ===== src/Metrics/Turns.antt =====
-- The turns that the latency tracker completes, over any sequence of frames.
use virtual_helmsman.Prelude.{
  ℕ, suc, ◌+◌, ◌≤◌, ◌≡◌, refl, Option, none, some, List, [], ◌∷◌, ◌++◌, arith, length,
  length-append,
}
use virtual_helmsman.Events.{EventBus}
use virtual_helmsman.Metrics.{
  TurnMetrics, FrameKind, vad_stopped, session_end, interim_transcription, transcription, llm_text,
  llm_end, tts_audio, tts_stopped, with_turn, FramePushed, LatencyTracker, history, new_tracker,
  remember, stamp, finalize_turn, stamp_turn, stamp_open, on_new_frame, on_push_frame, run_tracker,
  fresh_turn, append_bounded,
}

-- The turns are numbered from `i`.
abbrev pub Numbered : ℕ → List TurnMetrics → Type 0
Numbered i [] = Unit
Numbered i (t ∷ ts) = (t.turn_index ≡ i) × Numbered (suc i) ts

abbrev pub OpenNumbered : ℕ → Option TurnMetrics → Type 0
OpenNumbered i none = Unit
OpenNumbered i (some t) = t.turn_index ≡ i

-- The end of the utterance is stamped, and no stamp is before it.
abbrev pub NotBefore : ℕ → Option ℕ → Type 0
NotBefore lo none = Unit
NotBefore lo (some t) = lo ≤ t

pub record IsTimed (opened : ℕ) (t : TurnMetrics) : Type 0 where
  pub began : t.vad_speech_end_ts ≡ some opened
  pub partial : NotBefore opened t.stt_first_partial_ts
  pub final : NotBefore opened t.stt_final_ts
  pub first_token : NotBefore opened t.llm_first_token_ts
  pub last_token : NotBefore opened t.llm_last_token_ts
  pub first_audio : NotBefore opened t.tts_first_audio_ts
  pub last_audio : NotBefore opened t.tts_last_audio_ts

abbrev pub OpenTimed : ℕ → Option TurnMetrics → Type 0
OpenTimed now none = Unit
OpenTimed now (some t) = (opened : ℕ) × IsTimed opened t × (opened ≤ now)

abbrev pub AllTimed : List TurnMetrics → Type 0
AllTimed [] = Unit
AllTimed (t ∷ ts) = ((opened : ℕ) × IsTimed opened t) × AllTimed ts

pub record IsTracked (now : ℕ) (l : LatencyTracker) : Type 0 where
  pub numbered : Numbered 0 l.completed
  pub counted : length l.completed ≡ l.turn_index
  pub open_numbered : OpenNumbered l.turn_index l.turn
  pub timed : AllTimed l.completed
  pub open_timed : OpenTimed now l.turn
  pub remembered : length l.seen_order ≤ history

Numbered-append :
    (i : ℕ) (ts : List TurnMetrics) (t : TurnMetrics)
    → Numbered i ts
    → t.turn_index ≡ i + length ts
    → Numbered i (ts ++ t ∷ [])
Numbered-append i [] t h e = (omega (arith, e), tt)
Numbered-append i (u ∷ us) t (h, hs) e = (h, Numbered-append (suc i) us t hs (omega (arith, e)))

AllTimed-append :
    (ts : List TurnMetrics) (t : TurnMetrics) (opened : ℕ)
    → AllTimed ts
    → IsTimed opened t
    → AllTimed (ts ++ t ∷ [])
AllTimed-append [] t opened h v = ((opened, v), tt)
AllTimed-append (u ∷ us) t opened (h, hs) v = (h, AllTimed-append us t opened hs v)

finalize_turn-IsTracked :
    (now opened : ℕ) (t : TurnMetrics) (l : LatencyTracker)
    → IsTracked now l
    → t.turn_index ≡ l.turn_index
    → IsTimed opened t
    → IsTracked now (finalize_turn t l)
unfolding finalize_turn
finalize_turn-IsTracked now opened t l v e w = record {
  numbered = Numbered-append 0 l.completed t v.numbered (omega (arith, e, v.counted));
  counted = omega (arith, v.counted, length-append l.completed (t ∷ []));
  open_numbered = tt;
  timed = AllTimed-append l.completed t opened v.timed w;
  open_timed = tt;
  remembered = v.remembered;
}

reopen :
    (now opened : ℕ) (t : TurnMetrics) (l : LatencyTracker)
    → IsTracked now l
    → t.turn_index ≡ l.turn_index
    → IsTimed opened t
    → opened ≤ now
    → IsTracked now (with_turn t l)
reopen now opened t l v e w le = record {
  numbered = v.numbered;
  counted = v.counted;
  open_numbered = e;
  timed = v.timed;
  open_timed = (opened, w, le);
  remembered = v.remembered;
}

stamp_turn-IsTracked :
    (k : FrameKind) (now opened : ℕ) (t : TurnMetrics) (l : LatencyTracker)
    → IsTracked now l
    → t.turn_index ≡ l.turn_index
    → IsTimed opened t
    → opened ≤ now
    → IsTracked now (stamp_turn k now t l)
unfolding stamp_turn
stamp_turn-IsTracked interim_transcription now opened t l v e w le =
    reopen now opened (record t { stt_first_partial_ts = stamp now t.stt_first_partial_ts }) l v e
      (ground arith) le
stamp_turn-IsTracked transcription now opened t l v e w le =
    reopen now opened (record t { stt_final_ts = stamp now t.stt_final_ts }) l v e (ground arith) le
stamp_turn-IsTracked llm_text now opened t l v e w le =
    reopen now opened (record t { llm_first_token_ts = stamp now t.llm_first_token_ts }) l v e
      (ground arith) le
stamp_turn-IsTracked llm_end now opened t l v e w le =
    reopen now opened (record t { llm_last_token_ts = stamp now t.llm_last_token_ts }) l v e
      (ground arith) le
stamp_turn-IsTracked tts_audio now opened t l v e w le =
    reopen now opened (record t { tts_first_audio_ts = stamp now t.tts_first_audio_ts }) l v e
      (ground arith) le
stamp_turn-IsTracked tts_stopped now opened t l v e w le =
    finalize_turn-IsTracked now opened (record t { tts_last_audio_ts = some now }) l v e
      (ground arith)
stamp_turn-IsTracked _ now opened t l v e w le = v

stamp_open-IsTracked :
    (k : FrameKind) (now : ℕ) (o : Option TurnMetrics) (l : LatencyTracker)
    → IsTracked now l
    → OpenNumbered l.turn_index o
    → OpenTimed now o
    → IsTracked now (stamp_open k now o l)
stamp_open-IsTracked k now none l v e w = v
stamp_open-IsTracked k now (some t) l v e (opened, w, le) =
    stamp_turn-IsTracked k now opened t l v e w le

on_new_frame-IsTracked :
    (k : FrameKind) (now : ℕ) (l : LatencyTracker)
    → IsTracked now l
    → IsTracked now (on_new_frame k now l)
unfolding on_new_frame
on_new_frame-IsTracked vad_stopped now l v =
    reopen now now (fresh_turn l.turn_index now) l v refl
      (record {
        began = refl;
        partial = tt;
        final = tt;
        first_token = tt;
        last_token = tt;
        first_audio = tt;
        last_audio = tt;
      })
      (omega arith)
on_new_frame-IsTracked session_end now l v = ground arith
on_new_frame-IsTracked k now l v =
    stamp_open-IsTracked k now l.turn l v v.open_numbered v.open_timed

append_bounded-length :
    (i : ℕ) (js : List ℕ) → length js ≤ history → length (append_bounded i js) ≤ history
append_bounded-length i [] h = omega arith
append_bounded-length i (j ∷ js) h = ground (arith, length-append js (i ∷ []))

remember-IsTracked :
    (i now : ℕ) (l : LatencyTracker) → IsTracked now l → IsTracked now (remember i l)
unfolding remember
remember-IsTracked i now l v = record {
  numbered = v.numbered;
  counted = v.counted;
  open_numbered = v.open_numbered;
  timed = v.timed;
  open_timed = v.open_timed;
  remembered = append_bounded-length i l.seen_order v.remembered;
}

OpenTimed-later :
    (now later : ℕ) (o : Option TurnMetrics) → now ≤ later → OpenTimed now o → OpenTimed later o
OpenTimed-later now later none h v = tt
OpenTimed-later now later (some t) h (opened, v, le) = (opened, v, omega arith)

later-IsTracked :
    (now later : ℕ) (l : LatencyTracker) → now ≤ later → IsTracked now l → IsTracked later l
later-IsTracked now later l h v = record {
  numbered = v.numbered;
  counted = v.counted;
  open_numbered = v.open_numbered;
  timed = v.timed;
  open_timed = OpenTimed-later now later l.turn h v.open_timed;
  remembered = v.remembered;
}

on_push_frame-IsTracked :
    (f : FramePushed) (l : LatencyTracker) → IsTracked f.now l → IsTracked f.now (on_push_frame f l)
unfolding on_push_frame
on_push_frame-IsTracked f l v = ground (
  arith,
  on_new_frame-IsTracked f.kind f.now (remember f.id l) (remember-IsTracked f.id f.now l v),
)

-- The clock of the frames does not go back.
abbrev pub Ordered : ℕ → List FramePushed → Type 0
Ordered now [] = Unit
Ordered now (f ∷ fs) = (now ≤ f.now) × Ordered f.now fs

abbrev pub last_time : ℕ → List FramePushed → ℕ
last_time now [] = now
last_time now (f ∷ fs) = last_time f.now fs

run_tracker-IsTracked :
    (fs : List FramePushed) (now : ℕ) (l : LatencyTracker)
    → Ordered now fs
    → IsTracked now l
    → IsTracked (last_time now fs) (run_tracker fs l)
unfolding run_tracker
run_tracker-IsTracked [] now l h v = v
run_tracker-IsTracked (f ∷ fs) now l (h, hs) v =
    run_tracker-IsTracked fs f.now (on_push_frame f l) hs
      (on_push_frame-IsTracked f l (later-IsTracked now f.now l h v))

-- After any frames in the order of the clock, the completed turns are numbered from 0 without a
-- gap, each has the end of its utterance and no stamp before it, and the history of frame ids
-- holds at most 512.
pub run_tracker-new_tracker-IsTracked :
    (bus : Option EventBus) (now : ℕ) (fs : List FramePushed)
    → Ordered now fs
    → IsTracked (last_time now fs) (run_tracker fs (new_tracker bus))
unfolding new_tracker
run_tracker-new_tracker-IsTracked bus now fs h =
    run_tracker-IsTracked fs now (new_tracker bus) h (record {
      numbered = tt;
      counted = refl;
      open_numbered = tt;
      timed = tt;
      open_timed = tt;
      remembered = omega arith;
    })
