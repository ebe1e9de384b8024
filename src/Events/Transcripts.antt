-- ===== src/Events/Transcripts.antt =====
-- voice_agent/api/events.py: `UserTranscriptObserver`, which publishes what the user said. A frame
-- crosses many boundaries, and the observer is called at each.
use virtual_helmsman.Prelude.{
  ℕ, suc, ◌+◌, ◌≤◌, ◌<◌, ◌≡◌, refl, ◌∙◌, ap, sym, String, Bool, true, false, not, ◌&&◌, ◌||◌,
  Option, none, some, List, [], ◌∷◌, length, ltb, ◌==◌, ==_iff, strip, truthy, if◌then◌else◌, arith,
  Bool-cases, inl, inr,
}
use virtual_helmsman.Events.{EventBus, transcript, publish}

-- A crossing: whether it is downstream, the frame's id, and the text of a transcription.
pub record Crossing : Type 0 where
  pub downstream : Bool
  pub id : ℕ
  pub transcription : Option String

pub record UserTranscriptObserver : Type 0 where
  pub bus : EventBus
  pub seen : List ℕ

unfoldable pub is_seen : ℕ → List ℕ → Bool
is_seen id [] = false
is_seen id (i ∷ is) = id == i || is_seen id is

-- `self._seen.add`, and the cap: over 4096 ids all but the last are forgotten
abbrev pub remember : ℕ → List ℕ → List ℕ
remember id seen = if ltb 4096 (suc (length seen)) then id ∷ [] else id ∷ seen

abbrev pub publish_text : Option String → EventBus → EventBus
publish_text none bus = bus
publish_text (some text) bus =
    if truthy (strip text) then publish (transcript (strip text)) bus else bus

unfoldable pub on_push_frame : Crossing → UserTranscriptObserver → UserTranscriptObserver
unfolding is_seen
on_push_frame c o =
    if c.downstream && not (is_seen c.id o.seen)
    then record { bus = publish_text c.transcription o.bus; seen = remember c.id o.seen }
    else o

unfoldable pub observe : List Crossing → UserTranscriptObserver → UserTranscriptObserver
unfolding on_push_frame
observe [] o = o
observe (c ∷ cs) o = observe cs (on_push_frame c o)

-- What is said in each frame, the first time that it comes downstream.
abbrev pub publish_new : List ℕ → List Crossing → EventBus → EventBus
publish_new old [] bus = bus
publish_new old (c ∷ cs) bus =
    publish_new (if c.downstream then c.id ∷ old else old) cs
      (if c.downstream && not (is_seen c.id old) then publish_text c.transcription bus else bus)

-- The ids that the observer has and those that it should have are the same.
abbrev Same : List ℕ → List ℕ → Type 0
Same seen old = (id : ℕ) → is_seen id seen ≡ is_seen id old

Same-known :
    (i : ℕ) (seen old : List ℕ) → Same seen old → is_seen i seen ≡ true → Same seen (i ∷ old)
unfolding is_seen
Same-known i seen old same h id = ground (arith, same id, same i, ==_iff id i)

Same-new : (i : ℕ) (seen old : List ℕ) → Same seen old → Same (i ∷ seen) (i ∷ old)
unfolding is_seen
Same-new i seen old same id = ap (λ b. id == i || b) (same id)

remember-below : (id : ℕ) (seen : List ℕ) → length seen < 4096 → remember id seen ≡ id ∷ seen
remember-below id seen h = ground arith

module _ (c : Crossing) (o : UserTranscriptObserver) (down : c.downstream ≡ true) where
  on_push_frame_known : is_seen c.id o.seen ≡ true → on_push_frame c o ≡ o
  unfolding on_push_frame
  on_push_frame_known h = rw (down, h) refl

  on_push_frame_new :
      is_seen c.id o.seen ≡ false
      → length o.seen < 4096
      → on_push_frame c o
        ≡ record { bus = publish_text c.transcription o.bus; seen = c.id ∷ o.seen }
  unfolding on_push_frame
  on_push_frame_new h below = rw (down, h) (rw (remember-below c.id o.seen below) refl)

observe-publish_new :
    (cs : List Crossing) (o : UserTranscriptObserver) (old : List ℕ)
    → Same o.seen old
    → length o.seen + length cs ≤ 4096
    → (observe cs o).bus ≡ publish_new old cs o.bus
unfolding observe
observe-publish_new [] o old same h = refl
observe-publish_new (c ∷ cs) o old same h = elim (Bool-cases c.downstream) [
  | inl down ↦ elim (Bool-cases (is_seen c.id o.seen)) [
    | inl known ↦
        ap (λ x. (observe cs x).bus) (on_push_frame_known c o down known)
        ∙ observe-publish_new cs o (c.id ∷ old) (Same-known c.id o.seen old same known)
            (omega arith)
        ∙ rw (down, sym (same c.id) ∙ known) refl
    | inr new ↦
        ap (λ x. (observe cs x).bus) (on_push_frame_new c o down new (omega arith))
        ∙ observe-publish_new cs
            (record { bus = publish_text c.transcription o.bus; seen = c.id ∷ o.seen }) (c.id ∷ old)
            (Same-new c.id o.seen old same) (omega arith)
        ∙ rw (down, sym (same c.id) ∙ new) refl
  ]
  | inr up ↦
      ap (λ x. (observe cs x).bus) (unfold on_push_frame in rw up refl)
      ∙ observe-publish_new cs o old same (omega arith)
      ∙ rw up refl
]

-- Up to 4096 crossings from its start, the observer publishes what is said in each transcription
-- once: at the first crossing downstream of its frame, and without the white space at its ends.
observe_once :
    (cs : List Crossing) (bus : EventBus)
    → length cs ≤ 4096
    → (observe cs (record { bus = bus; seen = [] })).bus ≡ publish_new [] cs bus
observe_once cs bus h =
    observe-publish_new cs (record { bus = bus; seen = [] }) [] (λ id. refl) (omega arith)

remember-full : (id : ℕ) (seen : List ℕ) → length seen ≡ 4096 → remember id seen ≡ id ∷ []
remember-full id seen h = ground arith

on_push_frame_full :
    (c : Crossing) (o : UserTranscriptObserver)
    → length o.seen ≡ 4096
    → c.downstream ≡ true
    → c.transcription ≡ none
    → is_seen c.id o.seen ≡ false
    → on_push_frame c o ≡ record { bus = o.bus; seen = c.id ∷ [] }
unfolding on_push_frame
on_push_frame_full c o full down silent new =
    rw (down, new) (rw (silent, remember-full c.id o.seen full) refl)

-- Once it has seen 4096 ids, one new frame makes the observer forget them: a transcription that
-- crosses a further boundary is published again.
observe_again :
    (o : UserTranscriptObserver) (said other : Crossing)
    → length o.seen ≡ 4096
    → other.downstream ≡ true
    → other.transcription ≡ none
    → is_seen other.id o.seen ≡ false
    → said.downstream ≡ true
    → (said.id == other.id) ≡ false
    → (observe (other ∷ said ∷ []) o).bus ≡ publish_text said.transcription o.bus
unfolding observe
observe_again o said other full down silent new down' differs =
    ap (λ x. (on_push_frame said x).bus) (on_push_frame_full other o full down silent new)
    ∙ unfold on_push_frame is_seen in rw (down', differs) refl
