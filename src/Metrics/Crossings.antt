-- ===== src/Metrics/Crossings.antt =====
-- A frame that is pushed more than once.
use virtual_helmsman.Prelude.{
  ℕ, ◌≡◌, refl, ◌∙◌, ap, Bool, true, false, List, ◌∷◌, arith, if◌then◌else◌,
}
use virtual_helmsman.Metrics.{
  FrameKind, FramePushed, LatencyTracker, has_id, remember, on_new_frame, on_push_frame,
}

has_id-head : (i : ℕ) (js : List ℕ) → has_id i (i ∷ js) ≡ true
unfolding has_id
has_id-head i js = ground arith

on_new_frame-seen :
    (k : FrameKind) (now : ℕ) (l : LatencyTracker) → (on_new_frame k now l).seen ≡ l.seen
unfolding on_new_frame
on_new_frame-seen k now l = ground arith

new_frame_seen :
    (i : ℕ) (k : FrameKind) (now : ℕ) (l : LatencyTracker)
    → has_id i (on_new_frame k now (remember i l)).seen ≡ true
unfolding remember
new_frame_seen i k now l = ap (has_id i) (on_new_frame-seen k now (remember i l)) ∙ has_id-head i _

-- What `on_push_frame` does, by its two tests.
push_by : Bool → Bool → LatencyTracker → LatencyTracker → LatencyTracker
push_by down old l l' = if down then (if old then l else l') else l

push_by_again :
    (down old : Bool) (l l' m : LatencyTracker) (i : ℕ)
    → has_id i l'.seen ≡ true
    → old ≡ has_id i l.seen
    → push_by down (has_id i (push_by down old l l').seen) (push_by down old l l') m
      ≡ push_by down old l l'
unfolding push_by
push_by_again false old l l' m i h e = refl
push_by_again true true l l' m i h e = rw⁻¹ e refl
push_by_again true false l l' m i h e = rw h refl

-- A frame that crosses several processors counts once: pushed a second time at once, at whatever
-- time, it changes nothing.
on_push_frame-on_push_frame :
    (f : FramePushed) (later : ℕ) (l : LatencyTracker)
    → on_push_frame (record f { now = later }) (on_push_frame f l) ≡ on_push_frame f l
unfolding on_push_frame push_by
on_push_frame-on_push_frame f later l =
    push_by_again f.is_downstream (has_id f.id l.seen) l
      (on_new_frame f.kind f.now (remember f.id l))
      (on_new_frame f.kind later (remember f.id (on_push_frame f l))) f.id
      (new_frame_seen f.id f.kind f.now l) refl
