-- ===== src/Kb/Engine/Resume.antt =====
-- What one review of a batch does to the store and to the collection.
use virtual_helmsman.Prelude.{
  ℕ, ◌≡◌, ◌≢◌, refl, ◌∙◌, ap, String, Option, none, some, List, [], ◌∷◌, length, inl, inr, map, ◌⊎◌,
}
use virtual_helmsman.Json.{Json}
use virtual_helmsman.Kb.Metadata.{Chunk}
use virtual_helmsman.Kb.Metadata.Review.{DecisionResult, apply_decisions}
use virtual_helmsman.Kb.Metadata.Decisions.{apply_decisions_lem, IsCounted}
use virtual_helmsman.Kb.Store.{
  IngestionStore, get_batch_chunks, delete_batch, order_by_chunk_id, rows_of_batch,
}
use virtual_helmsman.Kb.Store.Pending.{get_batch_chunks-delete_batch}
use virtual_helmsman.Kb.Engine.{
  Services, not_pending, bad_decisions, Result, stopped, finish_decided, resume_chunks, resume,
  collection_of,
}
use virtual_helmsman.Kb.Engine.Settled.{IsSettled, finish_review-IsSettled}

module _ (to_str : Json → String) (default_collection_name : String) (services : Services)
    (now batch_id : String) (decisions : List Json) where
  abbrev pub resumed_with : IngestionStore → Result
  resumed_with s = resume to_str default_collection_name services now batch_id decisions s

  finish_decided-cases :
      (c : Chunk) (n : ℕ) (o : Option DecisionResult) (s : IngestionStore)
      → ((r : DecisionResult) → o ≡ some r → IsCounted n r)
      → (finish_decided to_str default_collection_name services now batch_id decisions c o s
          ≡ stopped bad_decisions s)
        ⊎ IsSettled n
            (delete_batch batch_id s)
            (finish_decided to_str default_collection_name services now batch_id decisions c o s)
  unfolding finish_decided
  finish_decided-cases c n none s h = inl refl
  finish_decided-cases c n (some r) s h = inr (
      finish_review-IsSettled services now batch_id c.filename
        (collection_of default_collection_name c) n r (delete_batch batch_id s) (h r refl))

  resume_chunks-cases :
      (cs : List Chunk) (s : IngestionStore)
      → ((cs ≡ [])
          × (resume_chunks to_str default_collection_name services now batch_id decisions cs s
              ≡ stopped not_pending s))
        ⊎ (resume_chunks to_str default_collection_name services now batch_id decisions cs s
            ≡ stopped bad_decisions s)
        ⊎ IsSettled
            (length cs)
            (delete_batch batch_id s)
            (resume_chunks to_str default_collection_name services now batch_id decisions cs s)
  unfolding resume_chunks
  resume_chunks-cases [] s = inl (refl, refl)
  resume_chunks-cases (c ∷ cs) s = inr (
      finish_decided-cases c (length (c ∷ cs)) (apply_decisions to_str (c ∷ cs) decisions) s
        (λ r e. (apply_decisions_lem to_str (c ∷ cs) decisions r e).1))

  pub resume-cases :
      (s : IngestionStore)
      → ((get_batch_chunks batch_id s ≡ []) × (resumed_with s ≡ stopped not_pending s))
        ⊎ (resumed_with s ≡ stopped bad_decisions s)
        ⊎ IsSettled
            (length (get_batch_chunks batch_id s))
            (delete_batch batch_id s)
            (resumed_with s)
  unfolding resume
  resume-cases s = resume_chunks-cases (get_batch_chunks batch_id s) s

get_batch_chunks-pending :
    (b : String) (s t : IngestionStore)
    → s.pending ≡ t.pending
    → get_batch_chunks b s ≡ get_batch_chunks b t
unfolding get_batch_chunks
get_batch_chunks-pending b s t e =
    ap (λ rows. map (λ row. row.metadata) (order_by_chunk_id (rows_of_batch b rows))) e

module _ (to_str : Json → String) (default_collection_name : String) (now batch_id : String) where
  no_chunks_left :
      (services : Services) (decisions : List Json) (s : IngestionStore)
      → (resume to_str default_collection_name services now batch_id decisions s).resumed
        ≢ bad_decisions
      → get_batch_chunks batch_id
          (resume to_str default_collection_name services now batch_id decisions s).store
        ≡ []
  no_chunks_left services decisions s h =
      elim (resume-cases to_str default_collection_name services now batch_id decisions s) [
        | inl (e, u) ↦ ap (λ q. get_batch_chunks batch_id q.store) u ∙ e
        | inr (inl u) ↦ absurd (h (ap (λ q. q.resumed) u))
        | inr (inr d) ↦
            get_batch_chunks-pending batch_id
              (resume to_str default_collection_name services now batch_id decisions s).store
              (delete_batch batch_id s) d.pending_kept
            ∙ get_batch_chunks-delete_batch batch_id s
      ]

  resume-nothing :
      (services : Services) (decisions : List Json) (s : IngestionStore)
      → get_batch_chunks batch_id s ≡ []
      → resume to_str default_collection_name services now batch_id decisions s
        ≡ stopped not_pending s
  unfolding resume resume_chunks
  resume-nothing services decisions s e =
      ap (λ cs. resume_chunks to_str default_collection_name services now batch_id decisions cs s) e

  -- A batch is resumed at most once: after a review that was not refused for its decisions, whether
  -- it came to an end or a service failed, every further one finds nothing and changes nothing.
  pub resume-resume :
      (services again : Services) (decisions more : List Json) (s : IngestionStore)
      → (resume to_str default_collection_name services now batch_id decisions s).resumed
        ≢ bad_decisions
      → resume to_str default_collection_name again now batch_id more
          (resume to_str default_collection_name services now batch_id decisions s).store
        ≡ stopped not_pending
            (resume to_str default_collection_name services now batch_id decisions s).store
  resume-resume services again decisions more s h =
      resume-nothing again more
        (resume to_str default_collection_name services now batch_id decisions s).store
        (no_chunks_left services decisions s h)
