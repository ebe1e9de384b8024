-- ===== src/Kb/Review/Listing.antt =====
-- The review page and the resume route agree on which batches are pending.
use virtual_helmsman.Prelude.{
  ◌≡◌, refl, ◌∙◌, ap, sym, String, Bool, true, false, not, ◌||◌, ◌&&◌, Option, some, none, List, [],
  ◌∷◌, map, text_eq, eq_iff, arith, ◌==◌,
}
use virtual_helmsman.Json.{Json, Fields, get}
use virtual_helmsman.Kb.Store.{
  PendingRow, IngestionStore, rows_of_batch, insert_by_chunk_id, order_by_chunk_id,
  get_batch_chunks,
}
use virtual_helmsman.Kb.Metadata.{Chunk}
use virtual_helmsman.Kb.Metadata.Review.{DecisionResult, apply_decisions}
use virtual_helmsman.Kb.Engine.{Services, finish_decided, resume_chunks, resume}
use virtual_helmsman.Kb.Review.{Response, refused, response_to, decisions_of, resume_route}
use virtual_helmsman.Kb.Store.Batches.{
  PendingBatch, pending_rows, add_row, by_batch, insert_newest_batch, newest_batches,
  list_pending_batches, sort_chunks,
}

abbrev pub is_listed : String → List PendingBatch → Bool
is_listed b [] = false
is_listed b (q ∷ qs) = text_eq q.batch_id b || is_listed b qs

abbrev pub has_row : String → List PendingRow → Bool
has_row b [] = false
has_row b (r ∷ rs) = text_eq r.batch_id b || has_row b rs

abbrev pub is_empty {ℓ} : {A : Type ℓ} → List A → Bool
is_empty [] = true
is_empty (x ∷ xs) = false

is_listed-add_row :
    (b : String) (r : PendingRow) (bs : List PendingBatch)
    → is_listed b (add_row r bs) ≡ (text_eq r.batch_id b || is_listed b bs)
unfolding add_row
is_listed-add_row b r [] = refl
is_listed-add_row b r (q ∷ qs) =
    ground (arith, eq_iff q.batch_id r.batch_id, is_listed-add_row b r qs)

pub is_listed-by_batch :
    (b : String) (bs : List PendingBatch) (rs : List PendingRow)
    → is_listed b (by_batch bs rs) ≡ (is_listed b bs || has_row b rs)
unfolding by_batch
is_listed-by_batch b bs [] = ground arith
is_listed-by_batch b bs (r ∷ rs) =
    ground (arith, is_listed-by_batch b (add_row r bs) rs, is_listed-add_row b r bs)

is_listed-insert_newest_batch :
    (b : String) (q : PendingBatch) (bs : List PendingBatch)
    → is_listed b (insert_newest_batch q bs) ≡ (text_eq q.batch_id b || is_listed b bs)
unfolding insert_newest_batch
is_listed-insert_newest_batch b q [] = refl
is_listed-insert_newest_batch b q (p ∷ ps) = ground (arith, is_listed-insert_newest_batch b q ps)

pub is_listed-newest_batches :
    (b : String) (bs : List PendingBatch) → is_listed b (newest_batches bs) ≡ is_listed b bs
unfolding newest_batches
is_listed-newest_batches b [] = refl
is_listed-newest_batches b (q ∷ qs) =
    is_listed-insert_newest_batch b (record q { chunks = sort_chunks q.chunks }) (newest_batches qs)
    ∙ ap (λ rest. text_eq q.batch_id b || rest) (is_listed-newest_batches b qs)

pub has_row-pending_rows :
    (b : String) (rows : List PendingRow)
    → has_row b (pending_rows rows) ≡ not (is_empty (rows_of_batch b rows))
unfolding pending_rows rows_of_batch
has_row-pending_rows b [] = refl
has_row-pending_rows b (r ∷ rs) = ground (arith, has_row-pending_rows b rs)

is_empty-order_by_chunk_id :
    (rows : List PendingRow) → is_empty (order_by_chunk_id rows) ≡ is_empty rows
unfolding order_by_chunk_id
is_empty-order_by_chunk_id [] = refl
is_empty-order_by_chunk_id (r ∷ rs) = inserted (order_by_chunk_id rs)
  where
    inserted : (sorted : List PendingRow) → is_empty (insert_by_chunk_id r sorted) ≡ false
    inserted [] = refl
    inserted (q ∷ qs) = ground arith

is_empty-map {ℓ κ} :
    {A : Type ℓ} {B : Type κ} (f : A → B) (xs : List A) → is_empty (map f xs) ≡ is_empty xs
is_empty-map f [] = refl
is_empty-map f (x ∷ xs) = refl

-- The review page lists a batch exactly when it has chunks to review.
pub is_listed-list_pending_batches :
    (b : String) (s : IngestionStore)
    → is_listed b (list_pending_batches s) ≡ not (is_empty (get_batch_chunks b s))
unfolding list_pending_batches get_batch_chunks
is_listed-list_pending_batches b s =
    is_listed-newest_batches b (by_batch [] (pending_rows s.pending))
    ∙ is_listed-by_batch b [] (pending_rows s.pending)
    ∙ has_row-pending_rows b s.pending
    ∙ ap not (
        sym (
          is_empty-map (λ row. row.metadata) (order_by_chunk_id (rows_of_batch b s.pending))
          ∙ is_empty-order_by_chunk_id (rows_of_batch b s.pending)))

not-not : (b : Bool) → not (not b) ≡ b
not-not true = refl
not-not false = refl

abbrev pub is_404 : Response → Bool
is_404 (refused status_code) = status_code == 404
is_404 _ = false

module _ (to_str : Json → String) (default_collection_name now batch_id : String)
    (services : Services) where
  is_404-finish_decided :
      (decisions : List Json) (first : Chunk) (r : Option DecisionResult) (s : IngestionStore)
      → is_404 (
          response_to
            (finish_decided to_str default_collection_name services now batch_id decisions first r
              s).resumed)
        ≡ false
  unfolding finish_decided
  is_404-finish_decided decisions first none s = refl
  is_404-finish_decided decisions first (some r) s = ground arith

  is_404-resume_chunks :
      (decisions : List Json) (cs : List Chunk) (s : IngestionStore)
      → is_404 (
          response_to
            (resume_chunks to_str default_collection_name services now batch_id decisions cs
              s).resumed)
        ≡ is_empty cs
  unfolding resume_chunks
  is_404-resume_chunks decisions [] s = refl
  is_404-resume_chunks decisions (c ∷ cs) s =
      is_404-finish_decided decisions c (apply_decisions to_str (c ∷ cs) decisions) s

  -- A request with an array of decisions is answered with 404 exactly when the vector service is
  -- configured and the review page does not list the batch.
  pub resume_route-is_listed :
      (configured : Bool) (body : Fields) (decisions : List Json) (s : IngestionStore)
      → decisions_of (get "decisions" body) ≡ some decisions
      → is_404
          (resume_route to_str default_collection_name configured services now batch_id body s).0
        ≡ configured && not (is_listed batch_id (list_pending_batches s))
  unfolding resume_route resume
  resume_route-is_listed true body decisions s given = rw given (
      is_404-resume_chunks decisions (get_batch_chunks batch_id s) s
      ∙ sym (ap not (is_listed-list_pending_batches batch_id s) ∙ not-not _))
  resume_route-is_listed false body decisions s given = refl
