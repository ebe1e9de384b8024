-- ===== src/Kb/Review/Uploads.antt =====
-- From an upload to the review page.
use virtual_helmsman.Prelude.{
  ℕ, ◌<◌, ◌≡◌, ◌≢◌, ◌∙◌, String, true, some, List, [], ◌∷◌, ◌++◌, map, length, arith, eq_refl,
}
use virtual_helmsman.Kb.Metadata.{Text, Chunk}
use virtual_helmsman.Kb.Store.{
  PendingRow, IngestionStore, row_of, remove_key, replace_row, replace_rows, write_pending_batch,
}
use virtual_helmsman.Kb.Store.Batches.{pending_rows, by_batch, list_pending_batches}
use virtual_helmsman.Kb.Chunking.Cleaning.{clean_pdf_text}
use virtual_helmsman.Kb.Ingest.{IngestServices, Moment, summarised, run_ingest}
use virtual_helmsman.Kb.Ingest.Outcomes.{run_ingest_pending}
use virtual_helmsman.Config.Runtimes.{IngestionRuntime}
use virtual_helmsman.Kb.Review.{UploadForm, upload, queued, request_of, is_configured}
use virtual_helmsman.Kb.Review.Listing.{
  is_listed, has_row, is_listed-by_batch, is_listed-newest_batches,
}

module _ (b now : String) where
  has_row-append :
      (rows : List PendingRow) (c : Chunk)
      → has_row b (pending_rows (rows ++ row_of b now c ∷ [])) ≡ true
  unfolding pending_rows row_of
  has_row-append [] c = ground (arith, eq_refl b)
  has_row-append (r ∷ rs) c = ground (arith, has_row-append rs c)

  has_row-replace_rows :
      (cs : List Chunk) (rows : List PendingRow)
      → has_row b (pending_rows rows) ≡ true
      → has_row b (pending_rows (replace_rows (map (row_of b now) cs) rows)) ≡ true
  unfolding replace_rows
  has_row-replace_rows [] rows h = h
  has_row-replace_rows (c ∷ cs) rows h =
      has_row-replace_rows cs (replace_row (row_of b now c) rows)
        (unfold replace_row row_of in has_row-append (remove_key b c.chunk_id rows) c)

  -- A batch that is written with a chunk is listed.
  is_listed-write_pending_batch :
      (chunks : List Chunk) (s : IngestionStore)
      → 0 < length chunks
      → is_listed b (list_pending_batches (write_pending_batch b chunks now s)) ≡ true
  unfolding list_pending_batches write_pending_batch
  is_listed-write_pending_batch [] s h = elim h [ ]
  is_listed-write_pending_batch (c ∷ cs) s h =
      is_listed-newest_batches b
        (by_batch [] (pending_rows (replace_rows (map (row_of b now) (c ∷ cs)) s.pending)))
      ∙ is_listed-by_batch b []
          (pending_rows (replace_rows (map (row_of b now) (c ∷ cs)) s.pending))
      ∙ unfold replace_rows in
        has_row-replace_rows cs (replace_row (row_of b now c) s.pending)
          (unfold replace_row row_of in has_row-append (remove_key b c.chunk_id s.pending) c)

module _ (cfg : IngestionRuntime) (form : UploadForm) (services : IngestServices) (m : Moment) where
  -- An upload comes to the review page: where Qdrant is configured and the file is not empty, the
  -- upload is queued with the defaults put in for what the form omits, and if the text of the file
  -- is not empty after the clean-up and the language model writes a summary, the background ingest
  -- of that request leaves a store in which the page lists the batch.
  pub upload-is_listed :
      (content : List ℕ) (text : Text) (summary : String) (s : IngestionStore)
      → is_configured cfg.qdrant_url ≡ true
      → 0 < length content
      → services.extracted ≡ some text
      → clean_pdf_text text ≢ []
      → services.summarize (clean_pdf_text text) ≡ summarised summary
      → (upload cfg form content ≡ (queued, some (request_of cfg form)))
        × (is_listed m.batch_id
              (list_pending_batches (run_ingest services (request_of cfg form) m s).1)
            ≡ true)
  unfolding upload
  upload-is_listed content text summary s configured full e h g =
      let (enriched, some_chunk, _, ends) =
        run_ingest_pending services (request_of cfg form) m text summary s e h g in
      (
        rw configured (ground arith),
        rw ends (is_listed-write_pending_batch m.batch_id m.now enriched s some_chunk),
      )
