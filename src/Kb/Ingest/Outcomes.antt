-- ===== src/Kb/Ingest/Outcomes.antt =====
-- How an upload ends: with pending chunks, with a row of the audit log, or without a trace.
use mathlib.Core.List.{cons-ne-nil}
use virtual_helmsman.Prelude.{
  ◌<◌, ◌≡◌, ◌≢◌, refl, ap, sym, subst, Char, Option, none, some, List, [], ◌∷◌, length, length-map,
  map, String, arith, Bool-cases, inl, inr,
}
use virtual_helmsman.Prelude.Text.Strip.{StartsSolid, strip_chars_solid}
use virtual_helmsman.Kb.Metadata.{Text, Chunk, Upload, complete_metadata}
use virtual_helmsman.Kb.Metadata.Offsets.{complete_metadata-InOrder}
use virtual_helmsman.Kb.Chunking.{Chunked, chunked, chunk_fixed_size}
use virtual_helmsman.Kb.Chunking.Windows.{AllWithin, rejoin, chunk_fixed_size_lem}
use virtual_helmsman.Kb.Chunking.Paragraphs.{chunk_paragraph_aware}
use virtual_helmsman.Kb.Chunking.Blocks.Pieces.{AllAtMost}
use virtual_helmsman.Kb.Chunking.Paragraphs.Sizes.{chunk_paragraph_aware_bounds}
use virtual_helmsman.Kb.Chunking.Cleaning.{without_pages, clean_pdf_text}
use virtual_helmsman.Kb.Store.{IngestionStore, write_pending_batch}
use virtual_helmsman.Kb.Ingest.{
  chunk_text, is_fixed_size, Request, IngestServices, Moment, summarised, IngestEnd, pending_batch,
  raised, upload_of, write_chunks, write_batch, run_ingest,
}

clean_pdf_text-StartsSolid : (text : Text) → StartsSolid (clean_pdf_text text)
unfolding clean_pdf_text
clean_pdf_text-StartsSolid text = (strip_chars_solid (without_pages text)).0

AllWithin-AllAtMost : (cs : List Text) → AllWithin cs → AllAtMost 1201 cs
AllWithin-AllAtMost [] a = tt
AllWithin-AllAtMost (c ∷ cs) a = (omega (arith, a.1), AllWithin-AllAtMost cs a.2)

-- There are chunks, none longer than 1201 characters.
abbrev IsChunked : Chunked Char → Type 0
IsChunked r =
    (chunks : List Text) × (r ≡ chunked chunks) × (0 < length chunks) × AllAtMost 1201 chunks

length-rejoin :
    (c : Char) (cs : Text) (chunks : List Text) → rejoin chunks ≡ c ∷ cs → 0 < length chunks
length-rejoin c cs [] e = absurd (cons-ne-nil c cs (sym e))
length-rejoin c cs (d ∷ ds) e = omega arith

complete_metadata-ne-none :
    (u : Upload) (chunks : List Text) → 0 < length chunks → complete_metadata u chunks ≢ none
unfolding complete_metadata
complete_metadata-ne-none u [] h = absurd (omega (arith, h))
complete_metadata-ne-none u (c ∷ cs) h = λ e. cc

chunk_fixed_size-IsChunked : (c : Char) (cs : Text) → IsChunked (chunk_fixed_size (c ∷ cs))
chunk_fixed_size-IsChunked c cs =
    let (chunks, e, within, joined) = chunk_fixed_size_lem (c ∷ cs) (cons-ne-nil c cs) in
    (chunks, e, length-rejoin c cs chunks joined, AllWithin-AllAtMost chunks within)

-- Every text that is not empty and begins with no white space is chunked by either strategy.
chunk_text-IsChunked :
    (clean : Text) (strategy : String)
    → clean ≢ []
    → StartsSolid clean
    → IsChunked (chunk_text clean strategy).0
unfolding chunk_text
chunk_text-IsChunked [] strategy h s = absurd (h refl)
chunk_text-IsChunked (c ∷ cs) strategy h s = elim (Bool-cases (is_fixed_size strategy)) [
  | inl e ↦ rw e (chunk_fixed_size-IsChunked c cs)
  | inr e ↦ rw e (chunk_paragraph_aware_bounds c cs s)
]

module _ (services : IngestServices) (r : Request) (m : Moment) where
  -- A batch of these chunks is written, and nothing else.
  abbrev WritesBatch : IngestionStore → IngestEnd × IngestionStore → Type 0
  WritesBatch s o =
      (enriched : List Chunk) × (0 < length enriched)
      × AllAtMost 1201 (map (λ c. c.text) enriched)
      × (o ≡ (pending_batch, write_pending_batch m.batch_id enriched m.now s))

  write_batch-WritesBatch :
      (u : Upload) (chunks : List Text) (s : IngestionStore)
      → 0 < length chunks
      → AllAtMost 1201 chunks
      → WritesBatch s (write_batch services r m (complete_metadata u chunks) s)
  write_batch-WritesBatch u chunks s h a = at (complete_metadata u chunks) refl
    where
      at :
          (o : Option (List Chunk))
          → complete_metadata u chunks ≡ o
          → WritesBatch s (write_batch services r m o s)
      at none e = absurd (complete_metadata-ne-none u chunks h e)
      at (some enriched) e =
          let (texts, order) = complete_metadata-InOrder u chunks enriched e in
          (
            enriched,
            omega (arith, ap length texts, length-map enriched (λ c. c.text)),
            subst (AllAtMost 1201) (sym texts) a,
            refl,
          )

  write_chunks-WritesBatch :
      (clean : Text) (summary : String) (chunks : Chunked Char × String) (s : IngestionStore)
      → IsChunked chunks.0
      → WritesBatch s (write_chunks services r m clean summary chunks s)
  write_chunks-WritesBatch clean summary (c, tag) s (chunks, e, h, a) =
      subst (λ d. WritesBatch s (write_chunks services r m clean summary (d, tag) s)) (sym e)
        (write_batch-WritesBatch (upload_of r m clean summary tag) chunks s h a)

  -- An upload whose text is not empty after the clean-up, and of which the language model writes a
  -- summary, ends with pending chunks, by either strategy: at least one, none of whose texts is
  -- longer than 1201 characters, and the log is left alone.
  pub run_ingest_pending :
      (text : Text) (summary : String) (s : IngestionStore)
      → services.extracted ≡ some text
      → clean_pdf_text text ≢ []
      → services.summarize (clean_pdf_text text) ≡ summarised summary
      → (enriched : List Chunk) × (0 < length enriched)
        × AllAtMost 1201 (map (λ c. c.text) enriched)
        × (run_ingest services r m s
            ≡ (pending_batch, write_pending_batch m.batch_id enriched m.now s))
  unfolding run_ingest
  run_ingest_pending text summary s e h g =
      rw (e, g)
        (write_chunks-WritesBatch (clean_pdf_text text) summary
          (chunk_text (clean_pdf_text text) r.chunking_strategy) s
          (chunk_text-IsChunked (clean_pdf_text text) r.chunking_strategy h
            (clean_pdf_text-StartsSolid text)))

  -- An upload whose text is empty after the clean-up ends without a trace, once the language model
  -- has written its summary: an exception is not caught, no row of the log is written and no chunk.
  pub run_ingest_unaudited :
      (text : Text) (summary : String) (s : IngestionStore)
      → services.extracted ≡ some text
      → clean_pdf_text text ≡ []
      → services.summarize [] ≡ summarised summary
      → run_ingest services r m s ≡ (raised, s)
  unfolding run_ingest chunk_text chunk_fixed_size chunk_paragraph_aware
  run_ingest_unaudited text summary s e h g =
      rw (e, h, g)
        (elim (Bool-cases (is_fixed_size r.chunking_strategy)) [
          | inl f ↦ rw f refl
          | inr f ↦ rw f refl
        ])
