-- ===== src/Kb/Ingest/Tests.antt =====
-- The theorems on the first phase at a document of one line and at one of page numbers alone.
use virtual_helmsman.Prelude.{◌<◌, List, length, map, chars, ◌≡◌, refl, some, String}
use mathlib.Core.List.{cons-ne-nil}
use virtual_helmsman.Kb.Chunking.Cleaning.{clean_pdf_text}
use virtual_helmsman.Kb.Metadata.{Chunk}
use virtual_helmsman.Kb.Store.{empty_store, write_pending_batch}
use virtual_helmsman.Kb.Chunking.Blocks.Pieces.{AllAtMost}
use virtual_helmsman.Kb.Ingest.{
  Request, IngestServices, Moment, summarised, pending_batch, raised, run_ingest,
}
use virtual_helmsman.Kb.Ingest.Outcomes.{run_ingest_pending, run_ingest_unaudited}

abbrev services : String → IngestServices
services text = record { extracted = some (chars text); summarize = λ clean. summarised "A rule." }

abbrev request : Request
request = record {
  filename = "colregs.pdf";
  document_type = "regulation";
  collection_name = "";
  categories = "colregs, lights";
  chunking_strategy = "paragraph_aware";
}

abbrev moment : Moment
moment = record {
  now = "2026-01-01T00:00:00Z";
  upload_timestamp = "2026-01-01T00:00:00Z";
  epoch = 5;
  batch_id = "batch_5_a1b2c3";
}

run_ingest_pending_example :
    (enriched : List Chunk) × (0 < length enriched)
    × AllAtMost 1201 (map (λ c. c.text) enriched)
    × (run_ingest (services "Keep a look-out.\n 12\n") request moment empty_store ≡ (
      pending_batch,
      write_pending_batch "batch_5_a1b2c3" enriched "2026-01-01T00:00:00Z" empty_store,
    ))
unfolding clean_pdf_text
run_ingest_pending_example =
    run_ingest_pending (services "Keep a look-out.\n 12\n") request moment
      (chars "Keep a look-out.\n 12\n") "A rule." empty_store refl (cons-ne-nil _ _) refl

run_ingest_unaudited_example :
    run_ingest (services " 12 \n\n- 13 -\nPage 3 of 4") request moment empty_store
    ≡ (raised, empty_store)
unfolding clean_pdf_text
run_ingest_unaudited_example =
    run_ingest_unaudited (services " 12 \n\n- 13 -\nPage 3 of 4") request moment
      (chars " 12 \n\n- 13 -\nPage 3 of 4") "A rule." empty_store refl refl refl
