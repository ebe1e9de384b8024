-- ===== src/Kb/Review/Tests.antt =====
-- An upload of one line, from the form to the review page and to its review.
use virtual_helmsman.Prelude.{
  chars, ◌≡◌, refl, String, true, false, not, ◌&&◌, none, some, [], ◌∷◌, arith,
}
use virtual_helmsman.Prelude.Int.{pos}
use mathlib.Core.List.{cons-ne-nil}
use virtual_helmsman.Json.{Json, arr, nil, Fields, end, field, get}
use virtual_helmsman.Config.Runtimes.{IngestionRuntime}
use virtual_helmsman.Kb.Chunking.Cleaning.{clean_pdf_text}
use virtual_helmsman.Kb.Store.{IngestionStore, empty_store}
use virtual_helmsman.Kb.Store.Batches.{list_pending_batches}
use virtual_helmsman.Kb.Engine.{Services}
use virtual_helmsman.Kb.Ingest.{IngestServices, Moment, summarised, run_ingest}
use virtual_helmsman.Kb.Review.{
  UploadForm, upload, audit_event, queued, refused, request_of, resume_route,
}
use virtual_helmsman.Kb.Review.Listing.{is_listed, is_404, resume_route-is_listed}
use virtual_helmsman.Kb.Review.Uploads.{upload-is_listed}

abbrev cfg : IngestionRuntime
cfg = record {
  db_path = "./data/ingestion.db";
  request_timeout_seconds = pos 600;
  llm_base_url = "http://localhost:1234/v1";
  llm_api_key_env = "LLM_API_KEY";
  qdrant_url = some "http://localhost:6333";
  qdrant_api_key_env = "QDRANT_API_KEY";
  embedding_model = "text-embedding-bge-m3";
  default_document_type = "PDF";
  default_collection_name = "maritime_hybrid";
  default_categories = "algemeen";
  default_chunking_strategy = "paragraph_aware";
  langfuse_enabled = false;
  langfuse_host = none;
  langfuse_public_key_env = "LANGFUSE_PUBLIC_KEY";
  langfuse_secret_key_env = "LANGFUSE_SECRET_KEY";
}

abbrev form : UploadForm
form = record {
  filename = some "colregs.pdf";
  document_type = "";
  collection_name = "";
  categories = none;
  chunking_strategy = some "fixed_size";
}

abbrev moment : Moment
moment = record {
  now = "2026-01-01T00:00:00Z";
  upload_timestamp = "2026-01-01T00:00:00Z";
  epoch = 5;
  batch_id = "batch_5_a1b2c3";
}

abbrev reading : IngestServices
reading = record {
  extracted = some (chars "Keep a look-out.");
  summarize = λ clean. summarised "A rule.";
}

upload-is_listed_example :
    (upload cfg form (37 ∷ []) ≡ (queued, some (request_of cfg form)))
    × (is_listed "batch_5_a1b2c3"
          (list_pending_batches (run_ingest reading (request_of cfg form) moment empty_store).1)
        ≡ true)
unfolding clean_pdf_text
upload-is_listed_example =
    upload-is_listed cfg form reading moment (37 ∷ []) (chars "Keep a look-out.") "A rule."
      empty_store refl (omega arith) refl (cons-ne-nil _ _) refl

-- A blank field of an audit event is refused.
blank_event :
    audit_event "" "art50_acknowledged" "OK" "now" empty_store ≡ (refused 422, empty_store)
unfolding audit_event
blank_event = refl

abbrev to_str : Json → String
to_str v = "value"

abbrev working : Services
working = record {
  ensure_collection = λ name. true;
  embeddings = λ texts. some [];
  accept_points = λ name points. true;
}

abbrev empty_review : Fields
empty_review = field "decisions" (arr nil) end

abbrev uploaded : IngestionStore
uploaded = (run_ingest reading (request_of cfg form) moment empty_store).1

resume_route-is_listed_example :
    is_404
      (resume_route to_str "maritime_hybrid" true working "now" "batch_5_a1b2c3" empty_review
        uploaded).0
    ≡ true && not (is_listed "batch_5_a1b2c3" (list_pending_batches uploaded))
unfolding get
resume_route-is_listed_example =
    resume_route-is_listed to_str "maritime_hybrid" "now" "batch_5_a1b2c3" working true empty_review
      [] uploaded refl
