-- ===== src/Kb/Review.antt =====
-- voice_agent/kb/review.py: the HTTP routes over the store and the engine. A response is what the
-- route returns, or the status of its error; an exception that no route catches is a 500. The body
-- of a request is a dictionary already.
pub mod Routes
pub mod Listing
pub mod Uploads
mod Tests
use virtual_helmsman.Prelude.{
  ℕ, String, Bool, false, ◌&&◌, Option, none, some, List, if◌then◌else◌, leb, length, chars, truthy,
  ◌or◌,
}
use virtual_helmsman.Prelude.Int.{ℤ}
use virtual_helmsman.Json.{Json, arr, Fields, get, items}
use virtual_helmsman.Kb.Store.{
  AuditRow, AuditPage, IngestionStore, Stamp, insert_audit, query_audit,
}
use virtual_helmsman.Kb.Store.Batches.{PendingBatch, list_pending_batches}
use virtual_helmsman.Kb.Ingest.{Request}
use virtual_helmsman.Config.Runtimes.{IngestionRuntime}
use virtual_helmsman.Kb.Engine.{
  Services, Summary, Resumed, not_pending, bad_decisions, service_failed, count_mismatch,
  rejected_all, ingested, Result, resume,
}

pub data Response : Type 0 where
  summary : (status : String) → Summary → Response
  page : AuditPage → Response
  logged : AuditRow → Response
  queued : Response
  pending_list : (total_pending_batches : ℕ) → (batches : List PendingBatch) → Response
  refused : (status_code : ℕ) → Response

abbrev pub response_to : Resumed → Response
response_to not_pending = refused 404
response_to bad_decisions = refused 500
response_to service_failed = refused 502
response_to count_mismatch = refused 500
response_to (rejected_all s) = summary "rejected" s
response_to (ingested s) = summary "ingested" s

abbrev pub respond : Result → Response × IngestionStore
respond r = (response_to r.resumed, r.store)

-- the value of `decisions`, where it is a list
abbrev pub decisions_of : Option Json → Option (List Json)
decisions_of (some (arr vs)) = some (items vs)
decisions_of _ = none

module _ (to_str : Json → String) (default_collection_name : String) (configured : Bool) where
  abbrev pub resume_with :
      Services → String → String → Option (List Json) → IngestionStore → Response × IngestionStore
  resume_with services now batch_id none s = (refused 400, s)
  resume_with services now batch_id (some decisions) s =
      respond (resume to_str default_collection_name services now batch_id decisions s)

  -- POST /api/review/{batch_id}/resume; `configured` tells whether there is a Qdrant URL
  unfoldable pub resume_route :
      Services → String → String → Fields → IngestionStore → Response × IngestionStore
  unfolding resume get
  resume_route services now batch_id body s =
      if configured
      then resume_with services now batch_id (decisions_of (get "decisions" body)) s
      else (refused 503, s)

abbrev pub paged : Option AuditPage → Response
paged none = refused 500
paged (some p) = page p

-- GET /api/review/audit-log
unfoldable pub audit_log :
    (String → Option Stamp) → Option ℤ → (actie since : Option String) → IngestionStore → Response
unfolding query_audit
audit_log parse_ts limit actie since s = paged (query_audit parse_ts limit actie since s)

-- Field(min_length=1, max_length=500), counted in characters
abbrev pub within_bounds : String → Bool
within_bounds text = leb 1 (length (chars text)) && leb (length (chars text)) 500

-- POST /api/review/audit-event, with the constraints of AuditEventRequest
unfoldable pub audit_event :
    (document_naam actie resultaat now : String) → IngestionStore → Response × IngestionStore
unfolding insert_audit
audit_event document_naam actie resultaat now s =
    if within_bounds document_naam && within_bounds actie && within_bounds resultaat
    then (let (row, s') = insert_audit document_naam actie resultaat now s in (logged row, s'))
    else (refused 422, s)

-- The form of an upload, with what it omits.
pub record UploadForm : Type 0 where
  pub filename : Option String
  pub document_type : String
  pub collection_name : String
  pub categories : Option String
  pub chunking_strategy : Option String

abbrev pub given_or : Option String → String → String
given_or none default = default
given_or (some s) default = s

-- `_require_local_fields`
abbrev pub is_configured : Option String → Bool
is_configured none = false
is_configured (some url) = truthy url

-- What `start_ingest` is called with.
abbrev pub request_of : IngestionRuntime → UploadForm → Request
request_of cfg form = record {
  filename = given_or form.filename "" or "upload.pdf";
  document_type = form.document_type or cfg.default_document_type;
  collection_name = form.collection_name or cfg.default_collection_name;
  categories = given_or form.categories cfg.default_categories;
  chunking_strategy = given_or form.chunking_strategy cfg.default_chunking_strategy;
}

-- POST /api/review/upload, with the background ingest that it starts, if any
unfoldable pub upload :
    IngestionRuntime → UploadForm → (content : List ℕ) → Response × Option Request
upload cfg form content =
    if is_configured cfg.qdrant_url
    then if leb 1 (length content)
      then (queued, some (request_of cfg form))
      else (refused 400, none)
    else (refused 503, none)

-- GET /api/review/pending
unfoldable pub pending : IngestionStore → Response
unfolding list_pending_batches
pending s = let batches = list_pending_batches s in pending_list (length batches) batches
