-- ===== src/Kb/Tests.antt =====
-- The theorems on voice_agent/kb/ingestion/ at small batches.
use virtual_helmsman.Prelude.{
  String, Char, chars, ◌≡◌, refl, true, false, Option, some, none, List, [], ◌∷◌, arith, length,
  take, strip, text_eq, if◌then◌else◌,
}
use mathlib.Core.List.{Permᴰ}
use virtual_helmsman.Prelude.Int.{pos}
use virtual_helmsman.Json.{Json, str, arr, nil, obj, Fields, end, field}
use virtual_helmsman.Kb.Chunking.{chunk_fixed_size, chunked}
use virtual_helmsman.Kb.Chunking.Windows.{AllWithin, rejoin, chunk_fixed_size_lem}
use virtual_helmsman.Kb.Metadata.{Text, Chunk, Upload}
use virtual_helmsman.Kb.Metadata.Review.{DecisionResult, apply_decisions}
use virtual_helmsman.Kb.Metadata.Decisions.{survivors, IsCounted, apply_decisions_lem}
use virtual_helmsman.Kb.Store.{
  IngestionStore, empty_store, AuditPage, AuditRow, Stamp, write_pending_batch, get_batch_chunks,
  delete_batch, query_audit, or_empty, since_stamp,
}
use virtual_helmsman.Kb.Store.Pending.{get_batch_chunks-write_pending_batch}
use virtual_helmsman.Kb.Store.Audit.{query_audit_lem, kept, AppliedLimit, query_audit_raises}
use virtual_helmsman.Kb.Engine.{Services, Embedding, not_pending, service_failed, stopped, resume}
use virtual_helmsman.Kb.Store.Newest.{IsNewestFirst}
use virtual_helmsman.Kb.Engine.Resume.{resume-resume}

abbrev manual : Text
manual = chars "keep a proper look-out by sight and hearing"

abbrev upload : Upload
upload = record {
  clean_text = manual;
  filename = "colregs.pdf";
  doc_summary = "";
  document_type = "regulation";
  collection_name = "";
  categories = [];
  strategy_tag = "fixed_size_800_75";
  upload_timestamp = "2026-01-01T00:00:00Z";
  epoch = 5;
  total = 1;
}

abbrev chunk : String → Text → Chunk
chunk name text = record {
  idx = 0;
  text = text;
  filename = "colregs.pdf";
  page = 1;
  chunk_id = name;
  total_chunks = 2;
  start_char = 0;
  end_char = 43;
  chunk_length = 43;
  words_in_text = 8;
  document_summary = "";
  section_title = "";
  document_type = "regulation";
  upload_timestamp = "2026-01-01T00:00:00Z";
  categories = [];
  chunking_strategy = "fixed_size_800_75";
  chunk_overlap = 75;
  collection_name = "";
  point_id = 5000;
}

abbrev first_chunk : Chunk
first_chunk = chunk "chunk_000" manual

abbrev second_chunk : Chunk
second_chunk = chunk "chunk_001" manual

abbrev batch : List Chunk
batch = first_chunk ∷ second_chunk ∷ []

abbrev to_str : Json → String
to_str v = "value"

abbrev reject_second : List Json
reject_second = obj (field "chunk_id" (str "chunk_001") (field "action" (str "reject") end)) ∷ []

abbrev first_kept : DecisionResult
first_kept = record {
  kept = first_chunk ∷ [];
  approved = 0;
  rejected = 1;
  edited = 0;
  default_approved = 1;
}

chunk_fixed_size_lem_example :
    (cs : List (List Char)) × (chunk_fixed_size manual ≡ chunked cs)
    × AllWithin cs
    × (rejoin cs ≡ manual)
chunk_fixed_size_lem_example = chunk_fixed_size_lem manual (λ e. cc)

apply_decisions_lem_example :
    (first_kept.kept ≡ survivors to_str reject_second batch) × IsCounted 2 first_kept
unfolding apply_decisions
apply_decisions_lem_example = apply_decisions_lem to_str batch reject_second first_kept refl

abbrev described : Chunk
described = record first_chunk { total_chunks = 1 }

get_batch_chunks-write_pending_batch_example :
    Permᴰ (get_batch_chunks "b" (write_pending_batch "b" batch "now" empty_store)) batch
get_batch_chunks-write_pending_batch_example =
    get_batch_chunks-write_pending_batch "b" "now" batch empty_store tt ((refl, tt), (tt, tt))

abbrev store : IngestionStore
store = record {
  pending = [];
  audit =
      record {
        id = 1;
        created_at = "1";
        document_naam = "colregs.pdf";
        actie = "ingestie_hitl";
        resultaat = "ok";
      }
      ∷ [];
  last_id = 1;
}

-- "1" is a time with a zone, "yesterday" one without, and nothing else is a time
abbrev parse_ts : String → Option Stamp
parse_ts s =
    if text_eq s "1"
    then some (record { aware = true; instant = 1 })
    else if text_eq s "yesterday"
    then some (record { aware = false; instant = 0 })
    else none

abbrev whole_log : AuditPage
whole_log = record { total_in_log = 1; limit = 50; actie = ""; entries = store.audit }

query_audit_lem_example :
    (rows : List AuditRow) × Permᴰ rows store.audit
    × IsNewestFirst rows
    × (whole_log.entries
        ≡ take 50 (kept parse_ts (strip (or_empty none)) (since_stamp parse_ts none) rows))
    × AppliedLimit none 50
    × (whole_log.total_in_log ≡ length store.audit)
unfolding query_audit strip
query_audit_lem_example = query_audit_lem parse_ts none none none store whole_log refl

query_audit_raises_example : query_audit parse_ts none none (some "yesterday") store ≡ none
unfolding strip
query_audit_raises_example =
    query_audit_raises parse_ts none "yesterday" (record { aware = false; instant = 0 }) store refl
      refl ((_, refl, refl), tt) (omega arith)

abbrev one_vector : List Text → Option (List Embedding)
one_vector texts = some (record { index = 0; vector = pos 1 ∷ [] } ∷ [])

abbrev working : Services
working = record {
  ensure_collection = λ c. true;
  embeddings = one_vector;
  accept_points = λ c points. true;
}

abbrev down : Services
down = record {
  ensure_collection = λ c. false;
  embeddings = λ texts. none;
  accept_points = λ c points. false;
}

abbrev waiting : IngestionStore
waiting = record {
  pending =
      record {
        batch_id = "b";
        chunk_id = "chunk_001";
        filename = "colregs.pdf";
        collection_name = "";
        chunk_text = manual;
        metadata = second_chunk;
        status = "pending";
        created_at = "now";
      }
      ∷ record {
        batch_id = "b";
        chunk_id = "chunk_000";
        filename = "colregs.pdf";
        collection_name = "";
        chunk_text = manual;
        metadata = first_chunk;
        status = "pending";
        created_at = "now";
      }
      ∷ [];
  audit = [];
  last_id = 0;
}

resume-resume_example :
    resume to_str "kb" working "now" "b" []
      (resume to_str "kb" down "now" "b" reject_second waiting).store
    ≡ stopped not_pending (resume to_str "kb" down "now" "b" reject_second waiting).store
unfolding resume
resume-resume_example =
    resume-resume to_str "kb" "now" "b" down working reject_second [] waiting (λ e. cc)

-- A review that fails at the collection leaves no row in the audit log.
unaudited_failure :
    resume to_str "kb" down "now" "b" reject_second waiting
    ≡ stopped service_failed (delete_batch "b" waiting)
unfolding resume get_batch_chunks apply_decisions
unaudited_failure = refl

abbrev empty_review : Fields
empty_review = field "decisions" (arr nil) end
