-- ===== src/Kb/Ingest.antt =====
-- engine.py: the first phase of the ingestion, from an upload to the pending chunks of a batch. The
-- extraction of the PDF and the summary of the language model are parameters, each with its failure.
pub mod Outcomes
mod Tests
use Prim.Native.String
use virtual_helmsman.Prelude.{
  ℕ, zero, Char, code, chars, from_chars, String, Bool, Option, none, some, List, [], ◌∷◌, map,
  length, take, text_eq, truthy, if◌then◌else◌, ◌or◌, ◌==◌, strip_chars, lower_code,
}
use virtual_helmsman.Kb.Metadata.{Text, Chunk, Upload, complete_metadata, show}
use virtual_helmsman.Kb.Chunking.{Chunked, chunked, chunk_fixed_size}
use virtual_helmsman.Kb.Chunking.Blocks.{re_split}
use virtual_helmsman.Kb.Chunking.Paragraphs.{chunk_paragraph_aware}
use virtual_helmsman.Kb.Chunking.Cleaning.{clean_pdf_text}
use virtual_helmsman.Kb.Engine.{actie_ingestie}
use virtual_helmsman.Kb.Store.{IngestionStore, insert_audit, write_pending_batch}

abbrev pub actie_llm_error : String
actie_llm_error = "llm_error_ingestion"

abbrev pub audit_pdf_failed : String
audit_pdf_failed = "Fout — PDF extractie mislukt"

infixl 60 ◌&◌
abbrev ◌&◌ : String → String → String
s & t = String.◌++◌ s t

abbrev shown_status : Option ℕ → String
shown_status none = "n.v.t."
shown_status (some n) = show n

unfoldable pub audit_llm_error :
    (message : String) → (http_status : Option ℕ) → (input_chars : ℕ) → String
unfolding show
audit_llm_error message http_status input_chars =
    "error="
    & from_chars (take 200 (chars (message or "unknown")))
    & " | http="
    & shown_status http_status
    & " | input_chars="
    & show input_chars

-- (strategy or "").lower() == "fixed_size"
unfoldable pub is_word : List ℕ → Text → Bool
is_word [] [] = Bool.true
is_word (k ∷ ks) (c ∷ cs) =
    let rest = is_word ks cs in if k == lower_code (code c) then rest else Bool.false
is_word _ _ = Bool.false

abbrev pub is_fixed_size : String → Bool
is_fixed_size strategy = is_word (map code (chars "fixed_size")) (chars strategy)

-- The chunks, or what is raised, with the tag of the strategy.
unfoldable pub chunk_text : Text → String → Chunked Char × String
unfolding is_word chunk_fixed_size chunk_paragraph_aware
chunk_text clean strategy =
    if is_fixed_size strategy
    then (chunk_fixed_size clean, "fixed_size")
    else (chunk_paragraph_aware clean, "paragraph_aware_sentence_boundary")

abbrev pub comma : Option Char → Text → ℕ
comma prev [] = 0
comma prev (c ∷ cs) = if code c == 44 then 1 else 0

abbrev pub unless_blank : Text → List String → List String
unless_blank [] names = names
unless_blank (c ∷ cs) names = from_chars (c ∷ cs) ∷ names

abbrev pub stripped_names : List Text → List String
stripped_names [] = []
stripped_names (part ∷ parts) = unless_blank (strip_chars part) (stripped_names parts)

-- [c.strip() for c in (categories or "algemeen").split(",") if c.strip()]
unfoldable pub category_list : String → List String
unfolding re_split strip_chars
category_list categories =
    stripped_names (re_split comma zero none (chars (categories or "algemeen")))

-- The form of an upload.
pub record Request : Type 0 where
  pub filename : String
  pub document_type : String
  pub collection_name : String
  pub categories : String
  pub chunking_strategy : String

pub data Summarised : Type 0 where
  summarised : String → Summarised
  summary_failed : (message : String) → (http_status : Option ℕ) → Summarised

-- What the extraction gives, `none` where it raises, and what the language model makes of a text.
pub record IngestServices : Type 0 where
  pub extracted : Option Text
  pub summarize : Text → Summarised

-- The clock, and the batch id made of it and of random digits.
pub record Moment : Type 0 where
  pub now : String
  pub upload_timestamp : String
  pub epoch : ℕ
  pub batch_id : String

-- How the background task ends; `raised` is an exception that is not caught.
pub data IngestEnd : Type 0 where
  audited pending_batch raised : IngestEnd

abbrev pub upload_of : Request → Moment → Text → (summary strategy_tag : String) → Upload
upload_of r m clean summary strategy_tag = record {
  clean_text = clean;
  filename = r.filename;
  doc_summary = summary;
  document_type = r.document_type;
  collection_name = r.collection_name;
  categories = category_list r.categories;
  strategy_tag = strategy_tag;
  upload_timestamp = m.upload_timestamp;
  epoch = m.epoch;
  total = 0;
}

module _ (services : IngestServices) (r : Request) (m : Moment) where
  abbrev pub log_failure : (actie resultaat : String) → IngestionStore → IngestEnd × IngestionStore
  log_failure actie resultaat s =
      (audited, (insert_audit (r.filename or "onbekend") actie resultaat m.now s).1)

  abbrev pub write_batch : Option (List Chunk) → IngestionStore → IngestEnd × IngestionStore
  write_batch none s = (raised, s)
  write_batch (some enriched) s = (pending_batch, write_pending_batch m.batch_id enriched m.now s)

  abbrev pub write_chunks :
      Text
      → (summary : String) → Chunked Char × String
      → IngestionStore
      → IngestEnd × IngestionStore
  write_chunks clean summary (chunked chunks, tag) s =
      write_batch (complete_metadata (upload_of r m clean summary tag) chunks) s
  write_chunks clean summary _ s = (raised, s)

  abbrev pub after_summary : Text → Summarised → IngestionStore → IngestEnd × IngestionStore
  after_summary clean (summarised summary) s =
      write_chunks clean summary (chunk_text clean r.chunking_strategy) s
  after_summary clean (summary_failed message http_status) s =
      log_failure actie_llm_error (audit_llm_error message http_status (length clean)) s

  abbrev pub after_extraction : Option Text → IngestionStore → IngestEnd × IngestionStore
  after_extraction none s = log_failure actie_ingestie audit_pdf_failed s
  after_extraction (some text) s =
      after_summary (clean_pdf_text text) (services.summarize (clean_pdf_text text)) s

  -- `_run_ingest`
  unfoldable pub run_ingest : IngestionStore → IngestEnd × IngestionStore
  unfolding clean_pdf_text chunk_text complete_metadata write_pending_batch insert_audit
      audit_llm_error category_list
  run_ingest s = after_extraction services.extracted s
