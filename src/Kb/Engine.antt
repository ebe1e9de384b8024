-- ===== src/Kb/Engine.antt =====
-- voice_agent/kb/ingestion/engine.py and qdrant.py: the second phase of the ingestion, from the
-- review decisions to the points of the collection. The two HTTP services are a parameter: what
-- each of the calls returns, `none` or `false` where it raises. `now` is the clock's text.
pub mod Resume
pub mod Settled
use Prim.Native.String
use virtual_helmsman.Prelude.{
  ℕ, zero, suc, ◌+◌, String, Bool, true, false, not, ◌&&◌, Option, none, some, List, [], ◌∷◌, ◌++◌,
  length, ◌==◌, leb, if◌then◌else◌, map, ◌or◌,
}
use virtual_helmsman.Prelude.Int.{ℤ}
use virtual_helmsman.Json.{Json}
use virtual_helmsman.Kb.Metadata.{Text, Chunk, show}
use virtual_helmsman.Kb.Metadata.Review.{DecisionResult, all_rejected, apply_decisions}
use virtual_helmsman.Kb.Store.{IngestionStore, get_batch_chunks, delete_batch, insert_audit}

abbrev pub Vector : Type 0
Vector = List ℤ

-- An entry of the answer of /embeddings.
pub record Embedding : Type 0 where
  pub index : ℕ
  pub vector : Vector

-- The mean of `words_in_text`, as the sum and the number.
pub record Mean : Type 0 where
  pub sum : ℕ
  pub count : ℕ

pub record Point : Type 0 where
  pub id : ℕ
  pub payload : Chunk
  pub hitl_reviewed : Bool
  pub hitl_batch_id : String
  pub vector : Vector
  pub avg_len : Mean

pub record Services : Type 0 where
  pub ensure_collection : String → Bool
  pub embeddings : List Text → Option (List Embedding)
  pub accept_points : String → List Point → Bool

insert_by_index : Embedding → List Embedding → List Embedding
insert_by_index e [] = e ∷ []
insert_by_index e (d ∷ ds) =
    let rest = insert_by_index e ds in if leb e.index d.index then e ∷ d ∷ ds else d ∷ rest

-- sorted(data, key=lambda d: d.get("index", 0))
unfoldable pub sort_by_index : List Embedding → List Embedding
unfolding insert_by_index
sort_by_index [] = []
sort_by_index (e ∷ es) = insert_by_index e (sort_by_index es)

unfoldable pub embed_texts : Services → List Text → Option (List Vector)
unfolding sort_by_index
embed_texts services texts = elim (services.embeddings texts) [
  | none ↦ none
  | some entries ↦ some (map (λ e. e.vector) (sort_by_index entries))
]

sum_words : List Chunk → ℕ
sum_words [] = 0
sum_words (c ∷ cs) = c.words_in_text + sum_words cs

-- `compute_avg_len`, where a chunk is kept
unfoldable pub compute_avg_len : List Chunk → Mean
unfolding sum_words
compute_avg_len kept = record { sum = sum_words kept; count = length kept }

unfoldable pub zip_points : Mean → String → List Chunk → List Vector → List Point
zip_points avg_len batch_id [] vs = []
zip_points avg_len batch_id (c ∷ cs) [] = []
zip_points avg_len batch_id (c ∷ cs) (v ∷ vs) =
    record {
      id = c.point_id;
      payload = c;
      hitl_reviewed = true;
      hitl_batch_id = batch_id;
      vector = v;
      avg_len = avg_len;
    }
    ∷ zip_points avg_len batch_id cs vs

-- `build_points`; `none` is the ValueError for unequal counts
unfoldable pub build_points : List Chunk → List Vector → Mean → String → Option (List Point)
unfolding zip_points
build_points chunks embeddings avg_len batch_id =
    if length chunks == length embeddings
    then some (zip_points avg_len batch_id chunks embeddings)
    else none

infixl 60 ◌&◌
abbrev ◌&◌ : String → String → String
s & t = String.◌++◌ s t

unfoldable pub audit_success : String → DecisionResult → ℕ → String
unfolding show
audit_success batch_id r indexed =
    "Succes — HITL batch "
    & batch_id
    & " → approved="
    & show (r.approved + r.default_approved)
    & " / edited="
    & show r.edited
    & " / rejected="
    & show r.rejected
    & " — indexed "
    & show indexed
    & " chunks"

unfoldable pub audit_all_rejected : String → DecisionResult → String
unfolding show
audit_all_rejected batch_id r =
    "All rejected — HITL batch "
    & batch_id
    & " dropped ("
    & show r.rejected
    & " chunks rejected). Nothing indexed."

abbrev pub actie_ingestie : String
actie_ingestie = "ingestie_hitl"

pub record Summary : Type 0 where
  pub approved : ℕ
  pub edited : ℕ
  pub rejected : ℕ
  pub indexed : ℕ

-- What `resume` returns or raises: `not_pending` is None; `bad_decisions` the TypeError,
-- `count_mismatch` the ValueError and `service_failed` the error of an HTTP call.
pub data Resumed : Type 0 where
  not_pending bad_decisions service_failed count_mismatch : Resumed
  rejected_all ingested : Summary → Resumed

-- The outcome, the store, and the points that the collection has accepted.
pub record Result : Type 0 where
  pub resumed : Resumed
  pub store : IngestionStore
  pub points : List Point

abbrev pub stopped : Resumed → IngestionStore → Result
stopped why s = record { resumed = why; store = s; points = [] }

abbrev pub ingested_of : DecisionResult → Summary
ingested_of r = record {
  approved = r.approved + r.default_approved;
  edited = r.edited;
  rejected = r.rejected;
  indexed = length r.kept;
}

module _ (services : Services) (now batch_id filename collection : String) where
  unfoldable pub upsert : DecisionResult → Option (List Point) → IngestionStore → Result
  unfolding insert_audit audit_success
  upsert r none s = stopped count_mismatch s
  upsert r (some points) s =
      if services.accept_points collection points
      then record {
        resumed = ingested (ingested_of r);
        store =
            (insert_audit filename actie_ingestie (audit_success batch_id r (length r.kept)) now
              s).1;
        points = points;
      }
      else stopped service_failed s

  unfoldable pub with_embeddings : DecisionResult → Option (List Vector) → IngestionStore → Result
  unfolding upsert build_points compute_avg_len
  with_embeddings r none s = stopped service_failed s
  with_embeddings r (some vectors) s =
      upsert r (build_points r.kept vectors (compute_avg_len r.kept) batch_id) s

  unfoldable pub index_kept : DecisionResult → IngestionStore → Result
  unfolding with_embeddings embed_texts
  index_kept r s =
      if services.ensure_collection collection
      then with_embeddings r (embed_texts services (map (λ c. c.text) r.kept)) s
      else stopped service_failed s

  unfoldable pub finish_review : DecisionResult → IngestionStore → Result
  unfolding index_kept insert_audit audit_all_rejected
  finish_review r s =
      if all_rejected r
      then record {
        resumed =
            rejected_all (record { approved = 0; edited = 0; rejected = r.rejected; indexed = 0 });
        store = (insert_audit filename actie_ingestie (audit_all_rejected batch_id r) now s).1;
        points = [];
      }
      else index_kept r s

abbrev pub collection_of : (default_collection_name : String) → Chunk → String
collection_of default_collection_name c = c.collection_name or default_collection_name

module _ (to_str : Json → String) (default_collection_name : String) (services : Services)
    (now batch_id : String) (decisions : List Json) where
  unfoldable pub finish_decided : Chunk → Option DecisionResult → IngestionStore → Result
  unfolding finish_review delete_batch
  finish_decided first none s = stopped bad_decisions s
  finish_decided first (some r) s =
      finish_review services now batch_id first.filename
        (collection_of default_collection_name first) r (delete_batch batch_id s)

  unfoldable pub resume_chunks : List Chunk → IngestionStore → Result
  unfolding finish_decided apply_decisions
  resume_chunks [] s = stopped not_pending s
  resume_chunks (c ∷ cs) s = finish_decided c (apply_decisions to_str (c ∷ cs) decisions) s

  unfoldable pub resume : IngestionStore → Result
  unfolding resume_chunks get_batch_chunks
  resume s = resume_chunks (get_batch_chunks batch_id s) s
