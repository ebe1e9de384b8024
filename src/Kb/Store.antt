-- ===== src/Kb/Store.antt =====
-- voice_agent/kb/ingestion/store.py: the two tables. Each method is one transaction; `now` is the
-- clock's text. A row's metadata is the dictionary that `json.dumps` wrote and `json.loads` reads.
pub mod Pending
pub mod Newest
pub mod Audit
pub mod Batches
use Prim.Native.String.{compare as compare_text}
use text.Mathlib.Text.{is_le, is_lt}
use virtual_helmsman.Prelude.{
  ℕ, zero, suc, ◌-◌, ◌≤◌, String, Bool, true, false, not, ◌&&◌, ◌||◌, Option, none, some, List, [],
  ◌∷◌, ◌++◌, length, ltb, leb, min, text_eq, truthy, strip, if◌then◌else◌, map, ◌==◌,
}
use virtual_helmsman.Prelude.Int.{ℤ, pos, negsuc, ltb_ℤ}
use virtual_helmsman.Kb.Metadata.{Text, Chunk}

pub record PendingRow : Type 0 where
  pub batch_id : String
  pub chunk_id : String
  pub filename : String
  pub collection_name : String
  pub chunk_text : Text
  pub metadata : Chunk
  pub status : String
  pub created_at : String

pub record AuditRow : Type 0 where
  pub id : ℕ
  pub created_at : String
  pub document_naam : String
  pub actie : String
  pub resultaat : String

-- The two tables, with the counter of AUTOINCREMENT.
pub record IngestionStore : Type 0 where
  pub pending : List PendingRow
  pub audit : List AuditRow
  pub last_id : ℕ

abbrev pub empty_store : IngestionStore
empty_store = record { pending = []; audit = []; last_id = 0 }

unfoldable pub row_of : String → String → Chunk → PendingRow
row_of batch_id now c = record {
  batch_id = batch_id;
  chunk_id = c.chunk_id;
  filename = c.filename;
  collection_name = c.collection_name;
  chunk_text = c.text;
  metadata = c;
  status = "pending";
  created_at = now;
}

-- PRIMARY KEY (batch_id, chunk_id)
abbrev pub has_key : String → String → PendingRow → Bool
has_key batch_id chunk_id row = text_eq row.batch_id batch_id && text_eq row.chunk_id chunk_id

unfoldable pub remove_key : String → String → List PendingRow → List PendingRow
remove_key batch_id chunk_id [] = []
remove_key batch_id chunk_id (row ∷ rows) =
    let rest = remove_key batch_id chunk_id rows in
    if has_key batch_id chunk_id row then rest else row ∷ rest

-- INSERT OR REPLACE
unfoldable pub replace_row : PendingRow → List PendingRow → List PendingRow
unfolding remove_key
replace_row row rows = remove_key row.batch_id row.chunk_id rows ++ row ∷ []

-- executemany
unfoldable pub replace_rows : List PendingRow → List PendingRow → List PendingRow
unfolding replace_row
replace_rows [] rows = rows
replace_rows (row ∷ more) rows = replace_rows more (replace_row row rows)

unfoldable pub write_pending_batch : String → List Chunk → String → IngestionStore → IngestionStore
unfolding replace_rows row_of
write_pending_batch batch_id chunks now s = record s {
  pending = replace_rows (map (row_of batch_id now) chunks) s.pending;
}

-- WHERE batch_id = ? AND status = 'pending'
unfoldable pub rows_of_batch : String → List PendingRow → List PendingRow
rows_of_batch batch_id [] = []
rows_of_batch batch_id (row ∷ rows) =
    let rest = rows_of_batch batch_id rows in
    if text_eq row.batch_id batch_id && text_eq row.status "pending" then row ∷ rest else rest

-- the binary order of SQLite's texts
abbrev pub text_le : String → String → Bool
text_le a b = is_le (compare_text a b)

unfoldable pub insert_by_chunk_id : PendingRow → List PendingRow → List PendingRow
insert_by_chunk_id row [] = row ∷ []
insert_by_chunk_id row (r ∷ rs) =
    if text_le row.chunk_id r.chunk_id then row ∷ r ∷ rs else r ∷ insert_by_chunk_id row rs

-- ORDER BY chunk_id
unfoldable pub order_by_chunk_id : List PendingRow → List PendingRow
unfolding insert_by_chunk_id
order_by_chunk_id [] = []
order_by_chunk_id (row ∷ rows) = insert_by_chunk_id row (order_by_chunk_id rows)

unfoldable pub get_batch_chunks : String → IngestionStore → List Chunk
unfolding rows_of_batch order_by_chunk_id
get_batch_chunks batch_id s =
    map (λ row. row.metadata) (order_by_chunk_id (rows_of_batch batch_id s.pending))

unfoldable pub without_batch : String → List PendingRow → List PendingRow
without_batch batch_id [] = []
without_batch batch_id (row ∷ rows) =
    let rest = without_batch batch_id rows in
    if text_eq row.batch_id batch_id then rest else row ∷ rest

unfoldable pub delete_batch : String → IngestionStore → IngestionStore
unfolding without_batch
delete_batch batch_id s = record s { pending = without_batch batch_id s.pending }

unfoldable pub insert_audit :
    (document_naam actie resultaat now : String) → IngestionStore → AuditRow × IngestionStore
insert_audit document_naam actie resultaat now s =
    let row : AuditRow = record {
      id = suc s.last_id;
      created_at = now;
      document_naam = document_naam;
      actie = actie;
      resultaat = resultaat;
    } in
    (row, record s { audit = s.audit ++ row ∷ []; last_id = suc s.last_id })

-- A datetime: an instant, read in a zone or without one.
pub record Stamp : Type 0 where
  pub aware : Bool
  pub instant : ℕ

pub data Before : Type 0 where
  earlier later incomparable : Before

abbrev pub differ : Bool → Bool → Bool
differ true true = false
differ false false = false
differ _ _ = true

-- a < b on datetimes: one with a zone is not compared with one without, a TypeError
abbrev pub before : Stamp → Stamp → Before
before a b =
    if differ a.aware b.aware
    then incomparable
    else if ltb a.instant b.instant
    then earlier
    else later

-- limit if limit is not None and limit > 0 else 50, capped at 500
unfoldable pub eff_limit : Option ℤ → ℕ
eff_limit (some (pos (suc n))) = min (suc n) 500
eff_limit _ = 50

abbrev pub or_empty : Option String → String
or_empty none = ""
or_empty (some s) = s

-- whether r comes before r' in ORDER BY created_at DESC, id DESC
abbrev pub is_newer : AuditRow → AuditRow → Bool
is_newer r r' =
    if text_eq r.created_at r'.created_at
    then leb r'.id r.id
    else text_le r'.created_at r.created_at

unfoldable pub insert_newest : AuditRow → List AuditRow → List AuditRow
insert_newest row [] = row ∷ []
insert_newest row (r ∷ rs) =
    let rest = insert_newest row rs in if is_newer row r then row ∷ r ∷ rs else r ∷ rest

unfoldable pub newest_first : List AuditRow → List AuditRow
unfolding insert_newest
newest_first [] = []
newest_first (row ∷ rows) = insert_newest row (newest_first rows)

-- What the filters do with a row.
pub data Verdict : Type 0 where
  passes skips raises : Verdict

pub record AuditPage : Type 0 where
  pub total_in_log : ℕ
  pub limit : ℕ
  pub actie : String
  pub entries : List AuditRow

-- `_parse_ts` is a parameter: `datetime.fromisoformat` after `Z` is put as an offset
module _ (parse_ts : String → Option Stamp) where
  -- the stamp of `since`, none where it is missing, blank or not parsed
  abbrev pub since_stamp : Option String → Option Stamp
  since_stamp none = none
  since_stamp (some s) = if truthy (strip s) then parse_ts (strip s) else none

  abbrev pub not_before : Stamp → Stamp → Verdict
  not_before ts since = elim (before ts since) [
    | earlier ↦ skips
    | later ↦ passes
    | incomparable ↦ raises
  ]

  abbrev pub judge_since : Option Stamp → AuditRow → Verdict
  judge_since none r = passes
  judge_since (some since) r = elim (parse_ts r.created_at) [
    | none ↦ skips
    | some ts ↦ not_before ts since
  ]

  unfoldable pub judge : String → Option Stamp → AuditRow → Verdict
  judge actie since r =
      if truthy actie && not (text_eq r.actie actie) then skips else judge_since since r

  -- the loop over the rows; `none` is the TypeError, and the loop is left at the limit
  unfoldable pub collect :
      (room : ℕ) → String → Option Stamp → List AuditRow → Option (List AuditRow)
  unfolding judge
  collect room actie since [] = some []
  collect room actie since (r ∷ rs) =
      let rest = collect room actie since rs in
      let after = if leb room 1 then some [] else collect (room - 1) actie since rs in
      elim (judge actie since r) [
        | passes ↦ elim after [ none ↦ none | some es ↦ some (r ∷ es) ]
        | skips ↦ rest
        | raises ↦ none
      ]

  unfoldable pub query_audit :
      Option ℤ → (actie since : Option String) → IngestionStore → Option AuditPage
  unfolding eff_limit newest_first collect
  query_audit limit actie since s =
      elim (collect (eff_limit limit) (strip (or_empty actie)) (since_stamp since)
        (newest_first s.audit)) [
          | none ↦ none
          | some entries ↦ some (record {
            total_in_log = length s.audit;
            limit = eff_limit limit;
            actie = strip (or_empty actie);
            entries = entries;
          })
        ]
