-- ===== src/Kb/Documents.antt =====
-- voice_agent/kb/documents.py: the documents of a collection. A reply of Qdrant is a parameter, by
-- the position in the scroll; `str` of a value and `str.lower` are parameters too.
pub mod Groups
pub mod Pages
mod Tests
use virtual_helmsman.Prelude.{
  ℕ, zero, suc, ◌-◌, min, String, Bool, true, false, ◌&&◌, Option, none, some, List, [], ◌∷◌, ◌++◌,
  length, ltb, ◌==◌, text_eq, truthy, if◌then◌else◌,
}
use virtual_helmsman.Json.{Json, null, str, Fields, get, is_truthy}
use virtual_helmsman.Kb.Store.{text_le}

pub record DocumentRow : Type 0 where
  pub document_id : String
  pub title : Option Json
  pub source : Option Json
  pub uploaded_at : Option Json
  pub chunk_count : ℕ

-- The names of the payload's fields, and the reach of the scroll.
pub record DocumentsRuntime : Type 0 where
  pub has_qdrant_url : Bool
  pub has_qdrant_collection : Bool
  pub document_id_field : String
  pub title_field : String
  pub source_field : String
  pub uploaded_at_field : String
  pub scroll_limit : ℕ

abbrev pub page_size : ℕ
page_size = 256

-- A page of points and where the next one begins, or the error of the call.
pub data ScrollReply : Type 0 where
  page : List Fields → (next_page_offset : Option ℕ) → ScrollReply
  unreachable : ScrollReply
  upstream_error : (status : ℕ) → ScrollReply

-- The points, the HTTP error 502, or that the fuel ran out.
pub data Scrolled : Type 0 where
  scrolled : List Fields → Scrolled
  bad_gateway out_of_rounds : Scrolled

pub data Listing : Type 0 where
  documents : List DocumentRow → Listing
  not_configured bad_gateway_reply no_key out_of_fuel : Listing

abbrev pub listing_of : Option (List DocumentRow) → Listing
listing_of none = no_key
listing_of (some rows) = documents rows

module _ (cfg : DocumentsRuntime) (to_str : Json → String) where
  abbrev pub shown_id : Option Json → Option String
  shown_id none = none
  shown_id (some null) = none
  shown_id (some (str s)) = some s
  shown_id (some v) = some (to_str v)

  -- str(payload.get(cfg.document_id_field)), where there is one
  unfoldable pub document_id_of : Fields → Option String
  unfolding get
  document_id_of payload = shown_id (get cfg.document_id_field payload)

  abbrev pub new_row : String → Fields → DocumentRow
  new_row id payload = record {
    document_id = id;
    title = get cfg.title_field payload;
    source = get cfg.source_field payload;
    uploaded_at = get cfg.uploaded_at_field payload;
    chunk_count = 1;
  }

  -- a new row, or one chunk more in the row that is there
  unfoldable pub count_point : String → Fields → List DocumentRow → List DocumentRow
  unfolding get
  count_point id payload [] = new_row id payload ∷ []
  count_point id payload (r ∷ rs) =
      let rest = count_point id payload rs in
      if text_eq r.document_id id
      then record r { chunk_count = suc r.chunk_count } ∷ rs
      else r ∷ rest

  abbrev pub add_point : Option String → Fields → List DocumentRow → List DocumentRow
  add_point none payload rows = rows
  add_point (some id) payload rows = count_point id payload rows

  -- the loop over the points
  unfoldable pub group_points : List DocumentRow → List Fields → List DocumentRow
  unfolding document_id_of count_point
  group_points rows [] = rows
  group_points rows (payload ∷ payloads) =
      group_points (add_point (document_id_of payload) payload rows) payloads

  module _ (lower : String → String) where
    -- (r.get("title") or r["document_id"]).lower(); a title that is no text has no such method
    abbrev pub title_key : Option Json → String → Option String
    title_key none id = some (lower id)
    title_key (some (str s)) id = some (lower (if truthy s then s else id))
    title_key (some v) id = if is_truthy v then none else some (lower id)

    abbrev pub keyed_row :
        Option String
        → DocumentRow
        → Option (List (String × DocumentRow))
        → Option (List (String × DocumentRow))
    keyed_row none r ks = none
    keyed_row (some key) r none = none
    keyed_row (some key) r (some ks) = some ((key, r) ∷ ks)

    unfoldable pub keyed : List DocumentRow → Option (List (String × DocumentRow))
    keyed [] = some []
    keyed (r ∷ rs) = keyed_row (title_key r.title r.document_id) r (keyed rs)

    unfoldable pub insert_by_key :
        String × DocumentRow → List (String × DocumentRow) → List (String × DocumentRow)
    insert_by_key r [] = r ∷ []
    insert_by_key r (q ∷ qs) =
        let rest = insert_by_key r qs in if text_le r.0 q.0 then r ∷ q ∷ qs else q ∷ rest

    unfoldable pub sort_by_key : List (String × DocumentRow) → List (String × DocumentRow)
    unfolding insert_by_key
    sort_by_key [] = []
    sort_by_key (r ∷ rs) = insert_by_key r (sort_by_key rs)

    abbrev pub rows_of : List (String × DocumentRow) → List DocumentRow
    rows_of [] = []
    rows_of ((key, r) ∷ ks) = r ∷ rows_of ks

    abbrev pub sorted_rows : Option (List (String × DocumentRow)) → Option (List DocumentRow)
    sorted_rows none = none
    sorted_rows (some ks) = some (rows_of (sort_by_key ks))

    -- `_group_documents`; `none` is the AttributeError of a title that is no text
    unfoldable pub group_documents : List Fields → Option (List DocumentRow)
    unfolding group_points keyed sort_by_key
    group_documents points = sorted_rows (keyed (group_points [] points))

  -- The scroll loop from an offset. `reply` is what Qdrant answers to a limit and an offset.
  module _ (reply : (limit : ℕ) → (offset : Option ℕ) → ScrollReply) where
    -- `if not offset or not points: break`
    abbrev pub is_last : Option ℕ → List Fields → Bool
    is_last none points = true
    is_last (some zero) points = true
    is_last (some (suc n)) [] = true
    is_last (some (suc n)) (p ∷ ps) = false

    abbrev pub page_limit : List Fields → ℕ
    page_limit found = min page_size (cfg.scroll_limit - length found)

    -- what the loop does with a reply, with what goes on from the next offset
    abbrev pub after_page :
        (List Fields → Option ℕ → Scrolled) → List Fields → ScrollReply → Scrolled
    after_page go found (page points next) =
        if is_last next points then scrolled (found ++ points) else go (found ++ points) next
    after_page go found unreachable = bad_gateway
    after_page go found (upstream_error status) = bad_gateway

    unfoldable pub scroll_pages : (fuel : ℕ) → (found : List Fields) → Option ℕ → Scrolled
    scroll_pages zero found offset = out_of_rounds
    scroll_pages (suc fuel) found offset =
        if ltb (length found) cfg.scroll_limit
        then after_page (scroll_pages fuel) found (reply (page_limit found) offset)
        else scrolled found

    abbrev pub listed : (String → String) → Scrolled → Listing
    listed lower bad_gateway = bad_gateway_reply
    listed lower out_of_rounds = out_of_fuel
    listed lower (scrolled points) = listing_of (group_documents lower points)

    -- the route of the listing
    unfoldable pub list_documents : (String → String) → Listing
    unfolding scroll_pages group_documents
    list_documents lower =
        if cfg.has_qdrant_url && cfg.has_qdrant_collection
        then listed lower (scroll_pages (suc cfg.scroll_limit) [] none)
        else not_configured

-- The end of a deletion: how many chunks it took away, or the HTTP error.
pub data Deletion : Type 0 where
  deleted : ℕ → Deletion
  delete_not_configured delete_bad_gateway not_found : Deletion

-- The route of the deletion. `count` and `delete` are the two requests on the points of the document:
-- the first one gives their number, either fails with 502.
unfoldable pub delete_document : DocumentsRuntime → (count : Option ℕ) → (delete : Bool) → Deletion
delete_document cfg count delete =
    if cfg.has_qdrant_url && cfg.has_qdrant_collection
    then (elim count [
      | none ↦ delete_bad_gateway
      | some zero ↦ not_found
      | some (suc n) ↦ if delete then deleted (suc n) else delete_bad_gateway
    ])
    else delete_not_configured
