-- ===== src/Kb/Store/Batches.antt =====
-- `list_pending_batches` of store.py: the pending rows by their batch, for the review page. The rows
-- come in the order of the table; their metadata is always JSON, which the store itself wrote.
use virtual_helmsman.Prelude.{
  ℕ, suc, ◌+◌, ◌≡◌, refl, String, List, [], ◌∷◌, ◌++◌, length, text_eq, if◌then◌else◌, arith,
}
use virtual_helmsman.Kb.Metadata.{Text, Chunk}
use virtual_helmsman.Kb.Store.{PendingRow, IngestionStore, text_le}

pub record PendingChunk : Type 0 where
  pub chunk_id : String
  pub text : Text
  pub metadata : Chunk

pub record PendingBatch : Type 0 where
  pub batch_id : String
  pub filename : String
  pub collection_name : String
  pub created_at : String
  pub pending_chunk_count : ℕ
  pub chunks : List PendingChunk

-- WHERE status = 'pending'
unfoldable pub pending_rows : List PendingRow → List PendingRow
pending_rows [] = []
pending_rows (r ∷ rs) =
    let rest = pending_rows rs in if text_eq r.status "pending" then r ∷ rest else rest

abbrev pub chunk_of : PendingRow → PendingChunk
chunk_of r = record { chunk_id = r.chunk_id; text = r.chunk_text; metadata = r.metadata }

-- by_batch.setdefault(...) for a batch that is not there, with its first chunk
abbrev pub new_batch : PendingRow → PendingBatch
new_batch r = record {
  batch_id = r.batch_id;
  filename = r.filename;
  collection_name = r.collection_name;
  created_at = r.created_at;
  pending_chunk_count = 1;
  chunks = chunk_of r ∷ [];
}

abbrev pub with_chunk : PendingRow → PendingBatch → PendingBatch
with_chunk r b = record b {
  pending_chunk_count = suc b.pending_chunk_count;
  chunks = b.chunks ++ chunk_of r ∷ [];
}

unfoldable pub add_row : PendingRow → List PendingBatch → List PendingBatch
add_row r [] = new_batch r ∷ []
add_row r (b ∷ bs) =
    let rest = add_row r bs in
    if text_eq b.batch_id r.batch_id then with_chunk r b ∷ bs else b ∷ rest

-- the loop over the rows
unfoldable pub by_batch : List PendingBatch → List PendingRow → List PendingBatch
unfolding add_row
by_batch batches [] = batches
by_batch batches (r ∷ rs) = by_batch (add_row r batches) rs

-- sorted with reverse=True keeps the order of batches of one time
unfoldable pub insert_newest_batch : PendingBatch → List PendingBatch → List PendingBatch
insert_newest_batch b [] = b ∷ []
insert_newest_batch b (q ∷ qs) =
    let rest = insert_newest_batch b qs in
    if text_le q.created_at b.created_at then b ∷ q ∷ qs else q ∷ rest

unfoldable pub insert_chunk : PendingChunk → List PendingChunk → List PendingChunk
insert_chunk c [] = c ∷ []
insert_chunk c (d ∷ ds) =
    let rest = insert_chunk c ds in if text_le c.chunk_id d.chunk_id then c ∷ d ∷ ds else d ∷ rest

unfoldable pub sort_chunks : List PendingChunk → List PendingChunk
unfolding insert_chunk
sort_chunks [] = []
sort_chunks (c ∷ cs) = insert_chunk c (sort_chunks cs)

unfoldable pub newest_batches : List PendingBatch → List PendingBatch
unfolding insert_newest_batch sort_chunks
newest_batches [] = []
newest_batches (b ∷ bs) =
    insert_newest_batch (record b { chunks = sort_chunks b.chunks }) (newest_batches bs)

unfoldable pub list_pending_batches : IngestionStore → List PendingBatch
unfolding pending_rows by_batch newest_batches
list_pending_batches s = newest_batches (by_batch [] (pending_rows s.pending))

abbrev total_pending : List PendingBatch → ℕ
total_pending [] = 0
total_pending (b ∷ bs) = b.pending_chunk_count + total_pending bs

total_pending-add_row :
    (r : PendingRow) (bs : List PendingBatch)
    → total_pending (add_row r bs) ≡ suc (total_pending bs)
unfolding add_row
total_pending-add_row r [] = omega arith
total_pending-add_row r (b ∷ bs) = ground (arith, total_pending-add_row r bs)

total_pending-by_batch :
    (bs : List PendingBatch) (rs : List PendingRow)
    → total_pending (by_batch bs rs) ≡ total_pending bs + length rs
unfolding by_batch
total_pending-by_batch bs [] = omega arith
total_pending-by_batch bs (r ∷ rs) =
    omega (arith, total_pending-by_batch (add_row r bs) rs, total_pending-add_row r bs)

total_pending-insert_newest_batch :
    (b : PendingBatch) (bs : List PendingBatch)
    → total_pending (insert_newest_batch b bs) ≡ b.pending_chunk_count + total_pending bs
unfolding insert_newest_batch
total_pending-insert_newest_batch b [] = omega arith
total_pending-insert_newest_batch b (q ∷ qs) =
    ground (arith, total_pending-insert_newest_batch b qs)

total_pending-newest_batches :
    (bs : List PendingBatch) → total_pending (newest_batches bs) ≡ total_pending bs
unfolding newest_batches
total_pending-newest_batches [] = refl
total_pending-newest_batches (b ∷ bs) = omega (
  arith,
  total_pending-insert_newest_batch (record b { chunks = sort_chunks b.chunks })
      (newest_batches bs),
  total_pending-newest_batches bs,
)

-- The counts of the listed batches add up to the pending rows of the table.
total_pending-list_pending_batches :
    (s : IngestionStore) → total_pending (list_pending_batches s) ≡ length (pending_rows s.pending)
unfolding list_pending_batches
total_pending-list_pending_batches s = omega (
  arith,
  total_pending-newest_batches (by_batch [] (pending_rows s.pending)),
  total_pending-by_batch [] (pending_rows s.pending),
)
