-- ===== src/Kb/Store/Pending.antt =====
-- The table of pending chunks: what is written is read back until the batch is deleted.
use virtual_helmsman.Prelude.{
  ◌≡◌, refl, ◌∙◌, ap, sym, false, List, [], ◌∷◌, ◌++◌, arith, String, text_eq, eq_iff, eq_refl,
  Bool-cases, inl, inr, map, subst,
}
use mathlib.Core.List.{append_assoc, append-nil}
use mathlib.Core.List.{Permᴰ}
use mathlib.Core.List.Permᴰ
use virtual_helmsman.Kb.Metadata.{Chunk}
use virtual_helmsman.Kb.Store.{
  PendingRow, IngestionStore, row_of, has_key, remove_key, replace_rows, write_pending_batch,
  rows_of_batch, order_by_chunk_id, get_batch_chunks, without_batch, delete_batch,
  insert_by_chunk_id, text_le,
}

pub rows_of_batch-without_batch :
    (b : String) (rows : List PendingRow) → rows_of_batch b (without_batch b rows) ≡ []
unfolding rows_of_batch without_batch
rows_of_batch-without_batch b [] = refl
rows_of_batch-without_batch b (r ∷ rs) = ground (arith, rows_of_batch-without_batch b rs)

pub rows_of_other-without_batch :
    (b c : String) (rows : List PendingRow)
    → text_eq c b ≡ false
    → rows_of_batch c (without_batch b rows) ≡ rows_of_batch c rows
unfolding rows_of_batch without_batch
rows_of_other-without_batch b c [] h = refl
rows_of_other-without_batch b c (r ∷ rs) h =
    grind (arith, rows_of_other-without_batch b c rs h, eq_iff)

-- Once a batch is deleted it has no chunk to review.
pub get_batch_chunks-delete_batch :
    (b : String) (s : IngestionStore) → get_batch_chunks b (delete_batch b s) ≡ []
unfolding get_batch_chunks delete_batch order_by_chunk_id
get_batch_chunks-delete_batch b s = rw (rows_of_batch-without_batch b s.pending)

-- Deleting a batch leaves the chunks of every other batch to be reviewed as they were.
get_batch_chunks_other-delete_batch :
    (b c : String) (s : IngestionStore)
    → text_eq c b ≡ false
    → get_batch_chunks c (delete_batch b s) ≡ get_batch_chunks c s
unfolding get_batch_chunks delete_batch
get_batch_chunks_other-delete_batch b c s h =
    ap (λ rows. map (λ row. row.metadata) (order_by_chunk_id rows))
      (rows_of_other-without_batch b c s.pending h)

-- The name of a chunk is not among those of the others.
abbrev pub IsUnnamed : String → List Chunk → Type 0
IsUnnamed id [] = Unit
IsUnnamed id (d ∷ ds) = (text_eq id d.chunk_id ≡ false) × IsUnnamed id ds

abbrev pub AllDistinct : List Chunk → Type 0
AllDistinct [] = Unit
AllDistinct (c ∷ cs) = IsUnnamed c.chunk_id cs × AllDistinct cs

-- No row has the key.
abbrev pub IsAbsent : String → String → List PendingRow → Type 0
IsAbsent b id [] = Unit
IsAbsent b id (r ∷ rs) = (has_key b id r ≡ false) × IsAbsent b id rs

abbrev pub AllAbsent : String → List Chunk → List PendingRow → Type 0
AllAbsent b [] rows = Unit
AllAbsent b (c ∷ cs) rows = IsAbsent b c.chunk_id rows × AllAbsent b cs rows

remove_key-IsAbsent :
    (b id : String) (rows : List PendingRow) → IsAbsent b id rows → remove_key b id rows ≡ rows
unfolding remove_key
remove_key-IsAbsent b id [] h = refl
remove_key-IsAbsent b id (r ∷ rs) (h, hs) =
    rw h (ap (λ rest. r ∷ rest) (remove_key-IsAbsent b id rs hs))

IsAbsent-append :
    (b id now : String) (c : Chunk) (rows : List PendingRow)
    → IsAbsent b id rows
    → text_eq c.chunk_id id ≡ false
    → IsAbsent b id (rows ++ row_of b now c ∷ [])
unfolding row_of
IsAbsent-append b id now c [] h e = (ground (arith, eq_refl b), tt)
IsAbsent-append b id now c (r ∷ rs) (h, hs) e = (h, IsAbsent-append b id now c rs hs e)

AllAbsent-append :
    (b now : String) (c : Chunk) (cs : List Chunk) (rows : List PendingRow)
    → IsUnnamed c.chunk_id cs
    → AllAbsent b cs rows
    → AllAbsent b cs (rows ++ row_of b now c ∷ [])
AllAbsent-append b now c [] rows u h = tt
AllAbsent-append b now c (d ∷ ds) rows (u, us) (h, hs) =
    (IsAbsent-append b d.chunk_id now c rows h u, AllAbsent-append b now c ds rows us hs)

replace_rows-AllAbsent :
    (b now : String) (cs : List Chunk) (rows : List PendingRow)
    → AllDistinct cs
    → AllAbsent b cs rows
    → replace_rows (map (row_of b now) cs) rows ≡ rows ++ map (row_of b now) cs
unfolding replace_rows row_of
replace_rows-AllAbsent b now [] rows d h = sym (append-nil rows)
replace_rows-AllAbsent b now (c ∷ cs) rows (u, d) (h, hs) =
    ap (λ kept. replace_rows (map (row_of b now) cs) (kept ++ row_of b now c ∷ []))
      (remove_key-IsAbsent b c.chunk_id rows h)
    ∙ replace_rows-AllAbsent b now cs (rows ++ row_of b now c ∷ []) d
        (AllAbsent-append b now c cs rows u hs)
    ∙ append_assoc rows (row_of b now c ∷ []) (map (row_of b now) cs)

-- No row belongs to the batch.
abbrev pub IsFresh : String → List PendingRow → Type 0
IsFresh b [] = Unit
IsFresh b (r ∷ rs) = (text_eq r.batch_id b ≡ false) × IsFresh b rs

IsFresh-IsAbsent : (b id : String) (rows : List PendingRow) → IsFresh b rows → IsAbsent b id rows
IsFresh-IsAbsent b id [] h = tt
IsFresh-IsAbsent b id (r ∷ rs) (h, hs) = (ground (arith, h), IsFresh-IsAbsent b id rs hs)

IsFresh-AllAbsent :
    (b : String) (cs : List Chunk) (rows : List PendingRow) → IsFresh b rows → AllAbsent b cs rows
IsFresh-AllAbsent b [] rows h = tt
IsFresh-AllAbsent b (c ∷ cs) rows h =
    (IsFresh-IsAbsent b c.chunk_id rows h, IsFresh-AllAbsent b cs rows h)

rows_of_batch-map :
    (b now : String) (cs : List Chunk)
    → rows_of_batch b (map (row_of b now) cs) ≡ map (row_of b now) cs
unfolding rows_of_batch row_of
rows_of_batch-map b now [] = refl
rows_of_batch-map b now (c ∷ cs) = grind (arith, eq_refl b, rows_of_batch-map b now cs)

rows_of_batch-append :
    (b : String) (rows more : List PendingRow)
    → IsFresh b rows
    → rows_of_batch b (rows ++ more) ≡ rows_of_batch b more
unfolding rows_of_batch
rows_of_batch-append b [] more h = refl
rows_of_batch-append b (r ∷ rs) more (h, hs) = rw h (rows_of_batch-append b rs more hs)

insert_by_chunk_id-Perm :
    (row : PendingRow) (rows : List PendingRow) → Permᴰ (insert_by_chunk_id row rows) (row ∷ rows)
unfolding insert_by_chunk_id
insert_by_chunk_id-Perm row [] = Permᴰ.refl (row ∷ [])
insert_by_chunk_id-Perm row (r ∷ rs) = elim (Bool-cases (text_le row.chunk_id r.chunk_id)) [
  | inl h ↦ rw h (Permᴰ.refl (row ∷ r ∷ rs))
  | inr h ↦
      rw h (Permᴰ.trans (Permᴰ.cons refl (insert_by_chunk_id-Perm row rs)) (Permᴰ.swap refl refl))
]

order_by_chunk_id-Perm : (rows : List PendingRow) → Permᴰ (order_by_chunk_id rows) rows
unfolding order_by_chunk_id
order_by_chunk_id-Perm [] = Permᴰ.nil
order_by_chunk_id-Perm (r ∷ rs) =
    Permᴰ.trans (insert_by_chunk_id-Perm r (order_by_chunk_id rs))
      (Permᴰ.cons refl (order_by_chunk_id-Perm rs))

metadata-Perm :
    {rows rows' : List PendingRow}
    → Permᴰ rows rows'
    → Permᴰ (map (λ row. row.metadata) rows) (map (λ row. row.metadata) rows')
metadata-Perm Permᴰ.nil = Permᴰ.nil
metadata-Perm (Permᴰ.cons e p) = Permᴰ.cons (ap (λ row. row.metadata) e) (metadata-Perm p)
metadata-Perm (Permᴰ.swap e f) =
    Permᴰ.swap (ap (λ row. row.metadata) e) (ap (λ row. row.metadata) f)
metadata-Perm (Permᴰ.trans p q) = Permᴰ.trans (metadata-Perm p) (metadata-Perm q)

metadata-row_of :
    (b now : String) (cs : List Chunk) → map (λ row. row.metadata) (map (row_of b now) cs) ≡ cs
unfolding row_of
metadata-row_of b now [] = refl
metadata-row_of b now (c ∷ cs) = ap (λ rest. c ∷ rest) (metadata-row_of b now cs)

-- A new batch whose chunks have different names is read back chunk for chunk, each once, in some
-- order.
pub get_batch_chunks-write_pending_batch :
    (b now : String) (cs : List Chunk) (s : IngestionStore)
    → IsFresh b s.pending
    → AllDistinct cs
    → Permᴰ (get_batch_chunks b (write_pending_batch b cs now s)) cs
unfolding get_batch_chunks write_pending_batch
get_batch_chunks-write_pending_batch b now cs s f d =
    let rows : rows_of_batch b (replace_rows (map (row_of b now) cs) s.pending)
        ≡ map (row_of b now) cs =
      ap (rows_of_batch b)
        (replace_rows-AllAbsent b now cs s.pending d (IsFresh-AllAbsent b cs s.pending f))
      ∙ rows_of_batch-append b s.pending (map (row_of b now) cs) f
      ∙ rows_of_batch-map b now cs in
    subst (Permᴰ (get_batch_chunks b (write_pending_batch b cs now s))) (metadata-row_of b now cs) (
      subst
        (λ r.
          Permᴰ (get_batch_chunks b (write_pending_batch b cs now s)) (map (λ row. row.metadata) r))
        rows
        (metadata-Perm (
          order_by_chunk_id-Perm
            (rows_of_batch b (replace_rows (map (row_of b now) cs) s.pending)))))
