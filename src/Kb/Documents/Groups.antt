-- ===== src/Kb/Documents/Groups.antt =====
-- The documents of `_group_documents` account for every point that carries a document id.
use virtual_helmsman.Prelude.{
  ℕ, suc, ◌+◌, ◌≡◌, refl, ◌∙◌, ap, sym, Option, none, some, List, [], ◌∷◌, Option-cases, inl, inr,
  arith, String,
}
use mathlib.Core.Option.{some-injective}
use virtual_helmsman.Json.{Json, Fields}
use virtual_helmsman.Kb.Documents.{
  DocumentRow, DocumentsRuntime, document_id_of, count_point, add_point, group_points, title_key,
  keyed_row, keyed, insert_by_key, sort_by_key, rows_of, group_documents,
}

-- The chunks of all documents.
abbrev pub total_chunks : List DocumentRow → ℕ
total_chunks [] = 0
total_chunks (r ∷ rs) = r.chunk_count + total_chunks rs

abbrev pub one_if : Option String → ℕ
one_if none = 0
one_if (some id) = 1

module _ (cfg : DocumentsRuntime) (to_str : Json → String) where
  -- The points that carry a document id.
  abbrev pub carrying : List Fields → ℕ
  carrying [] = 0
  carrying (p ∷ ps) = one_if (document_id_of cfg to_str p) + carrying ps

  total_chunks-count_point :
      (id : String) (p : Fields) (rs : List DocumentRow)
      → total_chunks (count_point cfg to_str id p rs) ≡ suc (total_chunks rs)
  unfolding count_point
  total_chunks-count_point id p [] = omega arith
  total_chunks-count_point id p (r ∷ rs) = ground (arith, total_chunks-count_point id p rs)

  total_chunks-add_point :
      (o : Option String) (p : Fields) (rs : List DocumentRow)
      → total_chunks (add_point cfg to_str o p rs) ≡ one_if o + total_chunks rs
  total_chunks-add_point none p rs = omega arith
  total_chunks-add_point (some id) p rs = omega (arith, total_chunks-count_point id p rs)

  total_chunks-group_points :
      (rs : List DocumentRow) (ps : List Fields)
      → total_chunks (group_points cfg to_str rs ps) ≡ total_chunks rs + carrying ps
  unfolding group_points
  total_chunks-group_points rs [] = omega arith
  total_chunks-group_points rs (p ∷ ps) = omega (
    arith,
    total_chunks-group_points (add_point cfg to_str (document_id_of cfg to_str p) p rs) ps,
    total_chunks-add_point (document_id_of cfg to_str p) p rs,
  )

  module _ (lower : String → String) where
    keyed_row-rows_of :
        (o : Option String) (r : DocumentRow) (k : Option (List (String × DocumentRow)))
        (rs : List DocumentRow) (ks : List (String × DocumentRow))
        → ((qs : List (String × DocumentRow)) → k ≡ some qs → rows_of cfg to_str lower qs ≡ rs)
        → keyed_row cfg to_str lower o r k ≡ some ks
        → rows_of cfg to_str lower ks ≡ r ∷ rs
    keyed_row-rows_of none r k rs ks f e = cc
    keyed_row-rows_of (some key) r none rs ks f e = cc
    keyed_row-rows_of (some key) r (some qs) rs ks f e =
        ap (rows_of cfg to_str lower) (sym (some-injective _ _ e)) ∙ ap (λ l. r ∷ l) (f qs refl)

    keyed-rows_of :
        (rs : List DocumentRow) (ks : List (String × DocumentRow))
        → keyed cfg to_str lower rs ≡ some ks
        → rows_of cfg to_str lower ks ≡ rs
    unfolding keyed
    keyed-rows_of [] ks e = ap (rows_of cfg to_str lower) (sym (some-injective _ _ e))
    keyed-rows_of (r ∷ rs) ks e =
        keyed_row-rows_of (title_key cfg to_str lower r.title r.document_id) r
          (keyed cfg to_str lower rs) rs ks (keyed-rows_of rs) e

    total_chunks-insert_by_key :
        (r : String × DocumentRow) (qs : List (String × DocumentRow))
        → total_chunks (rows_of cfg to_str lower (insert_by_key cfg to_str lower r qs))
          ≡ r.1.chunk_count + total_chunks (rows_of cfg to_str lower qs)
    unfolding insert_by_key
    total_chunks-insert_by_key r [] = omega arith
    total_chunks-insert_by_key r (q ∷ qs) = ground (arith, total_chunks-insert_by_key r qs)

    total_chunks-sort_by_key :
        (ks : List (String × DocumentRow))
        → total_chunks (rows_of cfg to_str lower (sort_by_key cfg to_str lower ks))
          ≡ total_chunks (rows_of cfg to_str lower ks)
    unfolding sort_by_key
    total_chunks-sort_by_key [] = refl
    total_chunks-sort_by_key (r ∷ rs) = omega (
      arith,
      total_chunks-insert_by_key r (sort_by_key cfg to_str lower rs),
      total_chunks-sort_by_key rs,
    )

    -- The chunk counts of the listed documents add up to the points that carry a document id: no
    -- such point is left out or counted twice.
    pub total_chunks-group_documents :
        (points : List Fields) (rows : List DocumentRow)
        → group_documents cfg to_str lower points ≡ some rows
        → total_chunks rows ≡ carrying points
    unfolding group_documents
    total_chunks-group_documents points rows e =
        elim (Option-cases (keyed cfg to_str lower (group_points cfg to_str [] points))) [
          | inl h ↦ ground arith
          | inr (ks, h) ↦
              let t : rows ≡ rows_of cfg to_str lower (sort_by_key cfg to_str lower ks) =
                ground arith in
              let u = keyed-rows_of (group_points cfg to_str [] points) ks h in
              rw t (
                omega (
                  arith,
                  total_chunks-sort_by_key ks,
                  ap total_chunks u,
                  total_chunks-group_points [] points,
                ))
        ]
