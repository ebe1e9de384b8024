-- ===== src/Kb/Engine/Settled.antt =====
-- What the end of a review leaves behind: the rows of the audit log, the points of the collection,
-- and the count of the chunks.
use virtual_helmsman.Prelude.{
  ℕ, ◌+◌, ◌≤◌, ◌≡◌, refl, String, true, false, Option, none, some, List, [], ◌∷◌, arith, length,
  length-append, ◌==◌, ==_iff, Bool-cases, inl, inr, map, ◌⊎◌,
}
use virtual_helmsman.Kb.Metadata.{Chunk}
use virtual_helmsman.Kb.Metadata.Review.{DecisionResult, all_rejected}
use virtual_helmsman.Kb.Metadata.Decisions.{IsCounted}
use virtual_helmsman.Kb.Store.{IngestionStore, insert_audit}
use virtual_helmsman.Kb.Engine.{
  Vector, Mean, Services, Resumed, service_failed, count_mismatch, rejected_all, ingested, Result,
  zip_points, build_points, upsert, stopped, with_embeddings, index_kept, finish_review,
  embed_texts, compute_avg_len,
}

length-zip_points :
    (avg_len : Mean) (b : String) (cs : List Chunk) (vs : List Vector)
    → length cs ≡ length vs
    → length (zip_points avg_len b cs vs) ≡ length cs
unfolding zip_points
length-zip_points avg_len b [] vs e = refl
length-zip_points avg_len b (c ∷ cs) [] e = omega arith
length-zip_points avg_len b (c ∷ cs) (v ∷ vs) e =
    omega (arith, length-zip_points avg_len b cs vs (omega arith))

-- The audit log after a review that ended well has one more row; after one that did not it is
-- unchanged.
abbrev pub rows_added : Resumed → ℕ
rows_added (rejected_all s) = 1
rows_added (ingested s) = 1
rows_added _ = 0

-- Every chunk of the batch is counted once, and what is counted as kept is what is indexed.
abbrev pub Accounts : ℕ → Resumed → ℕ → Type 0
Accounts n (ingested s) points =
    (s.approved + s.edited ≡ points)
    × (s.indexed ≡ points)
    × (points + s.rejected ≡ n)
    × (1 ≤ points)
Accounts n (rejected_all s) points = (points ≡ 0) × (s.rejected ≡ n)
Accounts n service_failed points = points ≡ 0
Accounts n count_mismatch points = points ≡ 0
Accounts n _ points = ⊥

-- What a review leaves: the pending rows of `pending`, `audit` with a row more if it ended well,
-- and a summary that accounts for the chunks.
pub record IsSettled (n : ℕ) (before : IngestionStore) (r : Result) : Type 0 where
  pub pending_kept : r.store.pending ≡ before.pending
  pub audited : length r.store.audit ≡ length before.audit + rows_added r.resumed
  pub accounted : Accounts n r.resumed (length r.points)

insert_audit-length :
    (naam actie resultaat now : String) (s : IngestionStore)
    → length (insert_audit naam actie resultaat now s).1.audit ≡ length s.audit + 1
unfolding insert_audit
insert_audit-length naam actie resultaat now s = length-append s.audit (_ ∷ [])

stopped-IsSettled :
    (n : ℕ) (why : Resumed) (s : IngestionStore)
    → rows_added why ≡ 0
    → Accounts n why 0
    → IsSettled n s (stopped why s)
stopped-IsSettled n why s e a = record {
  pending_kept = refl;
  audited = omega (arith, e);
  accounted = a;
}

all_rejected-cases :
    (r : DecisionResult)
    → ((all_rejected r ≡ true) × (length r.kept ≡ 0))
      ⊎ ((all_rejected r ≡ false) × (1 ≤ length r.kept))
all_rejected-cases r = ground arith

module _ (services : Services) (now batch_id filename collection : String) where
  upsert-IsSettled :
      (n : ℕ) (r : DecisionResult) (vs : List Vector) (m : Mean) (s : IngestionStore)
      → IsCounted n r
      → 1 ≤ length r.kept
      → IsSettled n s
          (upsert services now batch_id filename collection r (build_points r.kept vs m batch_id) s)
  unfolding upsert build_points insert_audit
  upsert-IsSettled n r vs m s c p = elim (Bool-cases (length r.kept == length vs)) [
    | inr e ↦ rw e (stopped-IsSettled n count_mismatch s refl refl)
    | inl e ↦
        elim (Bool-cases (services.accept_points collection (zip_points m batch_id r.kept vs))) [
          | inr f ↦ rw (e, f) (stopped-IsSettled n service_failed s refl refl)
          | inl f ↦
              rw (e, f)
                (record {
                  pending_kept = refl;
                  audited = length-append s.audit (_ ∷ []);
                  accounted = ground (
                    arith,
                    c.kept_count,
                    c.all_count,
                    length-zip_points m batch_id r.kept vs
                        ((==_iff (length r.kept) (length vs)).0 e),
                  );
                })
        ]
  ]

  with_embeddings-IsSettled :
      (n : ℕ) (r : DecisionResult) (o : Option (List Vector)) (s : IngestionStore)
      → IsCounted n r
      → 1 ≤ length r.kept
      → IsSettled n s (with_embeddings services now batch_id filename collection r o s)
  unfolding with_embeddings
  with_embeddings-IsSettled n r none s c p = stopped-IsSettled n service_failed s refl refl
  with_embeddings-IsSettled n r (some vs) s c p =
      upsert-IsSettled n r vs (compute_avg_len r.kept) s c p

  index_kept-IsSettled :
      (n : ℕ) (r : DecisionResult) (s : IngestionStore)
      → IsCounted n r
      → 1 ≤ length r.kept
      → IsSettled n s (index_kept services now batch_id filename collection r s)
  unfolding index_kept
  index_kept-IsSettled n r s c p = elim (Bool-cases (services.ensure_collection collection)) [
    | inr e ↦ rw e (stopped-IsSettled n service_failed s refl refl)
    | inl e ↦
        rw e (with_embeddings-IsSettled n r (embed_texts services (map (λ c. c.text) r.kept)) s c p)
  ]

  pub finish_review-IsSettled :
      (n : ℕ) (r : DecisionResult) (s : IngestionStore)
      → IsCounted n r
      → IsSettled n s (finish_review services now batch_id filename collection r s)
  unfolding finish_review insert_audit
  finish_review-IsSettled n r s c = elim (all_rejected-cases r) [
    | inl e ↦ rw e.0 (record {
      pending_kept = refl;
      audited = length-append s.audit (_ ∷ []);
      accounted = (refl, omega (arith, e.1, c.all_count));
    })
    | inr e ↦ rw e.0 (index_kept-IsSettled n r s c e.1)
  ]
