-- ===== src/Kb/Metadata/Decisions.antt =====
-- What a reviewer's decisions do to the chunks of a batch.
use virtual_helmsman.Prelude.{
  ℕ, suc, ◌+◌, ◌≡◌, refl, ◌∙◌, sym, Option, none, some, List, [], ◌∷◌, ◌++◌, String, arith, length,
  length-append, ltb, if◌then◌else◌, Bool-cases, inl, inr,
}
use native.Mathlib.Nat.{add-zero, add-suc, suc-add, zero-add}
use mathlib.Core.List.{append_assoc, append-nil}
use virtual_helmsman.Json.{Json}
use virtual_helmsman.Kb.Metadata.{Chunk}
use virtual_helmsman.Kb.Metadata.Review.{
  DecisionResult, Action, approve, reject, edit, other_action, action_of, decision_for, field_of,
  new_text_of, with_text, keep, decide, apply_decision, apply_all, no_result, apply_decisions,
  min_edited_len,
}

abbrev pub cons_some : Option Chunk → List Chunk → List Chunk
cons_some none cs = cs
cons_some (some c) cs = c ∷ cs

-- The counters agree with the chunks that are kept, and all chunks are accounted for.
pub record IsCounted (n : ℕ) (r : DecisionResult) : Type 0 where
  pub kept_count : length r.kept ≡ r.approved + r.edited + r.default_approved
  pub all_count : length r.kept + r.rejected ≡ n

module _ (to_str : Json → String) where
  -- What becomes of a chunk under a decision: nothing, for a rejection and for an edit that is too
  -- short; the edited chunk; or the chunk as it was.
  abbrev pub verdict : Action → Json → Chunk → Option Chunk
  verdict reject d chunk = none
  verdict edit d chunk =
      if ltb (length (new_text_of to_str d)) min_edited_len
      then none
      else some (with_text (new_text_of to_str d) chunk)
  verdict approve d chunk = some chunk
  verdict other_action d chunk = some chunk

  abbrev pub reviewed : Option Json → Chunk → Option Chunk
  reviewed none chunk = some chunk
  reviewed (some d) chunk = verdict (action_of (field_of "action" d)) d chunk

  -- the chunks that remain, in their order, under the last decision that names each
  abbrev pub survivors : List Json → List Chunk → List Chunk
  survivors decisions [] = []
  survivors decisions (c ∷ cs) =
      cons_some (reviewed (decision_for c.chunk_id decisions) c) (survivors decisions cs)

  decide-kept :
      (a : Action) (d : Json) (c : Chunk) (r : DecisionResult) (cs : List Chunk)
      → (decide to_str a d c r).kept ++ cs ≡ r.kept ++ cons_some (verdict a d c) cs
  decide-kept reject d c r cs = refl
  decide-kept edit d c r cs =
      elim (Bool-cases (ltb (length (new_text_of to_str d)) min_edited_len)) [
        | inl short ↦ rw short
        | inr long ↦ rw long (append_assoc r.kept (with_text (new_text_of to_str d) c ∷ []) cs)
      ]
  decide-kept approve d c r cs = append_assoc r.kept (c ∷ []) cs
  decide-kept other_action d c r cs = append_assoc r.kept (c ∷ []) cs

  step-kept :
      (decisions : List Json) (c : Chunk) (r : DecisionResult) (cs : List Chunk)
      → (apply_decision to_str decisions c r).kept ++ cs
        ≡ r.kept ++ cons_some (reviewed (decision_for c.chunk_id decisions) c) cs
  unfolding apply_decision
  step-kept decisions c r cs = by_decision (decision_for c.chunk_id decisions)
    where
      by_decision :
          (o : Option Json)
          → (elim o as (λ q. DecisionResult) [
            | none ↦ record (keep c r) { default_approved = suc r.default_approved }
            | some d ↦ decide to_str (action_of (field_of "action" d)) d c r
          ]).kept
              ++ cs
            ≡ r.kept ++ cons_some (reviewed o c) cs
      by_decision none = append_assoc r.kept (c ∷ []) cs
      by_decision (some d) = decide-kept (action_of (field_of "action" d)) d c r cs

  apply_all-kept :
      (decisions : List Json) (cs : List Chunk) (r : DecisionResult)
      → (apply_all to_str decisions cs r).kept ≡ r.kept ++ survivors decisions cs
  unfolding apply_all
  apply_all-kept decisions [] r = sym (append-nil r.kept)
  apply_all-kept decisions (c ∷ cs) r =
      apply_all-kept decisions cs (apply_decision to_str decisions c r)
      ∙ step-kept decisions c r (survivors decisions cs)

  decide-IsCounted :
      (a : Action) (d : Json) (c : Chunk) (n : ℕ) (r : DecisionResult)
      → IsCounted n r
      → IsCounted (suc n) (decide to_str a d c r)
  decide-IsCounted reject d c n r h = ground arith
  decide-IsCounted edit d c n r h =
      ground (arith, length-append r.kept (with_text (new_text_of to_str d) c ∷ []))
  decide-IsCounted _ d c n r h = ground (arith, length-append r.kept (c ∷ []))

  step-IsCounted :
      (decisions : List Json) (c : Chunk) (n : ℕ) (r : DecisionResult)
      → IsCounted n r
      → IsCounted (suc n) (apply_decision to_str decisions c r)
  unfolding apply_decision
  step-IsCounted decisions c n r h = grind (arith, decide-IsCounted, length-append r.kept (c ∷ []))

  apply_all-IsCounted :
      (decisions : List Json) (cs : List Chunk) (n : ℕ) (r : DecisionResult)
      → IsCounted n r
      → IsCounted (n + length cs) (apply_all to_str decisions cs r)
  unfolding apply_all
  apply_all-IsCounted decisions [] n r h = rw add-zero h
  apply_all-IsCounted decisions (c ∷ cs) n r h =
      rw (add-suc, ← suc-add)
        (apply_all-IsCounted decisions cs (suc n) (apply_decision to_str decisions c r)
          (step-IsCounted decisions c n r h))

  -- The chunks kept are exactly the survivors of the decisions, in their order, and the four
  -- counters account for every chunk of the batch once.
  pub apply_decisions_lem :
      (chunks : List Chunk) (decisions : List Json) (r : DecisionResult)
      → apply_decisions to_str chunks decisions ≡ some r
      → (r.kept ≡ survivors decisions chunks) × IsCounted (length chunks) r
  unfolding apply_decisions
  apply_decisions_lem chunks decisions r h =
      let e : r ≡ apply_all to_str decisions chunks no_result = ground arith in
      rw e (
        apply_all-kept decisions chunks no_result,
        rw zero-add at (
            apply_all-IsCounted decisions chunks 0 no_result
              (record { kept_count = refl; all_count = refl })),
      )
