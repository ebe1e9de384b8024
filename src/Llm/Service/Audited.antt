-- ===== src/Llm/Service/Audited.antt =====
-- A turn of the service and the rows that it leaves in the audit log.
use virtual_helmsman.Prelude.{
  String, ◌≡◌, refl, ◌∙◌, subst, true, Option, none, some, List, [], ◌∷◌, ◌++◌, ◌⊎◌, inl, inr,
  Bool-cases, arith,
}
use virtual_helmsman.Kb.Store.{AuditRow, IngestionStore}
use virtual_helmsman.Json.{get}
use virtual_helmsman.Llm.Fence.{Intent, command, question}
use virtual_helmsman.Llm.Envelopes.{
  Envelope, RuntimeRow, runtime_command, runtime_question, runtime_llm_error, command_audit_row,
  cut_response, error_audit_row, command_envelope, shown_key, command_row,
}
use virtual_helmsman.Llm.Retrieval.{Hit}
use virtual_helmsman.Llm.Neighbours.{Group, neighbour_ids}
use virtual_helmsman.Llm.Service.{mapped, run_turn}
use virtual_helmsman.Llm.Answer.{RagAnswer, build_rag_user, parse_rag_answer, question_audit_row}
use virtual_helmsman.Llm.Graph.{
  command_llm, answer_llm, Attempt, returned, thrown, LlmConfig, LlmServices, World, Turn, after,
  audit, ask, classify_node, command_node, conclude_command, audit_command, retrieve_node,
  select_node, expand_node, answer_node, conclude_answer, question_path, route, runner,
  scroll_neighbours, scroll_group,
}

-- A coroutine that leaves the database alone.
abbrev pub IsSilent : {A : Type 0} → Turn A → Type 0
IsSilent m = (w : World) → (m w).1.store ≡ w.store

-- The log has one more row, with one of the actions.
abbrev pub OneMore : (IsActie : String → Type 0) → IngestionStore → IngestionStore → Type 0
OneMore IsActie s s' = (row : AuditRow) × (s'.audit ≡ s.audit ++ row ∷ []) × IsActie row.actie

abbrev pub IsRuntime : String → Type 0
IsRuntime actie = (actie ≡ runtime_command) ⊎ (actie ≡ runtime_question)

-- A result comes with one row; an exception leaves the database alone.
abbrev pub Wrote : IngestionStore → Attempt Envelope × World → Type 0
Wrote s (returned e, w) = OneMore IsRuntime s w.store
Wrote s (thrown reason, w) = w.store ≡ s

-- The action that the row of a turn has.
abbrev pub IsActieOf : Attempt Envelope → String → Type 0
IsActieOf (returned e) actie = IsRuntime actie
IsActieOf (thrown reason) actie = actie ≡ runtime_llm_error

after-IsSilent :
    {A B : Type 0} (r : Attempt A × World) (f : A → Turn B) (s : IngestionStore)
    → r.1.store ≡ s
    → ((a : A) → IsSilent (f a))
    → (after r f).1.store ≡ s
after-IsSilent (returned a, w) f s h g = g a w ∙ h
after-IsSilent (thrown reason, w) f s h g = h

after-Wrote :
    {A : Type 0} (r : Attempt A × World) (f : A → Turn Envelope) (s : IngestionStore)
    → r.1.store ≡ s
    → ((a : A) (w : World) → Wrote w.store (f a w))
    → Wrote s (after r f)
after-Wrote (returned a, w) f s h g = subst (λ t. Wrote t (f a w)) h (g a w)
after-Wrote (thrown reason, w) f s h g = h

module _ (svc : LlmServices) (config : LlmConfig) where
  classify_node-IsSilent : (text : String) → IsSilent (classify_node svc config text)
  unfolding classify_node
  classify_node-IsSilent text w = ground arith

  retrieve_node-IsSilent : (text : String) → IsSilent (retrieve_node svc config text)
  unfolding retrieve_node
  retrieve_node-IsSilent text w = ground arith

  select_node-IsSilent :
      (text : String) (chunks : List Hit) → IsSilent (select_node svc config text chunks)
  unfolding select_node
  select_node-IsSilent text chunks w = ground arith

  scroll_group-IsSilent :
      (filename : String) (ids : List String) → IsSilent (scroll_group svc config filename ids)
  scroll_group-IsSilent filename [] w = refl
  scroll_group-IsSilent filename (id ∷ ids) w = refl

  scroll_neighbours-IsSilent : (gs : List Group) → IsSilent (scroll_neighbours svc config gs)
  unfolding scroll_neighbours
  scroll_neighbours-IsSilent [] w = refl
  scroll_neighbours-IsSilent (g ∷ gs) w =
      after-IsSilent (scroll_group svc config g.filename g.ids w) _ w.store
        (scroll_group-IsSilent g.filename g.ids w)
        λ points v.
          after-IsSilent (scroll_neighbours svc config gs v) _ v.store
            (scroll_neighbours-IsSilent gs v) λ more u. refl

  expand_node-IsSilent : (winners : List Hit) → IsSilent (expand_node svc config winners)
  unfolding expand_node
  expand_node-IsSilent winners w = elim (Bool-cases config.expansion) [
    | inl e ↦ rw e (
        after-IsSilent (scroll_neighbours svc config (neighbour_ids winners) w) _ w.store
          (scroll_neighbours-IsSilent (neighbour_ids winners) w) λ points v. refl)
    | inr e ↦ rw e refl
  ]

  -- The log is kept, and the database takes every row.
  abbrev pub IsKept : Type 0
  IsKept =
      (config.audit_enabled ≡ true)
      × ((row : RuntimeRow) (s : IngestionStore) → svc.accepts row s ≡ true)

  audit-OneMore :
      (IsActie : String → Type 0) (row : RuntimeRow) (w : World)
      → IsKept
      → IsActie row.actie
      → OneMore IsActie w.store (audit svc config row w).store
  unfolding audit
  audit-OneMore IsActie row w (e, h) g = rw (e, h row w.store) (_, refl, g)

  audit_command-Wrote :
      (envelope : Envelope) (type : String) (output : Option String) (w : World)
      → IsKept
      → Wrote w.store (audit_command svc config envelope (command_row svc.to_str type output) w)
  audit_command-Wrote envelope type none w k = refl
  audit_command-Wrote envelope type (some output) w k = audit-OneMore IsRuntime _ w k (inl refl)

  conclude_command-Wrote :
      (envelope : Envelope) (w : World)
      → IsKept
      → Wrote w.store (conclude_command svc config envelope w)
  unfolding command_audit_row
  conclude_command-Wrote envelope w k =
      audit_command-Wrote envelope (shown_key svc.to_str (get "type" envelope.action))
        (cut_response svc.to_str envelope.response) w k

  conclude_answer-Wrote :
      (parsed : RagAnswer) (w : World)
      → IsKept
      → Wrote w.store (conclude_answer svc config parsed w)
  unfolding question_audit_row
  conclude_answer-Wrote parsed w k = audit-OneMore IsRuntime _ w k (inr refl)

  command_node-Wrote :
      (text : String) (w : World) → IsKept → Wrote w.store (command_node svc config text w)
  unfolding command_node
  command_node-Wrote text w k =
      after-Wrote (ask svc config command_llm config.system_prompt text w) _ w.store refl
        λ content v. conclude_command-Wrote (command_envelope svc.loads content) v k

  answer_node-Wrote :
      (text : String) (chunks : List Hit) (w : World)
      → IsKept
      → Wrote w.store (answer_node svc config text chunks w)
  unfolding answer_node
  answer_node-Wrote text chunks w k =
      after-Wrote
        (ask svc config answer_llm config.rag_system_prompt (build_rag_user text chunks) w) _
        w.store refl
        λ content v. conclude_answer-Wrote (parse_rag_answer svc.loads content chunks) v k

  question_path-Wrote :
      (text : String) (w : World) → IsKept → Wrote w.store (question_path svc config text w)
  unfolding question_path
  question_path-Wrote text w k =
      after-Wrote (retrieve_node svc config text w) _ w.store (retrieve_node-IsSilent text w)
        λ chunks v.
          after-Wrote (select_node svc config text chunks v) _ v.store
            (select_node-IsSilent text chunks v)
            λ winners u.
              after-Wrote (expand_node svc config winners u) _ u.store
                (expand_node-IsSilent winners u) λ expanded t. answer_node-Wrote text expanded t k

  route-Wrote :
      (text : String) (intent : Intent) (w : World)
      → IsKept
      → Wrote w.store (route svc config text intent w)
  route-Wrote text command w k = command_node-Wrote text w k
  route-Wrote text question w k = question_path-Wrote text w k

  runner-Wrote : (text : String) (w : World) → IsKept → Wrote w.store (runner svc config text w)
  unfolding runner
  runner-Wrote text w k = elim (Bool-cases config.commands_only) [
    | inl e ↦ rw e (command_node-Wrote text w k)
    | inr e ↦ rw e (
        after-Wrote (classify_node svc config text w) _ w.store (classify_node-IsSilent text w)
          λ intent v. route-Wrote text intent v k)
  ]

  mapped-OneMore :
      (s : IngestionStore) (r : Attempt Envelope × World)
      → IsKept
      → Wrote s r
      → OneMore (IsActieOf r.0) s (mapped svc config r).1.store
  unfolding error_audit_row
  mapped-OneMore s (returned e, w) k h = h
  mapped-OneMore s (thrown reason, w) k h =
      subst
        (λ t.
          OneMore (λ actie. actie ≡ runtime_llm_error) t
            (mapped svc config (thrown reason, w)).1.store)
        h (audit-OneMore (λ actie. actie ≡ runtime_llm_error) _ w k refl)

  -- Where the audit log is kept and the database takes its rows, every turn adds exactly one row to
  -- the log, whichever node fails: a row of a command or of a question where the graph gives a
  -- result, and a row of an error where it raises an exception.
  pub run_turn_audits :
      (text : String) (w : World)
      → config.audit_enabled ≡ true
      → ((row : RuntimeRow) (s : IngestionStore) → svc.accepts row s ≡ true)
      → (row : AuditRow) × ((run_turn svc config text w).1.store.audit ≡ w.store.audit ++ row ∷ [])
        × IsActieOf (runner svc config text w).0 row.actie
  unfolding run_turn
  run_turn_audits text w e h =
      mapped-OneMore w.store (runner svc config text w) (e, h) (runner-Wrote text w (e, h))
