-- ===== src/Config/Editor/Dropped.antt =====
-- The block of the language model behind a save, which drops its unmodified prompts: it is read
-- as the same configuration, but for white space at the ends of the prompts.
use virtual_helmsman.Prelude.{
  ℕ, ◌*◌, [], ◌∷◌, String, true, false, some, List, ◌≡◌, refl, sym, ap, subst, ◌∙◌, truthy, strip,
  text_eq, eq_iff, arith, Bool-cases, Option-cases, inl, inr,
}
use virtual_helmsman.Prelude.Options.{bind-related, bind-same}
use virtual_helmsman.Prelude.Int.{pos}
use virtual_helmsman.Json.{Json, null, bool, int, float, str, arr, obj, Fields, get}
use virtual_helmsman.Json.Dict.{get-pop_self, get-pop_ne}
use virtual_helmsman.Config.Fields.{Pydantic, only, literal_or, required_text, converted_or}
use virtual_helmsman.Config.Fields.Keys.{only-pop}
use virtual_helmsman.Config.Llm.{LlmConfig, Prompts, prompt_or, read_llm, llm_keys, llm_backends}
use virtual_helmsman.Config.Editor.{is_default, drop_prompt, drop_default_prompts}

-- The same but for white space at the ends.
abbrev pub SameText : String → String → Type 0
SameText s t = strip s ≡ strip t

get-drop_prompt_ne :
    (key name default : String) (fs : Fields)
    → text_eq name key ≡ false
    → get key (drop_prompt name default fs) ≡ get key fs
get-drop_prompt_ne key name default fs ne = elim (Option-cases (get name fs)) [
  | inl missing ↦ rw missing
  | inr (v, found) ↦ elim (Bool-cases (is_default default v)) [
    | inl drop ↦ rw (found, drop) (get-pop_ne key name fs ne)
    | inr keep ↦ rw (found, keep)
  ]
]

only-drop_prompt :
    (allowed : List String) (name default : String) (fs : Fields)
    → only allowed fs ≡ some tt
    → only allowed (drop_prompt name default fs) ≡ some tt
only-drop_prompt allowed name default fs h = elim (Option-cases (get name fs)) [
  | inl missing ↦ rw missing h
  | inr (v, found) ↦ elim (Bool-cases (is_default default v)) [
    | inl drop ↦ rw (found, drop) (only-pop allowed name fs h)
    | inr keep ↦ rw (found, keep) h
  ]
]

-- A prompt that is dropped is read as the default, and is the default but for the white space.
prompt_or-default :
    (default s : String) (v : Json)
    → is_default default v ≡ true
    → prompt_or default (some v) ≡ some s
    → SameText default s
prompt_or-default default s null d h = ground arith
prompt_or-default default s (str t) d h = elim (Bool-cases (truthy (strip t))) [
  | inl full ↦
      let e : some t ≡ some s = rw full at h in
      let same : text_eq (strip t) (strip default) ≡ true = rw full at d in
      sym ((eq_iff (strip t) (strip default)).0 same) ∙ ap strip (cc e)
  | inr blank ↦ let e : some default ≡ some s = rw blank at h in ap strip (cc e)
]
prompt_or-default default s (bool b) d h = cc
prompt_or-default default s (int n) d h = cc
prompt_or-default default s (float n) d h = cc
prompt_or-default default s (arr vs) d h = cc
prompt_or-default default s (obj fs) d h = cc

prompt_or-drop_prompt :
    (name default s : String) (fs : Fields)
    → prompt_or default (get name fs) ≡ some s
    → (t : String) × (prompt_or default (get name (drop_prompt name default fs)) ≡ some t)
      × SameText t s
prompt_or-drop_prompt name default s fs h = elim (Option-cases (get name fs)) [
  | inl missing ↦ (s, rw missing h, refl)
  | inr (v, found) ↦ elim (Bool-cases (is_default default v)) [
    | inl drop ↦ (
      default,
      rw (found, drop) (rw (get-pop_self name fs)),
      prompt_or-default default s v drop (rw found at h),
    )
    | inr keep ↦ (s, rw (found, keep) h, refl)
  ]
]

-- The same configuration of the language model, but for white space at the ends of its prompts.
pub record SameLlm (l m : LlmConfig) : Type 0 where
  pub system_prompt : SameText m.system_prompt l.system_prompt
  pub rag_system_prompt : SameText m.rag_system_prompt l.rag_system_prompt
  pub others :
      m ≡ record l { system_prompt = m.system_prompt; rag_system_prompt = m.rag_system_prompt }

SameLlm-eq : {k l m : LlmConfig} → some k ≡ some l → SameLlm k m → SameLlm l m
SameLlm-eq {m} e same = subst (λ x. SameLlm x m) (cc) same

module _ (prompts : Prompts) (fs : Fields) where
  abbrev dropped : Fields
  dropped = drop_default_prompts prompts fs

  get-dropped :
      (key : String)
      → text_eq "system_prompt" key ≡ false
      → text_eq "rag_system_prompt" key ≡ false
      → get key dropped ≡ get key fs
  get-dropped key ne ne' =
      get-drop_prompt_ne key "rag_system_prompt" prompts.rag_system_prompt
        (drop_prompt "system_prompt" prompts.system_prompt fs) ne'
      ∙ get-drop_prompt_ne key "system_prompt" prompts.system_prompt fs ne

  only-dropped :
      (allowed : List String) → only allowed fs ≡ some tt → only allowed dropped ≡ some tt
  only-dropped allowed h =
      only-drop_prompt allowed "rag_system_prompt" prompts.rag_system_prompt
        (drop_prompt "system_prompt" prompts.system_prompt fs)
        (only-drop_prompt allowed "system_prompt" prompts.system_prompt fs h)

  system_prompt-dropped :
      (s : String)
      → prompt_or prompts.system_prompt (get "system_prompt" fs) ≡ some s
      → (t : String) × (prompt_or prompts.system_prompt (get "system_prompt" dropped) ≡ some t)
        × SameText t s
  system_prompt-dropped s h =
      rw
        (get-drop_prompt_ne "system_prompt" "rag_system_prompt" prompts.rag_system_prompt
          (drop_prompt "system_prompt" prompts.system_prompt fs) refl)
        (prompt_or-drop_prompt "system_prompt" prompts.system_prompt s fs h)

  rag_system_prompt-dropped :
      (s : String)
      → prompt_or prompts.rag_system_prompt (get "rag_system_prompt" fs) ≡ some s
      → (t : String) × (prompt_or prompts.rag_system_prompt (get "rag_system_prompt" dropped)
          ≡ some t)
        × SameText t s
  rag_system_prompt-dropped s h =
      prompt_or-drop_prompt "rag_system_prompt" prompts.rag_system_prompt s
        (drop_prompt "system_prompt" prompts.system_prompt fs)
        (rw (get-drop_prompt_ne "rag_system_prompt" "system_prompt" prompts.system_prompt fs refl)
          h)

  pub read_llm-dropped :
      (unit : ℕ) (p : Pydantic) (l : LlmConfig)
      → read_llm unit p prompts fs ≡ some l
      → (m : LlmConfig) × (read_llm unit p prompts dropped ≡ some m) × SameLlm l m
  unfolding read_llm
  read_llm-dropped unit p l h = rw (get-dropped "backend" refl refl) (
      rw (get-dropped "model" refl refl) (
        rw (get-dropped "timeout_seconds" refl refl) (
          rw (get-dropped "max_retries" refl refl) (
            rw (get-dropped "mode" refl refl) (
              rw (get-dropped "rerank" refl refl) (
                rw (get-dropped "expansion" refl refl) (
                  rw (get-dropped "retrieval_top_k" refl refl) (
                    rw (get-dropped "audit_enabled" refl refl) (
                      bind-related (λ _ _. Unit {0}) SameLlm (only llm_keys fs)
                        (only llm_keys dropped) _ _
                        (λ _ known. (tt, only-dropped llm_keys known, tt))
                        (λ _ _ _.
                          bind-same SameLlm
                            (literal_or llm_backends "openai_compatible" (get "backend" fs)) _ _
                            λ backend.
                              bind-same SameLlm (required_text (get "model" fs)) _ _ λ model.
                                bind-same SameLlm
                                  (converted_or p.to_float (pos (300 * unit))
                                    (get "timeout_seconds" fs))
                                  _ _
                                  λ timeout.
                                    bind-same SameLlm
                                      (converted_or p.to_int (pos 1) (get "max_retries" fs)) _ _
                                      λ retries.
                                        bind-same SameLlm
                                          (literal_or ("full" ∷ "commands_only" ∷ []) "full"
                                            (get "mode" fs))
                                          _ _
                                          λ mode.
                                            bind-same SameLlm
                                              (converted_or p.to_bool true (get "rerank" fs)) _ _
                                              λ rerank.
                                                bind-same SameLlm
                                                  (converted_or p.to_bool true (get "expansion" fs))
                                                  _ _
                                                  λ expansion.
                                                    bind-same SameLlm
                                                      (converted_or p.to_int (pos 20)
                                                        (get "retrieval_top_k" fs))
                                                      _ _
                                                      λ top_k.
                                                        bind-same SameLlm
                                                          (converted_or p.to_bool false
                                                            (get "audit_enabled" fs))
                                                          _ _
                                                          λ audited.
                                                            bind-related (λ a c. SameText c a)
                                                            SameLlm
                                                            (prompt_or prompts.system_prompt
                                                            (get "system_prompt" fs))
                                                            (prompt_or prompts.system_prompt
                                                            (get "system_prompt" dropped))
                                                            _ _ system_prompt-dropped
                                                            λ a c same.
                                                            bind-related (λ a c. SameText c a)
                                                            SameLlm
                                                            (prompt_or prompts.rag_system_prompt
                                                            (get "rag_system_prompt" fs))
                                                            (prompt_or prompts.rag_system_prompt
                                                            (get "rag_system_prompt" dropped))
                                                            _ _ rag_system_prompt-dropped
                                                            λ a' c' same' e. (
                                                            _,
                                                            refl,
                                                            SameLlm-eq e (record {
                                                            system_prompt = same;
                                                            rag_system_prompt = same';
                                                            others = refl;
                                                            }),
                                                            ))
                        h)))))))))
