-- ===== src/Config/Editor/Stripped.antt =====
-- The dictionary of the editor without its unmodified prompts is accepted as the same configuration.
use virtual_helmsman.Prelude.{ℕ, Option, none, some, ◌≡◌, ◌⊎◌, refl, ◌∙◌, inl, inr}
use virtual_helmsman.Prelude.Options.{bind-related}
use virtual_helmsman.Json.{Json, null, bool, int, float, str, arr, obj, Fields, get}
use virtual_helmsman.Json.Dict.{get-put_self, get-put_ne}
use virtual_helmsman.Config.Fields.{Pydantic, only, one_of, required_block}
use virtual_helmsman.Config.Fields.Keys.{only-put}
use virtual_helmsman.Config.Llm.{LlmConfig, Prompts, read_llm}
use virtual_helmsman.Config.App.{
  Environment, AppConfig, app_keys, override_by, apply_env_overrides, read_app, parse_config,
  accepted,
}
use virtual_helmsman.Config.Editor.{drop_default_prompts, stripped_block, stripped_body}
use virtual_helmsman.Config.App.Blocks.{
  parse_config-accepted, ReadFrom, read_app-ReadFrom, ReadFrom-read_app,
}
use virtual_helmsman.Config.Editor.Dropped.{SameLlm, read_llm-dropped}
use virtual_helmsman.Config.Editor.Overridden.{SameBut, override_by-SameBut}

-- The same configuration, but for white space at the ends of the prompts.
pub record SameApp (c d : AppConfig) : Type 0 where
  pub llm : SameLlm c.llm d.llm
  pub others : d ≡ record c { llm = d.llm }

module _ (unit : ℕ) (p : Pydantic) (prompts : Prompts) {fs d e : Fields}
    (same : SameBut fs (drop_default_prompts prompts fs) d e) where
  llm_read :
      (l : LlmConfig)
      → required_block (read_llm unit p prompts) (get "llm" d) ≡ some l
      → (m : LlmConfig) × (required_block (read_llm unit p prompts) (get "llm" e) ≡ some m)
        × SameLlm l m
  llm_read l h = rw (same.llm') (read_llm-dropped prompts fs unit p l (rw (same.llm) at h))

  -- What is read of the one is read of the other, but for the block of the language model.
  ReadFrom-SameBut :
      (c : AppConfig) (m : LlmConfig)
      → ReadFrom unit p prompts d c
      → required_block (read_llm unit p prompts) (get "llm" e) ≡ some m
      → ReadFrom unit p prompts e (record c { llm = m })
  ReadFrom-SameBut c m r read = record {
    keys = same.keys ∙ r.keys;
    stt = rw (same.others "stt" refl) (r.stt);
    tts = rw (same.others "tts" refl) (r.tts);
    vad = rw (same.others "vad" refl) (r.vad);
    turn_detection = rw (same.others "turn_detection" refl) (r.turn_detection);
    llm = read;
    lm_studio = rw (same.others "lm_studio" refl) (r.lm_studio);
    qdrant = rw (same.others "qdrant" refl) (r.qdrant);
    langfuse = rw (same.others "langfuse" refl) (r.langfuse);
    database = rw (same.others "database" refl) (r.database);
    simulator = rw (same.others "simulator" refl) (r.simulator);
    audio = rw (same.others "audio" refl) (r.audio);
    logging = rw (same.others "logging" refl) (r.logging);
    api = rw (same.others "api" refl) (r.api);
    documents = rw (same.others "documents" refl) (r.documents);
    review = rw (same.others "review" refl) (r.review);
  }

  read_app-SameBut :
      (c : AppConfig)
      → read_app unit p prompts d ≡ some c
      → (c' : AppConfig) × (read_app unit p prompts e ≡ some c') × SameApp c c'
  read_app-SameBut c h =
      let r = read_app-ReadFrom unit p prompts d c h in
      let (m, read, like) = llm_read c.llm r.llm in
      (
        record c { llm = m },
        ReadFrom-read_app unit p prompts e (record c { llm = m }) (ReadFrom-SameBut c m r read),
        record { llm = like; others = refl },
      )

SameLlm-refl : (l : LlmConfig) → SameLlm l l
SameLlm-refl l = record { system_prompt = refl; rag_system_prompt = refl; others = refl }

module _ (prompts : Prompts) {fs : Fields} (body : Fields)
    (block : get "llm" body ≡ some (obj fs)) where
  stripped-SameBut : SameBut fs (drop_default_prompts prompts fs) body (stripped_body prompts body)
  unfolding stripped_body only one_of
  stripped-SameBut = rw block (record {
    llm = block;
    llm' = get-put_self "llm" _ body;
    others = λ key ne. get-put_ne key "llm" _ body ne;
    keys = only-put app_keys "llm" _ body;
  })

  overrides-stripped :
      (environ : Environment) (d : Fields)
      → apply_env_overrides environ body ≡ some d
      → (e : Fields) × (apply_env_overrides environ (stripped_body prompts body) ≡ some e)
        × SameBut fs (drop_default_prompts prompts fs) d e
  unfolding apply_env_overrides
  overrides-stripped environ d =
      bind-related (SameBut fs (drop_default_prompts prompts fs))
        (SameBut fs (drop_default_prompts prompts fs))
        (override_by (environ "LLM_BASE_URL") "lm_studio" "base_url" body)
        (override_by (environ "LLM_BASE_URL") "lm_studio" "base_url" (stripped_body prompts body)) _
        _
        (override_by-SameBut stripped-SameBut (environ "LLM_BASE_URL") "lm_studio" "base_url" refl
          refl)
        (λ a c same.
          override_by-SameBut same (environ "SIMULATOR_BACKEND") "simulator" "backend" refl refl d)

stripped_body-cases :
    (prompts : Prompts) (body : Fields)
    → (stripped_body prompts body ≡ body) ⊎ ((fs : Fields) × (get "llm" body ≡ some (obj fs)))
unfolding stripped_body
stripped_body-cases prompts body = go (get "llm" body)
  where
    go :
        (o : Option Json)
        → (stripped_block prompts o body ≡ body) ⊎ ((fs : Fields) × (o ≡ some (obj fs)))
    go none = inl refl
    go (some (obj fs)) = inr (fs, refl)
    go (some null) = inl refl
    go (some (bool b)) = inl refl
    go (some (int n)) = inl refl
    go (some (float n)) = inl refl
    go (some (str t)) = inl refl
    go (some (arr vs)) = inl refl

module _ (unit : ℕ) (p : Pydantic) (prompts : Prompts) where
  module _ (environ : Environment) (body : Fields) (c : AppConfig) where
    block-stripped :
        (fs d : Fields)
        → get "llm" body ≡ some (obj fs)
        → apply_env_overrides environ body ≡ some d
        → read_app unit p prompts d ≡ some c
        → (c' : AppConfig) × (parse_config unit p prompts environ (stripped_body prompts body)
            ≡ accepted c')
          × SameApp c c'
    unfolding parse_config
    block-stripped fs d block over known =
        let (e, over', same) = overrides-stripped prompts body block environ d over in
        let (c', known', like) = read_app-SameBut unit p prompts same c known in
        (c', rw over' (rw known' refl), like)

    plain-stripped :
        stripped_body prompts body ≡ body
        → parse_config unit p prompts environ body ≡ accepted c
        → (c' : AppConfig) × (parse_config unit p prompts environ (stripped_body prompts body)
            ≡ accepted c')
          × SameApp c c'
    plain-stripped unchanged known =
        (c, rw unchanged known, record { llm = SameLlm-refl c.llm; others = refl })

    -- The body that is written is accepted as the same configuration.
    pub parse_config-stripped :
        parse_config unit p prompts environ body ≡ accepted c
        → (c' : AppConfig) × (parse_config unit p prompts environ (stripped_body prompts body)
            ≡ accepted c')
          × SameApp c c'
    parse_config-stripped known =
        let (d, over, accepts) = parse_config-accepted unit p prompts environ body c known in
        elim (stripped_body-cases prompts body) [
          | inl unchanged ↦ plain-stripped unchanged known
          | inr (fs, block) ↦ block-stripped fs d block over accepts
        ]
