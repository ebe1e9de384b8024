-- ===== src/Config/App/Blocks.antt =====
-- Each block of an accepted configuration is what its model reads in the field of its name.
use virtual_helmsman.Prelude.{ℕ, ◌≡◌, refl, subst, Option, none, some}
use virtual_helmsman.Prelude.Options.{bind-holds}
use virtual_helmsman.Json.{Fields, get}
use virtual_helmsman.Config.Fields.{Pydantic, only, block_or, required_block}
use virtual_helmsman.Config.Services.{
  read_stt, read_tts, read_vad, read_turn, read_qdrant, read_lm_studio, read_langfuse,
  read_database,
}
use virtual_helmsman.Config.Llm.{Prompts, read_llm}
use virtual_helmsman.Config.Simulator.{read_simulator}
use virtual_helmsman.Config.Control.{
  read_audio, read_logging, read_api, read_documents, read_review,
}
use virtual_helmsman.Config.App.{
  AppConfig, app_keys, read_app, Environment, validated, parse_overridden, accepted, parse_config,
  apply_env_overrides,
}

validated-accepted : (o : Option AppConfig) (c : AppConfig) → validated o ≡ accepted c → o ≡ some c
validated-accepted none c h = cc
validated-accepted (some d) c h = cc

module _ (unit : ℕ) (p : Pydantic) (prompts : Prompts) where
  parse_overridden-accepted :
      (o : Option Fields) (c : AppConfig)
      → parse_overridden unit p prompts o ≡ accepted c
      → (d : Fields) × (o ≡ some d) × (read_app unit p prompts d ≡ some c)
  parse_overridden-accepted none c h = cc
  parse_overridden-accepted (some d) c h = (d, refl, validated-accepted _ c h)

  -- The dictionary behind the overrides, of which an accepted configuration is read.
  pub parse_config-accepted :
      (environ : Environment) (body : Fields) (c : AppConfig)
      → parse_config unit p prompts environ body ≡ accepted c
      → (d : Fields) × (apply_env_overrides environ body ≡ some d)
        × (read_app unit p prompts d ≡ some c)
  unfolding parse_config
  parse_config-accepted environ body = parse_overridden-accepted (apply_env_overrides environ body)

module _ (unit : ℕ) (p : Pydantic) (prompts : Prompts) where
  pub record ReadFrom (fs : Fields) (c : AppConfig) : Type 0 where
    pub keys : only app_keys fs ≡ some tt
    pub stt : required_block read_stt (get "stt" fs) ≡ some c.stt
    pub tts : required_block read_tts (get "tts" fs) ≡ some c.tts
    pub vad : block_or (read_vad unit p) (get "vad" fs) ≡ some c.vad
    pub turn_detection : block_or read_turn (get "turn_detection" fs) ≡ some c.turn_detection
    pub llm : required_block (read_llm unit p prompts) (get "llm" fs) ≡ some c.llm
    pub lm_studio : required_block read_lm_studio (get "lm_studio" fs) ≡ some c.lm_studio
    pub qdrant : block_or read_qdrant (get "qdrant" fs) ≡ some c.qdrant
    pub langfuse : block_or (read_langfuse p) (get "langfuse" fs) ≡ some c.langfuse
    pub database : block_or read_database (get "database" fs) ≡ some c.database
    pub simulator : block_or (read_simulator unit p) (get "simulator" fs) ≡ some c.simulator
    pub audio : block_or (read_audio p) (get "audio" fs) ≡ some c.audio
    pub logging : block_or read_logging (get "logging" fs) ≡ some c.logging
    pub api : block_or (read_api p) (get "api" fs) ≡ some c.api
    pub documents : block_or (read_documents unit p) (get "documents" fs) ≡ some c.documents
    pub review : block_or (read_review unit p) (get "review" fs) ≡ some c.review

  ReadFrom-eq : {fs : Fields} {c d : AppConfig} → some c ≡ some d → ReadFrom fs c → ReadFrom fs d
  ReadFrom-eq {fs} h r = subst (λ x. ReadFrom fs x) (cc) r

  pub read_app-ReadFrom :
      (fs : Fields) (c : AppConfig) → read_app unit p prompts fs ≡ some c → ReadFrom fs c
  unfolding read_app
  read_app-ReadFrom fs c = bind-holds (ReadFrom fs) (only app_keys fs) _ λ _ e0.
      bind-holds (ReadFrom fs) (required_block read_stt (get "stt" fs)) _ λ stt e1.
        bind-holds (ReadFrom fs) (required_block read_tts (get "tts" fs)) _ λ tts e2.
          bind-holds (ReadFrom fs) (block_or (read_vad unit p) (get "vad" fs)) _ λ vad e3.
            bind-holds (ReadFrom fs) (block_or read_turn (get "turn_detection" fs)) _
              λ turn_detection e4.
                bind-holds (ReadFrom fs) (required_block (read_llm unit p prompts) (get "llm" fs)) _
                  λ llm e5.
                    bind-holds (ReadFrom fs) (required_block read_lm_studio (get "lm_studio" fs)) _
                      λ lm_studio e6.
                        bind-holds (ReadFrom fs) (block_or read_qdrant (get "qdrant" fs)) _
                          λ qdrant e7.
                            bind-holds (ReadFrom fs)
                              (block_or (read_langfuse p) (get "langfuse" fs)) _
                              λ langfuse e8.
                                bind-holds (ReadFrom fs)
                                  (block_or read_database (get "database" fs)) _
                                  λ database e9.
                                    bind-holds (ReadFrom fs)
                                      (block_or (read_simulator unit p) (get "simulator" fs)) _
                                      λ simulator e10.
                                        bind-holds (ReadFrom fs)
                                          (block_or (read_audio p) (get "audio" fs)) _
                                          λ audio e11.
                                            bind-holds (ReadFrom fs)
                                              (block_or read_logging (get "logging" fs)) _
                                              λ logging e12.
                                                bind-holds (ReadFrom fs)
                                                  (block_or (read_api p) (get "api" fs)) _
                                                  λ api e13.
                                                    bind-holds (ReadFrom fs)
                                                      (block_or (read_documents unit p)
                                                        (get "documents" fs))
                                                      _
                                                      λ documents e14.
                                                        bind-holds (ReadFrom fs)
                                                          (block_or (read_review unit p)
                                                            (get "review" fs))
                                                          _
                                                          λ review e15. λ k. ReadFrom-eq k (record {
                                                            keys = e0;
                                                            stt = e1;
                                                            tts = e2;
                                                            vad = e3;
                                                            turn_detection = e4;
                                                            llm = e5;
                                                            lm_studio = e6;
                                                            qdrant = e7;
                                                            langfuse = e8;
                                                            database = e9;
                                                            simulator = e10;
                                                            audio = e11;
                                                            logging = e12;
                                                            api = e13;
                                                            documents = e14;
                                                            review = e15;
                                                          })

  -- The converse: a configuration is accepted whose blocks are what is read.
  pub ReadFrom-read_app :
      (fs : Fields) (c : AppConfig) → ReadFrom fs c → read_app unit p prompts fs ≡ some c
  unfolding read_app
  ReadFrom-read_app fs c r = rw (r.keys) (
      rw (r.stt) (
        rw (r.tts) (
          rw (r.vad) (
            rw (r.turn_detection) (
              rw (r.llm) (
                rw (r.lm_studio) (
                  rw (r.qdrant) (
                    rw (r.langfuse) (
                      rw (r.database) (
                        rw (r.simulator) (
                          rw (r.audio) (
                            rw (r.logging)
                              (rw (r.api) (rw (r.documents) (rw (r.review) (refl))))))))))))))))
