-- ===== src/Backends/Known.antt =====
-- The configuration names only back ends that the factories know.
use virtual_helmsman.Prelude.{
  subst, ℕ, ◌*◌, none, some, [], ◌∷◌, ◌≡◌, ◌≢◌, refl, true, false, arith,
}
use virtual_helmsman.Prelude.Options.{bind-holds, some-holds}
use virtual_helmsman.Json.{Fields, get}
use virtual_helmsman.Config.Fields.{Pydantic, only, one_of, literal_or, required_text, converted_or}
use virtual_helmsman.Prelude.Int.{pos}
use virtual_helmsman.Config.Fields.Literals.{
  literal_or-one_of, block_or-holds, required_block-holds,
}
use virtual_helmsman.Config.Services.{
  SttConfig, read_stt, stt_backends, TtsConfig, read_tts, tts_backends, VadConfig, read_vad,
  vad_backends, TurnConfig, read_turn, turn_backends,
}
use virtual_helmsman.Config.Llm.{LlmConfig, Prompts, llm_backends, llm_keys, prompt_or, read_llm}
use virtual_helmsman.Config.Simulator.{
  SimulatorConfig, simulator_backends, migrate_legacy, read_simulator,
}
use virtual_helmsman.Backends.{
  Builders, create_stt, create_tts, create_vad, create_turn, create_llm, create_simulator,
}
use virtual_helmsman.Config.App.{Environment, AppConfig, parse_config, accepted}
use virtual_helmsman.Config.App.Blocks.{read_app-ReadFrom, parse_config-accepted}
use virtual_helmsman.Config.Runtimes.{llm_runtime}

-- The backend of each block is one of the words of its literal.
abbrev SttKnown : SttConfig → Type 0
SttKnown c = one_of stt_backends c.backend ≡ true

stt-known : (fs : Fields) (c : SttConfig) → read_stt fs ≡ some c → SttKnown c
unfolding read_stt
stt-known fs c =
    bind-holds SttKnown
      (only ("backend" ∷ "model" ∷ "device" ∷ "language" ∷ "quantization" ∷ []) fs) _
      λ _ _.
        bind-holds SttKnown (literal_or stt_backends "parakeet_onnx" (get "backend" fs)) _
          λ backend e h.
            let same : backend ≡ c.backend = ground arith in
            subst (λ b. one_of stt_backends b ≡ true) same
              (literal_or-one_of stt_backends "parakeet_onnx" (get "backend" fs) refl backend e)

abbrev TtsKnown : TtsConfig → Type 0
TtsKnown c = one_of tts_backends c.backend ≡ true

tts-known : (fs : Fields) (c : TtsConfig) → read_tts fs ≡ some c → TtsKnown c
unfolding read_tts
tts-known fs c h = grind (arith, literal_or-one_of tts_backends "kokoro" (get "backend" fs) refl)

abbrev TurnKnown : TurnConfig → Type 0
TurnKnown c = one_of turn_backends c.backend ≡ true

turn-known : (fs : Fields) (c : TurnConfig) → read_turn fs ≡ some c → TurnKnown c
unfolding read_turn
turn-known fs c h =
    grind (arith, literal_or-one_of turn_backends "smart_turn_v3" (get "backend" fs) refl)

abbrev VadKnown : VadConfig → Type 0
VadKnown c = one_of vad_backends c.backend ≡ true

abbrev LlmKnown : LlmConfig → Type 0
LlmKnown c = one_of llm_backends c.backend ≡ true

abbrev SimulatorKnown : SimulatorConfig → Type 0
SimulatorKnown c = one_of simulator_backends c.backend ≡ true

module _ (unit : ℕ) (p : Pydantic) (prompts : Prompts) where
  vad-known : (fs : Fields) (c : VadConfig) → read_vad unit p fs ≡ some c → VadKnown c
  unfolding read_vad
  vad-known fs c h = grind (arith, literal_or-one_of vad_backends "silero" (get "backend" fs) refl)

  llm-known : (fs : Fields) (c : LlmConfig) → read_llm unit p prompts fs ≡ some c → LlmKnown c
  unfolding read_llm
  llm-known fs c = bind-holds LlmKnown (only llm_keys fs) _ λ _ _.
      bind-holds LlmKnown (literal_or llm_backends "openai_compatible" (get "backend" fs)) _
        λ backend e. bind-holds LlmKnown (required_text (get "model" fs)) _ λ _ _.
          bind-holds LlmKnown
            (converted_or p.to_float (pos (300 * unit)) (get "timeout_seconds" fs)) _
            λ _ _.
              bind-holds LlmKnown (converted_or p.to_int (pos 1) (get "max_retries" fs)) _ λ _ _.
                bind-holds LlmKnown
                  (literal_or ("full" ∷ "commands_only" ∷ []) "full" (get "mode" fs)) _
                  λ _ _.
                    bind-holds LlmKnown (converted_or p.to_bool true (get "rerank" fs)) _ λ _ _.
                      bind-holds LlmKnown (converted_or p.to_bool true (get "expansion" fs)) _
                        λ _ _.
                          bind-holds LlmKnown
                            (converted_or p.to_int (pos 20) (get "retrieval_top_k" fs)) _
                            λ _ _.
                              bind-holds LlmKnown
                                (converted_or p.to_bool false (get "audit_enabled" fs)) _
                                λ _ _.
                                  bind-holds LlmKnown
                                    (prompt_or prompts.system_prompt (get "system_prompt" fs)) _
                                    λ _ _.
                                      bind-holds LlmKnown
                                        (prompt_or prompts.rag_system_prompt
                                          (get "rag_system_prompt" fs))
                                        _
                                        λ _ _. λ k. some-holds LlmKnown k (
                                          literal_or-one_of llm_backends "openai_compatible"
                                            (get "backend" fs) refl backend e)

  simulator-known :
      (fs : Fields) (c : SimulatorConfig) → read_simulator unit p fs ≡ some c → SimulatorKnown c
  unfolding read_simulator
  simulator-known fs c = bind-holds SimulatorKnown (migrate_legacy fs) _ λ gs _.
      bind-holds SimulatorKnown (only ("backend" ∷ "real" ∷ "mock" ∷ []) gs) _ λ _ _.
        bind-holds SimulatorKnown (literal_or simulator_backends "mock" (get "backend" gs)) _
          λ backend e h.
            let same : backend ≡ c.backend = ground arith in
            subst (λ b. one_of simulator_backends b ≡ true) same
              (literal_or-one_of simulator_backends "mock" (get "backend" gs) refl backend e)

module _ {A : Type 0} (b : Builders A) where
  create_stt-known : (c : SttConfig) → SttKnown c → create_stt b c ≢ none
  unfolding create_stt one_of
  create_stt-known c h e = ground arith

  create_tts-known : (c : TtsConfig) → TtsKnown c → create_tts b c ≢ none
  unfolding create_tts one_of
  create_tts-known c h e = ground arith

  create_vad-known : (c : VadConfig) → VadKnown c → create_vad b c ≢ none
  unfolding create_vad one_of
  create_vad-known c h e = ground arith

  create_turn-known : (c : TurnConfig) → TurnKnown c → create_turn b c ≢ none
  unfolding create_turn one_of
  create_turn-known c h e = ground arith

  create_llm-known : (c : AppConfig) → LlmKnown c.llm → create_llm b (llm_runtime c) ≢ none
  unfolding create_llm one_of llm_runtime
  create_llm-known c h e = ground arith

  create_simulator-known : (c : SimulatorConfig) → SimulatorKnown c → create_simulator b c ≢ none
  unfolding create_simulator one_of
  create_simulator-known c h e = ground arith

  -- Whatever dictionary and environment a configuration is accepted from, each of the six factories
  -- knows the back end that its block names: none of them raises its ValueError.
  pub known_backends :
      (unit : ℕ) (p : Pydantic) (prompts : Prompts) (environ : Environment) (body : Fields)
      (c : AppConfig)
      → parse_config unit p prompts environ body ≡ accepted c
      → (create_stt b c.stt ≢ none)
        × (create_tts b c.tts ≢ none)
        × (create_vad b c.vad ≢ none)
        × (create_turn b c.turn_detection ≢ none)
        × (create_llm b (llm_runtime c) ≢ none)
        × (create_simulator b c.simulator ≢ none)
  known_backends unit p prompts environ body c known =
      let (d, _, accepts) = parse_config-accepted unit p prompts environ body c known in
      let r = read_app-ReadFrom unit p prompts d c accepts in
      (
        create_stt-known c.stt
            (required_block-holds SttKnown read_stt _ c.stt (λ fs. stt-known fs c.stt) r.stt),
        create_tts-known c.tts
            (required_block-holds TtsKnown read_tts _ c.tts (λ fs. tts-known fs c.tts) r.tts),
        create_vad-known c.vad (
            block_or-holds VadKnown (read_vad unit p) _ c.vad
              (λ fs. vad-known unit p prompts fs c.vad) r.vad),
        create_turn-known c.turn_detection (
            block_or-holds TurnKnown read_turn _ c.turn_detection
              (λ fs. turn-known fs c.turn_detection) r.turn_detection),
        create_llm-known c (
            required_block-holds LlmKnown (read_llm unit p prompts) _ c.llm
              (λ fs. llm-known unit p prompts fs c.llm) r.llm),
        create_simulator-known c.simulator (
            block_or-holds SimulatorKnown (read_simulator unit p) _ c.simulator
              (λ fs. simulator-known unit p prompts fs c.simulator) r.simulator),
      )
