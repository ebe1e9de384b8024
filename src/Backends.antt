-- ===== src/Backends.antt =====
-- voice_agent/backends: the factories, each with its table of builders. What a builder makes is a
-- parameter; `none` is the ValueError of a back end that the table does not name.
pub mod Known
use virtual_helmsman.Prelude.{String, Option, none, some, List, [], ◌∷◌, text_eq, if◌then◌else◌}
use virtual_helmsman.Prelude.Options.{◌>>=◌}
use virtual_helmsman.Config.Services.{SttConfig, TtsConfig, VadConfig, TurnConfig}
use virtual_helmsman.Config.Simulator.{SimulatorConfig, SimulatorRealConfig, SimulatorMockConfig}
use virtual_helmsman.Config.Runtimes.{LlmRuntime}

-- _BUILDERS[name]
unfoldable pub builder {ℓ} : {A : Type ℓ} → String → List (String × A) → Option A
builder name [] = none
builder name ((known, build) ∷ rest) = if text_eq known name then some build else builder name rest

abbrev pub build_with {ℓ κ} : {C : Type ℓ} {A : Type κ} → C → Option (C → A) → Option A
build_with config none = none
build_with config (some build) = some (build config)

-- The builders of the back ends, by the names of their modules.
pub record Builders (A : Type 0) : Type 0 where
  pub parakeet_onnx : SttConfig → A
  pub parakeet_nemo : SttConfig → A
  pub whisper : SttConfig → A
  pub kokoro : TtsConfig → A
  pub piper : TtsConfig → A
  pub silero : VadConfig → A
  pub smart_turn_v3 : TurnConfig → A
  pub vad_only : TurnConfig → A
  pub openai_compatible : LlmRuntime → A
  pub langgraph : LlmRuntime → A
  pub mock : SimulatorMockConfig → A
  pub real : SimulatorRealConfig → A

module _ {A : Type 0} (b : Builders A) where
  unfoldable pub create_stt : SttConfig → Option A
  unfolding builder
  create_stt config = build_with config (
      builder config.backend (
        ("parakeet_onnx", b.parakeet_onnx)
        ∷ ("parakeet_nemo", b.parakeet_nemo)
        ∷ ("whisper", b.whisper)
        ∷ []))

  unfoldable pub create_tts : TtsConfig → Option A
  unfolding builder
  create_tts config =
      build_with config (builder config.backend (("kokoro", b.kokoro) ∷ ("piper", b.piper) ∷ []))

  unfoldable pub create_vad : VadConfig → Option A
  unfolding builder
  create_vad config = build_with config (builder config.backend (("silero", b.silero) ∷ []))

  unfoldable pub create_turn : TurnConfig → Option A
  unfolding builder
  create_turn config =
      build_with config (
        builder config.backend (("smart_turn_v3", b.smart_turn_v3) ∷ ("vad_only", b.vad_only) ∷ []))

  unfoldable pub create_llm : LlmRuntime → Option A
  unfolding builder
  create_llm config = build_with config (
      builder config.backend
        (("openai_compatible", b.openai_compatible) ∷ ("langgraph", b.langgraph) ∷ []))

  -- Each entry has the selector of its block.
  unfoldable pub create_simulator : SimulatorConfig → Option A
  unfolding builder
  create_simulator config = build_with config (
      builder config.backend (
        ("mock", λ (c : SimulatorConfig). b.mock c.mock)
        ∷ ("real", λ (c : SimulatorConfig). b.real c.real)
        ∷ []))
