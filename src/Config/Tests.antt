-- ===== src/Config/Tests.antt =====
-- Runs of the configuration and of its routes, and the theorems at a small configuration.
use virtual_helmsman.Prelude.{
  Bool, Option, none, some, [], ◌∷◌, ◌≡◌, ◌≢◌, refl, ap, sym, true, false, text_eq, if◌then◌else◌,
}
use virtual_helmsman.Prelude.Int.{ℤ, pos}
use virtual_helmsman.Json.{Json, null, bool, int, float, str, obj, Fields, end, field}
use virtual_helmsman.Config.Fields.{Pydantic}
use virtual_helmsman.Config.Llm.{Prompts}
use virtual_helmsman.Config.Simulator.{migrate_legacy}
use virtual_helmsman.Config.App.{
  Environment, AppConfig, parse_config, read_app, apply_env_overrides, accepted, type_error,
  validation_error, Yaml, load_config, loaded,
}
use virtual_helmsman.Config.App.Overrides.{simulator_backend_overridden}
use virtual_helmsman.Config.Runtimes.{llm_runtime}
use virtual_helmsman.Config.Editor.{
  stripped_body, takes_text, write_config, read_config, saved, contents,
}
use virtual_helmsman.Config.Editor.Saving.{write_config_saved}
use virtual_helmsman.Config.Editor.Stripped.{SameApp}
use virtual_helmsman.Backends.{
  Builders, create_stt, create_tts, create_vad, create_turn, create_llm, create_simulator,
}
use virtual_helmsman.Backends.Known.{known_backends}
use virtual_helmsman.Simulator.{stop}

abbrev lax : Pydantic
lax = record { to_bool = bool_of; to_int = int_of; to_float = float_of }
  where
    bool_of : Json → Option Bool
    bool_of (bool b) = some b
    bool_of _ = none

    int_of : Json → Option ℤ
    int_of (int n) = some n
    int_of _ = none

    float_of : Json → Option ℤ
    float_of (float x) = some x
    float_of _ = none

abbrev built_in : Prompts
built_in = record { system_prompt = "Steer."; rag_system_prompt = "Answer." }

abbrev on_bridge : Environment
on_bridge name = if text_eq name "SIMULATOR_BACKEND" then some "mock" else none

abbrev body : Fields
body = field "stt" (obj (field "model" (str "nemo") end)) (
    field "tts" (obj (field "voice" (str "af_bella") end)) (
      field "llm" (obj (field "model" (str "gemma") (field "system_prompt" (str "Steer. ") end))) (
        field "lm_studio" (obj (field "base_url" (str "http://localhost:1234/v1") end))
          (field "simulator" (obj (field "backend" (str "real") end)) end))))

abbrev config : AppConfig
config = record {
  stt = record {
    backend = "parakeet_onnx";
    model = "nemo";
    device = "cuda";
    language = "en";
    quantization = some "int8";
  };
  tts = record { backend = "kokoro"; voice = "af_bella"; device = "cuda" };
  vad = record { backend = "silero"; threshold = pos 5; stop_secs = pos 8 };
  turn_detection = record { backend = "smart_turn_v3"; device = "cpu" };
  llm = record {
    backend = "openai_compatible";
    model = "gemma";
    timeout_seconds = pos 300;
    max_retries = pos 1;
    system_prompt = "Steer. ";
    rag_system_prompt = "Answer.";
    mode = "full";
    rerank = true;
    expansion = true;
    retrieval_top_k = pos 20;
    audit_enabled = false;
  };
  lm_studio = record {
    base_url = "http://localhost:1234/v1";
    api_key_env = "LLM_API_KEY";
    embedding_model = "text-embedding-bge-m3";
  };
  qdrant = record { url = none; api_key_env = "QDRANT_API_KEY"; collection = "maritime_hybrid" };
  langfuse = record {
    enabled = false;
    host = none;
    public_key_env = "LANGFUSE_PUBLIC_KEY";
    secret_key_env = "LANGFUSE_SECRET_KEY";
  };
  database = record { path = "./data/ingestion.db" };
  simulator = record {
    backend = "mock";
    real = record {
      remote_host = "127.0.0.1";
      remote_port = pos 0;
      local_host = "127.0.0.1";
      local_port = pos 0;
      connect_timeout_seconds = pos 50;
      expected_fps = pos 0;
      stale_after_missed_frames = pos 200;
      reconnect_initial_seconds = pos 10;
      reconnect_max_seconds = pos 150;
    };
    mock = record { initial_heading = pos 0; initial_engine_order = stop; log_commands = true };
  };
  audio = record { sample_rate = pos 16000; ice_servers = "stun:stun.l.google.com:19302" ∷ [] };
  logging = record {
    level = "info";
    format = "json";
    conversation_log_path = "./logs/conversations";
    metrics_log_path = "./logs/metrics";
  };
  api = record {
    enabled = false;
    host = "127.0.0.1";
    port = pos 8765;
    cors_allow_origins = "*" ∷ [];
  };
  documents = record {
    document_id_field = "document_id";
    title_field = "title";
    source_field = "source";
    uploaded_at_field = "uploaded_at";
    scroll_limit = pos 10000;
    request_timeout_seconds = pos 300;
  };
  review = record {
    default_document_type = "PDF";
    default_categories = "algemeen";
    default_chunking_strategy = "paragraph_aware";
    request_timeout_seconds = pos 600;
  };
}

-- The environment puts the mock in the place of the real simulator.
parsed_body : parse_config 1 lax built_in on_bridge body ≡ accepted config
unfolding parse_config read_app apply_env_overrides migrate_legacy
parsed_body = refl

-- A block that is blank cannot be overridden: the assignment raises the TypeError.
blank_block : parse_config 1 lax built_in on_bridge (field "simulator" null end) ≡ type_error
unfolding parse_config apply_env_overrides
blank_block = refl

unknown_key : parse_config 1 lax built_in (λ _. none) (field "sst" null body) ≡ validation_error
unfolding parse_config read_app apply_env_overrides migrate_legacy
unknown_key = refl

abbrev copied : Builders AppConfig
copied = record {
  parakeet_onnx = λ c. config;
  parakeet_nemo = λ c. config;
  whisper = λ c. config;
  kokoro = λ c. config;
  piper = λ c. config;
  silero = λ c. config;
  smart_turn_v3 = λ c. config;
  vad_only = λ c. config;
  openai_compatible = λ c. config;
  langgraph = λ c. config;
  mock = λ c. config;
  real = λ c. config;
}

known_backends_example :
    (create_stt copied config.stt ≢ none)
    × (create_tts copied config.tts ≢ none)
    × (create_vad copied config.vad ≢ none)
    × (create_turn copied config.turn_detection ≢ none)
    × (create_llm copied (llm_runtime config) ≢ none)
    × (create_simulator copied config.simulator ≢ none)
known_backends_example = known_backends copied 1 lax built_in on_bridge body config parsed_body

simulator_backend_overridden_example : config.simulator.backend ≡ "mock"
simulator_backend_overridden_example =
    simulator_backend_overridden 1 lax built_in on_bridge body config "mock" refl refl parsed_body

-- The prompt differs from the built-in one by a blank, and is not written.
abbrev written : Fields
written = field "stt" (obj (field "model" (str "nemo") end)) (
    field "tts" (obj (field "voice" (str "af_bella") end)) (
      field "llm" (obj (field "model" (str "gemma") end)) (
        field "lm_studio" (obj (field "base_url" (str "http://localhost:1234/v1") end))
          (field "simulator" (obj (field "backend" (str "real") end)) end))))

stripped_body_example : stripped_body built_in body ≡ written
unfolding stripped_body
stripped_body_example = refl

-- A library that knows one file.
abbrev one_file : Yaml
one_file = record {
  safe_load = λ content. if text_eq content "saved" then some (obj written) else none;
  safe_dump = λ fs. "saved";
}

write_config_saved_example :
    ((write_config 1 lax built_in one_file on_bridge takes_text body none).0 ≡ saved)
    × (read_config one_file false
          (write_config 1 lax built_in one_file on_bridge takes_text body none).1
        ≡ contents (stripped_body built_in body))
    × ((c' : AppConfig) × (load_config 1 lax built_in one_file on_bridge
            (write_config 1 lax built_in one_file on_bridge takes_text body none).1
          ≡ loaded (accepted c'))
        × SameApp config c')
write_config_saved_example =
    write_config_saved 1 lax built_in one_file on_bridge body config none
      (ap (λ fs. some (obj fs)) (sym stripped_body_example)) parsed_body
