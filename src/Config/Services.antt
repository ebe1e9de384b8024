-- ===== src/Config/Services.antt =====
-- config.py: the blocks of the speech back ends, and the service blocks that the subsystems share.
use virtual_helmsman.Prelude.{ℕ, ◌*◌, String, Bool, false, Option, some, List, [], ◌∷◌}
use virtual_helmsman.Prelude.Int.{ℤ, pos}
use virtual_helmsman.Prelude.Options.{◌>>=◌, ◌>>◌}
use virtual_helmsman.Json.{Fields, get}
use virtual_helmsman.Config.Fields.{
  Pydantic, only, required_text, text_or, optional_text, literal_or, optional_literal_or,
  converted_or, among,
}

pub record SttConfig : Type 0 where
  pub backend : String
  pub model : String
  pub device : String
  pub language : String
  pub quantization : Option String

abbrev pub stt_backends : List String
stt_backends = "parakeet_onnx" ∷ "parakeet_nemo" ∷ "whisper" ∷ []

unfoldable pub read_stt : Fields → Option SttConfig
unfolding only get among
read_stt fs = do
  only ("backend" ∷ "model" ∷ "device" ∷ "language" ∷ "quantization" ∷ []) fs
  backend ← literal_or stt_backends "parakeet_onnx" (get "backend" fs)
  model ← required_text (get "model" fs)
  device ← text_or "cuda" (get "device" fs)
  language ← text_or "en" (get "language" fs)
  quantization ← optional_literal_or ("int8" ∷ []) (some "int8") (get "quantization" fs)
  some record {
    backend = backend;
    model = model;
    device = device;
    language = language;
    quantization = quantization;
  }

pub record TtsConfig : Type 0 where
  pub backend : String
  pub voice : String
  pub device : String

abbrev pub tts_backends : List String
tts_backends = "kokoro" ∷ "piper" ∷ []

unfoldable pub read_tts : Fields → Option TtsConfig
unfolding only get among
read_tts fs = do
  only ("backend" ∷ "voice" ∷ "device" ∷ []) fs
  backend ← literal_or tts_backends "kokoro" (get "backend" fs)
  voice ← required_text (get "voice" fs)
  device ← text_or "cuda" (get "device" fs)
  some record { backend = backend; voice = voice; device = device }

pub record VadConfig : Type 0 where
  pub backend : String
  pub threshold : ℤ
  pub stop_secs : ℤ

abbrev pub vad_backends : List String
vad_backends = "silero" ∷ []

pub record TurnConfig : Type 0 where
  pub backend : String
  pub device : String

abbrev pub turn_backends : List String
turn_backends = "smart_turn_v3" ∷ "vad_only" ∷ []

unfoldable pub read_turn : Fields → Option TurnConfig
unfolding only get among
read_turn fs = do
  only ("backend" ∷ "device" ∷ []) fs
  backend ← literal_or turn_backends "smart_turn_v3" (get "backend" fs)
  device ← text_or "cpu" (get "device" fs)
  some record { backend = backend; device = device }

pub record QdrantConfig : Type 0 where
  pub url : Option String
  pub api_key_env : String
  pub collection : String

unfoldable pub read_qdrant : Fields → Option QdrantConfig
unfolding only get
read_qdrant fs = do
  only ("url" ∷ "api_key_env" ∷ "collection" ∷ []) fs
  url ← optional_text (get "url" fs)
  api_key_env ← text_or "QDRANT_API_KEY" (get "api_key_env" fs)
  collection ← text_or "maritime_hybrid" (get "collection" fs)
  some record { url = url; api_key_env = api_key_env; collection = collection }

pub record LmStudioConfig : Type 0 where
  pub base_url : String
  pub api_key_env : String
  pub embedding_model : String

unfoldable pub read_lm_studio : Fields → Option LmStudioConfig
unfolding only get
read_lm_studio fs = do
  only ("base_url" ∷ "api_key_env" ∷ "embedding_model" ∷ []) fs
  base_url ← required_text (get "base_url" fs)
  api_key_env ← text_or "LLM_API_KEY" (get "api_key_env" fs)
  embedding_model ← text_or "text-embedding-bge-m3" (get "embedding_model" fs)
  some record { base_url = base_url; api_key_env = api_key_env; embedding_model = embedding_model }

pub record LangfuseConfig : Type 0 where
  pub enabled : Bool
  pub host : Option String
  pub public_key_env : String
  pub secret_key_env : String

pub record DatabaseConfig : Type 0 where
  pub path : String

unfoldable pub read_database : Fields → Option DatabaseConfig
unfolding only get
read_database fs = do
  only ("path" ∷ []) fs
  path ← text_or "./data/ingestion.db" (get "path" fs)
  some record { path = path }

module _ (unit : ℕ) (p : Pydantic) where
  unfoldable pub read_vad : Fields → Option VadConfig
  unfolding only get among
  read_vad fs = do
    only ("backend" ∷ "threshold" ∷ "stop_secs" ∷ []) fs
    backend ← literal_or vad_backends "silero" (get "backend" fs)
    threshold ← converted_or p.to_float (pos (5 * unit)) (get "threshold" fs)
    stop_secs ← converted_or p.to_float (pos (8 * unit)) (get "stop_secs" fs)
    some record { backend = backend; threshold = threshold; stop_secs = stop_secs }

unfoldable pub read_langfuse : Pydantic → Fields → Option LangfuseConfig
unfolding only get
read_langfuse p fs = do
  only ("enabled" ∷ "host" ∷ "public_key_env" ∷ "secret_key_env" ∷ []) fs
  enabled ← converted_or p.to_bool false (get "enabled" fs)
  host ← optional_text (get "host" fs)
  public_key_env ← text_or "LANGFUSE_PUBLIC_KEY" (get "public_key_env" fs)
  secret_key_env ← text_or "LANGFUSE_SECRET_KEY" (get "secret_key_env" fs)
  some record {
    enabled = enabled;
    host = host;
    public_key_env = public_key_env;
    secret_key_env = secret_key_env;
  }
