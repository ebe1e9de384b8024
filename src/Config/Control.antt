-- ===== src/Config/Control.antt =====
-- config.py: the blocks of the browser audio, the logs, the control plane and the knowledge base.
use virtual_helmsman.Prelude.{ℕ, ◌*◌, String, Bool, false, Option, some, List, [], ◌∷◌}
use virtual_helmsman.Prelude.Int.{ℤ, pos}
use virtual_helmsman.Prelude.Options.{◌>>=◌, ◌>>◌}
use virtual_helmsman.Json.{Fields, get}
use virtual_helmsman.Config.Fields.{
  Pydantic, only, text_or, literal_or, texts_or, converted_or, among,
}

pub record AudioConfig : Type 0 where
  pub sample_rate : ℤ
  pub ice_servers : List String

pub record LoggingConfig : Type 0 where
  pub level : String
  pub format : String
  pub conversation_log_path : String
  pub metrics_log_path : String

abbrev pub levels : List String
levels = "debug" ∷ "info" ∷ "warning" ∷ "error" ∷ []

-- A path is kept as its text.
unfoldable pub read_logging : Fields → Option LoggingConfig
unfolding only get among
read_logging fs = do
  only ("level" ∷ "format" ∷ "conversation_log_path" ∷ "metrics_log_path" ∷ []) fs
  level ← literal_or levels "info" (get "level" fs)
  format ← literal_or ("json" ∷ "console" ∷ []) "json" (get "format" fs)
  conversations ← text_or "./logs/conversations" (get "conversation_log_path" fs)
  metrics ← text_or "./logs/metrics" (get "metrics_log_path" fs)
  some record {
    level = level;
    format = format;
    conversation_log_path = conversations;
    metrics_log_path = metrics;
  }

pub record ApiConfig : Type 0 where
  pub enabled : Bool
  pub host : String
  pub port : ℤ
  pub cors_allow_origins : List String

pub record DocumentsConfig : Type 0 where
  pub document_id_field : String
  pub title_field : String
  pub source_field : String
  pub uploaded_at_field : String
  pub scroll_limit : ℤ
  pub request_timeout_seconds : ℤ

pub record ReviewConfig : Type 0 where
  pub default_document_type : String
  pub default_categories : String
  pub default_chunking_strategy : String
  pub request_timeout_seconds : ℤ

abbrev pub document_keys : List String
document_keys =
    "document_id_field" ∷ "title_field" ∷ "source_field" ∷ "uploaded_at_field" ∷ "scroll_limit"
    ∷ "request_timeout_seconds" ∷ []

abbrev pub review_keys : List String
review_keys =
    "default_document_type" ∷ "default_categories" ∷ "default_chunking_strategy"
    ∷ "request_timeout_seconds" ∷ []

module _ (p : Pydantic) where
  unfoldable pub read_audio : Fields → Option AudioConfig
  unfolding only get
  read_audio fs = do
    only ("sample_rate" ∷ "ice_servers" ∷ []) fs
    sample_rate ← converted_or p.to_int (pos 16000) (get "sample_rate" fs)
    ice_servers ← texts_or ("stun:stun.l.google.com:19302" ∷ []) (get "ice_servers" fs)
    some record { sample_rate = sample_rate; ice_servers = ice_servers }

  unfoldable pub read_api : Fields → Option ApiConfig
  unfolding only get
  read_api fs = do
    only ("enabled" ∷ "host" ∷ "port" ∷ "cors_allow_origins" ∷ []) fs
    enabled ← converted_or p.to_bool false (get "enabled" fs)
    host ← text_or "127.0.0.1" (get "host" fs)
    port ← converted_or p.to_int (pos 8765) (get "port" fs)
    origins ← texts_or ("*" ∷ []) (get "cors_allow_origins" fs)
    some record { enabled = enabled; host = host; port = port; cors_allow_origins = origins }

module _ (unit : ℕ) (p : Pydantic) where
  unfoldable pub read_documents : Fields → Option DocumentsConfig
  unfolding only get
  read_documents fs = do
    only document_keys fs
    document_id_field ← text_or "document_id" (get "document_id_field" fs)
    title_field ← text_or "title" (get "title_field" fs)
    source_field ← text_or "source" (get "source_field" fs)
    uploaded_at_field ← text_or "uploaded_at" (get "uploaded_at_field" fs)
    scroll_limit ← converted_or p.to_int (pos 10000) (get "scroll_limit" fs)
    seconds ← converted_or p.to_float (pos (300 * unit)) (get "request_timeout_seconds" fs)
    some record {
      document_id_field = document_id_field;
      title_field = title_field;
      source_field = source_field;
      uploaded_at_field = uploaded_at_field;
      scroll_limit = scroll_limit;
      request_timeout_seconds = seconds;
    }

  unfoldable pub read_review : Fields → Option ReviewConfig
  unfolding only get among
  read_review fs = do
    only review_keys fs
    document_type ← text_or "PDF" (get "default_document_type" fs)
    categories ← text_or "algemeen" (get "default_categories" fs)
    strategy ←
        literal_or ("paragraph_aware" ∷ "fixed_size" ∷ []) "paragraph_aware"
          (get "default_chunking_strategy" fs)
    seconds ← converted_or p.to_float (pos (600 * unit)) (get "request_timeout_seconds" fs)
    some record {
      default_document_type = document_type;
      default_categories = categories;
      default_chunking_strategy = strategy;
      request_timeout_seconds = seconds;
    }
