-- ===== src/Config/App.antt =====
-- config.py: the whole configuration, the overrides from the environment, and the loading of the
-- file. The environment and the YAML library are parameters; a YAML mapping has texts for keys.
pub mod Blocks
pub mod Overrides
use virtual_helmsman.Prelude.{
  ℕ, String, Bool, true, false, Option, none, some, List, [], ◌∷◌, truthy, if◌then◌else◌,
}
use virtual_helmsman.Prelude.Options.{◌>>=◌, ◌>>◌}
use virtual_helmsman.Json.{Json, str, obj, Fields, end, field, get, put, is_truthy}
use virtual_helmsman.Config.Fields.{Pydantic, only, block_or, required_block}
use virtual_helmsman.Config.Services.{
  SttConfig, TtsConfig, VadConfig, TurnConfig, QdrantConfig, LmStudioConfig, LangfuseConfig,
  DatabaseConfig, read_stt, read_tts, read_vad, read_turn, read_qdrant, read_lm_studio,
  read_langfuse, read_database,
}
use virtual_helmsman.Config.Llm.{LlmConfig, Prompts, read_llm}
use virtual_helmsman.Config.Simulator.{SimulatorConfig, read_simulator}
use virtual_helmsman.Config.Control.{
  AudioConfig, LoggingConfig, ApiConfig, DocumentsConfig, ReviewConfig, read_audio, read_logging,
  read_api, read_documents, read_review,
}

pub record AppConfig : Type 0 where
  pub stt : SttConfig
  pub tts : TtsConfig
  pub vad : VadConfig
  pub turn_detection : TurnConfig
  pub llm : LlmConfig
  pub lm_studio : LmStudioConfig
  pub qdrant : QdrantConfig
  pub langfuse : LangfuseConfig
  pub database : DatabaseConfig
  pub simulator : SimulatorConfig
  pub audio : AudioConfig
  pub logging : LoggingConfig
  pub api : ApiConfig
  pub documents : DocumentsConfig
  pub review : ReviewConfig

abbrev pub app_keys : List String
app_keys =
    "stt" ∷ "tts" ∷ "vad" ∷ "turn_detection" ∷ "llm" ∷ "lm_studio" ∷ "qdrant" ∷ "langfuse"
    ∷ "database" ∷ "simulator" ∷ "audio" ∷ "logging" ∷ "api" ∷ "documents" ∷ "review" ∷ []

-- os.environ.get
abbrev pub Environment : Type 0
Environment = String → Option String

-- data.setdefault(block, {})[key] = value; `none` where the block is no dictionary, and the
-- assignment raises the TypeError
abbrev pub assign_in : Option Json → (block key value : String) → Fields → Option Fields
assign_in none block key value data' = some (put block (obj (field key (str value) end)) data')
assign_in (some (obj fs)) block key value data' =
    some (put block (obj (put key (str value) fs)) data')
assign_in (some _) block key value data' = none

abbrev pub override_by : Option String → (block key : String) → Fields → Option Fields
override_by none block key data' = some data'
override_by (some value) block key data' =
    if truthy value then assign_in (get block data') block key value data' else some data'

-- `_apply_env_overrides`
unfoldable pub apply_env_overrides : Environment → Fields → Option Fields
unfolding get put
apply_env_overrides environ data' =
    override_by (environ "LLM_BASE_URL") "lm_studio" "base_url" data'
    >>= override_by (environ "SIMULATOR_BACKEND") "simulator" "backend"

-- What `parse_config` gives: the configuration, or which exception it raises.
pub data ParsedConfig : Type 0 where
  accepted : AppConfig → ParsedConfig
  validation_error type_error : ParsedConfig

abbrev pub validated : Option AppConfig → ParsedConfig
validated none = validation_error
validated (some c) = accepted c

module _ (unit : ℕ) (p : Pydantic) (prompts : Prompts) where
  -- AppConfig(**data)
  unfoldable pub read_app : Fields → Option AppConfig
  unfolding only get read_stt read_tts read_vad read_turn read_qdrant read_lm_studio read_langfuse
      read_database read_llm read_simulator read_audio read_logging read_api read_documents
      read_review
  read_app fs = do
    only app_keys fs
    stt ← required_block read_stt (get "stt" fs)
    tts ← required_block read_tts (get "tts" fs)
    vad ← block_or (read_vad unit p) (get "vad" fs)
    turn_detection ← block_or read_turn (get "turn_detection" fs)
    llm ← required_block (read_llm unit p prompts) (get "llm" fs)
    lm_studio ← required_block read_lm_studio (get "lm_studio" fs)
    qdrant ← block_or read_qdrant (get "qdrant" fs)
    langfuse ← block_or (read_langfuse p) (get "langfuse" fs)
    database ← block_or read_database (get "database" fs)
    simulator ← block_or (read_simulator unit p) (get "simulator" fs)
    audio ← block_or (read_audio p) (get "audio" fs)
    logging ← block_or read_logging (get "logging" fs)
    api ← block_or (read_api p) (get "api" fs)
    documents ← block_or (read_documents unit p) (get "documents" fs)
    review ← block_or (read_review unit p) (get "review" fs)
    some record {
      stt = stt;
      tts = tts;
      vad = vad;
      turn_detection = turn_detection;
      llm = llm;
      lm_studio = lm_studio;
      qdrant = qdrant;
      langfuse = langfuse;
      database = database;
      simulator = simulator;
      audio = audio;
      logging = logging;
      api = api;
      documents = documents;
      review = review;
    }

  abbrev pub parse_overridden : Option Fields → ParsedConfig
  parse_overridden none = type_error
  parse_overridden (some fs) = validated (read_app fs)

  unfoldable pub parse_config : Environment → Fields → ParsedConfig
  parse_config environ fs = parse_overridden (apply_env_overrides environ fs)

-- What the YAML library does: `none` where `safe_load` raises.
pub record Yaml : Type 0 where
  pub safe_load : String → Option Json
  pub safe_dump : Fields → String

-- What `load_config` gives besides: the file is missing, is no YAML, or holds no mapping.
pub data LoadedConfig : Type 0 where
  loaded : ParsedConfig → LoadedConfig
  file_not_found yaml_error not_a_mapping : LoadedConfig

-- yaml.safe_load(fh) or {}
abbrev pub or_empty : Json → Json
or_empty v = if is_truthy v then v else obj end

module _ (unit : ℕ) (p : Pydantic) (prompts : Prompts) (yaml : Yaml) where
  abbrev pub load_mapping : Environment → Json → LoadedConfig
  load_mapping environ (obj fs) = loaded (parse_config unit p prompts environ fs)
  load_mapping environ _ = not_a_mapping

  abbrev pub load_value : Environment → Option Json → LoadedConfig
  load_value environ none = yaml_error
  load_value environ (some v) = load_mapping environ (or_empty v)

  abbrev pub load_file : Environment → Option String → LoadedConfig
  load_file environ none = file_not_found
  load_file environ (some content) = load_value environ (yaml.safe_load content)

  -- `load_config`, of what the file holds, or `none` where there is none
  unfoldable pub load_config : Environment → Option String → LoadedConfig
  load_config environ content = load_file environ content
