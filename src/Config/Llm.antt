-- ===== src/Config/Llm.antt =====
-- config.py: the block of the language model. The built-in prompts are parameters.
use virtual_helmsman.Prelude.{
  ℕ, ◌*◌, String, Bool, true, false, Option, none, some, List, [], ◌∷◌, truthy, strip,
  if◌then◌else◌,
}
use virtual_helmsman.Prelude.Int.{ℤ, pos}
use virtual_helmsman.Prelude.Options.{◌>>=◌, ◌>>◌}
use virtual_helmsman.Json.{Json, null, str, Fields, get}
use virtual_helmsman.Config.Fields.{Pydantic, only, required_text, literal_or, converted_or, among}

pub record LlmConfig : Type 0 where
  pub backend : String
  pub model : String
  pub timeout_seconds : ℤ
  pub max_retries : ℤ
  pub system_prompt : String
  pub rag_system_prompt : String
  pub mode : String
  pub rerank : Bool
  pub expansion : Bool
  pub retrieval_top_k : ℤ
  pub audit_enabled : Bool

-- PROMPT_DEFAULTS
pub record Prompts : Type 0 where
  pub system_prompt : String
  pub rag_system_prompt : String

abbrev pub llm_backends : List String
llm_backends = "openai_compatible" ∷ "langgraph" ∷ []

-- the validator `_blank_prompt_means_default`, in front of the check that it is a text
abbrev pub prompt_or : String → Option Json → Option String
prompt_or default none = some default
prompt_or default (some null) = some default
prompt_or default (some (str s)) = some (if truthy (strip s) then s else default)
prompt_or default (some _) = none

abbrev pub llm_keys : List String
llm_keys =
    "backend" ∷ "model" ∷ "timeout_seconds" ∷ "max_retries" ∷ "system_prompt" ∷ "rag_system_prompt"
    ∷ "mode" ∷ "rerank" ∷ "expansion" ∷ "retrieval_top_k" ∷ "audit_enabled" ∷ []

module _ (unit : ℕ) (p : Pydantic) (prompts : Prompts) where
  unfoldable pub read_llm : Fields → Option LlmConfig
  unfolding only get among strip
  read_llm fs = do
    only llm_keys fs
    backend ← literal_or llm_backends "openai_compatible" (get "backend" fs)
    model ← required_text (get "model" fs)
    timeout_seconds ← converted_or p.to_float (pos (300 * unit)) (get "timeout_seconds" fs)
    max_retries ← converted_or p.to_int (pos 1) (get "max_retries" fs)
    mode ← literal_or ("full" ∷ "commands_only" ∷ []) "full" (get "mode" fs)
    rerank ← converted_or p.to_bool true (get "rerank" fs)
    expansion ← converted_or p.to_bool true (get "expansion" fs)
    retrieval_top_k ← converted_or p.to_int (pos 20) (get "retrieval_top_k" fs)
    audit_enabled ← converted_or p.to_bool false (get "audit_enabled" fs)
    system_prompt ← prompt_or prompts.system_prompt (get "system_prompt" fs)
    rag_system_prompt ← prompt_or prompts.rag_system_prompt (get "rag_system_prompt" fs)
    some record {
      backend = backend;
      model = model;
      timeout_seconds = timeout_seconds;
      max_retries = max_retries;
      system_prompt = system_prompt;
      rag_system_prompt = rag_system_prompt;
      mode = mode;
      rerank = rerank;
      expansion = expansion;
      retrieval_top_k = retrieval_top_k;
      audit_enabled = audit_enabled;
    }
