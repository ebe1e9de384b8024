-- ===== src/Config/Runtimes.antt =====
-- config.py: the flat views of the configuration that the subsystems read.
use virtual_helmsman.Prelude.{String, Bool, Option}
use virtual_helmsman.Prelude.Int.{ℤ}
use virtual_helmsman.Config.App.{AppConfig}

pub record LlmRuntime : Type 0 where
  pub backend : String
  pub base_url : String
  pub model : String
  pub mode : String
  pub system_prompt : String
  pub rag_system_prompt : String
  pub timeout_seconds : ℤ
  pub max_retries : ℤ
  pub rerank : Bool
  pub expansion : Bool
  pub retrieval_top_k : ℤ
  pub qdrant_url : Option String
  pub qdrant_collection : String
  pub embedding_model : String
  pub langfuse_enabled : Bool
  pub langfuse_host : Option String
  pub langfuse_public_key_env : String
  pub langfuse_secret_key_env : String
  pub audit_enabled : Bool
  pub audit_db_path : String
  pub api_key_env : String
  pub qdrant_api_key_env : String

pub record IngestionRuntime : Type 0 where
  pub db_path : String
  pub request_timeout_seconds : ℤ
  pub llm_base_url : String
  pub llm_api_key_env : String
  pub qdrant_url : Option String
  pub qdrant_api_key_env : String
  pub embedding_model : String
  pub default_document_type : String
  pub default_collection_name : String
  pub default_categories : String
  pub default_chunking_strategy : String
  pub langfuse_enabled : Bool
  pub langfuse_host : Option String
  pub langfuse_public_key_env : String
  pub langfuse_secret_key_env : String

unfoldable pub llm_runtime : AppConfig → LlmRuntime
llm_runtime c = record {
  backend = c.llm.backend;
  base_url = c.lm_studio.base_url;
  model = c.llm.model;
  mode = c.llm.mode;
  system_prompt = c.llm.system_prompt;
  rag_system_prompt = c.llm.rag_system_prompt;
  timeout_seconds = c.llm.timeout_seconds;
  max_retries = c.llm.max_retries;
  rerank = c.llm.rerank;
  expansion = c.llm.expansion;
  retrieval_top_k = c.llm.retrieval_top_k;
  qdrant_url = c.qdrant.url;
  qdrant_collection = c.qdrant.collection;
  embedding_model = c.lm_studio.embedding_model;
  langfuse_enabled = c.langfuse.enabled;
  langfuse_host = c.langfuse.host;
  langfuse_public_key_env = c.langfuse.public_key_env;
  langfuse_secret_key_env = c.langfuse.secret_key_env;
  audit_enabled = c.llm.audit_enabled;
  audit_db_path = c.database.path;
  api_key_env = c.lm_studio.api_key_env;
  qdrant_api_key_env = c.qdrant.api_key_env;
}

unfoldable pub ingestion_runtime : AppConfig → IngestionRuntime
ingestion_runtime c = record {
  db_path = c.database.path;
  request_timeout_seconds = c.review.request_timeout_seconds;
  llm_base_url = c.lm_studio.base_url;
  llm_api_key_env = c.lm_studio.api_key_env;
  qdrant_url = c.qdrant.url;
  qdrant_api_key_env = c.qdrant.api_key_env;
  embedding_model = c.lm_studio.embedding_model;
  default_document_type = c.review.default_document_type;
  default_collection_name = c.qdrant.collection;
  default_categories = c.review.default_categories;
  default_chunking_strategy = c.review.default_chunking_strategy;
  langfuse_enabled = c.langfuse.enabled;
  langfuse_host = c.langfuse.host;
  langfuse_public_key_env = c.langfuse.public_key_env;
  langfuse_secret_key_env = c.langfuse.secret_key_env;
}
