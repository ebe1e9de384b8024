-- ===== src/Config/Editor.antt =====
-- voice_agent/api/config_router.py: the routes that read and write the configuration file. The file
-- is what it holds, `none` where there is none. What the disk does at a write is a parameter. The
-- reload, which replaces the process, and the JSON schema are left out.
mod Dropped
mod Overridden
pub mod Reload
pub mod Saving
pub mod Stripped
use virtual_helmsman.Prelude.{
  ℕ, String, Bool, true, false, Option, none, some, truthy, strip, text_eq, ◌||◌, not,
  if◌then◌else◌,
}
use virtual_helmsman.Json.{Json, str, obj, Fields, get, pop, put}
use virtual_helmsman.Config.Fields.{Pydantic}
use virtual_helmsman.Config.Llm.{Prompts}
use virtual_helmsman.Config.App.{
  Environment, ParsedConfig, accepted, validation_error, type_error, parse_config, Yaml, or_empty,
}

-- The body of a response with status 200, or the status of an error.
pub data Response : Type 0 where
  contents : Fields → Response
  saved : Response
  refused : (status_code : ℕ) → Response

module _ (yaml : Yaml) where
  abbrev pub mapping_of : Json → Response
  mapping_of (obj fs) = contents fs
  mapping_of _ = refused 500

  abbrev pub contents_of : Option Json → Response
  contents_of none = refused 500
  contents_of (some v) = mapping_of (or_empty v)

  -- GET /api/config; `unreadable` tells that the operating system refuses to read the file
  unfoldable pub read_config : (unreadable : Bool) → Option String → Response
  read_config unreadable none = refused 500
  read_config unreadable (some content) =
      if unreadable then refused 500 else contents_of (yaml.safe_load content)

-- `prompt is None or not isinstance(prompt, str) or prompt.strip() in ("", default.strip())`
abbrev pub is_default : String → Json → Bool
is_default default (str s) = not (truthy (strip s)) || text_eq (strip s) (strip default)
is_default default _ = true

abbrev pub drop_prompt_if : Option Json → (name default : String) → Fields → Fields
drop_prompt_if none name default fs = fs
drop_prompt_if (some prompt) name default fs = if is_default default prompt then pop name fs else fs

abbrev pub drop_prompt : (name default : String) → Fields → Fields
drop_prompt name default fs = drop_prompt_if (get name fs) name default fs

-- the loop over PROMPT_DEFAULTS
abbrev pub drop_default_prompts : Prompts → Fields → Fields
drop_default_prompts prompts fs =
    drop_prompt "rag_system_prompt" prompts.rag_system_prompt
      (drop_prompt "system_prompt" prompts.system_prompt fs)

abbrev pub stripped_block : Prompts → Option Json → Fields → Fields
stripped_block prompts (some (obj fs)) body = put "llm" (obj (drop_default_prompts prompts fs)) body
stripped_block prompts _ body = body

-- What is written for a body.
unfoldable pub stripped_body : Prompts → Fields → Fields
unfolding get put pop strip
stripped_body prompts body = stripped_block prompts (get "llm" body) body

-- What the disk does: it takes the text; it does not open the file; or it stops at a part, for
-- opening it has emptied the file.
pub data Disk : Type 0 where
  takes_text not_opened : Disk
  stops_at : (part : String) → Disk

abbrev pub write_file : Disk → (content : String) → Option String → Response × Option String
write_file takes_text content file = (saved, some content)
write_file not_opened content file = (refused 500, file)
write_file (stops_at part) content file = (refused 500, some part)

module _ (unit : ℕ) (p : Pydantic) (prompts : Prompts) (yaml : Yaml) where
  abbrev pub write_parsed : ParsedConfig → Disk → Fields → Option String → Response × Option String
  write_parsed (accepted c) disk body file =
      write_file disk (yaml.safe_dump (stripped_body prompts body)) file
  write_parsed validation_error disk body file = (refused 422, file)
  write_parsed type_error disk body file = (refused 422, file)

  -- PUT /api/config
  unfoldable pub write_config :
      Environment → Disk → Fields → Option String → Response × Option String
  write_config environ disk body file =
      write_parsed (parse_config unit p prompts environ body) disk body file
