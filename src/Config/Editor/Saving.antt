-- ===== src/Config/Editor/Saving.antt =====
-- What a save of the configuration leaves in the file: the dictionary of the editor without its
-- unmodified prompts, which is read back as the same configuration.
use virtual_helmsman.Prelude.{
  ℕ, String, false, Option, some, ◌≡◌, ◌≢◌, ◌⊎◌, refl, ◌∙◌, inl, inr, ap,
}
use virtual_helmsman.Json.{obj, Fields, field, end}
use virtual_helmsman.Config.Fields.{Pydantic}
use virtual_helmsman.Config.Llm.{Prompts}
use virtual_helmsman.Config.App.{
  Environment, AppConfig, ParsedConfig, parse_config, accepted, validation_error, type_error, Yaml,
  or_empty, load_config, loaded,
}
use virtual_helmsman.Config.Editor.{
  stripped_body, Disk, takes_text, not_opened, stops_at, write_config, write_parsed, read_config,
  saved, contents,
}
use virtual_helmsman.Config.Editor.Stripped.{SameApp, parse_config-stripped}

or_empty-obj : (fs : Fields) → or_empty (obj fs) ≡ obj fs
or_empty-obj end = refl
or_empty-obj (field k v fs) = refl

module _ (unit : ℕ) (p : Pydantic) (prompts : Prompts) (yaml : Yaml) (environ : Environment) where
  module _ {fs : Fields} {content : String} (loads : yaml.safe_load content ≡ some (obj fs)) where
    read_config-loads : read_config yaml false (some content) ≡ contents fs
    unfolding read_config
    read_config-loads = rw loads (rw (or_empty-obj fs) refl)

    load_config-loads :
        load_config unit p prompts yaml environ (some content)
        ≡ loaded (parse_config unit p prompts environ fs)
    unfolding load_config
    load_config-loads = rw loads (rw (or_empty-obj fs) refl)

  -- A save of an accepted configuration on a disk that takes it is read back by the editor as the
  -- body less its unmodified prompts, and at the next start, in the same environment, as the same
  -- configuration, but for white space at the ends of the prompts, provided that `safe_load` reads
  -- back what `safe_dump` writes of that dictionary.
  pub write_config_saved :
      (body : Fields) (c : AppConfig) (file : Option String)
      → yaml.safe_load (yaml.safe_dump (stripped_body prompts body))
        ≡ some (obj (stripped_body prompts body))
      → parse_config unit p prompts environ body ≡ accepted c
      → ((write_config unit p prompts yaml environ takes_text body file).0 ≡ saved)
        × (read_config yaml false (write_config unit p prompts yaml environ takes_text body file).1
            ≡ contents (stripped_body prompts body))
        × ((c' : AppConfig) × (load_config unit p prompts yaml environ
                (write_config unit p prompts yaml environ takes_text body file).1
              ≡ loaded (accepted c'))
            × SameApp c c')
  unfolding write_config
  write_config_saved body c file loads known =
      let (c', known', like) = parse_config-stripped unit p prompts environ body c known in
      rw known
        (refl, read_config-loads loads, (c', load_config-loads loads ∙ ap loaded known', like))

-- A save that is refused leaves the file alone, whatever it is refused for, unless the disk stops
-- in the middle: then the old content is lost, and a part of the new one is left.
write_config_refused :
    (unit : ℕ) (p : Pydantic) (prompts : Prompts) (yaml : Yaml) (environ : Environment)
    (disk : Disk) (body : Fields) (file : Option String)
    → (write_config unit p prompts yaml environ disk body file).0 ≢ saved
    → ((write_config unit p prompts yaml environ disk body file).1 ≡ file)
      ⊎ ((part : String) × (disk ≡ stops_at part)
          × ((write_config unit p prompts yaml environ disk body file).1 ≡ some part))
unfolding write_config
write_config_refused unit p prompts yaml environ disk body file =
    go (parse_config unit p prompts environ body) disk
  where
    go :
        (parsed : ParsedConfig) (disk : Disk)
        → (write_parsed unit p prompts yaml parsed disk body file).0 ≢ saved
        → ((write_parsed unit p prompts yaml parsed disk body file).1 ≡ file)
          ⊎ ((part : String) × (disk ≡ stops_at part)
              × ((write_parsed unit p prompts yaml parsed disk body file).1 ≡ some part))
    go (accepted c) takes_text h = absurd (h refl)
    go (accepted c) not_opened h = inl refl
    go (accepted c) (stops_at part) h = inr (part, refl, refl)
    go validation_error disk h = inl refl
    go type_error disk h = inl refl
