-- ===== src/Config/Editor/Reload.antt =====
-- config_router.py: what a reload does to the environment. The `.env` file is the values that it
-- names. `load_dotenv`, with which the new process begins, is a parameter: it leaves the variables
-- that are set and takes the others from the file.
use virtual_helmsman.Prelude.{
  String, Option, none, some, Bool, true, false, ◌≡◌, refl, ◌∙◌, if◌then◌else◌, Option-cases, inl,
  inr,
}
use virtual_helmsman.Config.App.{Environment}

abbrev pub is_set : Option String → Bool
is_set none = false
is_set (some value) = true

-- `_forget_dotenv_vars`, with the values that the file names now
unfoldable pub forget_dotenv_vars : (dotenv : Environment) → Environment → Environment
forget_dotenv_vars dotenv environ name = if is_set (dotenv name) then none else environ name

abbrev or_else : Option String → Option String → Option String
or_else none other = other
or_else (some value) other = some value

-- Behind a reload every variable that the file names has the value of the file, also one that the
-- operator had set outside of it; the others are untouched.
reload_takes_file :
    (load_dotenv : Environment → Environment → Environment)
    → ((dotenv environ : Environment) (name : String)
        → load_dotenv dotenv environ name ≡ or_else (environ name) (dotenv name))
    → (dotenv environ : Environment) (name : String)
    → load_dotenv dotenv (forget_dotenv_vars dotenv environ) name
      ≡ or_else (dotenv name) (environ name)
unfolding forget_dotenv_vars
reload_takes_file load_dotenv loads dotenv environ name =
    loads dotenv (forget_dotenv_vars dotenv environ) name ∙ elim (Option-cases (dotenv name)) [
      | inl absent ↦ rw absent (kept (environ name))
      | inr (value, found) ↦ rw found refl
    ]
  where
    kept : (o : Option String) → or_else o none ≡ o
    kept none = refl
    kept (some value) = refl
