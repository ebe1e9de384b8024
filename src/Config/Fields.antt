-- ===== src/Config/Fields.antt =====
-- How pydantic reads the fields of a block of the configuration (voice_agent/config.py): a default
-- where the key is missing, a literal among the words it allows, and no key besides those of the
-- model (`extra="forbid"`). Its conversions of a value to a bool, an int or a float are parameters;
-- a float is a multiple of 1 / (10 * unit).
pub mod Keys
pub mod Literals
use virtual_helmsman.Prelude.{
  ℕ, String, Bool, true, false, ◌||◌, Option, none, some, List, [], ◌∷◌, text_eq,
}
use virtual_helmsman.Prelude.Int.{ℤ}
use virtual_helmsman.Prelude.Options.{◌>>=◌, ◌>>◌, guard}
use virtual_helmsman.Json.{Json, null, str, arr, obj, nil, cons, Items, Fields, end, field, get}

pub record Pydantic : Type 0 where
  pub to_bool : Json → Option Bool
  pub to_int : Json → Option ℤ
  pub to_float : Json → Option ℤ

unfoldable pub one_of : List String → String → Bool
one_of [] s = false
one_of (w ∷ ws) s = text_eq w s || one_of ws s

-- extra="forbid"
unfoldable pub only : List String → Fields → Option (Unit {0})
unfolding one_of
only allowed end = some tt
only allowed (field k v fs) = do guard (one_of allowed k); only allowed fs

abbrev pub as_text : Json → Option String
as_text (str s) = some s
as_text _ = none

abbrev pub required_text : Option Json → Option String
required_text none = none
required_text (some v) = as_text v

abbrev pub text_or : String → Option Json → Option String
text_or default none = some default
text_or default (some v) = as_text v

-- str | None = None
abbrev pub optional_text : Option Json → Option (Option String)
optional_text none = some none
optional_text (some null) = some none
optional_text (some v) = do s ← as_text v; some (some s)

unfoldable pub among : List String → String → Option String
unfolding one_of
among allowed s = guard (one_of allowed s) >>= λ _. some s

-- Literal[...] = default
abbrev pub literal_or : List String → String → Option Json → Option String
literal_or allowed default none = some default
literal_or allowed default (some v) = as_text v >>= among allowed

-- Literal[...] | None = default
abbrev pub optional_literal_or : List String → Option String → Option Json → Option (Option String)
optional_literal_or allowed default none = some default
optional_literal_or allowed default (some null) = some none
optional_literal_or allowed default (some v) = (as_text v >>= among allowed) >>= λ s. some (some s)

abbrev pub texts : Items → Option (List String)
texts nil = some []
texts (cons v vs) = do s ← as_text v; ss ← texts vs; some (s ∷ ss)

abbrev pub texts_or : List String → Option Json → Option (List String)
texts_or default none = some default
texts_or default (some (arr vs)) = texts vs
texts_or default (some _) = none

abbrev pub converted_or {ℓ} : {A : Type ℓ} → (Json → Option A) → A → Option Json → Option A
converted_or convert default none = some default
converted_or convert default (some v) = convert v

-- A nested block; its default factory calls the model with no fields.
abbrev pub block_or {ℓ} : {A : Type ℓ} → (Fields → Option A) → Option Json → Option A
block_or read none = read end
block_or read (some (obj fs)) = read fs
block_or read (some _) = none

abbrev pub required_block {ℓ} : {A : Type ℓ} → (Fields → Option A) → Option Json → Option A
required_block read none = none
required_block read (some (obj fs)) = read fs
required_block read (some _) = none
