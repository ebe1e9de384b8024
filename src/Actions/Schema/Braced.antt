-- ===== src/Actions/Schema/Braced.antt =====
-- A reply that is a JSON object, written between braces with no fence around it.
use virtual_helmsman.Prelude.{
  ℕ, Char, from_chars, ◌≡◌, refl, ap, none, some, List, [], ◌∷◌, ◌++◌, strip_chars, drop_space,
  drop_last_space, is_space,
}
use virtual_helmsman.Prelude.Text.Strip.{drop_last_space-append}
use virtual_helmsman.Actions.Fence.{fence, strip_prefix}
use virtual_helmsman.Actions.Fence.Laws.{strip_code_fence-plain}
use virtual_helmsman.Actions.Schema.{
  Decoder, HelmsmanResponse, loaded_json, parsed, validated, validate_response, parse_response,
}
use virtual_helmsman.Json.{Json}

-- A text between braces, as `json.dumps` writes a dictionary.
abbrev pub braced : List Char → List Char
braced body = "{" ∷ (body ++ "}" ∷ [])

closing_brace : drop_last_space ("}" ∷ []) ≡ "}" ∷ []
unfolding drop_last_space is_space
closing_brace = refl

pub strip_chars-braced : (body : List Char) → strip_chars (braced body) ≡ braced body
unfolding strip_chars drop_space is_space
strip_chars-braced body = drop_last_space-append ("{" ∷ body) "}" [] closing_brace

bare : (body : List Char) → strip_prefix fence (strip_chars (braced body)) ≡ none
unfolding strip_prefix
bare body = ap (strip_prefix fence) (strip_chars-braced body)

module _ (unit : ℕ) (d : Decoder) where
  pub parse_response-braced :
      (body : List Char) (v : Json) (reply : HelmsmanResponse)
      → d.loads (from_chars (braced body)) ≡ loaded_json v
      → validate_response unit d v ≡ some reply
      → parse_response unit d (from_chars (braced body)) ≡ parsed reply
  unfolding parse_response
  parse_response-braced body v reply e h =
      rw (strip_code_fence-plain (braced body) (bare body), strip_chars-braced body, e)
        (ap (validated unit d) h)
