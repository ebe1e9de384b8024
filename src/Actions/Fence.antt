-- ===== src/Actions/Fence.antt =====
-- `_strip_code_fence` of voice_agent/actions/schema.py, on the characters of a text.
pub mod Laws
use mathlib.Core.Option
use mathlib.Core.List.{reverse}
use virtual_helmsman.Prelude.{
  ℕ, Char, String, code, chars, from_chars, Bool, Option, none, some, List, [], ◌∷◌, ◌==◌,
  if◌then◌else◌, strip_chars, drop_last_space,
}

-- s[len(prefix):] if s.startswith(prefix)
unfoldable pub strip_prefix : List Char → List Char → Option (List Char)
strip_prefix [] s = some s
strip_prefix (p ∷ ps) [] = none
strip_prefix (p ∷ ps) (c ∷ cs) = if code p == code c then strip_prefix ps cs else none

-- s[:-len(suffix)] if s.endswith(suffix)
unfoldable pub strip_suffix : List Char → List Char → Option (List Char)
unfolding strip_prefix
strip_suffix suffix s = Option.map reverse (strip_prefix (reverse suffix) (reverse s))

-- s[s.find("\n") + 1:] if there is a line end
unfoldable pub after_newline : List Char → Option (List Char)
after_newline [] = none
after_newline (c ∷ cs) = if code c == 10 then some cs else after_newline cs

abbrev pub fence : List Char
fence = chars "```"

-- what follows the opening fence, without its language tag line and the closing fence
abbrev pub fenced_body : List Char → List Char
fenced_body s =
    let body = drop_last_space (Option.get_or (after_newline s) s) in
    strip_chars (Option.get_or (strip_suffix fence body) body)

abbrev pub unfence : List Char → Option (List Char) → List Char
unfence s none = s
unfence s (some rest) = fenced_body rest

unfoldable pub strip_code_fence : String → String
unfolding strip_prefix strip_suffix after_newline strip_chars drop_last_space
strip_code_fence text =
    let s = strip_chars (chars text) in from_chars (unfence s (strip_prefix fence s))
