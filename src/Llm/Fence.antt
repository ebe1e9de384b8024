-- ===== src/Llm/Fence.antt =====
-- `strip_code_fence` and `parse_intent` of helpers.py, on the characters of a text.
use mathlib.Core.Option
use virtual_helmsman.Prelude.{
  ℕ, ◌-◌, Char, String, code, chars, from_chars, Bool, true, false, ◌&&◌, ◌||◌, Option, none, some,
  List, [], ◌∷◌, ◌++◌, ◌==◌, leb, if◌then◌else◌, drop_space, drop_last_space, strip_chars, is_space,
  lower_code,
}
use virtual_helmsman.Actions.Fence.{strip_prefix, strip_suffix, fence}

-- a prefix in any casing
unfoldable pub strip_prefix_nocase : List Char → List Char → Option (List Char)
strip_prefix_nocase [] s = some s
strip_prefix_nocase (p ∷ ps) [] = none
strip_prefix_nocase (p ∷ ps) (c ∷ cs) =
    let rest = strip_prefix_nocase ps cs in
    if lower_code (code p) == lower_code (code c) then rest else none

-- re.sub(r"^```(?:json)?\s*", "", s)
abbrev pub drop_opening : List Char → List Char
drop_opening s = elim (strip_prefix fence s) [
  | none ↦ s
  | some rest ↦ drop_space (Option.get_or (strip_prefix_nocase (chars "json") rest) rest)
]

-- re.sub(r"```\s*$", "", s)
abbrev pub drop_closing : List Char → List Char
drop_closing s = Option.get_or (strip_suffix fence (drop_last_space s)) s

unfoldable pub strip_code_fence : String → String
unfolding strip_prefix strip_suffix strip_prefix_nocase strip_chars drop_space drop_last_space
    is_space
strip_code_fence text =
    from_chars (strip_chars (drop_closing (drop_opening (strip_chars (chars text)))))

pub data Intent : Type 0 where
  command question : Intent

-- A character of `raw.upper()`, as far as it can be one of QUESTION: besides the ASCII letters,
-- the dotless i, the long s and the two ligatures of s and t.
unfoldable pub upper_codes : ℕ → List ℕ
upper_codes c =
    if leb 97 c && leb c 122
    then (c - 32) ∷ []
    else if c == 305
    then 73 ∷ []
    else if c == 383
    then 83 ∷ []
    else if c == 64261 || c == 64262
    then 83 ∷ 84 ∷ []
    else c ∷ []

unfoldable pub upper : List Char → List ℕ
unfolding upper_codes
upper [] = []
upper (c ∷ cs) = upper_codes (code c) ++ upper cs

unfoldable pub begins : List ℕ → List ℕ → Bool
begins [] cs = true
begins (k ∷ ks) [] = false
begins (k ∷ ks) (c ∷ cs) = k == c && begins ks cs

-- key in cs
unfoldable pub occurs : List ℕ → List ℕ → Bool
unfolding begins
occurs key [] = begins key []
occurs key (c ∷ cs) = begins key (c ∷ cs) || occurs key cs

-- "QUESTION", by its code points
abbrev pub question_word : List ℕ
question_word = 81 ∷ 85 ∷ 69 ∷ 83 ∷ 84 ∷ 73 ∷ 79 ∷ 78 ∷ []

unfoldable pub parse_intent : String → Intent
unfolding upper occurs
parse_intent raw = if occurs question_word (upper (chars raw)) then question else command
