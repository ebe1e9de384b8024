-- ===== src/Kb/Chunking/Blocks.antt =====
-- `_split_block` of chunking.py. `re.split` is written out for its three patterns; `\s` is what
-- `str.isspace` holds of.
pub mod Pieces
pub mod Filled
use virtual_helmsman.Prelude.{
  ℕ, zero, suc, ◌+◌, ◌-◌, ◌*◌, ◌/◌, Char, code, Bool, true, false, not, ◌&&◌, ◌||◌, Option, none,
  some, List, [], ◌∷◌, ◌++◌, length, take, drop, leb, ltb, ◌==◌, if◌then◌else◌, is_space,
  strip_chars,
}
use virtual_helmsman.Kb.Metadata.{Text}

abbrev pub newline : Char
newline = "\n"

abbrev pub is_newline : Char → Bool
is_newline c = code c == 10

-- Whether a character is one of some code points.
abbrev pub is_one_of : List ℕ → ℕ → Bool
is_one_of [] n = false
is_one_of (k ∷ ks) n = k == n || is_one_of ks n

-- [.!?;:]
abbrev pub is_stop : Option Char → Bool
is_stop none = false
is_stop (some c) = is_one_of (46 ∷ 33 ∷ 63 ∷ 59 ∷ 58 ∷ []) (code c)

abbrev pub push {ℓ} : {A : Type ℓ} → A → List (List A) → List (List A)
push c [] = (c ∷ []) ∷ []
push c (p ∷ ps) = (c ∷ p) ∷ ps

-- `re.split`: the pattern tells how many characters it takes, from the one before and the rest;
-- `skip` are those of a match that are still to be left out.
unfoldable pub re_split : (Option Char → Text → ℕ) → (skip : ℕ) → Option Char → Text → List Text
re_split pattern skip prev [] = [] ∷ []
re_split pattern (suc k) prev (c ∷ cs) = re_split pattern k (some c) cs
re_split pattern zero prev (c ∷ cs) = elim (pattern prev (c ∷ cs)) [
  | zero ↦ push c (re_split pattern zero (some c) cs)
  | suc k ↦ [] ∷ re_split pattern k (some c) cs
]

unfoldable pub newlines : Text → ℕ
newlines [] = 0
newlines (c ∷ cs) = if is_newline c then suc (newlines cs) else 0

unfoldable pub spaces : Text → ℕ
unfolding is_space
spaces [] = 0
spaces (c ∷ cs) = if is_space c then suc (spaces cs) else 0

-- \n\n+
abbrev pub blank_lines : Option Char → Text → ℕ
blank_lines prev cs = if ltb (newlines cs) 2 then 0 else newlines cs

-- \n
abbrev pub line_end : Option Char → Text → ℕ
line_end prev [] = 0
line_end prev (c ∷ cs) = if is_newline c then 1 else 0

-- (?<=[.!?;:])\s+
abbrev pub sentence_gap : Option Char → Text → ℕ
sentence_gap prev cs = if is_stop prev then spaces cs else 0

abbrev pub strip_parts : List Text → List Text
strip_parts [] = []
strip_parts (p ∷ ps) = strip_chars p ∷ strip_parts ps

abbrev pub unless_empty : Text → List Text → List Text
unless_empty [] ps = ps
unless_empty (c ∷ cs) ps = (c ∷ cs) ∷ ps

-- [p for p in parts if p]
abbrev pub not_empty : List Text → List Text
not_empty [] = []
not_empty (p ∷ ps) = unless_empty p (not_empty ps)

abbrev pub any_fits : ℕ → List Text → Bool
any_fits max_size [] = false
any_fits max_size (p ∷ ps) = leb (length p) max_size || any_fits max_size ps

-- len(parts) > 1 and any(len(p) <= max_size for p in parts)
abbrev pub is_split : ℕ → List Text → Bool
is_split max_size parts = ltb 1 (length parts) && any_fits max_size parts

-- the parts by the first pattern that splits the block
unfoldable pub parts_of : ℕ → Text → Option (List Text)
unfolding re_split newlines spaces strip_chars
parts_of max_size block =
    let paragraphs = not_empty (strip_parts (re_split blank_lines zero none block)) in
    let lines = not_empty (strip_parts (re_split line_end zero none block)) in
    let sentences = not_empty (re_split sentence_gap zero none block) in
    if is_split max_size paragraphs
    then some paragraphs
    else if is_split max_size lines
    then some lines
    else if is_split max_size sentences
    then some sentences
    else none

-- the last position of a blank in the text, 0 where there is none
unfoldable pub last_blank : ℕ → Text → ℕ
last_blank i [] = 0
last_blank i (c ∷ cs) =
    let later = last_blank (suc i) cs in
    if later == 0 then (if code c == 32 then i else 0) else later

unfoldable pub cut_at : ℕ → Text → ℕ
unfolding last_blank
cut_at max_size remaining =
    let found = last_blank 0 (take (suc max_size) remaining) in
    if found == 0 then max_size else found

abbrev pub cons_piece : Text → Option (List Text) → Option (List Text)
cons_piece p none = none
cons_piece p (some ps) = some (p ∷ ps)

-- the `while` loop of the hard fallback; `none` means that the fuel ran out
unfoldable pub hard_cut : (fuel : ℕ) → ℕ → Text → Option (List Text)
unfolding cut_at strip_chars
hard_cut zero max_size remaining = none
hard_cut (suc fuel) max_size remaining =
    let cut = cut_at max_size remaining in
    let rest = hard_cut fuel max_size (strip_chars (drop cut remaining)) in
    if ltb max_size (length remaining)
    then cons_piece (strip_chars (take cut remaining)) rest
    else some (unless_empty remaining [])

abbrev pub append_pieces : Option (List Text) → Option (List Text) → Option (List Text)
append_pieces (some ps) (some qs) = some (ps ++ qs)
append_pieces _ _ = none

-- the loop over the parts, with what splits a part that is too long
unfoldable pub split_parts : (Text → Option (List Text)) → ℕ → List Text → Option (List Text)
split_parts split max_size [] = some []
split_parts split max_size (p ∷ ps) =
    append_pieces (if ltb max_size (length p) then split p else some (p ∷ []))
      (split_parts split max_size ps)

abbrev pub parts_or_cut :
    (Text → Option (List Text)) → ℕ → Text → Option (List Text) → Option (List Text)
parts_or_cut split max_size block none = hard_cut (suc (length block)) max_size block
parts_or_cut split max_size block (some parts) = split_parts split max_size parts

-- `_split_block`
unfoldable pub split_block : (fuel : ℕ) → ℕ → Text → Option (List Text)
unfolding parts_of hard_cut split_parts
split_block zero max_size block = none
split_block (suc fuel) max_size block =
    parts_or_cut (split_block fuel max_size) max_size block (parts_of max_size block)
