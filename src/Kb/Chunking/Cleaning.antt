-- ===== src/Kb/Chunking/Cleaning.antt =====
-- `clean_pdf_text` of chunking.py. The patterns of `re.sub` are written out as what they take from
-- the front of a text; a digit is one of ASCII.
use virtual_helmsman.Prelude.{
  ℕ, zero, suc, ◌+◌, ◌-◌, ◌*◌, ◌/◌, Char, code, chars, Bool, true, false, ◌&&◌, ◌||◌, Option, none,
  some, List, [], ◌∷◌, ◌++◌, length, drop, leb, ltb, max, ◌==◌, if◌then◌else◌, is_space, drop_space,
  strip_chars, lower_code,
}
use virtual_helmsman.Kb.Metadata.{Text}
use virtual_helmsman.Kb.Chunking.Blocks.{
  re_split, line_end, newline, is_newline, newlines, is_one_of,
}

unfoldable pub same_text : Text → Text → Bool
same_text [] [] = true
same_text (c ∷ cs) (d ∷ ds) = code c == code d && same_text cs ds
same_text _ _ = false

-- line_freq.get(normalized, 0), for a normalized line that is short
unfoldable pub line_freq : Text → List Text → ℕ
unfolding same_text strip_chars
line_freq normalized [] = 0
line_freq normalized (line ∷ lines) =
    let rest = line_freq normalized lines in
    if same_text (strip_chars line) normalized then suc rest else rest

-- int(len(text) / 2500 + 0.5)
abbrev pub estimated_pages : Text → ℕ
estimated_pages text = max 3 ((length text + 1250) / 2500)

-- freq >= max(4, estimated_pages * 0.6)
abbrev pub is_repeated : ℕ → ℕ → Bool
is_repeated pages freq = leb 4 freq && leb (3 * pages) (5 * freq)

abbrev pub is_digit : Char → Bool
is_digit c = leb 48 (code c) && leb (code c) 57

unfoldable pub has_char : List ℕ → Text → Bool
has_char ks [] = false
has_char ks (c ∷ cs) = is_one_of ks (code c) || has_char ks cs

-- [A-Z][a-z].*:
abbrev pub is_labelled : Text → Bool
is_labelled (c ∷ d ∷ ds) =
    leb 65 (code c)
    && leb (code c) 90
    && leb 97 (code d)
    && leb (code d) 122
    && has_char (58 ∷ []) ds
is_labelled _ = false

-- [•\-\*]
abbrev pub is_bullet : Text → Bool
is_bullet [] = false
is_bullet (c ∷ cs) = is_one_of (8226 ∷ 45 ∷ 42 ∷ []) (code c)

-- The lower case that IGNORECASE compares: the dotted and the dotless i and the long s are those of
-- ASCII.
abbrev pub folded : ℕ → ℕ
folded n = if n == 304 || n == 305 then 105 else if n == 383 then 115 else lower_code n

-- a word, given in lower case, at the front of a text
unfoldable pub word : Text → Text → Option Text
word [] t = some t
word (k ∷ ks) [] = none
word (k ∷ ks) (c ∷ cs) = let rest = word ks cs in if code k == folded (code c) then rest else none

abbrev pub is_some : Option Text → Bool
is_some none = false
is_some (some t) = true

unfoldable pub has_word : Text → Text → Bool
unfolding word
has_word w [] = is_some (word w [])
has_word w (c ∷ cs) = is_some (word w (c ∷ cs)) || has_word w cs

-- \d{2,}
unfoldable pub has_number : Text → Bool
has_number [] = false
has_number (c ∷ []) = false
has_number (c ∷ d ∷ ds) = (is_digit c && is_digit d) || has_number (d ∷ ds)

abbrev pub looks_like_content : Text → Bool
looks_like_content line =
    is_bullet line
    || is_labelled line
    || has_word (chars "vhf") line
    || has_word (chars "channel") line
    || has_word (chars "zedis") line
    || has_word (chars "pilot") line
    || has_number line
    || has_char (46 ∷ 64 ∷ 47 ∷ []) line

-- what is kept of a line that is not blank, by its stripped text
abbrev pub keep_by : ℕ → ℕ → Text → Text → Text
keep_by pages freq normalized line =
    if ltb (length normalized) 80 && is_repeated pages freq
    then []
    else if ltb (length normalized) 80 && ltb 3 freq
    then (if looks_like_content normalized then line else [])
    else line

unfoldable pub keep_line : ℕ → List Text → Text → Text
unfolding line_freq strip_chars has_char has_word has_number
keep_line pages lines line =
    if length (strip_chars line) == 0
    then line
    else keep_by pages (line_freq (strip_chars line) lines) (strip_chars line) line

-- the loop over the lines
unfoldable pub keep_lines : ℕ → (all lines : List Text) → List Text
unfolding keep_line
keep_lines pages all [] = []
keep_lines pages all (line ∷ lines) = keep_line pages all line ∷ keep_lines pages all lines

-- "\n".join(kept)
unfoldable pub join_lines : List Text → Text
join_lines [] = []
join_lines (line ∷ []) = line
join_lines (line ∷ next ∷ more) = line ++ newline ∷ join_lines (next ∷ more)

-- A pattern: what is left behind it, where it matches at the front of a text, which is at the start
-- of a line or not.
abbrev pub Pattern : Type 0
Pattern = Bool → Text → Option Text

infixl 5 ◌>>=◌
abbrev ◌>>=◌ : Option Text → (Text → Option Text) → Option Text
none >>= f = none
some t >>= f = f t

-- [ \t]*
unfoldable pub blanks : Text → Text
blanks [] = []
blanks (c ∷ cs) = let rest = blanks cs in if code c == 32 || code c == 9 then rest else c ∷ cs

unfoldable pub digit_run : Text → ℕ
digit_run [] = 0
digit_run (c ∷ cs) = let rest = digit_run cs in if is_digit c then suc rest else 0

-- \d{1,3}, behind which no digit can follow
abbrev pub digits : Text → Option Text
digits t = if leb 1 (digit_run t) && leb (digit_run t) 3 then some (drop (digit_run t) t) else none

-- \s+
abbrev pub some_space : Text → Option Text
some_space [] = none
some_space (c ∷ cs) = if is_space c then some (drop_space cs) else none

abbrev pub at_line_end : Text → Bool
at_line_end [] = true
at_line_end (c ∷ cs) = is_newline c

-- $
abbrev pub line_ends : Text → Option Text
line_ends t = if at_line_end t then some t else none

-- ^[ \t]*\d{1,3}[ \t]*$
unfoldable pub page_number : Pattern
unfolding blanks digit_run
page_number false t = none
page_number true t = do u ← digits (blanks t); line_ends (blanks u)

-- ^[ \t]*-\s*\d{1,3}\s*-[ \t]*$
unfoldable pub dashed_number : Pattern
unfolding blanks digit_run word drop_space
dashed_number false t = none
dashed_number true t = do
  u ← word (chars "-") (blanks t)
  v ← digits (drop_space u)
  w ← word (chars "-") (drop_space v)
  line_ends (blanks w)

abbrev pub or_pattern : Option Text → Option Text → Option Text
or_pattern none d = d
or_pattern (some t) d = some t

-- (?:\s+of\s+\d{1,3})[ \t]*$
abbrev pub of_pages : Text → Option Text
of_pages t = do
  u ← some_space t
  v ← word (chars "of") u
  w ← some_space v
  x ← digits w
  line_ends (blanks x)

-- ^[ \t]*Page\s+\d{1,3}(?:\s+of\s+\d{1,3})?[ \t]*$
unfoldable pub page_of : Pattern
unfolding blanks digit_run word drop_space is_space
page_of false t = none
page_of true t = do
  u ← word (chars "page") (blanks t)
  v ← some_space u
  w ← digits v
  or_pattern (of_pages w) (line_ends (blanks w))

-- p\.\s*\d{1,3}$
unfoldable pub short_page : Pattern
unfolding digit_run word drop_space
short_page start t = do u ← word (chars "p.") t; v ← digits (drop_space u); line_ends v

-- \n{3,}
unfoldable pub blank_run : Pattern
unfolding newlines
blank_run start t = if leb 3 (newlines t) then some (drop (newlines t) t) else none

-- how many characters a match takes
abbrev pub taken : Text → Option Text → ℕ
taken t none = 0
taken t (some rest) = length t - length rest

-- `re.sub`: `skip` are the characters of a match that are still to be left out
unfoldable pub re_sub : Pattern → Text → (skip : ℕ) → (start : Bool) → Text → Text
re_sub pattern new skip start [] = []
re_sub pattern new (suc k) start (c ∷ cs) = re_sub pattern new k (is_newline c) cs
re_sub pattern new zero start (c ∷ cs) = elim (taken (c ∷ cs) (pattern start (c ∷ cs))) [
  | zero ↦ c ∷ re_sub pattern new zero (is_newline c) cs
  | suc k ↦ new ++ re_sub pattern new k (is_newline c) cs
]

abbrev pub substitute : Pattern → Text → Text → Text
substitute pattern new t = re_sub pattern new zero true t

-- the lines that are kept, without the page numbers and the long blank runs
unfoldable pub without_pages : Text → Text
unfolding re_split keep_lines join_lines re_sub page_number dashed_number page_of short_page
    blank_run
without_pages text =
    let lines = re_split line_end zero none text in
    let kept = join_lines (keep_lines (estimated_pages text) lines lines) in
    let numbered = substitute page_number [] kept in
    let dashed = substitute dashed_number [] numbered in
    let paged = substitute page_of [] dashed in
    let short = substitute short_page [] paged in
    substitute blank_run (newline ∷ newline ∷ []) short

unfoldable pub clean_pdf_text : Text → Text
unfolding without_pages strip_chars
clean_pdf_text text = strip_chars (without_pages text)
