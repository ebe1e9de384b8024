-- ===== src/Kb/Chunking/Paragraphs.antt =====
-- The paragraph-aware strategy of chunking.py. `finditer` is written out for the pattern of a
-- sentence's end; `\s` is what `str.isspace` holds of.
pub mod Sizes
pub mod Trim
use virtual_helmsman.Prelude.{
  ℕ, zero, suc, ◌+◌, ◌-◌, ◌*◌, ◌/◌, Char, code, Bool, true, false, not, ◌&&◌, ◌||◌, Option, none,
  some, List, [], ◌∷◌, ◌++◌, length, take, drop, leb, ltb, ◌==◌, if◌then◌else◌, is_space,
  strip_chars,
}
use virtual_helmsman.Kb.Metadata.{Text}
use virtual_helmsman.Kb.Chunking.{
  chunk_size, chunk_overlap, Chunked, chunked, no_clean_text, out_of_fuel, no_chunks,
}
use virtual_helmsman.Kb.Chunking.Blocks.{is_newline, is_one_of, newline, split_block, unless_empty}

abbrev pub merge_limit : ℕ
merge_limit = 725

abbrev pub min_chunk_size : ℕ
min_chunk_size = 400

abbrev pub join_piece : Text → Text → Text
join_piece [] piece = piece
join_piece (c ∷ cs) piece = (c ∷ cs) ++ newline ∷ piece

-- the loop that merges the pieces, with the chunk under way
unfoldable pub merge_pieces : (current : Text) → List Text → List Text
merge_pieces current [] = unless_empty current []
merge_pieces current (piece ∷ pieces) =
    if leb (length current + length piece + 1) merge_limit
    then merge_pieces (join_piece current piece) pieces
    else unless_empty current (merge_pieces piece pieces)

-- [.!?;:)\]'"]
abbrev pub is_closing : Char → Bool
is_closing c = is_one_of (46 ∷ 33 ∷ 63 ∷ 59 ∷ 58 ∷ 41 ∷ 93 ∷ 39 ∷ 34 ∷ []) (code c)

-- [A-Z(]
abbrev pub is_opening : Char → Bool
is_opening c = (leb 65 (code c) && leb (code c) 90) || code c == 40

-- \s*\n
unfoldable pub breaks : Text → Bool
unfolding is_space
breaks [] = false
breaks (c ∷ cs) = is_newline c || (is_space c && breaks cs)

-- \s*(?=[A-Z(])
unfoldable pub opens : Text → Bool
unfolding is_space
opens [] = false
opens (c ∷ cs) = is_opening c || (is_space c && opens cs)

-- \s+(?=[A-Z(])
abbrev pub gap_opens : Text → Bool
gap_opens [] = false
gap_opens (c ∷ cs) = is_space c && opens cs

-- whether `_SENT_END` matches at this character
abbrev pub is_sentence_end : Char → Text → Bool
is_sentence_end c cs =
    (is_closing c && breaks cs) || (is_one_of (46 ∷ 33 ∷ 63 ∷ []) (code c) && gap_opens cs)

abbrev pub or_here : Option ℕ → Bool → ℕ → Option ℕ
or_here (some later) here i = some later
or_here none here i = if here then some i else none

-- the start of the last match of `_SENT_END`, of which only the first character is no white space
unfoldable pub last_sentence_end : ℕ → Text → Option ℕ
unfolding breaks opens
last_sentence_end i [] = none
last_sentence_end i (c ∷ cs) = or_here (last_sentence_end (suc i) cs) (is_sentence_end c cs) i

abbrev pub trim_to : Text → ℕ → Option ℕ → Text
trim_to chunk search_from none = chunk
trim_to chunk search_from (some i) =
    if ltb (search_from + i + 1 + 5) (length chunk)
    then strip_chars (take (search_from + i + 1) chunk)
    else chunk

-- int(len(chunk) * 0.85) is 17 twentieths, rounded down
unfoldable pub trim_chunk : Text → Text
unfolding last_sentence_end strip_chars
trim_chunk chunk =
    let search_from = length chunk * 17 / 20 in
    trim_to chunk search_from (last_sentence_end 0 (drop search_from chunk))

-- every chunk but the last
unfoldable pub trim_chunks : List Text → List Text
unfolding trim_chunk
trim_chunks [] = []
trim_chunks (chunk ∷ []) = chunk ∷ []
trim_chunks (chunk ∷ next ∷ more) = trim_chunk chunk ∷ trim_chunks (next ∷ more)

-- a last chunk that is short joins the one before
unfoldable pub merge_tail : List Text → List Text
merge_tail [] = []
merge_tail (chunk ∷ []) = chunk ∷ []
merge_tail (chunk ∷ last ∷ []) =
    if ltb (length last) min_chunk_size then (chunk ++ newline ∷ last) ∷ [] else chunk ∷ last ∷ []
merge_tail (chunk ∷ next ∷ third ∷ more) = chunk ∷ merge_tail (next ∷ third ∷ more)

-- ov[i + 1:] where the first one of these characters stands at i > 0
unfoldable pub after_first : ℕ → Text → Option Text
after_first k [] = none
after_first k (c ∷ cs) = let later = after_first k cs in if code c == k then some cs else later

-- the find is at i > 0: not at the first character
abbrev pub after_later : ℕ → Text → Option Text
after_later k [] = none
after_later k (c ∷ cs) = if code c == k then none else after_first k cs

abbrev pub or_else : Option Text → Option Text → Text → Text
or_else (some t) u ov = t
or_else none (some u) ov = u
or_else none none ov = ov

-- the end of the chunk before, from behind its first line end or else its first blank
unfoldable pub overlap_of : Text → Text
unfolding after_first
overlap_of prev =
    let ov = drop (length prev - chunk_overlap) prev in
    or_else (after_later 10 ov) (after_later 32 ov) ov

unfoldable pub overlapped : (prev : Text) → List Text → List Text
unfolding overlap_of
overlapped prev [] = []
overlapped prev (chunk ∷ chunks) = (overlap_of prev ++ newline ∷ chunk) ∷ overlapped chunk chunks

abbrev pub with_overlaps : List Text → Chunked Char
with_overlaps [] = no_chunks
with_overlaps (first ∷ more) = chunked (first ∷ overlapped first more)

abbrev pub from_pieces : Option (List Text) → Chunked Char
from_pieces none = out_of_fuel
from_pieces (some pieces) = with_overlaps (merge_tail (trim_chunks (merge_pieces [] pieces)))

unfoldable pub chunk_paragraph_aware : Text → Chunked Char
unfolding split_block merge_pieces trim_chunks merge_tail overlapped
chunk_paragraph_aware [] = no_clean_text
chunk_paragraph_aware (c ∷ cs) =
    from_pieces (split_block (suc (length (c ∷ cs))) merge_limit (c ∷ cs))
