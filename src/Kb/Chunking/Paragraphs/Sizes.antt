-- ===== src/Kb/Chunking/Paragraphs/Sizes.antt =====
-- The paragraph-aware chunks: there are some, and none is long.
use virtual_helmsman.Prelude.{
  ℕ, suc, ◌+◌, ◌-◌, ◌*◌, ◌/◌, ◌≤◌, ◌<◌, ◌≡◌, refl, Char, false, Option, none, some, List, [], ◌∷◌,
  ap, min, code, ◌==◌, length, length-append, length-take, length-drop, take, drop, is_space, ltb,
  leb, ltb→lt, leb→le, Bool-cases, inl, inr, arith,
}
use virtual_helmsman.Prelude.Text.Strip.{length-strip_chars}
use virtual_helmsman.Kb.Chunking.Blocks.Filled.{HasText, split_block-HasText}
use virtual_helmsman.Kb.Metadata.{Text}
use virtual_helmsman.Kb.Chunking.{Chunked, chunked}
use virtual_helmsman.Kb.Chunking.Blocks.{unless_empty, split_block, newline}
use virtual_helmsman.Kb.Chunking.Paragraphs.{
  merge_limit, min_chunk_size, join_piece, merge_pieces, trim_to, last_sentence_end, trim_chunk,
  trim_chunks, merge_tail, after_first, after_later, or_else, overlap_of, overlapped, with_overlaps,
  from_pieces, chunk_paragraph_aware,
}
use virtual_helmsman.Kb.Chunking.Blocks.Pieces.{
  total, AllAtMost, Fits, split_block-Fits, unless_empty-AllAtMost,
}

length-join_piece :
    (current piece : Text)
    → (length current + length piece ≤ length (join_piece current piece))
      × (length (join_piece current piece) ≤ length current + length piece + 1)
length-join_piece [] piece = (omega arith, omega arith)
length-join_piece (c ∷ cs) piece = (
  omega (arith, length-append cs (newline ∷ piece)),
  omega (arith, length-append cs (newline ∷ piece)),
)

length-unless_empty :
    (p : Text) (ps : List Text) → 0 < length p + length ps → 0 < length (unless_empty p ps)
length-unless_empty [] ps h = omega arith
length-unless_empty (c ∷ cs) ps h = omega arith

merge_pieces-AllAtMost :
    (current : Text) (pieces : List Text)
    → length current ≤ merge_limit
    → AllAtMost merge_limit pieces
    → AllAtMost merge_limit (merge_pieces current pieces)
unfolding merge_pieces
merge_pieces-AllAtMost current [] h a = unless_empty-AllAtMost merge_limit current [] h tt
merge_pieces-AllAtMost current (p ∷ ps) h (a, as') =
    elim (Bool-cases (leb (length current + length p + 1) merge_limit)) [
      | inl e ↦ rw e (
          merge_pieces-AllAtMost (join_piece current p) ps
            (omega (
              arith,
              (length-join_piece current p).1,
              leb→le (length current + length p + 1) merge_limit e,
            ))
            as')
      | inr e ↦
          rw e (unless_empty-AllAtMost merge_limit current _ h (merge_pieces-AllAtMost p ps a as'))
    ]

length-merge_pieces :
    (current : Text) (pieces : List Text)
    → 0 < length current + total pieces
    → 0 < length (merge_pieces current pieces)
unfolding merge_pieces
length-merge_pieces current [] h = length-unless_empty current [] h
length-merge_pieces current (p ∷ ps) h =
    elim (Bool-cases (leb (length current + length p + 1) merge_limit)) [
      | inl e ↦ rw e (
          length-merge_pieces (join_piece current p) ps
            (omega (arith, (length-join_piece current p).0)))
      | inr e ↦ rw e (at current h (length-merge_pieces p ps))
    ]
  where
    at :
        (current : Text)
        → 0 < length current + total (p ∷ ps)
        → (0 < length p + total ps → 0 < length (merge_pieces p ps))
        → 0 < length (unless_empty current (merge_pieces p ps))
    at [] h f = f (omega arith)
    at (c ∷ cs) h f = omega arith

length-trim_to :
    (chunk : Text) (from : ℕ) (o : Option ℕ) → length (trim_to chunk from o) ≤ length chunk
length-trim_to chunk from none = omega arith
length-trim_to chunk from (some i) =
    let cut = take (from + i + 1) chunk in
    ground (arith, length-strip_chars cut, length-take (from + i + 1) chunk)

length-trim_chunk : (chunk : Text) → length (trim_chunk chunk) ≤ length chunk
unfolding trim_chunk
length-trim_chunk chunk =
    let from = length chunk * 17 / 20 in
    length-trim_to chunk from (last_sentence_end 0 (drop from chunk))

trim_chunks-AllAtMost :
    (n : ℕ) (cs : List Text)
    → AllAtMost n cs
    → AllAtMost n (trim_chunks cs) × (length (trim_chunks cs) ≡ length cs)
unfolding trim_chunks
trim_chunks-AllAtMost n [] a = (tt, refl)
trim_chunks-AllAtMost n (c ∷ []) a = (a, refl)
trim_chunks-AllAtMost n (c ∷ d ∷ ds) (a, as') =
    let (rest, same) = trim_chunks-AllAtMost n (d ∷ ds) as' in
    ((omega (arith, length-trim_chunk c), rest), ap suc same)

-- The longest chunk: a full one, with a line end and a tail.
abbrev pub longest : ℕ
longest = 1125

merge_tail-AllAtMost :
    (cs : List Text)
    → AllAtMost merge_limit cs
    → AllAtMost longest (merge_tail cs) × (min 1 (length cs) ≤ length (merge_tail cs))
unfolding merge_tail
merge_tail-AllAtMost [] a = (tt, omega arith)
merge_tail-AllAtMost (c ∷ []) (a, as') = ((omega arith, tt), omega arith)
merge_tail-AllAtMost (c ∷ d ∷ []) (a, (b, bs)) = elim (Bool-cases (ltb (length d) min_chunk_size)) [
  | inl e ↦ rw e (
    (omega (arith, length-append c (newline ∷ d), ltb→lt (length d) min_chunk_size e), tt),
    omega arith,
  )
  | inr e ↦ rw e ((omega arith, (omega arith, tt)), omega arith)
]
merge_tail-AllAtMost (c ∷ d ∷ e ∷ es) (a, as') =
    ((omega arith, (merge_tail-AllAtMost (d ∷ e ∷ es) as').0), omega arith)

abbrev AtMost : ℕ → Option Text → Type 0
AtMost n none = Unit
AtMost n (some t) = length t ≤ n

AtMost-widen : (m n : ℕ) (o : Option Text) → m ≤ n → AtMost m o → AtMost n o
AtMost-widen m n none h a = tt
AtMost-widen m n (some t) h a = omega arith

after_first-AtMost : (k : ℕ) (cs : Text) → AtMost (length cs) (after_first k cs)
unfolding after_first
after_first-AtMost k [] = tt
after_first-AtMost k (c ∷ cs) = elim (Bool-cases (code c == k)) [
  | inl e ↦ rw e (omega arith)
  | inr e ↦ rw e (
      AtMost-widen (length cs) (suc (length cs)) (after_first k cs) (omega arith)
        (after_first-AtMost k cs))
]

after_later-AtMost : (k : ℕ) (cs : Text) → AtMost (length cs) (after_later k cs)
after_later-AtMost k [] = tt
after_later-AtMost k (c ∷ cs) = elim (Bool-cases (code c == k)) [
  | inl e ↦ rw e tt
  | inr e ↦ rw e (
      AtMost-widen (length cs) (suc (length cs)) (after_first k cs) (omega arith)
        (after_first-AtMost k cs))
]

length-or_else :
    (n : ℕ) (t u : Option Text) (ov : Text)
    → AtMost n t
    → AtMost n u
    → length ov ≤ n
    → length (or_else t u ov) ≤ n
length-or_else n (some t) u ov a b h = a
length-or_else n none (some u) ov a b h = b
length-or_else n none none ov a b h = h

length-overlap_of : (prev : Text) → length (overlap_of prev) ≤ 75
unfolding overlap_of
length-overlap_of prev =
    let ov = drop (length prev - 75) prev in
    let short =
      length-or_else (length ov) (after_later 10 ov) (after_later 32 ov) ov
        (after_later-AtMost 10 ov) (after_later-AtMost 32 ov) (omega arith) in
    omega (arith, short, length-drop (length prev - 75) prev)

overlapped-AllAtMost :
    (prev : Text) (cs : List Text) → AllAtMost longest cs → AllAtMost 1201 (overlapped prev cs)
unfolding overlapped
overlapped-AllAtMost prev [] a = tt
overlapped-AllAtMost prev (c ∷ cs) (a, as') = (
  omega (arith, length-append (overlap_of prev) (newline ∷ c), length-overlap_of prev),
  overlapped-AllAtMost c cs as',
)

-- Chunks, at least one, none longer than 1201 characters.
abbrev IsChunked : Chunked Char → Type 0
IsChunked r =
    (chunks : List Text) × (r ≡ chunked chunks) × (0 < length chunks) × AllAtMost 1201 chunks

with_overlaps-IsChunked :
    (cs : List Text) → 0 < length cs → AllAtMost longest cs → IsChunked (with_overlaps cs)
with_overlaps-IsChunked [] h a = elim h [ ]
with_overlaps-IsChunked (c ∷ cs) h (a, as') =
    (c ∷ overlapped c cs, refl, omega arith, (omega arith, overlapped-AllAtMost c cs as'))

from_pieces-IsChunked :
    (r : Option (List Text)) → Fits merge_limit r → HasText r → IsChunked (from_pieces r)
from_pieces-IsChunked none f h = elim f [ ]
from_pieces-IsChunked (some ps) f h =
    let raw = merge_pieces [] ps in
    let (trimmed, same) =
      trim_chunks-AllAtMost merge_limit raw (merge_pieces-AllAtMost [] ps (omega arith) f) in
    let (merged, some') = merge_tail-AllAtMost (trim_chunks raw) trimmed in
    with_overlaps-IsChunked (merge_tail (trim_chunks raw))
      (omega (arith, some', same, length-merge_pieces [] ps (omega arith))) merged

-- The paragraph-aware strategy ends with chunks for every text that begins with no white space, as
-- the cleaned text of a document does: there is at least one chunk, and none is longer than 1201
-- characters, which is 725 and a tail of 399 behind a line end, and an overlap of 75 with its own.
pub chunk_paragraph_aware_bounds :
    (c : Char) (cs : Text)
    → is_space c ≡ false
    → (chunks : List Text) × (chunk_paragraph_aware (c ∷ cs) ≡ chunked chunks)
      × (0 < length chunks)
      × AllAtMost 1201 chunks
unfolding chunk_paragraph_aware
chunk_paragraph_aware_bounds c cs e =
    from_pieces-IsChunked (split_block (suc (length (c ∷ cs))) merge_limit (c ∷ cs))
      (split_block-Fits (suc (length (c ∷ cs))) merge_limit (c ∷ cs) (omega arith) (omega arith))
      (split_block-HasText (suc (length (c ∷ cs))) merge_limit c cs (omega arith) e)
