-- ===== src/Kb/Chunking/Paragraphs/Trim.antt =====
-- What becomes of the text that the sentence-boundary trim cuts off.
use virtual_helmsman.Prelude.{
  suc, ◌≤◌, ◌≡◌, ◌∙◌, ap, Char, some, List, [], ◌∷◌, ◌++◌, length, arith,
}
use virtual_helmsman.Kb.Metadata.{Text}
use virtual_helmsman.Kb.Chunking.{chunked}
use virtual_helmsman.Kb.Chunking.Blocks.{split_block, newline}
use virtual_helmsman.Kb.Chunking.Paragraphs.{
  merge_limit, merge_pieces, trim_chunk, trim_chunks, merge_tail, overlap_of, overlapped,
  with_overlaps, from_pieces, chunk_paragraph_aware,
}

trimmed_pair :
    (kept lost last : Text)
    → trim_chunk (kept ++ lost) ≡ kept
    → 400 ≤ length last
    → with_overlaps (merge_tail (trim_chunks ((kept ++ lost) ∷ last ∷ [])))
      ≡ chunked (kept ∷ (overlap_of kept ++ newline ∷ last) ∷ [])
unfolding trim_chunks merge_tail overlapped
trimmed_pair kept lost last e h = rw e (ground arith)

-- The overlap does not carry the text on that the trim cuts off: where the merged pieces are a
-- chunk, of which the trim keeps only the front, and a last one of 400 characters or more, the
-- result is the front, and the last one behind an overlap that is taken from the front.
pub trim_is_lost :
    (c : Char) (cs kept lost last : Text) (pieces : List Text)
    → split_block (suc (length (c ∷ cs))) merge_limit (c ∷ cs) ≡ some pieces
    → merge_pieces [] pieces ≡ (kept ++ lost) ∷ last ∷ []
    → trim_chunk (kept ++ lost) ≡ kept
    → 400 ≤ length last
    → chunk_paragraph_aware (c ∷ cs) ≡ chunked (kept ∷ (overlap_of kept ++ newline ∷ last) ∷ [])
unfolding chunk_paragraph_aware
trim_is_lost c cs kept lost last pieces e m t h =
    ap from_pieces e
    ∙ ap (λ raw. with_overlaps (merge_tail (trim_chunks raw))) m
    ∙ trimmed_pair kept lost last t h
