-- ===== src/Kb/Chunking/Tests.antt =====
-- The theorems on the paragraph-aware strategy at short and at two-page texts.
use virtual_helmsman.Prelude.{◌<◌, ◌≡◌, refl, chars, List, [], ◌∷◌, ◌++◌, length, replicate, arith}
use virtual_helmsman.Kb.Metadata.{Text}
use virtual_helmsman.Kb.Chunking.{chunked}
use virtual_helmsman.Kb.Chunking.Blocks.{newline, split_block}
use virtual_helmsman.Kb.Chunking.Paragraphs.{
  merge_pieces, trim_chunk, overlap_of, chunk_paragraph_aware,
}
use virtual_helmsman.Kb.Chunking.Blocks.Pieces.{AllAtMost}
use virtual_helmsman.Kb.Chunking.Paragraphs.Sizes.{chunk_paragraph_aware_bounds}
use virtual_helmsman.Kb.Chunking.Paragraphs.Trim.{trim_is_lost}

chunk_paragraph_aware_bounds_example :
    (chunks : List Text) × (chunk_paragraph_aware ("K" ∷ chars "eep a proper look-out.")
      ≡ chunked chunks)
    × (0 < length chunks)
    × AllAtMost 1201 chunks
unfolding split_block
chunk_paragraph_aware_bounds_example =
    chunk_paragraph_aware_bounds "K" (chars "eep a proper look-out.") refl

-- 651 characters to the end of a sentence, and the beginning of the next one
abbrev kept : Text
kept = "A" ∷ (replicate 649 "a" ++ "." ∷ [])

abbrev lost : Text
lost = chars " But not here."

abbrev last : Text
last = replicate 410 "c"

abbrev document : Text
document = replicate 649 "a" ++ chars ". But not here.\n\n" ++ last

lost_text :
    chunk_paragraph_aware ("A" ∷ document)
    ≡ chunked (kept ∷ (overlap_of kept ++ newline ∷ last) ∷ [])
unfolding split_block merge_pieces trim_chunk
lost_text =
    trim_is_lost "A" document kept lost last ((kept ++ lost) ∷ last ∷ []) refl refl refl
      (omega arith)

-- A tail of 390 characters joins the chunk before it, which is then longer than 800.
abbrev joined_tail : Text
joined_tail = replicate 720 "x" ++ newline ∷ replicate 390 "y"

long_chunk :
    chunk_paragraph_aware (replicate 720 "x" ++ newline ∷ newline ∷ replicate 390 "y")
    ≡ chunked (joined_tail ∷ [])
unfolding split_block merge_pieces trim_chunk chunk_paragraph_aware
long_chunk = refl

length-joined_tail : length joined_tail ≡ 1111
length-joined_tail = refl
