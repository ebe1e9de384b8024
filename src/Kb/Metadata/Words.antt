-- ===== src/Kb/Metadata/Words.antt =====
-- The two ways in which voice_agent/kb/ingestion/metadata.py counts words agree.
use virtual_helmsman.Prelude.{
  suc, ◌≡◌, refl, ap, ◌≢◌, true, false, [], ◌∷◌, arith, inl, inr, strip_chars, is_space, Bool-cases,
}
use virtual_helmsman.Prelude.Text.Strip.{EndsSolid, StartsSolid, strip_chars_solid}
use virtual_helmsman.Kb.Metadata.{Text, count_words_from, count_words, count_gaps_from, count_split}

gaps_in_word :
    (cs : Text)
    → EndsSolid cs
    → (count_gaps_from false cs ≡ count_words_from true cs)
      × (cs ≢ [] → suc (count_gaps_from true cs) ≡ count_words_from false cs)
unfolding count_gaps_from count_words_from
gaps_in_word [] h = (refl, λ e. absurd (e refl))
gaps_in_word (c ∷ []) h = ground arith
gaps_in_word (c ∷ d ∷ ds) h =
    let (word, gap) = gaps_in_word (d ∷ ds) h in
    let gap' : suc (count_gaps_from true (d ∷ ds)) ≡ count_words_from false (d ∷ ds) =
      gap (λ e. cc) in
    elim (Bool-cases (is_space c)) [
      | inl s ↦ rw s (gap', λ e. gap')
      | inr s ↦ rw s (word, λ e. ap suc word)
    ]

solid-count :
    (cs : Text) → StartsSolid cs → EndsSolid cs → cs ≢ [] → count_split cs ≡ count_words cs
unfolding count_split count_words count_gaps_from count_words_from
solid-count [] h k ne = absurd (ne refl)
solid-count (c ∷ []) h k ne = ground arith
solid-count (c ∷ d ∷ ds) h k ne = rw h (ap suc (gaps_in_word (d ∷ ds) k).0)

-- For a stripped text that is not empty, splitting at white space gives as many parts as the text
-- has words: an edited chunk is counted as an uploaded one.
pub count_split-strip :
    (text : Text)
    → strip_chars text ≢ []
    → count_split (strip_chars text) ≡ count_words (strip_chars text)
count_split-strip text ne =
    let (h, k) = strip_chars_solid text in solid-count (strip_chars text) h k ne
