-- ===== src/Kb/Chunking.antt =====
-- voice_agent/kb/ingestion/chunking.py: the fixed-size strategy. A text is its list of characters.
pub mod Windows
pub mod Blocks
pub mod Paragraphs
pub mod Cleaning
mod Tests
use virtual_helmsman.Prelude.{
  ℕ, zero, suc, ◌+◌, ◌-◌, ◌<◌, Char, List, [], ◌∷◌, Option, none, some, length, take, drop, leb,
  ltb, min, if◌then◌else◌,
}

abbrev pub chunk_size : ℕ
chunk_size = 800

abbrev pub chunk_overlap : ℕ
chunk_overlap = 75

-- text[start:stop]
abbrev pub slice {ℓ} : {A : Type ℓ} → List A → ℕ → ℕ → List A
slice text start stop = take (stop - start) (drop start text)

abbrev pub cons_chunk {ℓ} : {A : Type ℓ} → List A → Option (List (List A)) → Option (List (List A))
cons_chunk chunk none = none
cons_chunk chunk (some chunks) = some (chunk ∷ chunks)

-- The loop from the position `pos`, with fuel for its rounds: `none` means that it ran out.
unfoldable pub chunk_from {ℓ} : {A : Type ℓ} → ℕ → List A → ℕ → Option (List (List A))
chunk_from zero text pos = none
chunk_from (suc fuel) text pos =
    let stop = min (pos + chunk_size) (length text) in
    let rest = chunk_from fuel text (stop - chunk_overlap) in
    if ltb pos (length text)
    then (if leb (length text) stop
        then some (slice text pos stop ∷ [])
        else cons_chunk (slice text pos stop) rest)
    else some []

pub data Chunked {ℓ} (A : Type ℓ) : Type ℓ where
  chunked : List (List A) → Chunked A
  no_clean_text no_chunks out_of_fuel : Chunked A

abbrev pub ended {ℓ} : {A : Type ℓ} → Option (List (List A)) → Chunked A
ended none = out_of_fuel
ended (some chunks) = chunked chunks

-- `chunk_fixed_size`; an empty text is a ValueError
unfoldable pub chunk_fixed_size {ℓ} : {A : Type ℓ} → List A → Chunked A
unfolding chunk_from
chunk_fixed_size [] = no_clean_text
chunk_fixed_size (c ∷ cs) = ended (chunk_from (suc (length (c ∷ cs))) (c ∷ cs) 0)
