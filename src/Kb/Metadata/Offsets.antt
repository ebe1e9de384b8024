-- ===== src/Kb/Metadata/Offsets.antt =====
-- The chunks that `complete_metadata` describes are numbered, and placed in order in the text.
use virtual_helmsman.Prelude.{
  ℕ, zero, suc, ◌+◌, ◌-◌, ◌*◌, ◌≤◌, ◌≡◌, refl, ap, true, some, List, [], ◌∷◌, arith, length, take,
  drop, map, ◌⊎◌, inl, inr, Bool-cases, Char,
}
use virtual_helmsman.Kb.Metadata.{
  Text, Chunk, Upload, starts_with, find_in, find, locate, describe, enrich, complete_metadata,
  chunk_name,
}

find_in-le : (key : Text) (i j : ℕ) (text : Text) → find_in key i text ≡ some j → i ≤ j
unfolding find_in
find_in-le key i j [] h = ground arith
find_in-le key i j (c ∷ cs) h = ground (arith, find_in-le key (suc i) j cs)

drop_nil : (n : ℕ) → drop {A = Char} n [] ≡ []
drop_nil zero = refl
drop_nil (suc n) = refl

find_in-starts_with :
    (key : Text) (i j : ℕ) (text : Text)
    → find_in key i text ≡ some j
    → starts_with key (drop (j - i) text) ≡ true
unfolding find_in
find_in-starts_with key i j [] h = ground (arith, ap (starts_with key) (drop_nil (j - i)))
find_in-starts_with key i j (c ∷ cs) h = elim (Bool-cases (starts_with key (c ∷ cs))) [
  | inl here ↦ let same : j - i ≡ 0 = ground arith in rw same here
  | inr later ↦
      let found : find_in key (suc i) cs ≡ some j = ground arith in
      let one : j - i ≡ suc (j - suc i) = omega (arith, find_in-le key (suc i) j cs found) in
      rw one (find_in-starts_with key (suc i) j cs found)
]

locate_cases :
    (clean text : Text) (from : ℕ)
    → (locate clean text from ≡ from)
      ⊎ (find_in (take 80 text) from (drop from clean) ≡ some (locate clean text from))
unfolding locate find
locate_cases clean text from = ground arith

locate-le : (clean text : Text) (from : ℕ) → from ≤ locate clean text from
locate-le clean text from = elim (locate_cases clean text from) [
  | inl e ↦ omega arith
  | inr e ↦ find_in-le (take 80 text) from (locate clean text from) (drop from clean) e
]

-- The chunks of an upload from the index `i` on: numbered in turn, each with its own point, and
-- each beginning behind the beginning of the one before.
abbrev pub InOrder : Upload → ℕ → ℕ → List Chunk → Type 0
InOrder u i lo [] = Unit
InOrder u i lo (c ∷ cs) =
    (c.idx ≡ i)
    × (c.chunk_id ≡ chunk_name i)
    × (c.point_id ≡ u.epoch * 1000 + i)
    × (lo ≤ c.start_char)
    × (c.end_char ≡ c.start_char + length c.text)
    × InOrder u (suc i) (suc c.start_char) cs

enrich-InOrder :
    (u : Upload) (i from : ℕ) (texts : List Text) → InOrder u i from (enrich u i from texts)
unfolding enrich describe
enrich-InOrder u i from [] = tt
enrich-InOrder u i from (text ∷ texts) = (
  refl,
  refl,
  refl,
  locate-le u.clean_text text from,
  refl,
  enrich-InOrder u (suc i) (suc (locate u.clean_text text from)) texts,
)

map-enrich :
    (u : Upload) (i from : ℕ) (texts : List Text)
    → map (λ c. c.text) (enrich u i from texts) ≡ texts
unfolding enrich describe
map-enrich u i from [] = refl
map-enrich u i from (text ∷ texts) =
    ap (λ l. text ∷ l) (map-enrich u (suc i) (suc (locate u.clean_text text from)) texts)

abbrev pub plus_drop : ℕ → ℕ → Text → Text
plus_drop i j text = drop (j - i) (drop i text)

-- Where the search finds the beginning of a chunk, the clean text has it at the offset recorded.
pub locate_found :
    (clean text : Text) (from j : ℕ)
    → find clean (take 80 text) from ≡ some j
    → (locate clean text from ≡ j) × (starts_with (take 80 text) (plus_drop from j clean) ≡ true)
unfolding locate find
locate_found clean text from j h =
    (ground arith, find_in-starts_with (take 80 text) from j (drop from clean) (ground arith))

-- The chunks are described in the order of their texts, none left out: numbered from 0, with
-- distinct point ids, and with offsets that grow from each chunk to the next.
pub complete_metadata-InOrder :
    (u : Upload) (texts : List Text) (cs : List Chunk)
    → complete_metadata u texts ≡ some cs
    → (map (λ c. c.text) cs ≡ texts) × InOrder u 0 0 cs
unfolding complete_metadata
complete_metadata-InOrder u [] cs h = cc
complete_metadata-InOrder u (t ∷ ts) cs h =
    let v = record u { total = length (t ∷ ts) } in
    let e : cs ≡ enrich v 0 0 (t ∷ ts) = ground arith in
    rw e (map-enrich v 0 0 (t ∷ ts), enrich-InOrder v 0 0 (t ∷ ts))
