-- ===== src/Kb/Chunking/Blocks/Filled.antt =====
-- Splitting a block leaves some text in the pieces.
use virtual_helmsman.Prelude.{
  ℕ, zero, suc, ◌+◌, ◌<◌, ◌≡◌, Char, true, false, Option, none, some, List, [], ◌∷◌, ◌++◌, length,
  take, strip_chars, is_space, ltb, if◌then◌else◌, Bool-cases, inl, inr, arith,
}
use virtual_helmsman.Prelude.Text.Strip.{length-strip_chars_solid}
use virtual_helmsman.Kb.Metadata.{Text}
use virtual_helmsman.Kb.Chunking.Blocks.{
  any_fits, parts_of, cut_at, cons_piece, hard_cut, append_pieces, split_parts, parts_or_cut,
  split_block,
}
use virtual_helmsman.Kb.Chunking.Blocks.Pieces.{
  total, AllPositive, AreShorter, parts_of-AreShorter, cut_at-bounds,
}

-- A piece is not empty.
abbrev pub HasText : Option (List Text) → Type 0
HasText none = Unit
HasText (some ps) = 0 < total ps

total-append : (ps qs : List Text) → total (ps ++ qs) ≡ total ps + total qs
total-append [] qs = omega arith
total-append (p ∷ ps) qs = omega (arith, total-append ps qs)

append_pieces-HasText : (r q : Option (List Text)) → HasText q → HasText (append_pieces r q)
append_pieces-HasText none q h = tt
append_pieces-HasText (some ps) none h = tt
append_pieces-HasText (some ps) (some qs) h = omega (arith, total-append ps qs)

append_piece-HasText :
    (p : Text) (q : Option (List Text)) → 0 < length p → HasText (append_pieces (some (p ∷ [])) q)
append_piece-HasText p none h = tt
append_piece-HasText p (some qs) h = omega arith

split_parts-HasText :
    (split : Text → Option (List Text)) (max_size : ℕ) (ps : List Text)
    → AllPositive ps
    → any_fits max_size ps ≡ true
    → HasText (split_parts split max_size ps)
unfolding split_parts
split_parts-HasText split max_size [] a h = ground arith
split_parts-HasText split max_size (p ∷ ps) (a, as') h =
    elim (Bool-cases (ltb max_size (length p))) [
      | inl e ↦
          append_pieces-HasText (if ltb max_size (length p) then split p else some (p ∷ []))
            (split_parts split max_size ps)
            (split_parts-HasText split max_size ps as' (ground arith))
      | inr e ↦ rw e (append_piece-HasText p (split_parts split max_size ps) a)
    ]

cons_piece-HasText : (p : Text) (r : Option (List Text)) → 0 < length p → HasText (cons_piece p r)
cons_piece-HasText p none h = tt
cons_piece-HasText p (some ps) h = omega arith

first_cut :
    (cut : ℕ) (c : Char) (cs : Text)
    → 0 < cut
    → is_space c ≡ false
    → 0 < length (strip_chars (take cut (c ∷ cs)))
first_cut zero c cs h e = elim h [ ]
first_cut (suc cut) c cs h e = length-strip_chars_solid c (take cut cs) e

hard_cut-HasText :
    (fuel max_size : ℕ) (c : Char) (cs : Text)
    → 0 < max_size
    → is_space c ≡ false
    → HasText (hard_cut fuel max_size (c ∷ cs))
unfolding hard_cut
hard_cut-HasText zero max_size c cs h e = tt
hard_cut-HasText (suc fuel) max_size c cs h e = elim (Bool-cases (ltb max_size (length (c ∷ cs)))) [
  | inl l ↦ rw l (
      cons_piece-HasText (strip_chars (take (cut_at max_size (c ∷ cs)) (c ∷ cs))) _
        (first_cut (cut_at max_size (c ∷ cs)) c cs (cut_at-bounds max_size (c ∷ cs) h).0 e))
  | inr l ↦ rw l (omega arith)
]

parts_or_cut-HasText :
    (split : Text → Option (List Text)) (max_size n : ℕ) (c : Char) (cs : Text)
    (r : Option (List Text))
    → 0 < max_size
    → is_space c ≡ false
    → AreShorter max_size n r
    → HasText (parts_or_cut split max_size (c ∷ cs) r)
parts_or_cut-HasText split max_size n c cs none h e s =
    hard_cut-HasText (suc (length (c ∷ cs))) max_size c cs h e
parts_or_cut-HasText split max_size n c cs (some ps) h e s =
    split_parts-HasText split max_size ps s.1 s.2

-- A text that begins with no white space is split into pieces with some text.
pub split_block-HasText :
    (fuel max_size : ℕ) (c : Char) (cs : Text)
    → 0 < max_size
    → is_space c ≡ false
    → HasText (split_block fuel max_size (c ∷ cs))
unfolding split_block
split_block-HasText zero max_size c cs h e = tt
split_block-HasText (suc fuel) max_size c cs h e =
    parts_or_cut-HasText (split_block fuel max_size) max_size (length (c ∷ cs)) c cs
      (parts_of max_size (c ∷ cs)) h e (parts_of-AreShorter max_size (c ∷ cs))
