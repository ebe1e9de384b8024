-- ===== src/Kb/Chunking/Blocks/Pieces.antt =====
-- The pieces that `_split_block` cuts a block into.
use virtual_helmsman.Prelude.{
  ℕ, zero, suc, ◌+◌, ◌-◌, ◌≤◌, ◌<◌, ◌≡◌, Char, true, false, Option, none, some, List, [], ◌∷◌, ◌++◌,
  length, length-take, length-drop, take, drop, strip_chars, ltb, ltb→lt, ◌⊎◌, if◌then◌else◌,
  Bool-cases, inl, inr, arith,
}
use virtual_helmsman.Prelude.Text.Strip.{length-strip_chars}
use virtual_helmsman.Kb.Metadata.{Text}
use virtual_helmsman.Kb.Chunking.Blocks.{
  push, re_split, blank_lines, line_end, sentence_gap, strip_parts, unless_empty, not_empty,
  any_fits, is_split, parts_of, last_blank, cut_at, cons_piece, hard_cut, append_pieces,
  split_parts, parts_or_cut, split_block,
}

abbrev pub total : List Text → ℕ
total [] = 0
total (p ∷ ps) = length p + total ps

total-push : (c : Char) (ps : List Text) → total (push c ps) ≡ suc (total ps)
total-push c [] = omega arith
total-push c (p ∷ ps) = omega arith

total-re_split :
    (pattern : Option Char → Text → ℕ) (k : ℕ) (prev : Option Char) (text : Text)
    → total (re_split pattern k prev text) ≤ length text
unfolding re_split
total-re_split pattern k prev [] = omega arith
total-re_split pattern (suc k) prev (c ∷ cs) = omega (arith, total-re_split pattern k (some c) cs)
total-re_split pattern zero prev (c ∷ cs) =
    at (pattern prev (c ∷ cs)) (λ k. total-re_split pattern k (some c) cs)
  where
    at :
        (n : ℕ)
        → ((k : ℕ) → total (re_split pattern k (some c) cs) ≤ length cs)
        → total (elim n [
          | zero ↦ push c (re_split pattern zero (some c) cs)
          | suc k ↦ [] ∷ re_split pattern k (some c) cs
        ])
          ≤ suc (length cs)
    at zero h = omega (arith, h zero, total-push c (re_split pattern zero (some c) cs))
    at (suc k) h = omega (arith, h k)

total-strip_parts : (ps : List Text) → total (strip_parts ps) ≤ total ps
total-strip_parts [] = omega arith
total-strip_parts (p ∷ ps) = omega (arith, length-strip_chars p, total-strip_parts ps)

total-not_empty : (ps : List Text) → total (not_empty ps) ≤ total ps
total-not_empty [] = omega arith
total-not_empty ([] ∷ ps) = omega (arith, total-not_empty ps)
total-not_empty ((c ∷ cs) ∷ ps) = omega (arith, total-not_empty ps)

abbrev pub AllPositive : List Text → Type 0
AllPositive [] = Unit
AllPositive (p ∷ ps) = (0 < length p) × AllPositive ps

not_empty-AllPositive : (ps : List Text) → AllPositive (not_empty ps)
not_empty-AllPositive [] = tt
not_empty-AllPositive ([] ∷ ps) = not_empty-AllPositive ps
not_empty-AllPositive ((c ∷ cs) ∷ ps) = (omega arith, not_empty-AllPositive ps)

abbrev pub AllAtMost : ℕ → List Text → Type 0
AllAtMost n [] = Unit
AllAtMost n (p ∷ ps) = (length p ≤ n) × AllAtMost n ps

abbrev AllLess : ℕ → List Text → Type 0
AllLess n [] = Unit
AllLess n (p ∷ ps) = (length p < n) × AllLess n ps

AllLess-rest : (b n : ℕ) (ps : List Text) → 0 < b → b + total ps ≤ n → AllLess n ps
AllLess-rest b n [] h t = tt
AllLess-rest b n (p ∷ ps) h t = (omega arith, AllLess-rest b n ps h (omega arith))

-- Of two parts that are not empty, each is shorter than the block.
parts_shorter :
    (n : ℕ) (ps : List Text)
    → AllPositive ps
    → ltb 1 (length ps) ≡ true
    → total ps ≤ n
    → AllLess n ps
parts_shorter n [] a h t = tt
parts_shorter n (p ∷ []) a h t = ground arith
parts_shorter n (p ∷ q ∷ qs) (a, (b, bs)) h t =
    (omega arith, AllLess-rest (length p) n (q ∷ qs) a t)

abbrev pub AreShorter : (max_size : ℕ) → ℕ → Option (List Text) → Type 0
AreShorter max_size n none = Unit
AreShorter max_size n (some ps) = AllLess n ps × AllPositive ps × (any_fits max_size ps ≡ true)

is_split_parts :
    (max_size n : ℕ) (ps : List Text)
    → total ps ≤ n
    → is_split max_size (not_empty ps) ≡ true
    → AllLess n (not_empty ps)
      × AllPositive (not_empty ps)
      × (any_fits max_size (not_empty ps) ≡ true)
is_split_parts max_size n ps t h = (
  parts_shorter n (not_empty ps) (not_empty-AllPositive ps) (ground arith)
      (omega (arith, total-not_empty ps)),
  not_empty-AllPositive ps,
  ground arith,
)

pub parts_of-AreShorter :
    (max_size : ℕ) (block : Text) → AreShorter max_size (length block) (parts_of max_size block)
unfolding parts_of
parts_of-AreShorter max_size block =
    let ps = strip_parts (re_split blank_lines zero none block) in
    let ls = strip_parts (re_split line_end zero none block) in
    let ss = re_split sentence_gap zero none block in
    elim (Bool-cases (is_split max_size (not_empty ps))) [
      | inl e ↦ rw e (
          is_split_parts max_size (length block) ps
            (omega (
              arith,
              total-strip_parts (re_split blank_lines zero none block),
              total-re_split blank_lines zero none block,
            ))
            e)
      | inr e ↦ elim (Bool-cases (is_split max_size (not_empty ls))) [
        | inl f ↦
            rw (e, f)
              (is_split_parts max_size (length block) ls
                (omega (
                  arith,
                  total-strip_parts (re_split line_end zero none block),
                  total-re_split line_end zero none block,
                ))
                f)
        | inr f ↦ elim (Bool-cases (is_split max_size (not_empty ss))) [
          | inl g ↦
              rw (e, f, g)
                (is_split_parts max_size (length block) ss
                  (total-re_split sentence_gap zero none block) g)
          | inr g ↦ rw (e, f, g) tt
        ]
      ]
    ]

last_blank_below : (i : ℕ) (cs : Text) → last_blank i cs ≤ i + (length cs - 1)
unfolding last_blank
last_blank_below i [] = omega arith
last_blank_below i (c ∷ []) = ground arith
last_blank_below i (c ∷ d ∷ ds) = ground (arith, last_blank_below (suc i) (d ∷ ds))

pub cut_at-bounds :
    (max_size : ℕ) (cs : Text)
    → 0 < max_size
    → (0 < cut_at max_size cs) × (cut_at max_size cs ≤ max_size)
unfolding cut_at
cut_at-bounds max_size cs h =
    let below = last_blank_below 0 (take (suc max_size) cs) in
    ground (arith, below, length-take (suc max_size) cs)

-- There is a result, and no piece of it is too long.
abbrev pub Fits : ℕ → Option (List Text) → Type 0
Fits max_size none = ⊥
Fits max_size (some ps) = AllAtMost max_size ps

cons_piece-Fits :
    (max_size : ℕ) (p : Text) (r : Option (List Text))
    → length p ≤ max_size
    → Fits max_size r
    → Fits max_size (cons_piece p r)
cons_piece-Fits max_size p none h f = f
cons_piece-Fits max_size p (some ps) h f = (h, f)

pub unless_empty-AllAtMost :
    (n : ℕ) (p : Text) (ps : List Text)
    → length p ≤ n
    → AllAtMost n ps
    → AllAtMost n (unless_empty p ps)
unless_empty-AllAtMost n [] ps h a = a
unless_empty-AllAtMost n (c ∷ cs) ps h a = (h, a)

hard_cut-Fits :
    (fuel max_size : ℕ) (remaining : Text)
    → 0 < max_size
    → length remaining < fuel
    → Fits max_size (hard_cut fuel max_size remaining)
unfolding hard_cut
hard_cut-Fits zero max_size remaining h l = elim l [ ]
hard_cut-Fits (suc fuel) max_size remaining h l =
    elim (Bool-cases (ltb max_size (length remaining))) [
      | inl e ↦ rw e (
          let cut = cut_at max_size remaining in
          let (low, high) = cut_at-bounds max_size remaining h in
          cons_piece-Fits max_size (strip_chars (take cut remaining)) _
            (omega (arith, length-strip_chars (take cut remaining), length-take cut remaining))
            (hard_cut-Fits fuel max_size (strip_chars (drop cut remaining)) h (
              omega (
                arith,
                ltb→lt max_size (length remaining) e,
                length-strip_chars (drop cut remaining),
                length-drop cut remaining,
              ))))
      | inr e ↦ rw e (unless_empty-AllAtMost max_size remaining [] (ground arith) tt)
    ]

AllAtMost-append :
    (n : ℕ) (ps qs : List Text) → AllAtMost n ps → AllAtMost n qs → AllAtMost n (ps ++ qs)
AllAtMost-append n [] qs a b = b
AllAtMost-append n (p ∷ ps) qs (a, as') b = (a, AllAtMost-append n ps qs as' b)

append_pieces-Fits :
    (n : ℕ) (r q : Option (List Text)) → Fits n r → Fits n q → Fits n (append_pieces r q)
append_pieces-Fits n none q f g = f
append_pieces-Fits n (some ps) none f g = g
append_pieces-Fits n (some ps) (some qs) f g = AllAtMost-append n ps qs f g

module _ (max_size limit : ℕ) (split : Text → Option (List Text))
    (fits : (p : Text) → length p < limit → Fits max_size (split p)) where
  split_parts-Fits :
      (ps : List Text) → AllLess limit ps → Fits max_size (split_parts split max_size ps)
  unfolding split_parts
  split_parts-Fits [] a = tt
  split_parts-Fits (p ∷ ps) (a, as') =
      append_pieces-Fits max_size (if ltb max_size (length p) then split p else some (p ∷ []))
        (split_parts split max_size ps) (part_fits (Bool-cases (ltb max_size (length p))))
        (split_parts-Fits ps as')
    where
      part_fits :
          (ltb max_size (length p) ≡ true) ⊎ (ltb max_size (length p) ≡ false)
          → Fits max_size (if ltb max_size (length p) then split p else some (p ∷ []))
      part_fits (inl e) = rw e (fits p a)
      part_fits (inr e) = rw e (ground arith, tt)

  parts_or_cut-Fits :
      (block : Text) (r : Option (List Text))
      → 0 < max_size
      → AreShorter max_size limit r
      → Fits max_size (parts_or_cut split max_size block r)
  parts_or_cut-Fits block none h s =
      hard_cut-Fits (suc (length block)) max_size block h (omega arith)
  parts_or_cut-Fits block (some ps) h s = split_parts-Fits ps s.0

-- With fuel for its length a block is split, and no piece is longer than the limit.
pub split_block-Fits :
    (fuel max_size : ℕ) (block : Text)
    → 0 < max_size
    → length block < fuel
    → Fits max_size (split_block fuel max_size block)
unfolding split_block
split_block-Fits zero max_size block h l = elim l [ ]
split_block-Fits (suc fuel) max_size block h l =
    parts_or_cut-Fits max_size (length block) (split_block fuel max_size)
      (λ p b. split_block-Fits fuel max_size p h (omega arith)) block (parts_of max_size block) h
      (parts_of-AreShorter max_size block)
