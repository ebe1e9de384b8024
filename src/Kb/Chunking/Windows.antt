-- ===== src/Kb/Chunking/Windows.antt =====
-- The windows of the fixed-size strategy cover the text, each overlapping the one before.
use native.Mathlib.Decide.{dec_le}
use mathlib.Core.List.{append-nil}
use virtual_helmsman.Prelude.{
  ℕ, zero, suc, ◌+◌, ◌-◌, ◌≤◌, ◌<◌, ◌≡◌, refl, sym, ◌∙◌, ap, ◌≢◌, List, [], ◌∷◌, ◌++◌, some, arith,
  length, take, drop, take-append-drop, length-take, length-drop, min,
}
use virtual_helmsman.Kb.Chunking.{
  chunk_size, chunk_overlap, slice, chunk_from, cons_chunk, chunked, ended, chunk_fixed_size,
}

suc_add : (m n : ℕ) → suc m + n ≡ suc (m + n)
suc_add m n = omega arith

regroup : (pos : ℕ) → pos + 725 + chunk_overlap ≡ pos + chunk_size
regroup pos = omega arith

module _ {ℓ} {A : Type ℓ} where
  take_all : (n : ℕ) (xs : List A) → length xs ≤ n → take n xs ≡ xs
  take_all zero [] h = refl
  take_all zero (x ∷ xs) h = absurd (omega arith)
  take_all (suc n) [] h = refl
  take_all (suc n) (x ∷ xs) h = ap (λ ys. x ∷ ys) (take_all n xs (omega arith))

  drop_nil : (n : ℕ) → drop {A = A} n [] ≡ []
  drop_nil zero = refl
  drop_nil (suc n) = refl

  drop-drop : (n m : ℕ) (xs : List A) → drop (m + n) xs ≡ drop n (drop m xs)
  drop-drop n zero xs = ap (λ k. drop k xs) (omega arith)
  drop-drop n (suc m) [] = ap (λ k. drop {A = A} k []) (suc_add m n) ∙ sym (drop_nil n)
  drop-drop n (suc m) (x ∷ xs) = ap (λ k. drop k (x ∷ xs)) (suc_add m n) ∙ drop-drop n m xs

  drop-append : (n : ℕ) (xs ys : List A) → n ≤ length xs → drop n (xs ++ ys) ≡ drop n xs ++ ys
  drop-append zero xs ys h = refl
  drop-append (suc n) [] ys h = absurd (omega arith)
  drop-append (suc n) (x ∷ xs) ys h = drop-append n xs ys (omega arith)

  -- the later chunks without their overlap
  abbrev pub without_overlap : List (List A) → List A
  without_overlap [] = []
  without_overlap (c ∷ cs) = drop chunk_overlap c ++ without_overlap cs

  abbrev pub rejoin : List (List A) → List A
  rejoin [] = []
  rejoin (c ∷ cs) = c ++ without_overlap cs

  abbrev pub AllWithin : List (List A) → Type 0
  AllWithin [] = Unit
  AllWithin (c ∷ cs) = (0 < length c) × (length c ≤ chunk_size) × AllWithin cs

  length-slice :
      (text : List A) (start stop : ℕ)
      → stop ≤ length text
      → length (slice text start stop) ≡ stop - start
  length-slice text start stop h =
      omega (arith, length-take (stop - start) (drop start text), length-drop start text)

  chunk_from_last :
      (fuel : ℕ) (text : List A) (pos : ℕ)
      → pos < length text
      → length text ≤ pos + chunk_size
      → chunk_from (suc fuel) text pos ≡ some (drop pos text ∷ [])
  unfolding chunk_from
  chunk_from_last fuel text pos h le =
      let stop : min (pos + chunk_size) (length text) ≡ length text = omega arith in
      let whole : slice text pos (length text) ≡ drop pos text =
        take_all (length text - pos) (drop pos text) (omega (arith, length-drop pos text)) in
      ground (arith, stop, whole)

  chunk_from_more :
      (fuel : ℕ) (text : List A) (pos : ℕ)
      → pos + chunk_size < length text
      → chunk_from (suc fuel) text pos
        ≡ cons_chunk (take chunk_size (drop pos text)) (chunk_from fuel text (pos + 725))
  unfolding chunk_from
  chunk_from_more fuel text pos h =
      let stop : min (pos + chunk_size) (length text) ≡ pos + chunk_size = omega arith in
      let width : pos + chunk_size - pos ≡ chunk_size = omega arith in
      let next : pos + chunk_size - chunk_overlap ≡ pos + 725 = omega arith in
      ground (arith, stop, width, next)

  abbrev first_length : List (List A) → ℕ
  first_length [] = 0
  first_length (c ∷ cs) = length c

  -- The chunks cover the text from a position on.
  record Covers (text : List A) (pos : ℕ) (cs : List (List A)) : Type ℓ where
    joined : rejoin cs ≡ drop pos text
    within : AllWithin cs
    first : first_length cs ≡ min chunk_size (length text - pos)

  head_long :
      (text : List A) (pos : ℕ) (cs : List (List A))
      → pos + chunk_size < length text
      → Covers text (pos + 725) cs
      → chunk_overlap ≤ first_length cs
  head_long text pos cs h v = omega (arith, v.first)

  drop-rejoin :
      (cs : List (List A))
      → chunk_overlap ≤ first_length cs
      → without_overlap cs ≡ drop chunk_overlap (rejoin cs)
  drop-rejoin [] h = absurd (omega arith)
  drop-rejoin (c ∷ cs) h = sym (drop-append chunk_overlap c (without_overlap cs) h)

  Covers-last :
      (text : List A) (pos : ℕ)
      → pos < length text
      → length text ≤ pos + chunk_size
      → Covers text pos (drop pos text ∷ [])
  Covers-last text pos h le = record {
    joined = append-nil (drop pos text);
    within = (omega (arith, length-drop pos text), omega (arith, length-drop pos text), tt);
    first = omega (arith, length-drop pos text);
  }

  Covers-cons :
      (text : List A) (pos : ℕ) (cs : List (List A))
      → pos + chunk_size < length text
      → Covers text (pos + 725) cs
      → Covers text pos (take chunk_size (drop pos text) ∷ cs)
  Covers-cons text pos cs h v =
      let width : length (take chunk_size (drop pos text)) ≡ chunk_size =
        omega (arith, length-take chunk_size (drop pos text), length-drop pos text) in
      record {
        joined =
            ap (λ l. take chunk_size (drop pos text) ++ l)
              (drop-rejoin cs (head_long text pos cs h v)
                ∙ ap (λ l. drop chunk_overlap l) v.joined
                ∙ sym (drop-drop chunk_overlap (pos + 725) text)
                ∙ ap (λ k. drop k text) (regroup pos)
                ∙ drop-drop chunk_size pos text)
            ∙ take-append-drop chunk_size (drop pos text);
        within = (omega (arith, width), omega (arith, width), v.within);
        first = omega (arith, width);
      }

  -- The loop ends within its fuel, and its chunks cover the rest of the text.
  chunk_from-Covers :
      (fuel : ℕ) (text : List A) (pos : ℕ)
      → pos < length text
      → length text < fuel + pos
      → (cs : List (List A)) × (chunk_from fuel text pos ≡ some cs) × Covers text pos cs
  chunk_from-Covers zero text pos h lt = absurd (omega arith)
  chunk_from-Covers (suc fuel) text pos h lt = elim (dec_le (length text) (pos + chunk_size)) [
    | yes le ↦ (drop pos text ∷ [], chunk_from_last fuel text pos h le, Covers-last text pos h le)
    | no long ↦
        let (cs, e, v) = chunk_from-Covers fuel text (pos + 725) (omega arith) (omega arith) in
        (
          take chunk_size (drop pos text) ∷ cs,
          chunk_from_more fuel text pos (omega arith) ∙ ap (cons_chunk _) e,
          Covers-cons text pos cs (omega arith) v,
        )
  ]

  -- Every text that is not empty is chunked: the fuel suffices. The chunks hold between 1 and 800
  -- characters each, and joined without their 75 characters of overlap they are the text.
  pub chunk_fixed_size_lem :
      (text : List A)
      → text ≢ []
      → (cs : List (List A)) × (chunk_fixed_size text ≡ chunked cs)
        × AllWithin cs
        × (rejoin cs ≡ text)
  unfolding chunk_fixed_size
  chunk_fixed_size_lem [] h = absurd (h refl)
  chunk_fixed_size_lem (c ∷ text) h =
      let (cs, e, v) =
        chunk_from-Covers (suc (length (c ∷ text))) (c ∷ text) 0 (omega arith) (omega arith) in
      (cs, ap ended e, v.within, v.joined)
