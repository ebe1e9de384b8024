-- ===== src/Llm/Retrieval/Indices.antt =====
-- What the rerank of helpers.py keeps: the labels of the model's reply are checked against the chunks
-- before they are used as indices.
use virtual_helmsman.Prelude.{
  ℕ, zero, suc, ◌≤◌, ◌<◌, min, String, ◌≡◌, refl, ap, Bool-cases, inl, inr, Option, some, List, [],
  ◌∷◌, ◌++◌, length, get_elem?, take, length-take, ltb, ltb→lt, arith,
}
use virtual_helmsman.Prelude.Int.{ℤ, pos, negsuc}
use virtual_helmsman.Json.{Json}
use virtual_helmsman.Llm.Retrieval.{
  Payload, Hit, bypass_all, rrf_top3, index_of, indices_in, first_indices, or_first,
  strip_code_fence, parse_rerank_indices, rerank_from, apply_rerank, top_3_of,
}

abbrev pub AllBelow : ℕ → List ℕ → Type 0
AllBelow num [] = Unit
AllBelow num (i ∷ is') = (i < num) × AllBelow num is'

AllBelow-append :
    (num : ℕ) (is' js : List ℕ) → AllBelow num is' → AllBelow num js → AllBelow num (is' ++ js)
AllBelow-append num [] js h g = g
AllBelow-append num (i ∷ is') js (h, hs) g = (h, AllBelow-append num is' js hs g)

AllBelow-take : (num n : ℕ) (is' : List ℕ) → AllBelow num is' → AllBelow num (take n is')
AllBelow-take num zero is' h = tt
AllBelow-take num (suc n) [] h = tt
AllBelow-take num (suc n) (i ∷ is') (h, hs) = (h, AllBelow-take num n is' hs)

index_of-AllBelow : (num : ℕ) (n : ℤ) → AllBelow num (index_of num n)
index_of-AllBelow num (pos zero) = tt
index_of-AllBelow num (pos (suc i)) = elim (Bool-cases (ltb i num)) [
  | inl e ↦ rw e (ltb→lt i num e, tt)
  | inr e ↦ rw e tt
]
index_of-AllBelow num (negsuc n) = tt

indices_in-AllBelow : (num : ℕ) (ns : List ℤ) → AllBelow num (indices_in num ns)
unfolding indices_in
indices_in-AllBelow num [] = tt
indices_in-AllBelow num (n ∷ ns) =
    AllBelow-append num (index_of num n) (indices_in num ns) (index_of-AllBelow num n)
      (indices_in-AllBelow num ns)

first_indices-AllBelow : (num : ℕ) → AllBelow num (first_indices num)
first_indices-AllBelow zero = tt
first_indices-AllBelow (suc zero) = (omega arith, tt)
first_indices-AllBelow (suc (suc zero)) = (omega arith, (omega arith, tt))
first_indices-AllBelow (suc (suc (suc n))) = (omega arith, (omega arith, (omega arith, tt)))

or_first-AllBelow : (num : ℕ) (is' : List ℕ) → AllBelow num is' → AllBelow num (or_first num is')
or_first-AllBelow num [] h = first_indices-AllBelow num
or_first-AllBelow num (i ∷ is') h = h

length-or_first : (num : ℕ) (is' : List ℕ) → min 1 num ≤ length (or_first num is')
length-or_first zero [] = omega arith
length-or_first (suc zero) [] = omega arith
length-or_first (suc (suc zero)) [] = omega arith
length-or_first (suc (suc (suc n))) [] = omega arith
length-or_first num (i ∷ is') = omega arith

module _ (loads : String → Option Json) (raw : String) (num : ℕ) where
  parse_rerank_indices-AllBelow : AllBelow num (parse_rerank_indices loads raw num)
  unfolding parse_rerank_indices
  parse_rerank_indices-AllBelow =
      AllBelow-take num 3 _ (
        or_first-AllBelow num _ (indices_in-AllBelow num (top_3_of (loads (strip_code_fence raw)))))

  length-parse_rerank_indices :
      (length (parse_rerank_indices loads raw num) ≤ 3)
      × (min 1 num ≤ length (parse_rerank_indices loads raw num))
  unfolding parse_rerank_indices
  length-parse_rerank_indices =
      let is' = indices_in num (top_3_of (loads (strip_code_fence raw))) in
      (
        omega (arith, length-take 3 (or_first num is')),
        omega (arith, length-take 3 (or_first num is'), length-or_first num is'),
      )

-- The payload of a chunk of the list.
abbrev pub IsFrom : List Hit → Payload → Type 0
IsFrom chunks p = (i : ℕ) × (c : Hit) × (get_elem? chunks i ≡ some c) × (c.payload ≡ p)

abbrev pub AllFrom : List Hit → List Hit → Type 0
AllFrom chunks [] = Unit
AllFrom chunks (h ∷ hs) = IsFrom chunks h.payload × AllFrom chunks hs

get_elem?_below :
    (chunks : List Hit) (i : ℕ) → i < length chunks → (c : Hit) × (get_elem? chunks i ≡ some c)
get_elem?_below [] i h = elim h [ ]
get_elem?_below (c ∷ cs) zero h = (c, refl)
get_elem?_below (c ∷ cs) (suc i) h = get_elem?_below cs i (omega arith)

rerank_from-AllFrom :
    (place : ℕ) (chunks : List Hit) (is' : List ℕ)
    → AllBelow (length chunks) is'
    → (length (rerank_from place chunks is') ≡ length is')
      × AllFrom chunks (rerank_from place chunks is')
unfolding rerank_from
rerank_from-AllFrom place chunks [] h = (refl, tt)
rerank_from-AllFrom place chunks (i ∷ is') (h, hs) =
    let (c, e) = get_elem?_below chunks i h in
    let rest = rerank_from-AllFrom (suc place) chunks is' hs in
    rw e (ap suc rest.0, ((i, c, e, refl), rest.1))

-- Whatever the model replies, the rerank keeps at most three chunks, each with the payload of a
-- chunk that was retrieved, and at least one where any was retrieved.
pub apply_rerank_bounds :
    (loads : String → Option Json) (raw : String) (chunks : List Hit)
    → (length (apply_rerank chunks (parse_rerank_indices loads raw (length chunks))) ≤ 3)
      × (min 1 (length chunks)
          ≤ length (apply_rerank chunks (parse_rerank_indices loads raw (length chunks))))
      × AllFrom chunks (apply_rerank chunks (parse_rerank_indices loads raw (length chunks)))
unfolding apply_rerank
apply_rerank_bounds loads raw chunks =
    let kept =
      rerank_from-AllFrom 1 chunks (parse_rerank_indices loads raw (length chunks))
        (parse_rerank_indices-AllBelow loads raw (length chunks)) in
    let bounds = length-parse_rerank_indices loads raw (length chunks) in
    (omega (arith, kept.0, bounds.0), omega (arith, kept.0, bounds.1), kept.1)

length-bypass_all : (hs : List Hit) → length (bypass_all hs) ≡ length hs
length-bypass_all [] = refl
length-bypass_all (h ∷ hs) = ap suc (length-bypass_all hs)

pub length-rrf_top3 : (chunks : List Hit) → length (rrf_top3 chunks) ≤ 3
unfolding rrf_top3
length-rrf_top3 chunks = omega (arith, length-bypass_all (take 3 chunks), length-take 3 chunks)
