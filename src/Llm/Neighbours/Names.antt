-- ===== src/Llm/Neighbours/Names.antt =====
-- The number that the expansion reads from a chunk id is the one that the ingestion wrote.
use Prim.Native.String
use Prim.Native.String.append as text_append
use virtual_helmsman.Prelude.{
  ℕ, zero, suc, ◌+◌, ◌-◌, ◌*◌, ◌/◌, ◌%◌, ◌<◌, Char, code, chars, String, ◌≡◌, refl, sym, ◌∙◌, ap,
  true, false, some, List, [], ◌∷◌, ◌++◌, ltb, Bool, if◌then◌else◌, Bool-cases, inl, inr, arith,
}
use mathlib.Core.List.{append_assoc, append-nil}
use virtual_helmsman.Actions.Fence.{strip_prefix}
use virtual_helmsman.Kb.Metadata.{digit, show_fuel, show, chunk_name}
use virtual_helmsman.Llm.Neighbours.{is_digit, number_from, number, number_after, chunk_number}

chars-append : (s t : String) → chars (String.◌++◌ s t) ≡ chars s ++ chars t
chars-append String.[] t = ap chars (text_append.nil t)
chars-append (String.◌∷◌ c s) t =
    ap chars (text_append.cons c s t) ∙ ap (λ cs. c ∷ cs) (chars-append s t)

-- The characters that are a digit with this value.
abbrev IsDigitOf : ℕ → List Char → Type 0
IsDigitOf k [] = ⊥
IsDigitOf k (c ∷ []) = (is_digit (code c) ≡ true) × (code c - 48 ≡ k)
IsDigitOf k (c ∷ d ∷ cs) = ⊥

digit-IsDigitOf : (k : ℕ) → k < 10 → IsDigitOf k (chars (digit k))
unfolding digit
digit-IsDigitOf zero h = (refl, refl)
digit-IsDigitOf (suc zero) h = (refl, refl)
digit-IsDigitOf (suc (suc zero)) h = (refl, refl)
digit-IsDigitOf (suc (suc (suc zero))) h = (refl, refl)
digit-IsDigitOf (suc (suc (suc (suc zero)))) h = (refl, refl)
digit-IsDigitOf (suc (suc (suc (suc (suc zero))))) h = (refl, refl)
digit-IsDigitOf (suc (suc (suc (suc (suc (suc zero)))))) h = (refl, refl)
digit-IsDigitOf (suc (suc (suc (suc (suc (suc (suc zero))))))) h = (refl, refl)
digit-IsDigitOf (suc (suc (suc (suc (suc (suc (suc (suc zero)))))))) h = (refl, refl)
digit-IsDigitOf (suc (suc (suc (suc (suc (suc (suc (suc (suc zero))))))))) h = (refl, refl)
digit-IsDigitOf (suc (suc (suc (suc (suc (suc (suc (suc (suc (suc k)))))))))) h =
    absurd (omega (arith, h))

-- The digits of n, read after those of acc, where the rest follows.
number_from-digit :
    (acc k : ℕ) (cs rest : List Char)
    → IsDigitOf k cs
    → number_from acc (cs ++ rest) ≡ number_from (acc * 10 + k) rest
unfolding number_from
number_from-digit acc k (c ∷ []) [] (h, e) = rw (h, e) refl
number_from-digit acc k (c ∷ []) (d ∷ ds) (h, e) = rw (h, e) refl
number_from-digit acc k [] rest h = elim h [ ]
number_from-digit acc k (c ∷ (d ∷ cs)) rest h = elim h [ ]

abbrev Reads : ℕ → List Char → Type 0
Reads n cs = (rest : List Char) → number_from 0 (cs ++ rest) ≡ number_from n rest

digit-Reads : (k : ℕ) → k < 10 → Reads k (chars (digit k))
digit-Reads k h rest =
    number_from-digit 0 k (chars (digit k)) rest (digit-IsDigitOf k h)
    ∙ ap (λ n. number_from n rest) (omega arith)

show_fuel-Reads : (fuel n : ℕ) → n < fuel → Reads n (chars (show_fuel fuel n))
unfolding show_fuel
show_fuel-Reads zero n h = elim h [ ]
show_fuel-Reads (suc fuel) n h = elim (Bool-cases (ltb n 10)) [
  | inl e ↦ rw e (digit-Reads n (ground arith))
  | inr e ↦ rw e (λ rest.
      let front = chars (show_fuel fuel (n / 10)) in
      let last = chars (digit (n % 10)) in
      ap (λ cs. number_from 0 (cs ++ rest))
        (chars-append (show_fuel fuel (n / 10)) (digit (n % 10)))
      ∙ ap (number_from 0) (append_assoc front last rest)
      ∙ show_fuel-Reads fuel (n / 10) (ground arith) (last ++ rest)
      ∙ number_from-digit (n / 10) (n % 10) last rest (digit-IsDigitOf (n % 10) (omega arith))
      ∙ ap (λ m. number_from m rest) (omega arith))
]

show-number_from : (n : ℕ) → number_from 0 (chars (show n)) ≡ some n
unfolding show number_from
show-number_from n =
    ap (number_from 0) (sym (append-nil (chars (show_fuel (suc n) n))))
    ∙ show_fuel-Reads (suc n) n (omega arith) []

number-number_from :
    (cs : List Char) (n : ℕ) → number_from 0 cs ≡ some n → 0 < n → number cs ≡ some n
unfolding number_from
number-number_from [] n e h = ground arith
number-number_from (c ∷ []) n e h = ground arith
number-number_from (c ∷ d ∷ cs) n e h = ground arith

after_chunk : (s : String) → chunk_number (String.◌++◌ "chunk_" s) ≡ number (chars s)
unfolding chunk_number strip_prefix
after_chunk s = ap (λ cs. number_after (strip_prefix (chars "chunk_") cs)) (chars-append "chunk_" s)

number-zero : (cs : List Char) → number ("0" ∷ cs) ≡ number_from 0 cs
number-zero cs = number_from-digit 0 0 ("0" ∷ []) cs (refl, refl)

padded-number :
    (two one : Bool) (s : String) (n : ℕ)
    → number_from 0 (chars s) ≡ some n
    → (two ≡ false → 0 < n)
    → chunk_number (
        String.◌++◌ "chunk_"
          (if two then String.◌++◌ "00" s else if one then String.◌++◌ "0" s else s))
      ≡ some n
padded-number true one s n e h =
    after_chunk (String.◌++◌ "00" s)
    ∙ ap number (chars-append "00" s)
    ∙ number-zero ("0" ∷ chars s)
    ∙ number_from-digit 0 0 ("0" ∷ []) (chars s) (refl, refl)
    ∙ e
padded-number false true s n e h =
    after_chunk (String.◌++◌ "0" s) ∙ ap number (chars-append "0" s) ∙ number-zero (chars s) ∙ e
padded-number false false s n e h = after_chunk s ∙ number-number_from (chars s) n e (h refl)

-- The id that the ingestion gives to the chunk with an index is read back as that index, for every
-- index: so the neighbours that the expansion asks for are named as the ingestion names them.
chunk_number-chunk_name : (n : ℕ) → chunk_number (chunk_name n) ≡ some n
unfolding chunk_name
chunk_number-chunk_name n =
    padded-number (ltb n 10) (ltb n 100) (show n) n (show-number_from n) λ e. ground arith
