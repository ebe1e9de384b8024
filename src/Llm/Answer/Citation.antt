-- ===== src/Llm/Answer/Citation.antt =====
-- A citation that helpers.py marks as reliable.
use virtual_helmsman.Prelude.{
  ℕ, zero, suc, ◌≡◌, refl, true, false, Option, none, some, List, [], ◌∷◌, String, get_elem?,
  truthy, eq_iff, arith, Bool-cases, inl, inr,
}
use mathlib.Core.Path.{subst}
use mathlib.Core.Option.{some-injective}
use virtual_helmsman.Json.{Json}
use virtual_helmsman.Llm.Fence.{strip_code_fence}
use virtual_helmsman.Llm.Retrieval.{Hit}
use virtual_helmsman.Llm.Answer.{
  has_chunk_id, head_of, find_chunk, or_hit, source_of, cites, id_or, reply_of, resolve_citation,
  parse_rag_answer,
}

-- The chunk stands in the list, and has the id.
abbrev pub Stands : List Hit → String → Hit → Type 0
Stands chunks id c = ((i : ℕ) × (get_elem? chunks i ≡ some c)) × (c.payload.chunk_id ≡ some id)

abbrev pub StandsSome : List Hit → String → Option Hit → Type 0
StandsSome chunks id none = Unit
StandsSome chunks id (some c) = Stands chunks id c

has_chunk_id-eq : (id : String) (o : Option String) → has_chunk_id id o ≡ true → o ≡ some id
has_chunk_id-eq id none e = ground arith
has_chunk_id-eq id (some s) e = rw ((eq_iff s id).0 e) refl

later :
    (id : String) (c : Hit) (cs : List Hit) (o : Option Hit)
    → StandsSome cs id o
    → StandsSome (c ∷ cs) id o
later id c cs none h = tt
later id c cs (some d) ((i, e), g) = ((suc i, e), g)

find_chunk-StandsSome : (id : String) (cs : List Hit) → StandsSome cs id (find_chunk id cs)
unfolding find_chunk
find_chunk-StandsSome id [] = tt
find_chunk-StandsSome id (c ∷ cs) = elim (Bool-cases (has_chunk_id id c.payload.chunk_id)) [
  | inl e ↦ rw e ((zero, refl), has_chunk_id-eq id c.payload.chunk_id e)
  | inr e ↦ rw e (later id c cs (find_chunk id cs) (find_chunk-StandsSome id cs))
]

head_of-cites :
    (id : String) (cs : List Hit) (c : Hit)
    → head_of cs ≡ some c
    → cites (some id) (some c) ≡ true
    → Stands cs id c
head_of-cites id [] c h e = ground arith
head_of-cites id (d ∷ cs) c h e = ((zero, h), has_chunk_id-eq id c.payload.chunk_id (ground arith))

or_hit-cites :
    (id : String) (cs : List Hit) (found : Option Hit) (c : Hit)
    → StandsSome cs id found
    → or_hit found (head_of cs) ≡ some c
    → cites (some id) (some c) ≡ true
    → Stands cs id c
or_hit-cites id cs none c h e g = head_of-cites id cs c e g
or_hit-cites id cs (some d) c h e g = subst (Stands cs id) (some-injective _ _ e) h

source_of-cites :
    (named : Option String) (cs : List Hit) (source : Option Hit)
    → source_of named cs ≡ source
    → cites named source ≡ true
    → (id : String) × (c : Hit) × (id_or named source ≡ some id)
      × (source ≡ some c)
      × Stands cs id c
unfolding source_of
source_of-cites none cs none e g = ground arith
source_of-cites none cs (some c) e g = ground arith
source_of-cites (some id) cs none e g = ground arith
source_of-cites (some id) cs (some c) e g = elim (Bool-cases (truthy id)) [
  | inl t ↦ (
    id,
    c,
    rw t refl,
    refl,
    or_hit-cites id cs (find_chunk id cs) c (find_chunk-StandsSome id cs) (ground arith) g,
  )
  | inr t ↦ ground arith
]

-- An answer that is marked as reliably cited was understood, and the chunk it names is one of the
-- chunks that the model was shown: the source of the citation is that chunk.
pub citation_reliable_lem :
    (loads : String → Option Json) (raw : String) (chunks : List Hit)
    → (parse_rag_answer loads raw chunks).citation_reliable ≡ true
    → (id : String) × (c : Hit) × ((parse_rag_answer loads raw chunks).source_chunk_id ≡ some id)
      × ((parse_rag_answer loads raw chunks).source_chunk ≡ some c)
      × Stands chunks id c
      × ((parse_rag_answer loads raw chunks).parse_failure ≡ false)
unfolding parse_rag_answer resolve_citation
citation_reliable_lem loads raw chunks e =
    let r = reply_of (loads (strip_code_fence raw)) (strip_code_fence raw) in
    let (id, c, a, b, s) =
      source_of-cites r.named chunks (source_of r.named chunks) refl (ground arith) in
    (id, c, a, b, s, ground arith)
