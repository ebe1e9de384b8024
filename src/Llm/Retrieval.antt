-- ===== src/Llm/Retrieval.antt =====
-- The hits of the hybrid query, from Qdrant's points to the three best: helpers.py. A payload holds
-- texts and a page number, as the ingestion writes it.
pub mod Indices
use Prim.Native.String
use virtual_helmsman.Prelude.{
  ℕ, zero, suc, ◌+◌, ◌-◌, String, Bool, true, false, ◌&&◌, Option, none, some, List, [], ◌∷◌, ◌++◌,
  length, get_elem?, take, ltb, if◌then◌else◌,
}
use virtual_helmsman.Prelude.Int.{ℤ, pos, negsuc}
use virtual_helmsman.Json.{Json, bool, int, arr, obj, items, Fields, get}
use virtual_helmsman.Kb.Metadata.{show}
use virtual_helmsman.Llm.Fence.{strip_code_fence}
use virtual_helmsman.Llm.Envelopes.{prefix, ◌&◌}

-- The payload of a point; a missing payload has none of its keys.
pub record Payload : Type 0 where
  pub text : String
  pub filename : Option String
  pub page : Option ℕ
  pub chunk_id : Option String
  pub document_type : String
  pub document_summary : String

pub record QueryPoint : Type 0 where
  pub score : Option ℤ
  pub payload : Payload

-- A chunk dictionary.
pub record Hit : Type 0 where
  pub rank : Option ℕ
  pub score : Option ℤ
  pub payload : Payload
  pub original_rank : Option ℕ
  pub rerank_rank : Option ℕ
  pub rerank_bypassed : Bool
  pub is_neighbour : Bool

abbrev pub hit_of : Option ℕ → QueryPoint → Hit
hit_of rank p = record {
  rank = rank;
  score = p.score;
  payload = p.payload;
  original_rank = none;
  rerank_rank = none;
  rerank_bypassed = false;
  is_neighbour = false;
}

unfoldable pub hits_from : ℕ → List QueryPoint → List Hit
hits_from rank [] = []
hits_from rank (p ∷ ps) = hit_of (some rank) p ∷ hits_from (suc rank) ps

unfoldable pub map_qdrant_points : List QueryPoint → List Hit
unfolding hits_from
map_qdrant_points points = hits_from 1 points

abbrev pub bypass : Hit → Hit
bypass h = record h { original_rank = h.rank; rerank_rank = none; rerank_bypassed = true }

abbrev pub bypass_all : List Hit → List Hit
bypass_all [] = []
bypass_all (h ∷ hs) = bypass h ∷ bypass_all hs

unfoldable pub rrf_top3 : List Hit → List Hit
rrf_top3 chunks = bypass_all (take 3 chunks)

-- the integers among the values; a bool is an int
abbrev pub int_of : Json → List ℤ
int_of (int n) = n ∷ []
int_of (bool true) = pos 1 ∷ []
int_of (bool false) = pos 0 ∷ []
int_of _ = []

unfoldable pub ints : List Json → List ℤ
ints [] = []
ints (v ∷ vs) = int_of v ++ ints vs

-- n - 1 where that is an index of the chunks
abbrev pub index_of : ℕ → ℤ → List ℕ
index_of num (pos (suc i)) = if ltb i num then i ∷ [] else []
index_of num _ = []

unfoldable pub indices_in : ℕ → List ℤ → List ℕ
indices_in num [] = []
indices_in num (n ∷ ns) = index_of num n ++ indices_in num ns

-- [i for i in (0, 1, 2) if i < num_chunks]
abbrev pub first_indices : ℕ → List ℕ
first_indices zero = []
first_indices (suc zero) = 0 ∷ []
first_indices (suc (suc zero)) = 0 ∷ 1 ∷ []
first_indices (suc (suc (suc n))) = 0 ∷ 1 ∷ 2 ∷ []

abbrev pub or_first : ℕ → List ℕ → List ℕ
or_first num [] = first_indices num
or_first num (i ∷ is') = i ∷ is'

abbrev pub labels_of : Option Json → List ℤ
labels_of (some (arr vs)) = ints (items vs)
labels_of _ = []

abbrev pub top_3_of : Option Json → List ℤ
top_3_of (some (obj fs)) = labels_of (get "top_3" fs)
top_3_of _ = []

unfoldable pub parse_rerank_indices : (String → Option Json) → String → ℕ → List ℕ
unfolding strip_code_fence ints indices_in get
parse_rerank_indices loads raw num_chunks =
    take 3 (or_first num_chunks (indices_in num_chunks (top_3_of (loads (strip_code_fence raw)))))

abbrev pub ranked : ℕ → Option Hit → List Hit
ranked place none = []
ranked place (some h) = record h { original_rank = h.rank; rerank_rank = some place } ∷ []

unfoldable pub rerank_from : ℕ → List Hit → List ℕ → List Hit
rerank_from place chunks [] = []
rerank_from place chunks (i ∷ is') =
    ranked place (get_elem? chunks i) ++ rerank_from (suc place) chunks is'

unfoldable pub apply_rerank : List Hit → List ℕ → List Hit
unfolding rerank_from
apply_rerank chunks indices = rerank_from 1 chunks indices

-- "\n\n".join(parts)
abbrev pub join_by : String → List String → String
join_by sep [] = ""
join_by sep (s ∷ []) = s
join_by sep (s ∷ t ∷ ts) = s & sep & join_by sep (t ∷ ts)

passages : ℕ → List Hit → List String
unfolding show
passages label [] = []
passages label (h ∷ hs) =
    ("[" & show label & "] " & prefix 800 h.payload.text) ∷ passages (suc label) hs

unfoldable pub build_rerank_user : String → List Hit → String
unfolding passages
build_rerank_user question chunks =
    "Question: "
    & question
    & "\n\nPassages:\n"
    & join_by "\n\n" (passages 1 chunks)
    & "\n\nReturn JSON: {\"top_3\": [i, j, k]}"
