-- ===== src/Kb/Metadata.antt =====
-- voice_agent/kb/ingestion/metadata.py: the metadata of a chunk.
pub mod Offsets
pub mod Review
pub mod Decisions
pub mod Words
use Prim.Native.String
use virtual_helmsman.Prelude.{
  ℕ, zero, suc, ◌+◌, ◌*◌, ◌/◌, ◌%◌, ◌≡◌, Char, code, chars, String, Bool, true, false, not, ◌&&◌,
  ◌||◌, Option, none, some, List, [], ◌∷◌, ◌++◌, ltb, leb, ◌==◌, length, take, drop, get_or,
  text_eq, truthy, is_space, strip_chars, lower_code, from_chars, if◌then◌else◌, map,
}
use virtual_helmsman.Json.{Json, null, bool, int, float, str, arr, obj, Fields, get, is_truthy}

abbrev pub Text : Type 0
Text = List Char

pub record Chunk : Type 0 where
  pub idx : ℕ
  pub text : Text
  pub filename : String
  pub page : ℕ
  pub chunk_id : String
  pub total_chunks : ℕ
  pub start_char : ℕ
  pub end_char : ℕ
  pub chunk_length : ℕ
  pub words_in_text : ℕ
  pub document_summary : String
  pub section_title : String
  pub document_type : String
  pub upload_timestamp : String
  pub categories : List String
  pub chunking_strategy : String
  pub chunk_overlap : ℕ
  pub collection_name : String
  pub point_id : ℕ

unfoldable pub digit : ℕ → String
digit n = get_or ("0" ∷ "1" ∷ "2" ∷ "3" ∷ "4" ∷ "5" ∷ "6" ∷ "7" ∷ "8" ∷ "9" ∷ []) n ""

unfoldable pub show_fuel : ℕ → ℕ → String
unfolding digit
show_fuel zero n = ""
show_fuel (suc fuel) n =
    let front = show_fuel fuel (n / 10) in
    if ltb n 10 then digit n else String.◌++◌ front (digit (n % 10))

-- str(n); a number has at most as many digits as it counts, and one
unfoldable pub show : ℕ → String
unfolding show_fuel
show n = show_fuel (suc n) n

-- f"chunk_{index:03d}"
unfoldable pub chunk_name : ℕ → String
unfolding show
chunk_name n =
    let padded =
      if ltb n 10
      then String.◌++◌ "00" (show n)
      else if ltb n 100
      then String.◌++◌ "0" (show n)
      else show n in
    String.◌++◌ "chunk_" padded

-- len(text.split()): the words, the flag telling whether one is under way
unfoldable pub count_words_from : Bool → Text → ℕ
count_words_from inside [] = 0
count_words_from inside (c ∷ cs) =
    let rest = count_words_from (not (is_space c)) cs in
    if is_space c then rest else if inside then rest else suc rest

unfoldable pub count_words : Text → ℕ
unfolding count_words_from is_space
count_words text = count_words_from false text

-- the maximal runs of white space, the flag telling whether one is under way
unfoldable pub count_gaps_from : Bool → Text → ℕ
count_gaps_from inside [] = 0
count_gaps_from inside (c ∷ cs) =
    let rest = count_gaps_from (is_space c) cs in
    if is_space c then (if inside then rest else suc rest) else rest

-- len(re.split(r"\s+", text))
unfoldable pub count_split : Text → ℕ
unfolding count_gaps_from is_space
count_split text = suc (count_gaps_from false text)

unfoldable pub starts_with : Text → Text → Bool
starts_with [] text = true
starts_with (k ∷ ks) [] = false
starts_with (k ∷ ks) (c ∷ cs) = code k == code c && starts_with ks cs

find_in : Text → ℕ → Text → Option ℕ
find_in key i [] = if starts_with key [] then some i else none
find_in key i (c ∷ cs) =
    let later = find_in key (suc i) cs in if starts_with key (c ∷ cs) then some i else later

-- text.find(key, start)
unfoldable pub find : Text → Text → ℕ → Option ℕ
unfolding find_in starts_with
find text key start = if ltb (length text) start then none else find_in key start (drop start text)

-- What `complete_metadata` is given for all chunks of a document, with the clock and the parsed
-- categories.
pub record Upload : Type 0 where
  pub clean_text : Text
  pub filename : String
  pub doc_summary : String
  pub document_type : String
  pub collection_name : String
  pub categories : List String
  pub strategy_tag : String
  pub upload_timestamp : String
  pub epoch : ℕ
  pub total : ℕ

-- the offset of a chunk: where its first 80 characters are found, or else where the search began
unfoldable pub locate : Text → Text → ℕ → ℕ
unfolding find
locate clean text search_from = elim (find clean (take 80 text) search_from) [
  | none ↦ search_from
  | some i ↦ i
]

unfoldable pub describe : Upload → ℕ → Text → ℕ → Chunk
unfolding chunk_name count_words strip_chars
describe u index text start = record {
  idx = index;
  text = text;
  filename = u.filename;
  page = index / 2 + 1;
  chunk_id = chunk_name index;
  total_chunks = u.total;
  start_char = start;
  end_char = start + length text;
  chunk_length = length text;
  words_in_text = count_words (strip_chars text);
  document_summary = u.doc_summary;
  section_title = "";
  document_type = u.document_type;
  upload_timestamp = u.upload_timestamp;
  categories = u.categories;
  chunking_strategy = u.strategy_tag;
  chunk_overlap = 75;
  collection_name = u.collection_name;
  point_id = u.epoch * 1000 + index;
}

-- the loop over the chunks
unfoldable pub enrich : Upload → ℕ → ℕ → List Text → List Chunk
unfolding locate describe
enrich u index search_from [] = []
enrich u index search_from (text ∷ texts) =
    let start = locate u.clean_text text search_from in
    describe u index text start ∷ enrich u (suc index) (suc start) texts

-- `complete_metadata`; `none` is the ValueError for no chunks
unfoldable pub complete_metadata : Upload → List Text → Option (List Chunk)
unfolding enrich
complete_metadata u [] = none
complete_metadata u (text ∷ texts) =
    some (enrich (record u { total = length (text ∷ texts) }) 0 0 (text ∷ texts))
