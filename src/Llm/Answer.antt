-- ===== src/Llm/Answer.antt =====
-- The answer of the question branch: the message for the model, and the parsing of its reply with
-- the citation, from helpers.py.
pub mod Citation
use Prim.Native.String
use virtual_helmsman.Prelude.{
  ℕ, suc, String, Bool, true, false, not, ◌&&◌, Option, none, some, List, [], ◌∷◌, text_eq, truthy,
  strip, if◌then◌else◌, ◌or◌,
}
use virtual_helmsman.Json.{Json, str, obj, Fields, get}
use virtual_helmsman.Kb.Metadata.{show}
use virtual_helmsman.Llm.Fence.{strip_code_fence}
use virtual_helmsman.Llm.Envelopes.{◌&◌, prefix, RuntimeRow, runtime_question}
use virtual_helmsman.Llm.Retrieval.{Payload, Hit, join_by}
use virtual_helmsman.Llm.Neighbours.{shown_or_none, text_or_empty}

-- chunk.get("page") or "?"; page 0 is falsy
abbrev pub page_or : Option ℕ → String
page_or none = "?"
page_or (some ℕ.zero) = "?"
page_or (some (suc n)) = show (suc n)

abbrev pub shown_page : Option ℕ → String
shown_page none = "None"
shown_page (some n) = show n

context_blocks : ℕ → List Hit → List String
unfolding show
context_blocks i [] = []
context_blocks i (h ∷ hs) =
    ("[chunk_id: "
      & (text_or_empty h.payload.chunk_id or ("chunk_" & show i))
      & " | file: "
      & (text_or_empty h.payload.filename or "?")
      & " | page: "
      & page_or h.payload.page
      & "]\n"
      & h.payload.text)
    ∷ context_blocks (suc i) hs

unfoldable pub build_rag_user : String → List Hit → String
unfolding context_blocks
build_rag_user question chunks =
    "Context:\n\n" & join_by "\n\n---\n\n" (context_blocks 0 chunks) & "\n\nQuestion: " & question

pub record RagAnswer : Type 0 where
  pub answer : String
  pub citation : String
  pub source_chunk_id : Option String
  pub source_chunk : Option Hit
  pub citation_reliable : Bool
  pub parse_failure : Bool

-- c.get("chunk_id") == source_chunk_id
abbrev pub has_chunk_id : String → Option String → Bool
has_chunk_id id none = false
has_chunk_id id (some s) = text_eq s id

abbrev pub head_of : List Hit → Option Hit
head_of [] = none
head_of (c ∷ cs) = some c

unfoldable pub find_chunk : String → List Hit → Option Hit
find_chunk id [] = none
find_chunk id (c ∷ cs) =
    let rest = find_chunk id cs in if has_chunk_id id c.payload.chunk_id then some c else rest

abbrev pub or_hit : Option Hit → Option Hit → Option Hit
or_hit none d = d
or_hit (some c) d = some c

-- the cited chunk, or the first one
unfoldable pub source_of : Option String → List Hit → Option Hit
unfolding find_chunk
source_of none chunks = head_of chunks
source_of (some id) chunks =
    if truthy id then or_hit (find_chunk id chunks) (head_of chunks) else head_of chunks

abbrev pub citation_of : Option Hit → String
citation_of none = "Source unknown"
citation_of (some c) =
    shown_or_none c.payload.filename
    & ", page "
    & shown_page c.payload.page
    & " ("
    & shown_or_none c.payload.chunk_id
    & ")"

abbrev pub cites : Option String → Option Hit → Bool
cites (some id) (some c) = truthy id && has_chunk_id id c.payload.chunk_id
cites _ _ = false

-- source_chunk_id or (source_chunk.get("chunk_id") if source_chunk else None)
abbrev pub id_or : Option String → Option Hit → Option String
id_or (some id) none = if truthy id then some id else none
id_or (some id) (some c) = if truthy id then some id else c.payload.chunk_id
id_or none (some c) = c.payload.chunk_id
id_or none none = none

-- what the model gave: the answer, the chunk it names, and whether it was not understood
pub record Reply : Type 0 where
  pub answer : String
  pub named : Option String
  pub parse_failure : Bool

abbrev pub named_of : Option Json → Option String
named_of (some (str s)) = some (strip s)
named_of _ = none

abbrev pub reply_fields : Option Json → Fields → String → Reply
reply_fields (some (str answer)) fs cleaned = record {
  answer = strip answer;
  named = named_of (get "source_chunk_id" fs);
  parse_failure = false;
}
reply_fields _ fs cleaned = record { answer = cleaned; named = none; parse_failure = true }

abbrev pub reply_of : Option Json → String → Reply
reply_of (some (obj fs)) cleaned = reply_fields (get "answer" fs) fs cleaned
reply_of _ cleaned = record { answer = cleaned; named = none; parse_failure = true }

unfoldable pub resolve_citation : Reply → List Hit → RagAnswer
unfolding source_of show
resolve_citation r chunks =
    let source = source_of r.named chunks in
    record {
      answer = r.answer;
      citation = citation_of source;
      source_chunk_id = id_or r.named source;
      source_chunk = source;
      citation_reliable = not r.parse_failure && cites r.named source;
      parse_failure = r.parse_failure;
    }

unfoldable pub parse_rag_answer : (String → Option Json) → String → List Hit → RagAnswer
unfolding strip_code_fence strip get resolve_citation
parse_rag_answer loads raw chunks =
    let cleaned = strip_code_fence raw in resolve_citation (reply_of (loads cleaned) cleaned) chunks

unfoldable pub format_question_output : RagAnswer → String
format_question_output a = a.answer & "\n\nSource: " & (a.citation or "Source unknown")

abbrev pub bool_str : Bool → String
bool_str true = "true"
bool_str false = "false"

abbrev pub filename_of : Option Hit → String
filename_of none = ""
filename_of (some c) = text_or_empty c.payload.filename

unfoldable pub question_audit_row : RagAnswer → String → RuntimeRow
question_audit_row a output = record {
  document_naam = filename_of a.source_chunk or "n.v.t.";
  actie = runtime_question;
  resultaat =
      "chunk="
      & shown_or_none a.source_chunk_id
      & " | citation_reliable="
      & bool_str a.citation_reliable
      & " | parse_failure="
      & bool_str a.parse_failure
      & " | output="
      & prefix 120 output;
}
