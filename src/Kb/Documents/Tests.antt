-- ===== src/Kb/Documents/Tests.antt =====
-- The theorems on the documents of a collection at two points of one document.
use virtual_helmsman.Prelude.{ℕ, ◌≡◌, refl, true, none, List, [], ◌∷◌, String}
use virtual_helmsman.Json.{Json, str, Fields, field, end}
use virtual_helmsman.Kb.Documents.{DocumentRow, DocumentsRuntime, group_documents}
use virtual_helmsman.Kb.Documents.Groups.{total_chunks, carrying, total_chunks-group_documents}

abbrev runtime : DocumentsRuntime
runtime = record {
  has_qdrant_url = true;
  has_qdrant_collection = true;
  document_id_field = "filename";
  title_field = "title";
  source_field = "source";
  uploaded_at_field = "upload_timestamp";
  scroll_limit = 3;
}

abbrev to_str : Json → String
to_str v = "?"

abbrev lower : String → String
lower s = s

abbrev of_file : String → Fields
of_file name = field "filename" (str name) end

abbrev points : List Fields
points = of_file "vts.pdf" ∷ end ∷ of_file "colregs.pdf" ∷ of_file "vts.pdf" ∷ []

abbrev row_of : String → ℕ → DocumentRow
row_of name count = record {
  document_id = name;
  title = none;
  source = none;
  uploaded_at = none;
  chunk_count = count;
}

abbrev rows : List DocumentRow
rows = row_of "colregs.pdf" 1 ∷ row_of "vts.pdf" 2 ∷ []

total_chunks-group_documents_example : total_chunks rows ≡ carrying runtime to_str points
unfolding group_documents
total_chunks-group_documents_example =
    total_chunks-group_documents runtime to_str lower points rows refl
