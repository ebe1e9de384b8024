-- ===== src/Kb/Documents/Pages.antt =====
-- The scroll of a collection ends, whatever Qdrant answers.
use virtual_helmsman.Prelude.{
  ℕ, zero, suc, ◌+◌, ◌<◌, ◌≢◌, ◌&&◌, Option, none, some, List, [], ◌∷◌, ◌++◌, length, length-append,
  ltb, ltb→lt, Bool-cases, inl, inr, arith, String,
}
use virtual_helmsman.Json.{Json, Fields}
use virtual_helmsman.Kb.Documents.{
  DocumentRow, listing_of, DocumentsRuntime, ScrollReply, page, unreachable, upstream_error,
  Scrolled, scrolled, bad_gateway, out_of_rounds, out_of_fuel, after_page, scroll_pages, listed,
  group_documents, list_documents,
}

-- The loop has ended.
abbrev HasEnded : Scrolled → Type 0
HasEnded (scrolled points) = Unit
HasEnded bad_gateway = Unit
HasEnded out_of_rounds = ⊥

module _ (cfg : DocumentsRuntime) (to_str : Json → String)
    (reply : (limit : ℕ) → (offset : Option ℕ) → ScrollReply) where
  after_page-HasEnded :
      (go : List Fields → Option ℕ → Scrolled) (found : List Fields) (r : ScrollReply)
      → ((more : List Fields) (next : Option ℕ)
          → length found < length more
          → HasEnded (go more next))
      → HasEnded (after_page cfg to_str reply go found r)
  after_page-HasEnded go found (page points none) h = tt
  after_page-HasEnded go found (page points (some zero)) h = tt
  after_page-HasEnded go found (page [] (some (suc n))) h = tt
  after_page-HasEnded go found (page (p ∷ ps) (some (suc n))) h =
      h (found ++ p ∷ ps) (some (suc n)) (omega (arith, length-append found (p ∷ ps)))
  after_page-HasEnded go found unreachable h = tt
  after_page-HasEnded go found (upstream_error status) h = tt

  scroll_pages-HasEnded :
      (fuel : ℕ) (found : List Fields) (offset : Option ℕ)
      → cfg.scroll_limit < fuel + length found
      → 0 < fuel
      → HasEnded (scroll_pages cfg to_str reply fuel found offset)
  unfolding scroll_pages
  scroll_pages-HasEnded zero found offset h p = elim p [ ]
  scroll_pages-HasEnded (suc fuel) found offset h p =
      elim (Bool-cases (ltb (length found) cfg.scroll_limit)) [
        | inl e ↦ simp e (
            after_page-HasEnded (scroll_pages cfg to_str reply fuel) found _ λ more next l.
              scroll_pages-HasEnded fuel more next (omega arith)
                (omega (arith, ltb→lt (length found) cfg.scroll_limit e)))
        | inr e ↦ simp e tt
      ]

  listing_of-ended : (o : Option (List DocumentRow)) → listing_of o ≢ out_of_fuel
  listing_of-ended none e = cc
  listing_of-ended (some rows) e = cc

  listed-ended :
      (lower : String → String) (s : Scrolled)
      → HasEnded s
      → listed cfg to_str reply lower s ≢ out_of_fuel
  listed-ended lower (scrolled points) h =
      listing_of-ended (group_documents cfg to_str lower points)
  listed-ended lower bad_gateway h = λ e. cc
  listed-ended lower out_of_rounds h = λ e. h

  -- The listing ends whatever pages and offsets Qdrant answers: a page that is not the last one
  -- holds a point or more, and the scroll stops at its limit, so one round more than the limit is
  -- enough.
  list_documents_ends :
      (lower : String → String) → list_documents cfg to_str reply lower ≢ out_of_fuel
  unfolding list_documents
  list_documents_ends lower = elim (Bool-cases (cfg.has_qdrant_url && cfg.has_qdrant_collection)) [
    | inl e ↦ rw e (
        listed-ended lower (scroll_pages cfg to_str reply (suc cfg.scroll_limit) [] none)
          (scroll_pages-HasEnded (suc cfg.scroll_limit) [] none (omega arith) (omega arith)))
    | inr e ↦ rw e (λ h. cc)
  ]
