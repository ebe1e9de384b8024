-- ===== src/Kb/Review/Routes.antt =====
-- What a client of the resume route can rely on.
use virtual_helmsman.Prelude.{
  ◌≡◌, ◌∙◌, ap, ◌≢◌, String, Bool, true, Option, none, some, List, arith, ◌⊎◌,
}
use virtual_helmsman.Json.{Json, Fields, get}
use virtual_helmsman.Kb.Store.{IngestionStore}
use virtual_helmsman.Kb.Engine.{Services, Resumed, bad_decisions, resume}
use virtual_helmsman.Kb.Engine.Resume.{resume-resume}
use virtual_helmsman.Kb.Review.{
  Response, summary, refused, response_to, respond, decisions_of, resume_with, resume_route,
}

-- The review has been carried out, or a service failed in it, or it had been before.
abbrev pub IsSettling : Response → Type 0
IsSettling (summary status s) = Unit
IsSettling (refused code) = (code ≡ 404) ⊎ (code ≡ 502)
IsSettling _ = ⊥

IsSettling-resumed : (r : Resumed) → IsSettling (response_to r) → r ≢ bad_decisions
IsSettling-resumed r h = ground arith

module _ (to_str : Json → String) (default_collection_name now batch_id : String) where
  abbrev pub resumed_route : Bool → Services → Fields → IngestionStore → Response × IngestionStore
  resumed_route configured services body s =
      resume_route to_str default_collection_name configured services now batch_id body s

  resume_with_again :
      (services again : Services) (o : Option (List Json)) (more : List Json) (s : IngestionStore)
      → IsSettling (resume_with to_str default_collection_name true services now batch_id o s).0
      → respond (
          resume to_str default_collection_name again now batch_id more
            (resume_with to_str default_collection_name true services now batch_id o s).1)
        ≡ (
          refused 404,
          (resume_with to_str default_collection_name true services now batch_id o s).1,
        )
  resume_with_again services again none more s h = ground arith
  resume_with_again services again (some decisions) more s h = ap respond (
      resume-resume to_str default_collection_name now batch_id services again decisions more s (
        IsSettling-resumed
          (resume to_str default_collection_name services now batch_id decisions s).resumed h))

  -- A batch is reviewed once: after a response with a summary, a 404 or a 502, a further request
  -- with an array of decisions is answered with 404 and changes nothing.
  resume_route-resume_route :
      (services again : Services) (body body' : Fields) (more : List Json) (s : IngestionStore)
      → IsSettling (resumed_route true services body s).0
      → decisions_of (get "decisions" body') ≡ some more
      → resumed_route true again body' (resumed_route true services body s).1
        ≡ (refused 404, (resumed_route true services body s).1)
  unfolding resume_route
  resume_route-resume_route services again body body' more s h e =
      ap
        (λ o.
          resume_with to_str default_collection_name true again now batch_id o
            (resumed_route true services body s).1)
        e
      ∙ resume_with_again services again (decisions_of (get "decisions" body)) more s h
