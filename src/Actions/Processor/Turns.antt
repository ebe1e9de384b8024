-- ===== src/Actions/Processor/Turns.antt =====
-- Every turn ends in a spoken line, and the model's raw text goes no further.
use virtual_helmsman.Prelude.{
  ℕ, String, ◌≡◌, refl, ◌∙◌, ap, sym, true, false, Option, none, some, List, [], ◌∷◌, ◌++◌, map,
  strip, truthy, ◌or◌, ◌≢◌, ◌⊎◌, inl, inr,
}
use mathlib.Core.List.{append_assoc, append-nil}
use virtual_helmsman.Simulator.{SimulatorClient}
use virtual_helmsman.Actions.Fence.{strip_code_fence}
use virtual_helmsman.Actions.Schema.{
  HelmsmanResponse, Parsed, parsed, rejected, uncaught, parse_response, other_error, Decoder,
}
use virtual_helmsman.Actions.Schema.Laws.{
  WithinLimits, parse_response-WithinLimits, parse_response-cases,
}
use virtual_helmsman.Actions.Dispatch.{Outcome, done, raised, Printer, dispatch_action}
use virtual_helmsman.Actions.Dispatch.Orders.{dispatch_action_total}
use virtual_helmsman.Actions.Processor.{
  Frame, response_start, response_end, llm_text, Processor, unparseable, finish, resolve_parsed,
  resolve, joined, end_of_response, process_frame, process_frames, more_frames, spoken_frames,
}

or-truthy : (s : String) → truthy (s or unparseable) ≡ true
or-truthy String.[] = refl
or-truthy (String.◌∷◌ c s) = refl

module _ (unit : ℕ) (d : Decoder) (p : Printer) (c : SimulatorClient) where
  -- What a step produced, with a line that is not empty.
  abbrev Speaks : Option (String × Processor c) → Type 0
  Speaks r =
      (spoken : String) × (s' : Processor c) × (r ≡ some (spoken, s')) × (truthy spoken ≡ true)

  finish-Speaks :
      (reply : HelmsmanResponse) (o : Outcome × c.State) (s : Processor c)
      → (res : _) × (o.0 ≡ done res)
      → Speaks (finish unit d p c reply o s)
  unfolding finish
  finish-Speaks reply (raised, ship) s (res, e) = cc
  finish-Speaks reply (done result, ship) s h = (_, _, refl, or-truthy (strip result.spoken))

  resolve_parsed-Speaks :
      (r : Parsed) (s : Processor c)
      → ((reply : HelmsmanResponse) → r ≡ parsed reply → WithinLimits unit reply.action)
      → r ≢ uncaught
      → Speaks (resolve_parsed unit d p c r s)
  unfolding resolve_parsed
  resolve_parsed-Speaks uncaught s h n = absurd (n refl)
  resolve_parsed-Speaks (rejected e) s h n = (_, _, refl, refl)
  resolve_parsed-Speaks (parsed reply) s h n =
      finish-Speaks reply (dispatch_action unit p c reply s.ship) s
        (dispatch_action_total unit p c reply s.ship (h reply refl))

  -- Whatever text the model returns and whatever the simulator answers, the turn is resolved to a
  -- line that is not empty, unless `json.loads` raises an exception other than a JSONDecodeError of
  -- the text behind its fence: then this exception is not caught.
  pub resolve_speaks :
      (raw : String) (s : Processor c)
      → ((d.loads (strip_code_fence raw) ≡ other_error) × (resolve unit d p c raw s ≡ none))
        ⊎ ((spoken : String) × (s' : Processor c) × (resolve unit d p c raw s ≡ some (spoken, s'))
            × (truthy spoken ≡ true))
  unfolding resolve resolve_parsed
  resolve_speaks raw s = elim (parse_response-cases unit d raw) [
    | inl (e, u) ↦ inl (e, ap (λ r. resolve_parsed unit d p c r s) u)
    | inr n ↦ inr (
        resolve_parsed-Speaks (parse_response unit d raw) s (parse_response-WithinLimits unit d raw)
          n)
  ]

  more_frames-nil : (r : Option (List Frame × Processor c)) → more_frames unit d p c [] r ≡ r
  more_frames-nil none = refl
  more_frames-nil (some (more, s)) = refl

  abbrev capture : List String → Processor c → Processor c
  capture ps s = record s { parts = ps; capturing = true }

  process_frames-texts :
      (texts ps : List String) (rest : List Frame) (s : Processor c)
      → process_frames unit d p c (map llm_text texts ++ rest) (capture ps s)
        ≡ process_frames unit d p c rest (capture (ps ++ texts) s)
  unfolding process_frames process_frame
  process_frames-texts [] ps rest s =
      ap (λ qs. process_frames unit d p c rest (capture qs s)) (sym (append-nil ps))
  process_frames-texts (t ∷ ts) ps rest s =
      more_frames-nil
        (process_frames unit d p c (map llm_text ts ++ rest) (capture (ps ++ t ∷ []) s))
      ∙ process_frames-texts ts (ps ++ t ∷ []) rest s
      ∙ ap (λ qs. process_frames unit d p c rest (capture qs s)) (append_assoc ps (t ∷ []) ts)

  -- What is pushed of a response that is resolved, or is not.
  abbrev pushed : Option (String × Processor c) → Option (List Frame × Processor c)
  pushed none = none
  pushed (some (spoken, s)) = some (response_start ∷ llm_text spoken ∷ response_end ∷ [], s)

  end_of_response-pushed :
      (texts : List String) (s : Processor c) (r : Option (String × Processor c))
      → resolve unit d p c (strip (joined texts)) (record s { parts = []; capturing = false }) ≡ r
      → process_frames unit d p c (response_end ∷ []) (capture texts s) ≡ pushed r
  unfolding process_frames process_frame end_of_response
  end_of_response-pushed texts s none e =
      ap
        (λ r. elim (spoken_frames unit d p c r) [
          | none ↦ none
          | some (out, t) ↦ more_frames unit d p c out (some ([], t))
        ])
        e
  end_of_response-pushed texts s (some (spoken, s')) e =
      ap
        (λ r. elim (spoken_frames unit d p c r) [
          | none ↦ none
          | some (out, t) ↦ more_frames unit d p c out (some ([], t))
        ])
        e

  process_frames-pushed :
      (texts : List String) (s : Processor c) (r : Option (String × Processor c))
      → resolve unit d p c (strip (joined texts)) (record s { parts = []; capturing = false }) ≡ r
      → process_frames unit d p c (response_start ∷ map llm_text texts ++ response_end ∷ []) s
        ≡ pushed r
  unfolding process_frames process_frame
  process_frames-pushed texts s r resolved =
      more_frames-nil
        (process_frames unit d p c (map llm_text texts ++ response_end ∷ []) (capture [] s))
      ∙ process_frames-texts texts [] (response_end ∷ []) s
      ∙ end_of_response-pushed texts s r resolved

  pub process_frames-resolved :
      (texts : List String) (s s' : Processor c) (spoken : String)
      → resolve unit d p c (strip (joined texts)) (record s { parts = []; capturing = false })
        ≡ some (spoken, s')
      → process_frames unit d p c (response_start ∷ map llm_text texts ++ response_end ∷ []) s
        ≡ some (response_start ∷ llm_text spoken ∷ response_end ∷ [], s')
  process_frames-resolved texts s s' spoken = process_frames-pushed texts s (some (spoken, s'))

  -- A whole response, in any number of pieces, leaves as one fresh response that carries the
  -- spoken line alone, unless `json.loads` raises an exception other than a JSONDecodeError of its
  -- text: then nothing leaves.
  pub process_frames-response :
      (texts : List String) (s : Processor c)
      → ((d.loads (strip_code_fence (strip (joined texts))) ≡ other_error)
          × (process_frames unit d p c (response_start ∷ map llm_text texts ++ response_end ∷ []) s
              ≡ none))
        ⊎ ((spoken : String) × (s' : Processor c) × (resolve unit d p c
                (strip (joined texts))
                (record s { parts = []; capturing = false })
              ≡ some (spoken, s'))
            × (process_frames unit d p c
                  (response_start ∷ map llm_text texts ++ response_end ∷ [])
                  s
                ≡ some (response_start ∷ llm_text spoken ∷ response_end ∷ [], s')))
  process_frames-response texts s =
      elim (resolve_speaks (strip (joined texts)) (record s { parts = []; capturing = false })) [
        | inl (e, escapes) ↦ inl (e, process_frames-pushed texts s none escapes)
        | inr (spoken, s', resolved, _) ↦
            inr (spoken, s', resolved, process_frames-resolved texts s s' spoken resolved)
      ]
