-- ===== src/Actions/Processor/Helm.antt =====
-- The rudder orders that the processor sends, on a simulator that records them.
use virtual_helmsman.Prelude.{
  ℕ, ◌*◌, ◌≤◌, ◌≡◌, String, Bool, true, false, Option, none, some, List, [], ◌∷◌, ◌++◌, strip,
  arith, subst, refl, if◌then◌else◌,
}
use virtual_helmsman.Prelude.Int.{ℤ, abs}
use virtual_helmsman.Simulator.{EngineOrder, SimulatorClient}
use virtual_helmsman.Actions.Schema.{
  HelmsmanAction, HelmsmanResponse, Decoder, port, starboard, Parsed, parsed, rejected, uncaught,
  parse_response, rudder, throttle, navigation, autopilot, anchor, status_query, error, answer,
}
use virtual_helmsman.Actions.Schema.Laws.{WithinLimits, parse_response-WithinLimits}
use virtual_helmsman.Actions.Dispatch.{
  Outcome, done, raised, Printer, telegraph, throttle_order, dispatch_on, dispatch_action,
}
use virtual_helmsman.Actions.Processor.{
  Frame, response_start, response_end, llm_text, other_frame, downstream, Processor, finish,
  resolve_parsed, resolve, joined, spoken_frames, end_of_response, downstream_frame, process_frame,
  more_frames, process_frames,
}

-- A simulator that keeps, beside its state, the angles of the rudder orders that it was sent.
abbrev pub recorded : SimulatorClient → SimulatorClient
recorded c = record {
  State = c.State × List ℤ;
  get_state = λ s. ((c.get_state s.0).0, ((c.get_state s.0).1, s.1));
  set_rudder =
      λ angle s. ((c.set_rudder angle s.0).0, ((c.set_rudder angle s.0).1, s.1 ++ angle ∷ []));
  set_engine_telegraph = λ order s.
      ((c.set_engine_telegraph order s.0).0, ((c.set_engine_telegraph order s.0).1, s.1));
}

abbrev pub AllWithin : ℕ → List ℤ → Type 0
AllWithin bound [] = Unit
AllWithin bound (angle ∷ angles) = (abs angle ≤ bound) × AllWithin bound angles

AllWithin-append :
    (bound : ℕ) (angles : List ℤ) (angle : ℤ)
    → AllWithin bound angles
    → abs angle ≤ bound
    → AllWithin bound (angles ++ angle ∷ [])
AllWithin-append bound [] angle h le = (le, tt)
AllWithin-append bound (a ∷ rest) angle (h, hs) le = (h, AllWithin-append bound rest angle hs le)

module _ (unit : ℕ) (d : Decoder) (p : Printer) (c : SimulatorClient) where
  telegraph-AllWithin :
      (o : Option EngineOrder) (text : String) (s : c.State × List ℤ)
      → AllWithin (45 * unit) s.1
      → AllWithin (45 * unit) (telegraph unit p (recorded c) o text s).1.1
  telegraph-AllWithin none text s h = h
  telegraph-AllWithin (some order) text s h = h

  dispatch_on-AllWithin :
      (a : HelmsmanAction) (text : String) (s : c.State × List ℤ)
      → WithinLimits unit a
      → AllWithin (45 * unit) s.1
      → AllWithin (45 * unit) (dispatch_on unit p (recorded c) a text s).1.1
  unfolding dispatch_on
  dispatch_on-AllWithin (rudder port degrees) text s w h =
      AllWithin-append (45 * unit) s.1 _ h (ground arith)
  dispatch_on-AllWithin (rudder starboard degrees) text s w h =
      AllWithin-append (45 * unit) s.1 _ h (ground arith)
  dispatch_on-AllWithin (throttle order knots) text s w h =
      telegraph-AllWithin (throttle_order unit p (recorded c) order knots) text s h
  dispatch_on-AllWithin (status_query query) text s w h = h
  dispatch_on-AllWithin (navigation course) text s w h = h
  dispatch_on-AllWithin (autopilot state) text s w h = h
  dispatch_on-AllWithin (anchor operation chain) text s w h = h
  dispatch_on-AllWithin (error error_type reason suggestion) text s w h = h
  dispatch_on-AllWithin answer text s w h = h

  -- The rudder orders of a processor, and of the processor behind a step.
  abbrev Bounded : Processor (recorded c) → Type 0
  Bounded s = AllWithin (45 * unit) s.ship.1

  abbrev StepBounded {ℓ} : {A : Type ℓ} → Option (A × Processor (recorded c)) → Type 0
  StepBounded none = Unit
  StepBounded (some (a, s)) = Bounded s

  finish-Bounded :
      (reply : HelmsmanResponse) (o : Outcome × (c.State × List ℤ)) (s : Processor (recorded c))
      → AllWithin (45 * unit) o.1.1
      → StepBounded (finish unit d p (recorded c) reply o s)
  unfolding finish
  finish-Bounded reply (raised, ship) s h = tt
  finish-Bounded reply (done result, ship) s h = h

  resolve_parsed-Bounded :
      (r : Parsed) (s : Processor (recorded c))
      → ((reply : HelmsmanResponse) → r ≡ parsed reply → WithinLimits unit reply.action)
      → Bounded s
      → StepBounded (resolve_parsed unit d p (recorded c) r s)
  unfolding resolve_parsed dispatch_action
  resolve_parsed-Bounded uncaught s w h = tt
  resolve_parsed-Bounded (rejected e) s w h = h
  resolve_parsed-Bounded (parsed reply) s w h =
      finish-Bounded reply (dispatch_action unit p (recorded c) reply s.ship) s
        (dispatch_on-AllWithin reply.action reply.response s.ship (w reply refl) h)

  spoken_frames-Bounded :
      (r : Option (String × Processor (recorded c)))
      → StepBounded r
      → StepBounded (spoken_frames unit d p (recorded c) r)
  spoken_frames-Bounded none h = tt
  spoken_frames-Bounded (some (spoken, s)) h = h

  end_of_response-Bounded :
      (s : Processor (recorded c))
      → Bounded s
      → StepBounded (end_of_response unit d p (recorded c) s)
  unfolding end_of_response resolve
  end_of_response-Bounded s h = spoken_frames-Bounded _ (
      resolve_parsed-Bounded (parse_response unit d (strip (joined s.parts))) _
        (parse_response-WithinLimits unit d (strip (joined s.parts))) h)

  process_frame-Bounded :
      (f : Frame) (s : Processor (recorded c))
      → Bounded s
      → StepBounded (process_frame unit d p (recorded c) f downstream s)
  unfolding process_frame downstream_frame
  process_frame-Bounded response_start s h = h
  process_frame-Bounded (llm_text text) s h = go s.capturing
    where
      go :
          (capturing : Bool)
          → StepBounded (
              if capturing
              then some ([], record s { parts = s.parts ++ text ∷ [] })
              else some (llm_text text ∷ [], s))
      go true = h
      go false = h
  process_frame-Bounded response_end s h = go s.capturing
    where
      go :
          (capturing : Bool)
          → StepBounded (
              if capturing
              then end_of_response unit d p (recorded c) s
              else some (response_end ∷ [], s))
      go true = end_of_response-Bounded s h
      go false = h
  process_frame-Bounded (other_frame n) s h = h

  more_frames-Bounded :
      (out : List Frame) (r : Option (List Frame × Processor (recorded c)))
      → StepBounded r
      → StepBounded (more_frames unit d p (recorded c) out r)
  more_frames-Bounded out none h = tt
  more_frames-Bounded out (some (more, s)) h = h

  process_frames-Bounded :
      (fs : List Frame) (s : Processor (recorded c))
      → Bounded s
      → StepBounded (process_frames unit d p (recorded c) fs s)
  unfolding process_frames
  process_frames-Bounded [] s h = h
  process_frames-Bounded (f ∷ fs) s h =
      go (process_frame unit d p (recorded c) f downstream s) (process_frames-Bounded fs)
        (process_frame-Bounded f s h)
    where
      go :
          (r : Option (List Frame × Processor (recorded c)))
          → ((s' : Processor (recorded c))
              → Bounded s'
              → StepBounded (process_frames unit d p (recorded c) fs s'))
          → StepBounded r
          → StepBounded (elim r [
            | none ↦ none
            | some (out, s') ↦
                more_frames unit d p (recorded c) out (process_frames unit d p (recorded c) fs s')
          ])
      go none again k = tt
      go (some (out, s')) again k =
          more_frames-Bounded out (process_frames unit d p (recorded c) fs s') (again s' k)

  -- Whatever frames come down to the processor, whatever texts of the model they carry and whatever
  -- the simulator answers, the rudder orders that the simulator was sent are at most 45 degrees to
  -- either side, if those before were.
  pub helm_bounded :
      (fs out : List Frame) (s s' : Processor (recorded c))
      → process_frames unit d p (recorded c) fs s ≡ some (out, s')
      → AllWithin (45 * unit) s.ship.1
      → AllWithin (45 * unit) s'.ship.1
  helm_bounded fs out s s' e h = subst (λ r. StepBounded r) e (process_frames-Bounded fs s h)
