-- ===== src/Api/Webrtc/Owned.antt =====
-- No pipeline runs without its connection, and none is left behind a shutdown.
use virtual_helmsman.Prelude.{
  ◌<◌, ℕ, suc, ◌≡◌, refl, ◌∙◌, ap, sym, subst, String, Bool, true, false, Option, none, some, List,
  [], ◌∷◌, ◌++◌, eq_refl, Option-cases, inl, inr, arith, Bool-cases,
}
use mathlib.Core.List.{append-nil}
use virtual_helmsman.Api.Webrtc.{
  Connection, WebRtcManager, new_manager, is_connected, Start, not_initialized, not_assembled,
  started, names_connection, start_pipeline, handle_offer, find_connection, without_connection,
  cancel, pipeline_over, cleanup, cleanup_all, close,
}
use virtual_helmsman.Api.Webrtc.Tasks.{
  cancel_task-true, without_task, unended, unended-nil, unended-cancel, AllBelow, AllBelow-suc,
  unended-append, tasks_of, Within, Distinct, Within-append, Within-cancel, Distinct-put_connection,
  Distinct-without_connection, tasks_of-put_connection, tasks_of-without_connection,
  without_connection-absent,
}

-- The running tasks are those of the registered connections, less those that are over; the
-- connections have names of their own.
pub record IsOwned (over : List ℕ) (m : WebRtcManager) : Type 0 where
  pub owned : m.running ≡ unended over (tasks_of m.connections)
  pub created : AllBelow m.next_task over
  pub ordered : Within 0 m.next_task (tasks_of m.connections)
  pub distinct : Distinct m.connections

start_pipeline-IsOwned :
    (over : List ℕ) (start : Start) (fresh : String) (m : WebRtcManager)
    → is_connected fresh m.connections ≡ false
    → IsOwned over m
    → IsOwned over (start_pipeline start fresh m).1
start_pipeline-IsOwned over not_initialized fresh m new o = o
start_pipeline-IsOwned over not_assembled fresh m new o =
    let same =
      tasks_of-put_connection (record { pc_id = fresh; task = none }) m.connections new
      ∙ append-nil (tasks_of m.connections) in
    record {
      owned = o.owned ∙ ap (unended over) (sym same);
      created = o.created;
      ordered = subst (Within 0 m.next_task) (sym same) o.ordered;
      distinct = Distinct-put_connection _ m.connections o.distinct new;
    }
start_pipeline-IsOwned over started fresh m new o =
    let same =
      tasks_of-put_connection (record { pc_id = fresh; task = some m.next_task }) m.connections
        new in
    record {
      owned =
          ap (λ ts. ts ++ m.next_task ∷ []) o.owned
          ∙ sym (
              ap (unended over) same
              ∙ unended-append over m.next_task (tasks_of m.connections) o.created);
      created = AllBelow-suc m.next_task over o.created;
      ordered =
          subst (Within 0 (suc m.next_task)) (sym same)
            (Within-append 0 m.next_task (tasks_of m.connections) (omega arith) o.ordered);
      distinct = Distinct-put_connection _ m.connections o.distinct new;
    }

handle_offer-IsOwned :
    (over : List ℕ) (available renegotiated : Bool) (start : Start) (fresh : String)
    (offered : Option String) (m : WebRtcManager)
    → is_connected fresh m.connections ≡ false
    → IsOwned over m
    → IsOwned over (handle_offer available renegotiated start fresh offered m).1
unfolding handle_offer
handle_offer-IsOwned over false renegotiated start fresh offered m new o = o
handle_offer-IsOwned over true renegotiated start fresh offered m new o =
    elim (Bool-cases (names_connection offered m.connections)) [
      | inl known ↦ rw known o
      | inr unknown ↦ rw unknown (start_pipeline-IsOwned over start fresh m new o)
    ]

pipeline_over-IsOwned :
    (over : List ℕ) (task : ℕ) (m : WebRtcManager)
    → task < m.next_task
    → IsOwned over m
    → IsOwned (task ∷ over) (pipeline_over task m)
pipeline_over-IsOwned over task m lt o = record {
  owned = unfold unended in ap (cancel task) o.owned;
  created = (lt, o.created);
  ordered = o.ordered;
  distinct = o.distinct;
}

without_task-Within :
    (o : Option ℕ) (hi : ℕ) (ts : List ℕ) → Within 0 hi ts → Within 0 hi (without_task o ts)
without_task-Within none hi ts w = w
without_task-Within (some t) hi ts w = Within-cancel 0 hi t ts w

cleanup-IsOwned :
    (over : List ℕ) (pc_id : String) (m : WebRtcManager)
    → IsOwned over m
    → IsOwned over (cleanup true pc_id m).1
unfolding cleanup
cleanup-IsOwned over pc_id m o = elim (Option-cases (find_connection pc_id m.connections)) [
  | inl absent ↦ rw absent o
  | inr (c, found) ↦
      let same =
        tasks_of-without_connection pc_id m.connections 0 m.next_task c o.ordered o.distinct
          found in
      rw (found, cancel_task-true c.task m.running)
        (record {
          owned =
              ap (without_task c.task) o.owned
              ∙ sym (ap (unended over) same ∙ unended-cancel over c.task (tasks_of m.connections));
          created = o.created;
          ordered =
              subst (Within 0 m.next_task) (sym same)
                (without_task-Within c.task m.next_task (tasks_of m.connections) o.ordered);
          distinct = Distinct-without_connection pc_id m.connections o.distinct;
        })
]

-- What happens to a manager: an offer, with what the library makes of it; a disconnection, with
-- whether the cancellation raises; or the end of a pipeline, of its own or by an exception.
pub data ManagerStep : Type 0 where
  offers :
      (available renegotiated : Bool)
      → Start
      → (fresh : String) → (offered : Option String) → ManagerStep
  disconnects : (cancels : Bool) (pc_id : String) → ManagerStep
  ends : (task : ℕ) → ManagerStep

abbrev pub step : ManagerStep → WebRtcManager → WebRtcManager
step (offers available renegotiated start fresh offered) m =
    (handle_offer available renegotiated start fresh offered m).1
step (disconnects cancels pc_id) m = (cleanup cancels pc_id m).1
step (ends task) m = pipeline_over task m

unfoldable pub run : List ManagerStep → WebRtcManager → WebRtcManager
run [] m = m
run (s ∷ ss) m = run ss (step s m)

-- The tasks that ended by themselves.
abbrev pub ended : List ManagerStep → List ℕ → List ℕ
ended [] over = over
ended (ends task ∷ ss) over = ended ss (task ∷ over)
ended (s ∷ ss) over = ended ss over

-- The library never gives a connection the name of one that is registered, a cancellation does not
-- raise, and a task that ends was created.
abbrev pub RegularStep : ManagerStep → WebRtcManager → Type 0
RegularStep (offers available renegotiated start fresh offered) m =
    is_connected fresh m.connections ≡ false
RegularStep (disconnects cancels pc_id) m = cancels ≡ true
RegularStep (ends task) m = task < m.next_task

abbrev pub AllRegular : List ManagerStep → WebRtcManager → Type 0
AllRegular [] m = Unit
AllRegular (s ∷ ss) m = RegularStep s m × AllRegular ss (step s m)

run-IsOwned :
    (ss : List ManagerStep) (over : List ℕ) (m : WebRtcManager)
    → AllRegular ss m
    → IsOwned over m
    → IsOwned (ended ss over) (run ss m)
unfolding run
run-IsOwned [] over m f o = o
run-IsOwned (offers a r start fresh offered ∷ ss) over m (new, f) o =
    run-IsOwned ss over _ f (handle_offer-IsOwned over a r start fresh offered m new o)
run-IsOwned (disconnects true pc_id ∷ ss) over m (_, f) o =
    run-IsOwned ss over _ f (cleanup-IsOwned over pc_id m o)
run-IsOwned (disconnects false pc_id ∷ ss) over m (e, f) o = cc
run-IsOwned (ends task ∷ ss) over m (lt, f) o =
    run-IsOwned ss (task ∷ over) _ f (pipeline_over-IsOwned over task m lt o)

cleanup_head :
    (c : Connection) (cs : List Connection) (m : WebRtcManager)
    → m.connections ≡ c ∷ cs
    → Distinct (c ∷ cs)
    → ((cleanup true c.pc_id m).0 ≡ true) × ((cleanup true c.pc_id m).1.connections ≡ cs)
unfolding cleanup
cleanup_head c cs m e (absent, d) = rw e (
    unfold find_connection in
    rw (eq_refl c.pc_id) (
      rw (cancel_task-true c.task m.running) (
        refl,
        unfold without_connection in
            rw (eq_refl c.pc_id) (without_connection-absent c.pc_id cs absent),
      )))

cleanup_all-IsOwned :
    (over : List ℕ) (cs : List Connection) (m : WebRtcManager)
    → m.connections ≡ cs
    → IsOwned over m
    → IsOwned over (cleanup_all (λ _. true) cs m).1
      × ((cleanup_all (λ _. true) cs m).1.connections ≡ [])
unfolding cleanup_all
cleanup_all-IsOwned over [] m e o = (o, e)
cleanup_all-IsOwned over (c ∷ cs) m e o =
    let (ok, rest) = cleanup_head c cs m e (subst Distinct e o.distinct) in
    rw ok (
      cleanup_all-IsOwned over cs (cleanup true c.pc_id m).1 rest
        (cleanup-IsOwned over c.pc_id m o))

-- After any offers, disconnections and ends of pipelines, provided that no new connection is given
-- the name of a registered one and that no cancellation raises, the running pipelines are those of
-- the registered connections, less those that ended by themselves or raised; and behind a shutdown
-- in which no cancellation raises no connection is registered and no pipeline runs.
pub run-new_manager-owned :
    (ss : List ManagerStep)
    → AllRegular ss new_manager
    → ((run ss new_manager).running
        ≡ unended (ended ss []) (tasks_of (run ss new_manager).connections))
      × ((close (λ _. true) (run ss new_manager)).1.connections ≡ [])
      × ((close (λ _. true) (run ss new_manager)).1.running ≡ [])
unfolding close
run-new_manager-owned ss f =
    let o =
      run-IsOwned ss [] new_manager f
        (record { owned = unfold unended in refl; created = tt; ordered = tt; distinct = tt }) in
    let (closed, gone) =
      cleanup_all-IsOwned (ended ss []) (run ss new_manager).connections (run ss new_manager) refl
        o in
    (
      o.owned,
      gone,
      closed.owned
          ∙ ap (λ cs. unended (ended ss []) (tasks_of cs)) gone
          ∙ unended-nil (ended ss []),
    )
