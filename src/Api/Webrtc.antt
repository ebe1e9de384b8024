-- ===== src/Api/Webrtc.antt =====
-- voice_agent/api/webrtc.py: the browser connections, each with the task of its pipeline. A peer
-- connection is named by its pc_id, and a task by the number of its creation; `running` are the
-- tasks that run: those that are neither cancelled nor over. What the WebRTC library and the assembly
-- of a pipeline do at an offer, and whether the cancellation of a pipeline raises, are parameters.
mod Tasks
pub mod Owned
mod Tests
use virtual_helmsman.Prelude.{
  ℕ, suc, String, Bool, true, false, Option, none, some, List, [], ◌∷◌, ◌++◌, truthy, text_eq, ◌==◌,
  ◌&&◌, if◌then◌else◌,
}

-- `_Connection`, with its key; `task` is none while the pipeline is not wired.
pub record Connection : Type 0 where
  pub pc_id : String
  pub task : Option ℕ

pub record WebRtcManager : Type 0 where
  pub connections : List Connection
  pub running : List ℕ
  pub next_task : ℕ

abbrev pub new_manager : WebRtcManager
new_manager = record { connections = []; running = []; next_task = 0 }

unfoldable pub is_connected : String → List Connection → Bool
is_connected pc_id [] = false
is_connected pc_id (c ∷ cs) =
    let rest = is_connected pc_id cs in if text_eq c.pc_id pc_id then true else rest

-- How the new connection of an offer ends: `initialize` raises, the assembly of the pipeline
-- raises, or both succeed.
pub data Start : Type 0 where
  not_initialized not_assembled started : Start

pub data Answer : Type 0 where
  answered : Answer
  raised : Answer
  refused : (status_code : ℕ) → Answer

-- self._connections[conn.pc_id] = record, which keeps the place of a record under the same name
unfoldable pub put_connection : Connection → List Connection → List Connection
put_connection c [] = c ∷ []
put_connection c (d ∷ ds) =
    let rest = put_connection c ds in if text_eq d.pc_id c.pc_id then c ∷ ds else d ∷ rest

-- What a new connection comes to.
abbrev pub start_pipeline : Start → (pc_id : String) → WebRtcManager → Answer × WebRtcManager
start_pipeline not_initialized pc_id m = (raised, m)
start_pipeline not_assembled pc_id m = (
  raised,
  record m { connections = put_connection (record { pc_id = pc_id; task = none }) m.connections },
)
start_pipeline started pc_id m = (
  answered,
  record m {
    connections = put_connection (record { pc_id = pc_id; task = some m.next_task }) m.connections;
    running = m.running ++ m.next_task ∷ [];
    next_task = suc m.next_task;
  },
)

abbrev pub names_connection : Option String → List Connection → Bool
names_connection none cs = false
names_connection (some pc_id) cs = truthy pc_id && is_connected pc_id cs

-- POST /api/webrtc/offer: `available`, `renegotiated` and `start` are what the library does, and
-- `fresh` is the pc_id that it gives to a new connection.
unfoldable pub handle_offer :
    (available renegotiated : Bool)
    → Start
    → (fresh : String) (offered : Option String) → WebRtcManager
    → Answer × WebRtcManager
unfolding is_connected put_connection
handle_offer available renegotiated start fresh offered m =
    if available
    then if names_connection offered m.connections
      then (if renegotiated then answered else raised, m)
      else start_pipeline start fresh m
    else (refused 503, m)

-- self._connections.pop(pc_id, None), the record that is found
unfoldable pub find_connection : String → List Connection → Option Connection
find_connection pc_id [] = none
find_connection pc_id (c ∷ cs) =
    let rest = find_connection pc_id cs in if text_eq c.pc_id pc_id then some c else rest

-- and what is left
unfoldable pub without_connection : String → List Connection → List Connection
without_connection pc_id [] = []
without_connection pc_id (c ∷ cs) =
    let rest = without_connection pc_id cs in if text_eq c.pc_id pc_id then rest else c ∷ rest

unfoldable pub cancel : ℕ → List ℕ → List ℕ
cancel t [] = []
cancel t (u ∷ us) = let rest = cancel t us in if u == t then rest else u ∷ rest

-- the end of `_run`: a pipeline ends by itself or raises, and its record stays
abbrev pub pipeline_over : ℕ → WebRtcManager → WebRtcManager
pipeline_over task m = record m { running = cancel task m.running }

-- The end of a clean-up: false where `pipeline_task.cancel` raises, and then the task of the runner
-- is not cancelled.
abbrev pub cancel_task : (cancels : Bool) → Option ℕ → List ℕ → Bool × List ℕ
cancel_task cancels none ts = (true, ts)
cancel_task cancels (some t) ts = (cancels, if cancels then cancel t ts else ts)

abbrev pub drop_record :
    (cancels : Bool) → Option Connection → String → WebRtcManager → Bool × WebRtcManager
drop_record cancels none pc_id m = (true, m)
drop_record cancels (some c) pc_id m =
    let (ended, running) = cancel_task cancels c.task m.running in
    (ended, record m { connections = without_connection pc_id m.connections; running = running })

-- `_cleanup`
unfoldable pub cleanup : (cancels : Bool) → String → WebRtcManager → Bool × WebRtcManager
unfolding find_connection without_connection cancel
cleanup cancels pc_id m = drop_record cancels (find_connection pc_id m.connections) pc_id m

-- the loop of `close`, which an exception of `_cleanup` leaves
unfoldable pub cleanup_all :
    (cancels : String → Bool) → List Connection → WebRtcManager → Bool × WebRtcManager
unfolding cleanup
cleanup_all cancels [] m = (true, m)
cleanup_all cancels (c ∷ cs) m =
    let (ended, m') = cleanup (cancels c.pc_id) c.pc_id m in
    let rest = cleanup_all cancels cs m' in if ended then rest else (false, m')

-- `close`; what `disconnect` raises is swallowed
unfoldable pub close : (cancels : String → Bool) → WebRtcManager → Bool × WebRtcManager
unfolding cleanup_all
close cancels m = cleanup_all cancels m.connections m
