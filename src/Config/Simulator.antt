-- ===== src/Config/Simulator.antt =====
-- config.py: the block of the simulator, with the migration of its obsolete keys.
pub mod Legacy
use virtual_helmsman.Prelude.{
  ℕ, ◌*◌, String, Bool, true, false, Option, none, some, List, [], ◌∷◌, text_eq, ◌||◌,
  if◌then◌else◌,
}
use virtual_helmsman.Prelude.Int.{ℤ, pos}
use virtual_helmsman.Prelude.Options.{◌>>=◌, ◌>>◌}
use virtual_helmsman.Json.{Json, str, obj, Fields, get, has_key, pop, put}
use virtual_helmsman.Simulator.{EngineOrder, stop, order_of_value}
use virtual_helmsman.Config.Fields.{
  Pydantic, only, as_text, text_or, literal_or, converted_or, block_or, among,
}

pub record SimulatorRealConfig : Type 0 where
  pub remote_host : String
  pub remote_port : ℤ
  pub local_host : String
  pub local_port : ℤ
  pub connect_timeout_seconds : ℤ
  pub expected_fps : ℤ
  pub stale_after_missed_frames : ℤ
  pub reconnect_initial_seconds : ℤ
  pub reconnect_max_seconds : ℤ

pub record SimulatorMockConfig : Type 0 where
  pub initial_heading : ℤ
  pub initial_engine_order : EngineOrder
  pub log_commands : Bool

pub record SimulatorConfig : Type 0 where
  pub backend : String
  pub real : SimulatorRealConfig
  pub mock : SimulatorMockConfig

abbrev pub simulator_backends : List String
simulator_backends = "real" ∷ "mock" ∷ []

abbrev pub order_or : EngineOrder → Option Json → Option EngineOrder
order_or default none = some default
order_or default (some v) = as_text v >>= order_of_value

abbrev pub is_text : String → Option Json → Bool
is_text w (some (str s)) = text_eq s w
is_text w _ = false

-- `legacy` is not empty
abbrev pub has_legacy : Fields → Bool
has_legacy fs = has_key "host" fs || has_key "port" fs

abbrev pub without_legacy : Fields → Fields
without_legacy fs = pop "port" (pop "host" fs)

abbrev pub migrate_block : Option Json → Fields → Option Fields
migrate_block (some (obj real)) fs =
    if has_legacy real
    then if is_text "real" (get "backend" fs)
      then none
      else some (put "real" (obj (without_legacy real)) fs)
    else some fs
migrate_block _ fs = some fs

-- `_migrate_legacy_real_keys`; `none` where it raises the ValueError
unfoldable pub migrate_legacy : Fields → Option Fields
unfolding get has_key pop put
migrate_legacy fs = migrate_block (get "real" fs) fs

abbrev pub real_keys : List String
real_keys =
    "remote_host" ∷ "remote_port" ∷ "local_host" ∷ "local_port" ∷ "connect_timeout_seconds"
    ∷ "expected_fps" ∷ "stale_after_missed_frames" ∷ "reconnect_initial_seconds"
    ∷ "reconnect_max_seconds" ∷ []

module _ (unit : ℕ) (p : Pydantic) where
  unfoldable pub read_real : Fields → Option SimulatorRealConfig
  unfolding only get
  read_real fs = do
    only real_keys fs
    remote_host ← text_or "127.0.0.1" (get "remote_host" fs)
    remote_port ← converted_or p.to_int (pos 0) (get "remote_port" fs)
    local_host ← text_or "127.0.0.1" (get "local_host" fs)
    local_port ← converted_or p.to_int (pos 0) (get "local_port" fs)
    connect_timeout ← converted_or p.to_float (pos (50 * unit)) (get "connect_timeout_seconds" fs)
    expected_fps ← converted_or p.to_float (pos 0) (get "expected_fps" fs)
    stale_after ← converted_or p.to_float (pos (200 * unit)) (get "stale_after_missed_frames" fs)
    initial ← converted_or p.to_float (pos (10 * unit)) (get "reconnect_initial_seconds" fs)
    most ← converted_or p.to_float (pos (150 * unit)) (get "reconnect_max_seconds" fs)
    some record {
      remote_host = remote_host;
      remote_port = remote_port;
      local_host = local_host;
      local_port = local_port;
      connect_timeout_seconds = connect_timeout;
      expected_fps = expected_fps;
      stale_after_missed_frames = stale_after;
      reconnect_initial_seconds = initial;
      reconnect_max_seconds = most;
    }

  unfoldable pub read_mock : Fields → Option SimulatorMockConfig
  unfolding only get order_of_value
  read_mock fs = do
    only ("initial_heading" ∷ "initial_engine_order" ∷ "log_commands" ∷ []) fs
    initial_heading ← converted_or p.to_float (pos 0) (get "initial_heading" fs)
    initial_engine_order ← order_or stop (get "initial_engine_order" fs)
    log_commands ← converted_or p.to_bool true (get "log_commands" fs)
    some record {
      initial_heading = initial_heading;
      initial_engine_order = initial_engine_order;
      log_commands = log_commands;
    }

  abbrev pub read_migrated : Fields → Option SimulatorConfig
  read_migrated fs = do
    only ("backend" ∷ "real" ∷ "mock" ∷ []) fs
    backend ← literal_or simulator_backends "mock" (get "backend" fs)
    real ← block_or read_real (get "real" fs)
    mock ← block_or read_mock (get "mock" fs)
    some record { backend = backend; real = real; mock = mock }

  unfoldable pub read_simulator : Fields → Option SimulatorConfig
  unfolding only get among read_real read_mock
  read_simulator fs = migrate_legacy fs >>= read_migrated
