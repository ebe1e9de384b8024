-- ===== src/Config/App/Overrides.antt =====
-- What the environment overrides.
use virtual_helmsman.Prelude.{
  ℕ, String, Option, none, some, List, [], ◌∷◌, ◌≡◌, refl, ◌∙◌, true, Bool-cases, inl, inr, truthy,
}
use virtual_helmsman.Prelude.Options.{bind-holds, bind-eq-some, some-holds}
use virtual_helmsman.Json.{
  Json, null, bool, int, float, str, arr, obj, Fields, end, field, get, put,
}
use virtual_helmsman.Json.Dict.{get-put_self, get-put_ne}
use virtual_helmsman.Config.Fields.{Pydantic, only, one_of, among, literal_or, block_or}
use virtual_helmsman.Config.Llm.{Prompts}
use virtual_helmsman.Config.Simulator.{
  SimulatorConfig, simulator_backends, migrate_legacy, migrate_block, has_legacy, is_text,
  read_real, read_mock, read_simulator,
}
use virtual_helmsman.Config.App.{
  Environment, AppConfig, assign_in, override_by, apply_env_overrides, parse_config, accepted,
}
use virtual_helmsman.Config.App.Blocks.{read_app-ReadFrom, parse_config-accepted}

-- The block that an assignment leaves.
Assigned : Fields → (block key value : String) → Type 0
Assigned d block key value =
    (fs : Fields) × (get block d ≡ some (obj fs)) × (get key fs ≡ some (str value))

assign_in-Assigned :
    (o : Option Json) (block key value : String) (d d' : Fields)
    → assign_in o block key value d ≡ some d'
    → Assigned d' block key value
unfolding Assigned put
assign_in-Assigned none block key value d d' h =
    some-holds (λ x. Assigned x block key value) h
      (field key (str value) end, get-put_self block _ d, get-put_self key (str value) end)
assign_in-Assigned (some (obj fs)) block key value d d' h =
    some-holds (λ x. Assigned x block key value) h
      (put key (str value) fs, get-put_self block _ d, get-put_self key (str value) fs)
assign_in-Assigned (some null) block key value d d' h = cc
assign_in-Assigned (some (bool b)) block key value d d' h = cc
assign_in-Assigned (some (int n)) block key value d d' h = cc
assign_in-Assigned (some (float n)) block key value d d' h = cc
assign_in-Assigned (some (str s)) block key value d d' h = cc
assign_in-Assigned (some (arr vs)) block key value d d' h = cc

override_by-Assigned :
    (o : Option String) (block key value : String) (d d' : Fields)
    → o ≡ some value
    → truthy value ≡ true
    → override_by o block key d ≡ some d'
    → Assigned d' block key value
override_by-Assigned o block key value d d' set full h =
    assign_in-Assigned (get block d) block key value d d' (rw (set, full) at h)

among-eq : (allowed : List String) (s t : String) → among allowed s ≡ some t → t ≡ s
unfolding among
among-eq allowed s t h = elim (Bool-cases (one_of allowed s)) [
  | inl known ↦ let e : some s ≡ some t = rw known at h in cc
  | inr unknown ↦ let e : none ≡ some t = rw unknown at h in cc
]

-- The migration leaves the name of the back end.
migrate_legacy-backend :
    (fs gs : Fields) → migrate_legacy fs ≡ some gs → get "backend" gs ≡ get "backend" fs
unfolding migrate_legacy
migrate_legacy-backend fs gs = go (get "real" fs)
  where
    go : (o : Option Json) → migrate_block o fs ≡ some gs → get "backend" gs ≡ get "backend" fs
    go (some (obj real)) h = elim (Bool-cases (has_legacy real)) [
      | inl legacy ↦ elim (Bool-cases (is_text "real" (get "backend" fs))) [
        | inl is_real ↦ let e : none ≡ some gs = rw (legacy, is_real) at h in cc
        | inr other ↦
            some-holds (λ x. get "backend" x ≡ get "backend" fs) (rw (legacy, other) at h)
              (get-put_ne "backend" "real" _ fs refl)
      ]
      | inr none_left ↦
          some-holds (λ x. get "backend" x ≡ get "backend" fs) (rw none_left at h) refl
    ]
    go none h = some-holds (λ x. get "backend" x ≡ get "backend" fs) h refl
    go (some null) h = some-holds (λ x. get "backend" x ≡ get "backend" fs) h refl
    go (some (bool b)) h = some-holds (λ x. get "backend" x ≡ get "backend" fs) h refl
    go (some (int n)) h = some-holds (λ x. get "backend" x ≡ get "backend" fs) h refl
    go (some (float n)) h = some-holds (λ x. get "backend" x ≡ get "backend" fs) h refl
    go (some (str s)) h = some-holds (λ x. get "backend" x ≡ get "backend" fs) h refl
    go (some (arr vs)) h = some-holds (λ x. get "backend" x ≡ get "backend" fs) h refl

module _ (unit : ℕ) (p : Pydantic) (name : String) where
  read_simulator-backend :
      (fs : Fields) (c : SimulatorConfig)
      → get "backend" fs ≡ some (str name)
      → read_simulator unit p fs ≡ some c
      → c.backend ≡ name
  unfolding read_simulator
  read_simulator-backend fs c named =
      bind-holds (λ x. x.backend ≡ name) (migrate_legacy fs) _
        λ gs migrated.
          bind-holds (λ x. x.backend ≡ name) (only ("backend" ∷ "real" ∷ "mock" ∷ []) gs) _
            λ _ _.
              bind-holds (λ x. x.backend ≡ name)
                (literal_or simulator_backends "mock" (get "backend" gs)) _
                λ backend e.
                  bind-holds (λ x. x.backend ≡ name) (block_or (read_real unit p) (get "real" gs)) _
                    λ _ _.
                      bind-holds (λ x. x.backend ≡ name)
                        (block_or (read_mock unit p) (get "mock" gs)) _
                        λ _ _. λ k.
                          some-holds (λ x. x.backend ≡ name) k
                            (among-eq simulator_backends name backend
                              (rw (migrate_legacy-backend fs gs migrated ∙ named) at e))

module _ (unit : ℕ) (p : Pydantic) (prompts : Prompts) (environ : Environment) (body : Fields) where
  -- The environment decides which simulator is driven: where SIMULATOR_BACKEND holds a text that
  -- is not empty, an accepted configuration has that back end, whatever the file says.
  pub simulator_backend_overridden :
      (c : AppConfig) (name : String)
      → environ "SIMULATOR_BACKEND" ≡ some name
      → truthy name ≡ true
      → parse_config unit p prompts environ body ≡ accepted c
      → c.simulator.backend ≡ name
  unfolding apply_env_overrides Assigned
  simulator_backend_overridden c name set full known =
      let (d, over, accepts) = parse_config-accepted unit p prompts environ body c known in
      let r = read_app-ReadFrom unit p prompts d c accepts in
      let (e, _, over') =
        bind-eq-some (override_by (environ "LLM_BASE_URL") "lm_studio" "base_url" body)
          (override_by (environ "SIMULATOR_BACKEND") "simulator" "backend") over in
      let (fs, block, named) =
        override_by-Assigned (environ "SIMULATOR_BACKEND") "simulator" "backend" name e d set full
          over' in
      read_simulator-backend unit p name fs c.simulator named (rw block at r.simulator)
