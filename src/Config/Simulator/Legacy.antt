-- ===== src/Config/Simulator/Legacy.antt =====
-- What becomes of the obsolete keys of `simulator.real`.
use virtual_helmsman.Prelude.{
  ℕ, none, some, ◌≡◌, refl, true, false, Bool-cases, inl, inr, if◌then◌else◌,
}
use virtual_helmsman.Json.{obj, Fields, get, put, pop}
use virtual_helmsman.Json.Dict.{get-put_self, has_key-pop_self, has_key-pop}
use virtual_helmsman.Config.Fields.{Pydantic}
use virtual_helmsman.Config.Simulator.{
  is_text, has_legacy, without_legacy, migrate_legacy, read_simulator,
}

has_legacy-without_legacy : (real : Fields) → has_legacy (without_legacy real) ≡ false
has_legacy-without_legacy real =
    rw (has_key-pop "host" "port" (pop "host" real) (has_key-pop_self "host" real))
      (has_key-pop_self "port" (pop "host" real))

module _ (fs real : Fields) (block : get "real" fs ≡ some (obj real)) where
  -- Without an obsolete key nothing is migrated.
  migrate_legacy-none : has_legacy real ≡ false → migrate_legacy fs ≡ some fs
  unfolding migrate_legacy
  migrate_legacy-none h = rw block (rw h refl)

  migrate_legacy-some :
      has_legacy real ≡ true
      → migrate_legacy fs ≡ (
          if is_text "real" (get "backend" fs)
          then none
          else some (put "real" (obj (without_legacy real)) fs))
  unfolding migrate_legacy
  migrate_legacy-some h = rw block (rw h refl)

module _ (unit : ℕ) (p : Pydantic) (fs real : Fields) where
  -- Where the block of the real simulator holds an obsolete key, a configuration of the real back
  -- end is refused, and any other is read as if the obsolete keys were not there.
  read_simulator-legacy :
      get "real" fs ≡ some (obj real)
      → has_legacy real ≡ true
      → read_simulator unit p fs ≡ (
          if is_text "real" (get "backend" fs)
          then none
          else read_simulator unit p (put "real" (obj (without_legacy real)) fs))
  unfolding read_simulator
  read_simulator-legacy block h = elim (Bool-cases (is_text "real" (get "backend" fs))) [
    | inl is_real ↦ rw (migrate_legacy-some fs real block h) (rw is_real refl)
    | inr other ↦ rw (migrate_legacy-some fs real block h) (
        rw other (
          rw
            (migrate_legacy-none (put "real" (obj (without_legacy real)) fs) (without_legacy real)
              (get-put_self "real" _ fs) (has_legacy-without_legacy real))
            refl))
  ]
