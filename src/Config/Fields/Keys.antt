-- ===== src/Config/Fields/Keys.antt =====
-- The check for unknown keys, behind a write and behind a removal.
use virtual_helmsman.Prelude.{
  String, ◌≡◌, refl, List, true, false, some, text_eq, eq_iff, arith, Bool-cases, inl, inr, Bool,
  Option,
}
use virtual_helmsman.Prelude.Options.{◌>>◌, guard}
use virtual_helmsman.Json.{Json, Fields, end, field, pop, put}
use virtual_helmsman.Config.Fields.{only, one_of}

guard_twice : (b : Bool) (m : Option (Unit {0})) → (guard b >> m) ≡ (guard b >> (guard b >> m))
guard_twice true m = refl
guard_twice false m = refl

guard_swap :
    (a b : Bool) (m : Option (Unit {0})) → (guard a >> (guard b >> m)) ≡ (guard b >> (guard a >> m))
guard_swap true true m = refl
guard_swap true false m = refl
guard_swap false true m = refl
guard_swap false false m = refl

-- A key that is written has to be known, and so have those that were there.
pub only-put :
    (allowed : List String) (key : String) (v : Json) (fs : Fields)
    → only allowed (put key v fs) ≡ (guard (one_of allowed key) >> only allowed fs)
unfolding only put
only-put allowed key v end = refl
only-put allowed key v (field k w fs) = elim (Bool-cases (text_eq k key)) [
  | inl same ↦
      rw same (rw ((eq_iff k key).0 same) (guard_twice (one_of allowed key) (only allowed fs)))
  | inr other ↦ rw other (
      rw (only-put allowed key v fs)
        (guard_swap (one_of allowed k) (one_of allowed key) (only allowed fs)))
]

pub only-pop :
    (allowed : List String) (key : String) (fs : Fields)
    → only allowed fs ≡ some tt
    → only allowed (pop key fs) ≡ some tt
unfolding only pop
only-pop allowed key end h = refl
only-pop allowed key (field k w fs) h = ground (arith, only-pop allowed key fs)
