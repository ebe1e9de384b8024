-- ===== src/Json/Dict.antt =====
-- The laws of the dictionary operations: what a read finds behind a write and behind a removal.
use virtual_helmsman.Prelude.{
  String, ◌≡◌, refl, false, none, some, text_eq, eq_iff, eq_refl, arith, Bool-cases, inl, inr,
}
use virtual_helmsman.Json.{Json, Fields, end, field, get, pop, put, has_key}

pub get-put_self : (key : String) (v : Json) (fs : Fields) → get key (put key v fs) ≡ some v
unfolding get put
get-put_self key v end = rw (eq_refl key)
get-put_self key v (field k w fs) = elim (Bool-cases (text_eq k key)) [
  | inl same ↦ rw same (rw same)
  | inr other ↦ rw other (rw other (get-put_self key v fs))
]

-- The hypothesis holds by evaluation where both keys are literals.
pub get-put_ne :
    (key j : String) (v : Json) (fs : Fields)
    → text_eq j key ≡ false
    → get key (put j v fs) ≡ get key fs
unfolding get put
get-put_ne key j v end ne = rw ne
get-put_ne key j v (field k w fs) ne =
    ground (arith, eq_iff k j, eq_iff k key, eq_iff j key, get-put_ne key j v fs)

pub get-pop_self : (key : String) (fs : Fields) → get key (pop key fs) ≡ none
unfolding get pop
get-pop_self key end = refl
get-pop_self key (field k v fs) = elim (Bool-cases (text_eq k key)) [
  | inl same ↦ rw same (get-pop_self key fs)
  | inr other ↦ rw other (rw other (get-pop_self key fs))
]

pub get-pop_ne :
    (key j : String) (fs : Fields) → text_eq j key ≡ false → get key (pop j fs) ≡ get key fs
unfolding get pop
get-pop_ne key j end ne = refl
get-pop_ne key j (field k v fs) ne =
    ground (arith, eq_iff k j, eq_iff k key, eq_iff j key, get-pop_ne key j fs)

pub has_key-pop_self : (key : String) (fs : Fields) → has_key key (pop key fs) ≡ false
unfolding has_key pop
has_key-pop_self key end = refl
has_key-pop_self key (field k v fs) = elim (Bool-cases (text_eq k key)) [
  | inl same ↦ rw same (has_key-pop_self key fs)
  | inr other ↦ rw other (rw other (has_key-pop_self key fs))
]

-- A removal brings no key.
pub has_key-pop :
    (key j : String) (fs : Fields) → has_key key fs ≡ false → has_key key (pop j fs) ≡ false
unfolding has_key pop
has_key-pop key j end h = refl
has_key-pop key j (field k v fs) h = ground (arith, has_key-pop key j fs)
