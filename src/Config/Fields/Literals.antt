-- ===== src/Config/Fields/Literals.antt =====
-- What is read of a literal is one of its words; what holds of every dictionary that a block reads
-- holds of the block.
use virtual_helmsman.Prelude.{
  String, Option, none, some, List, ◌≡◌, subst, true, Bool-cases, inl, inr,
}
use virtual_helmsman.Json.{Json, null, bool, int, float, str, arr, obj, Fields, end}
use virtual_helmsman.Config.Fields.{one_of, among, literal_or, block_or, required_block}

among-one_of :
    (allowed : List String) (s t : String) → among allowed s ≡ some t → one_of allowed t ≡ true
unfolding among
among-one_of allowed s t h = elim (Bool-cases (one_of allowed s)) [
  | inl known ↦
      let e : some s ≡ some t = rw known at h in subst (λ x. one_of allowed x ≡ true) (cc) known
  | inr unknown ↦ let e : none ≡ some t = rw unknown at h in cc
]

-- A literal is one of its words, and so is its default.
pub literal_or-one_of :
    (allowed : List String) (default : String) (o : Option Json)
    → one_of allowed default ≡ true
    → (t : String) → literal_or allowed default o ≡ some t
    → one_of allowed t ≡ true
literal_or-one_of allowed default none d t h = subst (λ x. one_of allowed x ≡ true) (cc) d
literal_or-one_of allowed default (some (str s)) d t h = among-one_of allowed s t h
literal_or-one_of allowed default (some null) d t h = cc
literal_or-one_of allowed default (some (bool b)) d t h = cc
literal_or-one_of allowed default (some (int n)) d t h = cc
literal_or-one_of allowed default (some (float n)) d t h = cc
literal_or-one_of allowed default (some (arr vs)) d t h = cc
literal_or-one_of allowed default (some (obj fs)) d t h = cc

pub required_block-holds {ℓ} :
    {A : Type 0} (P : A → Type ℓ) (read : Fields → Option A) (o : Option Json) (a : A)
    → ((fs : Fields) → read fs ≡ some a → P a)
    → required_block read o ≡ some a
    → P a
required_block-holds P read none a step h = cc
required_block-holds P read (some (obj fs)) a step h = step fs h
required_block-holds P read (some null) a step h = cc
required_block-holds P read (some (bool b)) a step h = cc
required_block-holds P read (some (int n)) a step h = cc
required_block-holds P read (some (float n)) a step h = cc
required_block-holds P read (some (str s)) a step h = cc
required_block-holds P read (some (arr vs)) a step h = cc

pub block_or-holds {ℓ} :
    {A : Type 0} (P : A → Type ℓ) (read : Fields → Option A) (o : Option Json) (a : A)
    → ((fs : Fields) → read fs ≡ some a → P a)
    → block_or read o ≡ some a
    → P a
block_or-holds P read none a step h = step end h
block_or-holds P read (some (obj fs)) a step h = step fs h
block_or-holds P read (some null) a step h = cc
block_or-holds P read (some (bool b)) a step h = cc
block_or-holds P read (some (int n)) a step h = cc
block_or-holds P read (some (float n)) a step h = cc
block_or-holds P read (some (str s)) a step h = cc
block_or-holds P read (some (arr vs)) a step h = cc
