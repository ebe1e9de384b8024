-- ===== src/Json.antt =====
-- The values that `json.loads` returns, and the reads that the program makes of them. A dictionary
-- lists its keys once each. The floats nan and inf are left out; a float is a multiple of 1 / unit.
pub mod Dict
use virtual_helmsman.Prelude.{
  String, Bool, true, false, Option, none, some, List, [], ◌∷◌, ◌==◌, if◌then◌else◌, text_eq, ◌||◌,
}
use virtual_helmsman.Prelude.Int.{ℤ, pos}

mutual
  pub data Json : Type 0 where
    null : Json
    bool : Bool → Json
    int : ℤ → Json
    float : ℤ → Json
    str : String → Json
    arr : Items → Json
    obj : Fields → Json

  pub data Items : Type 0 where
    nil : Items
    cons : Json → Items → Items

  pub data Fields : Type 0 where
    end : Fields
    field : String → Json → Fields → Fields

-- d.get(key) on a dictionary
unfoldable pub get : String → Fields → Option Json
get key end = none
get key (field k v fs) = if text_eq k key then some v else get key fs

abbrev pub items : Items → List Json
items nil = []
items (cons v vs) = v ∷ items vs

-- bool(v)
abbrev pub is_truthy : Json → Bool
is_truthy null = false
is_truthy (bool b) = b
is_truthy (int (pos n)) = if n == 0 then false else true
is_truthy (float (pos n)) = if n == 0 then false else true
is_truthy (str String.[]) = false
is_truthy (arr nil) = false
is_truthy (obj end) = false
is_truthy _ = true

-- key in d
unfoldable pub has_key : String → Fields → Bool
has_key key end = false
has_key key (field k v fs) = text_eq k key || has_key key fs

-- d.pop(key)
unfoldable pub pop : String → Fields → Fields
pop key end = end
pop key (field k v fs) = let rest = pop key fs in if text_eq k key then rest else field k v rest

-- d[key] = value, which keeps the place of a key that is there
unfoldable pub put : String → Json → Fields → Fields
put key value end = field key value end
put key value (field k v fs) =
    let rest = put key value fs in if text_eq k key then field k value fs else field k v rest
