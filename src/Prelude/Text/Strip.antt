-- ===== src/Prelude/Text/Strip.antt =====
-- Laws of `str.strip`.
use Prim.Native.Char.{Char}
use mathlib.Core.Bool.{false}
use Prim.Native.Nat.{suc, ◌≤◌, ◌<◌}
use virtual_helmsman.Prelude.Lists.{length}
use mathlib.Core.Path.{◌≡◌, refl, ap, ◌∙◌}
use mathlib.Core.Logic.{inl, inr}
use mathlib.Core.List.{List, [], ◌∷◌, ◌++◌}
use native.Mathlib.Omega.{arith}
use virtual_helmsman.Prelude.Tests.{Bool-cases}
use virtual_helmsman.Prelude.Text.{is_space, drop_space, drop_last_space, strip_chars, unless_space}

abbrev pub newline : Char
newline = "\n"

unless_space-append :
    (c d : Char) (xs ds : List Char) → unless_space c (xs ++ d ∷ ds) ≡ c ∷ (xs ++ d ∷ ds)
unfolding unless_space
unless_space-append c d [] ds = refl
unless_space-append c d (x ∷ xs) ds = refl

pub drop_last_space-append :
    (xs : List Char) (d : Char) (ds : List Char)
    → drop_last_space (d ∷ ds) ≡ d ∷ ds
    → drop_last_space (xs ++ d ∷ ds) ≡ xs ++ d ∷ ds
unfolding drop_last_space
drop_last_space-append [] d ds h = h
drop_last_space-append (x ∷ xs) d ds h =
    ap (unless_space x) (drop_last_space-append xs d ds h) ∙ unless_space-append x d xs ds

pub drop_last_space-newline :
    (xs : List Char) → drop_last_space (xs ++ newline ∷ []) ≡ drop_last_space xs
unfolding drop_last_space is_space
drop_last_space-newline [] = refl
drop_last_space-newline (x ∷ xs) = ap (unless_space x) (drop_last_space-newline xs)

pub strip_chars-newline : (xs : List Char) → strip_chars (xs ++ newline ∷ []) ≡ strip_chars xs
unfolding strip_chars
strip_chars-newline [] = refl
strip_chars-newline (x ∷ xs) = elim (Bool-cases (is_space x)) [
  | inl s ↦ ground (arith, s, strip_chars-newline xs)
  | inr s ↦ ground (arith, s, drop_last_space-newline (x ∷ xs))
]

-- The last character is no white space.
abbrev pub EndsSolid : List Char → Type 0
EndsSolid [] = Unit
EndsSolid (c ∷ []) = is_space c ≡ false
EndsSolid (c ∷ d ∷ ds) = EndsSolid (d ∷ ds)

-- The first character is no white space.
abbrev pub StartsSolid : List Char → Type 0
StartsSolid [] = Unit
StartsSolid (c ∷ cs) = is_space c ≡ false

unless_space-EndsSolid : (c : Char) (ds : List Char) → EndsSolid ds → EndsSolid (unless_space c ds)
unfolding unless_space
unless_space-EndsSolid c [] h = ground arith
unless_space-EndsSolid c (d ∷ ds) h = h

drop_last_space-EndsSolid : (cs : List Char) → EndsSolid (drop_last_space cs)
unfolding drop_last_space
drop_last_space-EndsSolid [] = tt
drop_last_space-EndsSolid (c ∷ cs) =
    unless_space-EndsSolid c (drop_last_space cs) (drop_last_space-EndsSolid cs)

drop_space-StartsSolid : (cs : List Char) → StartsSolid (drop_space cs)
unfolding drop_space
drop_space-StartsSolid [] = tt
drop_space-StartsSolid (c ∷ cs) = ground (arith, drop_space-StartsSolid cs)

unless_space-StartsSolid :
    (c : Char) (ds : List Char) → is_space c ≡ false → StartsSolid (unless_space c ds)
unfolding unless_space
unless_space-StartsSolid c [] h = ground arith
unless_space-StartsSolid c (d ∷ ds) h = h

drop_last_space-StartsSolid : (cs : List Char) → StartsSolid cs → StartsSolid (drop_last_space cs)
unfolding drop_last_space
drop_last_space-StartsSolid [] h = tt
drop_last_space-StartsSolid (c ∷ cs) h = unless_space-StartsSolid c (drop_last_space cs) h

-- A stripped text begins and ends with no white space.
pub strip_chars_solid : (cs : List Char) → StartsSolid (strip_chars cs) × EndsSolid (strip_chars cs)
unfolding strip_chars
strip_chars_solid cs = (
  drop_last_space-StartsSolid (drop_space cs) (drop_space-StartsSolid cs),
  drop_last_space-EndsSolid (drop_space cs),
)

length-drop_space : (cs : List Char) → length (drop_space cs) ≤ length cs
unfolding drop_space
length-drop_space [] = omega arith
length-drop_space (c ∷ cs) = ground (arith, length-drop_space cs)

length-unless_space : (c : Char) (ds : List Char) → length (unless_space c ds) ≤ suc (length ds)
unfolding unless_space
length-unless_space c [] = ground arith
length-unless_space c (d ∷ ds) = omega arith

length-drop_last_space : (cs : List Char) → length (drop_last_space cs) ≤ length cs
unfolding drop_last_space
length-drop_last_space [] = omega arith
length-drop_last_space (c ∷ cs) =
    omega (arith, length-unless_space c (drop_last_space cs), length-drop_last_space cs)

-- Stripping makes no text longer.
pub length-strip_chars : (cs : List Char) → length (strip_chars cs) ≤ length cs
unfolding strip_chars
length-strip_chars cs = omega (arith, length-drop_last_space (drop_space cs), length-drop_space cs)

length-unless_space_solid :
    (c : Char) (ds : List Char) → is_space c ≡ false → 0 < length (unless_space c ds)
unfolding unless_space
length-unless_space_solid c [] e = rw e (omega arith)
length-unless_space_solid c (d ∷ ds) e = omega arith

-- A text whose first character is no white space is not stripped away.
pub length-strip_chars_solid :
    (c : Char) (cs : List Char) → is_space c ≡ false → 0 < length (strip_chars (c ∷ cs))
unfolding strip_chars
length-strip_chars_solid c cs e = rw e (length-unless_space_solid c (drop_last_space cs) e)
