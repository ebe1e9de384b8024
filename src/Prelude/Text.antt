-- ===== src/Prelude/Text.antt =====
-- Python's `str` methods that the program uses, on native texts by their code points.
pub mod Strip
use Prim.Native.Nat.{ℕ, zero, suc, ◌+◌, ◌-◌}
use Prim.Native.Char.{Char, code}
use Prim.Native.String.{String}
use mathlib.Core.Path.{◌≡◌, refl}
use mathlib.Core.Bool.{Bool, true, false, ◌&&◌, ◌||◌}
use mathlib.Core.Option.{Option, none, some}
use mathlib.Core.List.{List, [], ◌∷◌}
use text.Mathlib.Text.{◌==◌ as text_eq}
use text.Mathlib.TextEquality.{eq_iff}
use native.Mathlib.Omega.{arith}
use mathlib.Core.Logic.{◌↔◌}
use virtual_helmsman.Prelude.Tests.{leb, ◌==◌, if◌then◌else◌, Bool-cases}

abbrev pub chars : String → List Char
chars String.[] = []
chars (String.◌∷◌ c s) = c ∷ chars s

abbrev pub from_chars : List Char → String
from_chars [] = String.[]
from_chars (c ∷ cs) = String.◌∷◌ c (from_chars cs)

pub chars-from_chars : (cs : List Char) → chars (from_chars cs) ≡ cs
chars-from_chars [] = refl
chars-from_chars (c ∷ cs) = λ i. c ∷ chars-from_chars cs i

pub from_chars-chars : (s : String) → from_chars (chars s) ≡ s
from_chars-chars String.[] = refl
from_chars-chars (String.◌∷◌ c s) = λ i. String.◌∷◌ c (from_chars-chars s i)

-- The characters of which `str.isspace` holds: what `strip` and `split` take for white space.
abbrev pub is_space_code : ℕ → Bool
is_space_code c =
    (leb 9 c && leb c 13)
    || (leb 28 c && leb c 32)
    || c == 133
    || c == 160
    || c == 5760
    || (leb 8192 c && leb c 8202)
    || c == 8232
    || c == 8233
    || c == 8239
    || c == 8287
    || c == 12288

unfoldable pub is_space : Char → Bool
is_space c = is_space_code (code c)

-- str.lstrip, on the characters
unfoldable pub drop_space : List Char → List Char
drop_space [] = []
drop_space (c ∷ cs) = if is_space c then drop_space cs else c ∷ cs

unless_space : Char → List Char → List Char
unless_space c [] = if is_space c then [] else c ∷ []
unless_space c (d ∷ ds) = c ∷ d ∷ ds

-- str.rstrip
unfoldable pub drop_last_space : List Char → List Char
unfolding unless_space
drop_last_space [] = []
drop_last_space (c ∷ cs) = unless_space c (drop_last_space cs)

-- str.strip
unfoldable pub strip_chars : List Char → List Char
unfolding drop_space drop_last_space is_space
strip_chars cs = drop_last_space (drop_space cs)

unfoldable pub strip : String → String
unfolding strip_chars
strip s = from_chars (strip_chars (chars s))

-- str.rstrip on a text
unfoldable pub rstrip : String → String
unfolding drop_last_space is_space
rstrip s = from_chars (drop_last_space (chars s))

-- A text is truthy when it is not empty.
abbrev pub truthy : String → Bool
truthy String.[] = false
truthy (String.◌∷◌ c s) = true

-- a or b, on texts
infixl 30 ◌or◌
abbrev pub ◌or◌ : String → String → String
s or t = if truthy s then s else t

-- ASCII letters to lower case. Python maps other letters too, none of them to a letter of the
-- words that the program compares with.
abbrev pub lower_code : ℕ → ℕ
lower_code c = if leb 65 c && leb c 90 then c + 32 else c
