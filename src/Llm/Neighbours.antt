-- ===== src/Llm/Neighbours.antt =====
-- The adjacent chunks of the winners: `neighbour_ids` and `merge_neighbours` of helpers.py. A digit
-- is one of ASCII; the ingestion writes no other.
pub mod Names
pub mod Merge
use Prim.Native.String
use virtual_helmsman.Prelude.{
  ℕ, zero, suc, ◌+◌, ◌-◌, ◌*◌, Char, code, chars, String, Bool, true, false, not, ◌&&◌, ◌||◌,
  Option, none, some, List, [], ◌∷◌, ◌++◌, leb, ◌==◌, text_eq, truthy, if◌then◌else◌,
}
use virtual_helmsman.Actions.Fence.{strip_prefix}
use virtual_helmsman.Kb.Metadata.{chunk_name}
use virtual_helmsman.Llm.Envelopes.{◌&◌}
use virtual_helmsman.Llm.Retrieval.{Payload, QueryPoint, Hit, hit_of}

abbrev pub is_digit : ℕ → Bool
is_digit c = leb 48 c && leb c 57

-- the digits to the end, before which `$` takes a line end
unfoldable pub number_from : ℕ → List Char → Option ℕ
number_from acc [] = some acc
number_from acc (c ∷ []) =
    if is_digit (code c)
    then some (acc * 10 + (code c - 48))
    else if code c == 10
    then some acc
    else none
number_from acc (c ∷ d ∷ cs) =
    let rest = number_from (acc * 10 + (code c - 48)) (d ∷ cs) in
    if is_digit (code c) then rest else none

-- \d+$
abbrev pub number : List Char → Option ℕ
number [] = none
number (c ∷ cs) = if is_digit (code c) then number_from 0 (c ∷ cs) else none

abbrev pub number_after : Option (List Char) → Option ℕ
number_after none = none
number_after (some cs) = number cs

-- re.match(r"^chunk_(\d+)$", chunk_id)
unfoldable pub chunk_number : String → Option ℕ
unfolding strip_prefix number_from
chunk_number chunk_id = number_after (strip_prefix (chars "chunk_") (chars chunk_id))

abbrev pub candidates : ℕ → List String
candidates zero = chunk_name 1 ∷ []
candidates (suc n) = chunk_name n ∷ chunk_name (suc (suc n)) ∷ []

pub record Group : Type 0 where
  pub filename : String
  pub ids : List String

unfoldable pub contains : String → List String → Bool
contains s [] = false
contains s (t ∷ ts) = text_eq s t || contains s ts

-- the candidates that are not yet in the bucket
unfoldable pub add_new : List String → List String → List String
unfolding contains
add_new ids [] = ids
add_new ids (c ∷ cs) = add_new (if contains c ids then ids else ids ++ c ∷ []) cs

-- groups.setdefault(filename, []) and the additions to it
unfoldable pub add_to_group : String → List String → List Group → List Group
unfolding add_new
add_to_group filename cs [] = record { filename = filename; ids = add_new [] cs } ∷ []
add_to_group filename cs (g ∷ gs) =
    let rest = add_to_group filename cs gs in
    if text_eq g.filename filename then record g { ids = add_new g.ids cs } ∷ gs else g ∷ rest

abbrev pub add_named : Option ℕ → String → List Group → List Group
add_named none filename gs = gs
add_named (some n) filename gs =
    if truthy filename then add_to_group filename (candidates n) gs else gs

abbrev pub text_or_empty : Option String → String
text_or_empty none = ""
text_or_empty (some s) = s

unfoldable pub add_winner : Payload → List Group → List Group
unfolding add_to_group chunk_number chunk_name
add_winner p gs = add_named (chunk_number (text_or_empty p.chunk_id)) (text_or_empty p.filename) gs

unfoldable pub neighbours_from : List Group → List Hit → List Group
unfolding add_winner
neighbours_from gs [] = gs
neighbours_from gs (w ∷ ws) = neighbours_from (add_winner w.payload gs) ws

unfoldable pub neighbour_ids : List Hit → List Group
unfolding neighbours_from
neighbour_ids winners = neighbours_from [] winners

abbrev pub shown_or_none : Option String → String
shown_or_none none = "None"
shown_or_none (some s) = s

-- f"{filename}::{chunk_id}"
unfoldable pub key_of : Payload → String
key_of p = shown_or_none p.filename & "::" & shown_or_none p.chunk_id

-- the loop over the winners
unfoldable pub merge_winners : (seen : List String) → List Hit → List Hit
unfolding contains key_of
merge_winners seen [] = []
merge_winners seen (w ∷ ws) =
    let old = merge_winners seen ws in
    let new = w ∷ merge_winners (key_of w.payload ∷ seen) ws in
    if contains (key_of w.payload) seen then old else new

-- a scrolled point that no chunk id or the mark of no winners excludes
abbrev pub is_named : Payload → Bool
is_named p =
    truthy (text_or_empty p.chunk_id) && not (text_eq (text_or_empty p.filename) "__no_winners__")

abbrev pub neighbour_of : QueryPoint → Hit
neighbour_of p = record (hit_of none (record p { score = none })) {
  payload = record p.payload { filename = some (text_or_empty p.payload.filename) };
  is_neighbour = true;
}

-- the loop over the scrolled points
unfoldable pub merge_points : (seen : List String) → List QueryPoint → List Hit
unfolding contains key_of
merge_points seen [] = []
merge_points seen (p ∷ ps) =
    let old = merge_points seen ps in
    let new = neighbour_of p ∷ merge_points (key_of p.payload ∷ seen) ps in
    if is_named p.payload && not (contains (key_of p.payload) seen) then new else old

unfoldable pub seen_after : (seen : List String) → List Hit → List String
unfolding contains key_of
seen_after seen [] = seen
seen_after seen (w ∷ ws) =
    seen_after (if contains (key_of w.payload) seen then seen else key_of w.payload ∷ seen) ws

unfoldable pub merge_neighbours : List Hit → List QueryPoint → List Hit
unfolding merge_winners merge_points seen_after
merge_neighbours winners points =
    merge_winners [] winners ++ merge_points (seen_after [] winners) points
