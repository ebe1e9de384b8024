-- ===== src/Llm/Graph/Bounded.antt =====
-- A bound on the calls that a step of a turn adds, carried from one step to the next.
use virtual_helmsman.Prelude.{
  ℕ, suc, ◌+◌, ◌≤◌, Option, none, some, List, [], ◌∷◌, length, arith, String,
}
use virtual_helmsman.Llm.Retrieval.{Hit}
use virtual_helmsman.Llm.Neighbours.{
  Group, candidates, add_to_group, add_named, add_winner, neighbours_from, neighbour_ids,
  chunk_number, text_or_empty,
}
use virtual_helmsman.Llm.Graph.{Attempt, returned, thrown, World, Turn, after}

-- At most n calls more than there were, and a result with P.
abbrev pub Bounded : {A : Type 0} → ℕ → (P : A → Type 0) → ℕ → Attempt A × World → Type 0
Bounded n P old (returned a, w) = (length w.calls ≤ old + n) × P a
Bounded n P old (thrown reason, w) = length w.calls ≤ old + n

abbrev pub Any : {A : Type 0} → A → Type 0
Any a = Unit

pub Bounded-widen :
    {A : Type 0} (P : A → Type 0) (m n old now : ℕ) (r : Attempt A × World)
    → now + m ≤ old + n
    → Bounded m P now r
    → Bounded n P old r
Bounded-widen P m n old now (returned a, w) h (g, p) = (omega arith, p)
Bounded-widen P m n old now (thrown reason, w) h g = omega arith

pub after-Bounded :
    {A B : Type 0} (P : A → Type 0) (Q : B → Type 0) (m n old : ℕ) (r : Attempt A × World)
    (f : A → Turn B)
    → Bounded m P old r
    → ((a : A) (w : World) → P a → Bounded n Q (length w.calls) (f a w))
    → Bounded (m + n) Q old (after r f)
after-Bounded P Q m n old (returned a, w) f (h, p) g =
    Bounded-widen Q n (m + n) old (length w.calls) (f a w) (omega arith) (g a w p)
after-Bounded P Q m n old (thrown reason, w) f h g = omega arith

pub Bounded-calls :
    {A : Type 0} (P : A → Type 0) (n old : ℕ) (r : Attempt A × World)
    → Bounded n P old r
    → length r.1.calls ≤ old + n
Bounded-calls P n old (returned a, w) (h, p) = h
Bounded-calls P n old (thrown reason, w) h = h

length-add_to_group :
    (filename : String) (cs : List String) (gs : List Group)
    → length (add_to_group filename cs gs) ≤ suc (length gs)
unfolding add_to_group
length-add_to_group filename cs [] = omega arith
length-add_to_group filename cs (g ∷ gs) = ground (arith, length-add_to_group filename cs gs)

length-add_named :
    (n : Option ℕ) (filename : String) (gs : List Group)
    → length (add_named n filename gs) ≤ suc (length gs)
length-add_named none filename gs = omega arith
length-add_named (some n) filename gs =
    ground (arith, length-add_to_group filename (candidates n) gs)

length-neighbours_from :
    (gs : List Group) (ws : List Hit) → length (neighbours_from gs ws) ≤ length gs + length ws
unfolding neighbours_from add_winner
length-neighbours_from gs [] = omega arith
length-neighbours_from gs (w ∷ ws) = omega (
  arith,
  length-add_named (chunk_number (text_or_empty w.payload.chunk_id))
      (text_or_empty w.payload.filename) gs,
  length-neighbours_from (add_winner w.payload gs) ws,
)

pub length-neighbour_ids : (ws : List Hit) → length (neighbour_ids ws) ≤ length ws
unfolding neighbour_ids
length-neighbour_ids ws = omega (arith, length-neighbours_from [] ws)

abbrev pub AtMostThree : List Hit → Type 0
AtMostThree hs = length hs ≤ 3
