-- ===== src/Llm/Neighbours/Merge.antt =====
-- `merge_neighbours` of helpers.py keeps one chunk for each key, and loses none.
use virtual_helmsman.Prelude.{
  ◌≡◌, refl, ap, Bool, true, false, not, ◌&&◌, ◌||◌, some, List, [], ◌∷◌, ◌++◌, Bool-cases, inl,
  inr, String, text_eq, eq_iff, eq_refl, arith,
}
use virtual_helmsman.Llm.Retrieval.{QueryPoint, Hit}
use virtual_helmsman.Llm.Neighbours.{
  contains, key_of, merge_winners, merge_points, seen_after, is_named, neighbour_of,
  merge_neighbours,
}

abbrev pub keys : List Hit → List String
keys [] = []
keys (h ∷ hs) = key_of h.payload ∷ keys hs

abbrev pub Distinct : List String → Type 0
Distinct [] = Unit
Distinct (k ∷ ks) = (contains k ks ≡ false) × Distinct ks

-- Every one of the second list is missing in the first.
abbrev NoneIn : List String → List String → Type 0
NoneIn seen [] = Unit
NoneIn seen (k ∷ ks) = (contains k seen ≡ false) × NoneIn seen ks

-- The keys of the points that the loop takes.
abbrev pub named_keys : List QueryPoint → List String
named_keys [] = []
named_keys (p ∷ ps) = elim (is_named p.payload) [
  | true ↦ key_of p.payload ∷ named_keys ps
  | false ↦ named_keys ps
]

abbrev pub AllFiled : List QueryPoint → Type 0
AllFiled [] = Unit
AllFiled (p ∷ ps) = ((f : String) × (p.payload.filename ≡ some f)) × AllFiled ps

text_eq-sym : (a b : String) → text_eq a b ≡ text_eq b a
text_eq-sym a b = grind (arith, eq_iff a b, eq_iff b a, eq_refl a)

contains-append :
    (x : String) (ks ls : List String) → contains x (ks ++ ls) ≡ (contains x ks || contains x ls)
unfolding contains
contains-append x [] ls = refl
contains-append x (k ∷ ks) ls = ground (arith, contains-append x ks ls)

contains_found :
    (x y : String) (ks : List String) → text_eq x y ≡ true → contains x ks ≡ contains y ks
contains_found x y ks e = ap (λ z. contains z ks) ((eq_iff x y).0 e)

NoneIn-cons :
    (k : String) (seen ks : List String)
    → NoneIn (k ∷ seen) ks
    → (contains k ks ≡ false) × NoneIn seen ks
unfolding contains
NoneIn-cons k seen [] h = (refl, tt)
NoneIn-cons k seen (x ∷ ks) (h, hs) =
    let rest = NoneIn-cons k seen ks hs in (grind (arith, text_eq-sym k x), (ground arith, rest.1))

Distinct-append :
    (ks ls : List String) → Distinct ks → Distinct ls → NoneIn ks ls → Distinct (ks ++ ls)
Distinct-append [] ls d e n = e
Distinct-append (k ∷ ks) ls (d, ds) e n =
    let rest = NoneIn-cons k ks ls n in
    (ground (arith, contains-append k ks ls), Distinct-append ks ls ds e rest.1)

merge_winners-Distinct :
    (seen : List String) (ws : List Hit)
    → NoneIn seen (keys (merge_winners seen ws)) × Distinct (keys (merge_winners seen ws))
unfolding merge_winners
merge_winners-Distinct seen [] = (tt, tt)
merge_winners-Distinct seen (w ∷ ws) = elim (Bool-cases (contains (key_of w.payload) seen)) [
  | inl e ↦ rw e (merge_winners-Distinct seen ws)
  | inr e ↦ rw e (
      let (n, d) = merge_winners-Distinct (key_of w.payload ∷ seen) ws in
      let (a, m) = NoneIn-cons (key_of w.payload) seen _ n in ((e, m), (a, d)))
]

merge_winners_lem :
    (x : String) (seen : List String) (ws : List Hit)
    → (contains x (keys (merge_winners seen ws)) || contains x seen)
      ≡ (contains x (keys ws) || contains x seen)
unfolding merge_winners contains
merge_winners_lem x seen [] = refl
merge_winners_lem x seen (w ∷ ws) = grind (
  arith,
  merge_winners_lem x seen ws,
  merge_winners_lem x (key_of w.payload ∷ seen) ws,
  contains_found x (key_of w.payload) seen,
)

contains-seen_after :
    (x : String) (seen : List String) (ws : List Hit)
    → contains x (seen_after seen ws)
      ≡ (contains x (keys (merge_winners seen ws)) || contains x seen)
unfolding merge_winners seen_after contains
contains-seen_after x seen [] = refl
contains-seen_after x seen (w ∷ ws) = grind (
  arith,
  contains-seen_after x seen ws,
  contains-seen_after x (key_of w.payload ∷ seen) ws,
  contains_found x (key_of w.payload) seen,
)

key_of-neighbour_of :
    (p : QueryPoint)
    → (f : String) × (p.payload.filename ≡ some f)
    → key_of (neighbour_of p).payload ≡ key_of p.payload
unfolding key_of
key_of-neighbour_of p (f, e) = rw e refl

abbrev takes : List String → QueryPoint → Bool
takes seen p = is_named p.payload && not (contains (key_of p.payload) seen)

not_seen :
    (seen : List String) (p : QueryPoint)
    → takes seen p ≡ true
    → contains (key_of p.payload) seen ≡ false
not_seen seen p e = ground arith

merge_points-Distinct :
    (seen : List String) (ps : List QueryPoint)
    → AllFiled ps
    → NoneIn seen (keys (merge_points seen ps)) × Distinct (keys (merge_points seen ps))
unfolding merge_points
merge_points-Distinct seen [] f = (tt, tt)
merge_points-Distinct seen (p ∷ ps) (f, fs) = elim (Bool-cases (takes seen p)) [
  | inl e ↦
      rw (e, key_of-neighbour_of p f)
        (let (n, d) = merge_points-Distinct (key_of p.payload ∷ seen) ps fs in
          let (a, m) = NoneIn-cons (key_of p.payload) seen _ n in ((not_seen seen p e, m), (a, d)))
  | inr e ↦ rw e (merge_points-Distinct seen ps fs)
]

merge_points_lem :
    (x : String) (seen : List String) (ps : List QueryPoint)
    → AllFiled ps
    → (contains x (keys (merge_points seen ps)) || contains x seen)
      ≡ (contains x (named_keys ps) || contains x seen)
unfolding merge_points contains
merge_points_lem x seen [] f = refl
merge_points_lem x seen (p ∷ ps) (f, fs) = grind (
  arith,
  merge_points_lem x seen ps fs,
  merge_points_lem x (key_of p.payload ∷ seen) ps fs,
  contains_found x (key_of p.payload) seen,
  key_of-neighbour_of p f,
)

keys-append : (hs gs : List Hit) → keys (hs ++ gs) ≡ keys hs ++ keys gs
keys-append [] gs = refl
keys-append (h ∷ hs) gs = ap (λ ks. key_of h.payload ∷ ks) (keys-append hs gs)

NoneIn-winners :
    (ws : List Hit) (ks : List String)
    → NoneIn (seen_after [] ws) ks
    → NoneIn (keys (merge_winners [] ws)) ks
unfolding contains
NoneIn-winners ws [] n = tt
NoneIn-winners ws (k ∷ ks) (n, ns) =
    (ground (arith, contains-seen_after k [] ws), NoneIn-winners ws ks ns)

-- Where every scrolled point has a filename, the merge keeps one chunk for each key of a filename
-- and a chunk id: no key stands twice in it, and the keys in it are those of the winners and those
-- of the scrolled points that have a chunk id and are not of the mark for no winners.
pub merge_neighbours_lem :
    (winners : List Hit) (points : List QueryPoint) (x : String)
    → AllFiled points
    → Distinct (keys (merge_neighbours winners points))
      × (contains x (keys (merge_neighbours winners points))
          ≡ (contains x (keys winners) || contains x (named_keys points)))
unfolding merge_neighbours contains
merge_neighbours_lem winners points x f =
    let (n, d) = merge_points-Distinct (seen_after [] winners) points f in
    let split =
      keys-append (merge_winners [] winners) (merge_points (seen_after [] winners) points) in
    rw split (
      Distinct-append (keys (merge_winners [] winners))
          (keys (merge_points (seen_after [] winners) points)) (merge_winners-Distinct [] winners).1
          d (NoneIn-winners winners _ n),
      ground (
        arith,
        contains-append x (keys (merge_winners [] winners))
            (keys (merge_points (seen_after [] winners) points)),
        contains-seen_after x [] winners,
        merge_winners_lem x [] winners,
        merge_points_lem x (seen_after [] winners) points f,
      ),
    )
