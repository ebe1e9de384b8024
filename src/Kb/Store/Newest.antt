-- ===== src/Kb/Store/Newest.antt =====
-- The order of the audit log: ORDER BY created_at DESC, id DESC.
use Prim.Native.Nat.{Ordering, compare as compare_ℕ}
use Prim.Native.Char.{code}
use Prim.Native.String.{compare as compare_text, then}
use Prim.Native.String.compare
use text.Mathlib.Text.{is_le}
use mathlib.Core.List.{Permᴰ}
use mathlib.Core.List.Permᴰ
use virtual_helmsman.Prelude.{
  ◌≡◌, refl, ℕ, ◌≤◌, ◌⊎◌, inl, inr, String, Bool-cases, true, false, ◌||◌, List, [], ◌∷◌, text_eq,
  eq_iff, arith,
}
use virtual_helmsman.Kb.Store.{AuditRow, text_le, is_newer, insert_newest, newest_first}

either_le :
    (m n : ℕ) (u v : Ordering)
    → (is_le u || is_le v) ≡ true
    → (is_le (then (compare_ℕ m n) u) || is_le (then (compare_ℕ n m) v)) ≡ true
either_le m n u v h = ground arith

-- Of two texts one comes no later than the other.
text_le_total : (a b : String) → (text_le a b || text_le b a) ≡ true
text_le_total String.[] String.[] = refl
text_le_total String.[] (String.◌∷◌ d t) = rw (compare.nil-cons d t) refl
text_le_total (String.◌∷◌ c s) String.[] = rw (compare.cons-nil c s, compare.nil-cons c s) refl
text_le_total (String.◌∷◌ c s) (String.◌∷◌ d t) =
    rw (compare.cons-cons c d s t, compare.cons-cons d c t s)
      (either_le (code c) (code d) (compare_text s t) (compare_text t s) (text_le_total s t))

-- A row that is at least as new as another: its stamp is no earlier, and of rows with one stamp the
-- one with the higher id is newer.
abbrev pub AtLeastAsNew : AuditRow → AuditRow → Type 0
AtLeastAsNew r q =
    (text_le q.created_at r.created_at ≡ true)
    × ((text_eq r.created_at q.created_at ≡ false) ⊎ (q.id ≤ r.id))

abbrev pub BeforeHead : AuditRow → List AuditRow → Type 0
BeforeHead r [] = Unit
BeforeHead r (q ∷ qs) = AtLeastAsNew r q

-- Each row is at least as new as the next.
abbrev pub IsNewestFirst : List AuditRow → Type 0
IsNewestFirst [] = Unit
IsNewestFirst (r ∷ rs) = BeforeHead r rs × IsNewestFirst rs

is_newer-AtLeastAsNew : (r q : AuditRow) → is_newer r q ≡ true → AtLeastAsNew r q
is_newer-AtLeastAsNew r q h = elim (Bool-cases (text_eq r.created_at q.created_at)) [
  | inl same ↦
      let e : r.created_at ≡ q.created_at = (eq_iff r.created_at q.created_at).0 same in
      (rw e (ground (arith, text_le_total q.created_at q.created_at)), inr (ground arith))
  | inr other ↦ (ground arith, inl other)
]

AtLeastAsNew-total : (r q : AuditRow) → is_newer r q ≡ false → AtLeastAsNew q r
AtLeastAsNew-total r q h = elim (Bool-cases (text_eq r.created_at q.created_at)) [
  | inl same ↦
      let e : r.created_at ≡ q.created_at = (eq_iff r.created_at q.created_at).0 same in
      (rw e (ground (arith, text_le_total q.created_at q.created_at)), inr (ground arith))
  | inr other ↦ (
    ground (arith, text_le_total r.created_at q.created_at),
    inl (ground (arith, eq_iff r.created_at q.created_at, eq_iff q.created_at r.created_at)),
  )
]

BeforeHead-insert_newest :
    (q r : AuditRow) (rs : List AuditRow)
    → AtLeastAsNew q r
    → BeforeHead q rs
    → BeforeHead q (insert_newest r rs)
unfolding insert_newest
BeforeHead-insert_newest q r [] h k = h
BeforeHead-insert_newest q r (p ∷ ps) h k = elim (Bool-cases (is_newer r p)) [
  | inl e ↦ rw e h
  | inr e ↦ rw e k
]

insert_newest-IsNewestFirst :
    (r : AuditRow) (rs : List AuditRow) → IsNewestFirst rs → IsNewestFirst (insert_newest r rs)
unfolding insert_newest
insert_newest-IsNewestFirst r [] h = (tt, tt)
insert_newest-IsNewestFirst r (q ∷ qs) (before, h) = elim (Bool-cases (is_newer r q)) [
  | inl e ↦ rw e (is_newer-AtLeastAsNew r q e, (before, h))
  | inr e ↦ rw e (
    BeforeHead-insert_newest q r qs (AtLeastAsNew-total r q e) before,
    insert_newest-IsNewestFirst r qs h,
  )
]

pub newest_first-IsNewestFirst : (rs : List AuditRow) → IsNewestFirst (newest_first rs)
unfolding newest_first
newest_first-IsNewestFirst [] = tt
newest_first-IsNewestFirst (r ∷ rs) =
    insert_newest-IsNewestFirst r (newest_first rs) (newest_first-IsNewestFirst rs)

insert_newest-Perm : (r : AuditRow) (rs : List AuditRow) → Permᴰ (insert_newest r rs) (r ∷ rs)
unfolding insert_newest
insert_newest-Perm r [] = Permᴰ.refl (r ∷ [])
insert_newest-Perm r (q ∷ qs) = elim (Bool-cases (is_newer r q)) [
  | inl e ↦ rw e (Permᴰ.refl (r ∷ q ∷ qs))
  | inr e ↦ rw e (Permᴰ.trans (Permᴰ.cons refl (insert_newest-Perm r qs)) (Permᴰ.swap refl refl))
]

pub newest_first-Perm : (rs : List AuditRow) → Permᴰ (newest_first rs) rs
unfolding newest_first
newest_first-Perm [] = Permᴰ.nil
newest_first-Perm (r ∷ rs) =
    Permᴰ.trans (insert_newest-Perm r (newest_first rs)) (Permᴰ.cons refl (newest_first-Perm rs))
