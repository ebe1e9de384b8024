-- ===== src/Api/Webrtc/Tasks.antt =====
-- The tasks of the connections, in the order of their creation: what an offer and a removal make of
-- them.
use virtual_helmsman.Prelude.{
  ℕ, suc, ◌<◌, ◌≤◌, ◌≡◌, refl, ◌∙◌, ap, sym, subst, String, true, false, Option, none, some, List,
  [], ◌∷◌, ◌++◌, text_eq, eq_iff, ◌==◌, arith, Bool-cases, inl, inr,
}
use mathlib.Core.List.{append_assoc, append-nil}
use virtual_helmsman.Api.Webrtc.{
  Connection, is_connected, put_connection, find_connection, without_connection, cancel,
  cancel_task,
}

some_inj {ℓ} : {A : Type ℓ} {a b : A} → some a ≡ some b → a ≡ b
some_inj h = cc

-- The tasks of the registered connections.
abbrev pub task_of : Option ℕ → List ℕ
task_of none = []
task_of (some t) = t ∷ []

abbrev pub tasks_of : List Connection → List ℕ
tasks_of [] = []
tasks_of (c ∷ cs) = task_of c.task ++ tasks_of cs

-- `cancel` of the task of a connection, if it has one.
abbrev pub without_task : Option ℕ → List ℕ → List ℕ
without_task none ts = ts
without_task (some t) ts = cancel t ts

pub cancel_task-true :
    (o : Option ℕ) (ts : List ℕ) → cancel_task true o ts ≡ (true, without_task o ts)
cancel_task-true none ts = refl
cancel_task-true (some t) ts = refl

-- Tasks in the order of their creation, up to a bound.
abbrev pub Within : ℕ → ℕ → List ℕ → Type 0
Within lo hi [] = Unit
Within lo hi (t ∷ ts) = (lo < suc t) × (t < hi) × Within (suc t) hi ts

-- Connections have names of their own.
abbrev pub Distinct : List Connection → Type 0
Distinct [] = Unit
Distinct (c ∷ cs) = (is_connected c.pc_id cs ≡ false) × Distinct cs

Within-weaken : (lo lo' hi : ℕ) (ts : List ℕ) → lo ≤ lo' → Within lo' hi ts → Within lo hi ts
Within-weaken lo lo' hi [] h w = tt
Within-weaken lo lo' hi (t ∷ ts) h (a, b, w) = (omega arith, b, w)

pub Within-append :
    (lo hi : ℕ) (ts : List ℕ) → lo ≤ hi → Within lo hi ts → Within lo (suc hi) (ts ++ hi ∷ [])
Within-append lo hi [] h w = (omega arith, omega arith, tt)
Within-append lo hi (t ∷ ts) h (a, b, w) =
    (a, omega arith, Within-append (suc t) hi ts (omega arith) w)

pub Within-cancel : (lo hi t : ℕ) (ts : List ℕ) → Within lo hi ts → Within lo hi (cancel t ts)
unfolding cancel
Within-cancel lo hi t [] w = tt
Within-cancel lo hi t (u ∷ us) (a, b, w) = elim (Bool-cases (u == t)) [
  | inl same ↦
      rw same
        (Within-weaken lo (suc u) hi (cancel t us) (omega arith) (Within-cancel (suc u) hi t us w))
  | inr other ↦ rw other (a, b, Within-cancel (suc u) hi t us w)
]

-- A task that is not there is not cancelled.
cancel-Within : (lo hi t : ℕ) (ts : List ℕ) → t < lo → Within lo hi ts → cancel t ts ≡ ts
unfolding cancel
cancel-Within lo hi t [] h w = refl
cancel-Within lo hi t (u ∷ us) h (a, b, w) =
    ground (arith, cancel-Within (suc u) hi t us (omega arith) w)

cancel_comm : (t u : ℕ) (ts : List ℕ) → cancel t (cancel u ts) ≡ cancel u (cancel t ts)
unfolding cancel
cancel_comm t u [] = refl
cancel_comm t u (v ∷ vs) = ground (arith, cancel_comm t u vs)

cancel-append : (t u : ℕ) (ts : List ℕ) → t < u → cancel t (ts ++ u ∷ []) ≡ cancel t ts ++ u ∷ []
unfolding cancel
cancel-append t u [] lt = ground arith
cancel-append t u (v ∷ vs) lt = ground (arith, cancel-append t u vs lt)

-- The tasks without those that are over.
unfoldable pub unended : (over : List ℕ) → List ℕ → List ℕ
unended [] ts = ts
unended (t ∷ over) ts = cancel t (unended over ts)

pub unended-nil : (over : List ℕ) → unended over [] ≡ []
unfolding unended cancel
unended-nil [] = refl
unended-nil (t ∷ over) = ap (cancel t) (unended-nil over)

pub unended-cancel :
    (over : List ℕ) (o : Option ℕ) (ts : List ℕ)
    → unended over (without_task o ts) ≡ without_task o (unended over ts)
unfolding unended
unended-cancel over none ts = refl
unended-cancel [] (some u) ts = refl
unended-cancel (t ∷ over) (some u) ts =
    ap (cancel t) (unended-cancel over (some u) ts) ∙ cancel_comm t u (unended over ts)

-- Every task of a list was created.
abbrev pub AllBelow : ℕ → List ℕ → Type 0
AllBelow hi [] = Unit
AllBelow hi (t ∷ ts) = (t < hi) × AllBelow hi ts

pub AllBelow-suc : (hi : ℕ) (ts : List ℕ) → AllBelow hi ts → AllBelow (suc hi) ts
AllBelow-suc hi [] h = tt
AllBelow-suc hi (t ∷ ts) (lt, h) = (omega arith, AllBelow-suc hi ts h)

pub unended-append :
    (over : List ℕ) (u : ℕ) (ts : List ℕ)
    → AllBelow u over
    → unended over (ts ++ u ∷ []) ≡ unended over ts ++ u ∷ []
unfolding unended
unended-append [] u ts h = refl
unended-append (t ∷ over) u ts (lt, h) =
    ap (cancel t) (unended-append over u ts h) ∙ cancel-append t u (unended over ts) lt

pub without_connection-absent :
    (p : String) (cs : List Connection) → is_connected p cs ≡ false → without_connection p cs ≡ cs
unfolding without_connection is_connected
without_connection-absent p [] h = refl
without_connection-absent p (c ∷ cs) h = ground (arith, without_connection-absent p cs)

is_connected-without_connection :
    (p q : String) (cs : List Connection)
    → is_connected q cs ≡ false
    → is_connected q (without_connection p cs) ≡ false
unfolding without_connection is_connected
is_connected-without_connection p q [] h = refl
is_connected-without_connection p q (c ∷ cs) h =
    ground (arith, is_connected-without_connection p q cs)

pub Distinct-without_connection :
    (p : String) (cs : List Connection) → Distinct cs → Distinct (without_connection p cs)
unfolding without_connection
Distinct-without_connection p [] d = tt
Distinct-without_connection p (c ∷ cs) (a, d) = elim (Bool-cases (text_eq c.pc_id p)) [
  | inl same ↦ rw same (Distinct-without_connection p cs d)
  | inr other ↦
      rw other (is_connected-without_connection p c.pc_id cs a, Distinct-without_connection p cs d)
]

is_connected-append :
    (q : String) (cs : List Connection) (c : Connection)
    → is_connected q cs ≡ false
    → text_eq c.pc_id q ≡ false
    → is_connected q (cs ++ c ∷ []) ≡ false
unfolding is_connected
is_connected-append q [] c h e = rw e refl
is_connected-append q (b ∷ bs) c h e = ground (arith, is_connected-append q bs c)

Distinct-append :
    (cs : List Connection) (c : Connection)
    → Distinct cs
    → is_connected c.pc_id cs ≡ false
    → Distinct (cs ++ c ∷ [])
Distinct-append [] c d h = (unfold is_connected in refl, tt)
Distinct-append (b ∷ bs) c (a, d) h = (
  is_connected-append b.pc_id bs c a
      (unfold is_connected in ground (arith, eq_iff b.pc_id c.pc_id, eq_iff c.pc_id b.pc_id)),
  Distinct-append bs c d (unfold is_connected in ground arith),
)

tasks_of-append :
    (cs : List Connection) (c : Connection)
    → tasks_of (cs ++ c ∷ []) ≡ tasks_of cs ++ task_of c.task
tasks_of-append [] c = append-nil (task_of c.task)
tasks_of-append (b ∷ bs) c =
    ap (λ ts. task_of b.task ++ ts) (tasks_of-append bs c)
    ∙ sym (append_assoc (task_of b.task) (tasks_of bs) (task_of c.task))

put_connection-new :
    (c : Connection) (cs : List Connection)
    → is_connected c.pc_id cs ≡ false
    → put_connection c cs ≡ cs ++ c ∷ []
unfolding put_connection is_connected
put_connection-new c [] new = refl
put_connection-new c (d ∷ ds) new = ground (arith, put_connection-new c ds)

pub Distinct-put_connection :
    (c : Connection) (cs : List Connection)
    → Distinct cs
    → is_connected c.pc_id cs ≡ false
    → Distinct (put_connection c cs)
Distinct-put_connection c cs d new =
    subst Distinct (sym (put_connection-new c cs new)) (Distinct-append cs c d new)

pub tasks_of-put_connection :
    (c : Connection) (cs : List Connection)
    → is_connected c.pc_id cs ≡ false
    → tasks_of (put_connection c cs) ≡ tasks_of cs ++ task_of c.task
tasks_of-put_connection c cs new = ap tasks_of (put_connection-new c cs new) ∙ tasks_of-append cs c

Within-tail :
    (o : Option ℕ) (lo hi : ℕ) (ts : List ℕ) → Within lo hi (task_of o ++ ts) → Within lo hi ts
Within-tail none lo hi ts w = w
Within-tail (some t) lo hi ts (a, b, w) = Within-weaken lo (suc t) hi ts (omega arith) w

Within-head :
    (o : Option ℕ) (lo hi t : ℕ) (ts : List ℕ)
    → o ≡ some t
    → Within lo hi (task_of o ++ ts)
    → (lo ≤ t) × Within (suc t) hi ts
Within-head none lo hi t ts e w = cc
Within-head (some u) lo hi t ts e (a, b, w) =
    subst (λ x. (lo ≤ x) × Within (suc x) hi ts) (cc) (omega arith, w)

-- The task of a connection that is found is one of theirs.
find_connection-Within :
    (p : String) (cs : List Connection) (lo hi t : ℕ) (c : Connection)
    → Within lo hi (tasks_of cs)
    → find_connection p cs ≡ some c
    → c.task ≡ some t
    → lo ≤ t
unfolding find_connection
find_connection-Within p [] lo hi t c w f e = cc
find_connection-Within p (b ∷ bs) lo hi t c w f e = elim (Bool-cases (text_eq b.pc_id p)) [
  | inl same ↦
      let k : some b ≡ some c = rw same at f in
      (Within-head b.task lo hi t (tasks_of bs) (ap (λ x. x.task) (some_inj k) ∙ e) w).0
  | inr other ↦
      find_connection-Within p bs lo hi t c (Within-tail b.task lo hi (tasks_of bs) w)
        (rw other at f) e
]

cancel_other :
    (o o' : Option ℕ) (lo hi : ℕ) (ts : List ℕ)
    → Within lo hi (task_of o ++ ts)
    → ((t u : ℕ) → o ≡ some u → o' ≡ some t → suc u ≤ t)
    → task_of o ++ without_task o' ts ≡ without_task o' (task_of o ++ ts)
unfolding cancel
cancel_other none o' lo hi ts w h = refl
cancel_other (some u) none lo hi ts w h = refl
cancel_other (some u) (some t) lo hi ts w h = ground (arith, h t u refl refl)

cancel_own :
    (o : Option ℕ) (lo hi : ℕ) (ts : List ℕ)
    → Within lo hi (task_of o ++ ts)
    → ts ≡ without_task o (task_of o ++ ts)
unfolding cancel
cancel_own none lo hi ts w = refl
cancel_own (some t) lo hi ts (a, b, w) =
    ground (arith, cancel-Within (suc t) hi t ts (omega arith) w)

-- What is left of the tasks behind the removal of a connection is what the cancellation of its task
-- leaves of them.
pub tasks_of-without_connection :
    (p : String) (cs : List Connection) (lo hi : ℕ) (c : Connection)
    → Within lo hi (tasks_of cs)
    → Distinct cs
    → find_connection p cs ≡ some c
    → tasks_of (without_connection p cs) ≡ without_task c.task (tasks_of cs)
unfolding find_connection without_connection
tasks_of-without_connection p [] lo hi c w d f = cc
tasks_of-without_connection p (b ∷ bs) lo hi c w (a, d) f = elim (Bool-cases (text_eq b.pc_id p)) [
  | inl same ↦
      let k : some b ≡ some c = rw same at f in
      let absent : without_connection p bs ≡ bs =
        without_connection-absent p bs
          (subst (λ q. is_connected q bs ≡ false) ((eq_iff b.pc_id p).0 same) a) in
      rw same (
        ap tasks_of absent
        ∙ cancel_own b.task lo hi (tasks_of bs) w
        ∙ ap (λ x. without_task x.task (tasks_of (b ∷ bs))) (some_inj k))
  | inr other ↦
      let k : find_connection p bs ≡ some c = rw other at f in
      rw other (
        ap (λ ts. task_of b.task ++ ts)
          (tasks_of-without_connection p bs lo hi c (Within-tail b.task lo hi (tasks_of bs) w) d k)
        ∙ cancel_other b.task c.task lo hi (tasks_of bs) w (λ t u own his.
          find_connection-Within p bs (suc u) hi t c
            (Within-head b.task lo hi u (tasks_of bs) own w).1 k his))
]
