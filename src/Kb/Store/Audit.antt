-- ===== src/Kb/Store/Audit.antt =====
-- The audit log: the ids of its rows and the page that a query returns.
use virtual_helmsman.Prelude.{
  ℕ, zero, suc, ◌≤◌, ◌<◌, ◌≡◌, refl, ◌∙◌, ap, true, false, Option, none, some, List, [], ◌∷◌, ◌++◌,
  arith, String, length, take, strip, Bool-cases, Bool, not, ◌&&◌, ◌||◌, ◌⊎◌, leb, truthy, text_eq,
  subst, sym, if◌then◌else◌, inl, inr,
}
use virtual_helmsman.Prelude.Int.{ℤ, pos, negsuc}
use mathlib.Core.List.{Permᴰ}
use virtual_helmsman.Kb.Store.Newest.{IsNewestFirst, newest_first-Perm, newest_first-IsNewestFirst}
use virtual_helmsman.Kb.Store.{
  AuditRow, IngestionStore, insert_audit, eff_limit, or_empty, is_newer, insert_newest,
  newest_first, passes, AuditPage, Stamp, differ, Verdict, skips, judge_since, not_before,
  since_stamp, judge, collect, query_audit,
}

-- The ids of the log are below the counter and increase.
abbrev pub AllAbove : ℕ → List AuditRow → ℕ → Type 0
AllAbove low [] last = low ≤ last
AllAbove low (r ∷ rs) last = (low < r.id) × AllAbove r.id rs last

AllAbove-append :
    (low last : ℕ) (rows : List AuditRow) (row : AuditRow)
    → row.id ≡ suc last
    → AllAbove low rows last
    → AllAbove low (rows ++ row ∷ []) (suc last)
AllAbove-append low last [] row e h = (omega arith, omega arith)
AllAbove-append low last (r ∷ rs) row e (h, hs) = (h, AllAbove-append r.id last rs row e hs)

-- The ids of the log keep increasing when a row is inserted, so that no id is used twice; the row
-- is the last of the log, and the rows that were there and the pending chunks stay as they were.
insert_audit-AllAbove :
    (naam actie resultaat now : String) (s : IngestionStore)
    → AllAbove 0 s.audit s.last_id
    → AllAbove 0
        (insert_audit naam actie resultaat now s).1.audit
        (insert_audit naam actie resultaat now s).1.last_id
      × ((insert_audit naam actie resultaat now s).1.audit
          ≡ s.audit ++ (insert_audit naam actie resultaat now s).0 ∷ [])
      × ((insert_audit naam actie resultaat now s).1.pending ≡ s.pending)
unfolding insert_audit
insert_audit-AllAbove naam actie resultaat now s h = (
  AllAbove-append 0 s.last_id s.audit (insert_audit naam actie resultaat now s).0 refl h,
  refl,
  refl,
)

-- The limit that is applied to a query: the given one up to 500, or 50 where none above zero is
-- given.
abbrev pub AppliedLimit : Option ℤ → ℕ → Type 0
AppliedLimit (some (pos (suc n))) applied =
    ((applied ≡ suc n) ⊎ (applied ≡ 500)) × (applied ≤ suc n) × (applied ≤ 500)
AppliedLimit _ applied = applied ≡ 50

eff_limit-AppliedLimit : (limit : Option ℤ) → AppliedLimit limit (eff_limit limit)
unfolding eff_limit
eff_limit-AppliedLimit (some (pos (suc n))) = (ground arith, omega arith, omega arith)
eff_limit-AppliedLimit (some (pos zero)) = refl
eff_limit-AppliedLimit (some (negsuc n)) = refl
eff_limit-AppliedLimit none = refl

eff_limit-bounds : (limit : Option ℤ) → (1 ≤ eff_limit limit) × (eff_limit limit ≤ 500)
unfolding eff_limit
eff_limit-bounds (some (pos (suc n))) = (omega arith, omega arith)
eff_limit-bounds (some (pos zero)) = (omega arith, omega arith)
eff_limit-bounds (some (negsuc n)) = (omega arith, omega arith)
eff_limit-bounds none = (omega arith, omega arith)

module _ (parse_ts : String → Option Stamp) where
  -- The rows that pass the filters, with no bound on their number.
  abbrev pub passing : String → Option Stamp → List AuditRow → List AuditRow
  passing actie since [] = []
  passing actie since (r ∷ rs) = elim (judge parse_ts actie since r) [
    | passes ↦ r ∷ passing actie since rs
    | _ ↦ passing actie since rs
  ]

  collect-passing :
      (room : ℕ) (actie : String) (since : Option Stamp) (rows es : List AuditRow)
      → collect parse_ts (suc room) actie since rows ≡ some es
      → es ≡ take (suc room) (passing actie since rows)
  unfolding collect
  collect-passing room actie since [] es h = ground arith
  collect-passing zero actie since (r ∷ rs) es h =
      ground (arith, collect-passing zero actie since rs es)
  collect-passing (suc room) actie since (r ∷ rs) es h =
      grind
        (arith, collect-passing room actie since rs, collect-passing (suc room) actie since rs es)

  collected :
      (limit : Option ℤ) (actie since : Option String) (s : IngestionStore) (es : List AuditRow)
      → collect parse_ts
          (eff_limit limit)
          (strip (or_empty actie))
          (since_stamp parse_ts since)
          (newest_first s.audit)
        ≡ some es
      → es
        ≡ take
            (eff_limit limit)
            (passing (strip (or_empty actie)) (since_stamp parse_ts since) (newest_first s.audit))
  collected limit actie since s es h = at_positive (eff_limit limit) (eff_limit-bounds limit).0 h
    where
      at_positive :
          (n : ℕ)
          → 1 ≤ n
          → collect parse_ts n
              (strip (or_empty actie))
              (since_stamp parse_ts since)
              (newest_first s.audit)
            ≡ some es
          → es
            ≡ take n (
                passing
                  (strip (or_empty actie))
                  (since_stamp parse_ts since)
                  (newest_first s.audit))
      at_positive zero p h = elim p [ ]
      at_positive (suc n) p h =
          collect-passing n (strip (or_empty actie)) (since_stamp parse_ts since)
            (newest_first s.audit) es h

  -- What the filters ask of a row: the action, where one is given, and a stamp that is no earlier
  -- than `since` and has a zone where `since` has one, where `since` is given.
  abbrev pub is_since : Option Stamp → Option Stamp → Bool
  is_since none ts = true
  is_since (some since) none = false
  is_since (some since) (some ts) =
      not (differ ts.aware since.aware) && leb since.instant ts.instant

  abbrev pub is_kept : String → Option Stamp → AuditRow → Bool
  is_kept actie since r =
      (not (truthy actie) || text_eq r.actie actie) && is_since since (parse_ts r.created_at)

  abbrev pub kept : String → Option Stamp → List AuditRow → List AuditRow
  kept actie since [] = []
  kept actie since (r ∷ rs) =
      let rest = kept actie since rs in if is_kept actie since r then r ∷ rest else rest

  abbrev is_pass : Verdict → Bool
  is_pass passes = true
  is_pass _ = false

  judge_since-is_since :
      (since : Option Stamp) (r : AuditRow)
      → is_pass (judge_since parse_ts since r) ≡ is_since since (parse_ts r.created_at)
  judge_since-is_since none r = refl
  judge_since-is_since (some since) r = go (parse_ts r.created_at)
    where
      go :
          (o : Option Stamp)
          → is_pass (elim o [ none ↦ skips | some ts ↦ not_before parse_ts ts since ])
            ≡ is_since (some since) o
      go none = refl
      go (some ts) = ground arith

  judge-is_kept :
      (actie : String) (since : Option Stamp) (r : AuditRow)
      → is_pass (judge parse_ts actie since r) ≡ is_kept actie since r
  unfolding judge
  judge-is_kept actie since r = ground (arith, judge_since-is_since since r)

  passing-kept :
      (actie : String) (since : Option Stamp) (rows : List AuditRow)
      → passing actie since rows ≡ kept actie since rows
  passing-kept actie since [] = refl
  passing-kept actie since (r ∷ rs) =
      ground (arith, judge-is_kept actie since r, passing-kept actie since rs)

  -- A page is cut from the rows of the log, each once, the newest first: its entries are the first
  -- ones that the filters keep, as many as the limit allows, which is the given limit up to 500, or
  -- 50 where none above zero is given; and it tells how many rows the log has.
  pub query_audit_lem :
      (limit : Option ℤ) (actie since : Option String) (s : IngestionStore) (page : AuditPage)
      → query_audit parse_ts limit actie since s ≡ some page
      → (rows : List AuditRow) × Permᴰ rows s.audit
        × IsNewestFirst rows
        × (page.entries
            ≡ take page.limit (kept (strip (or_empty actie)) (since_stamp parse_ts since) rows))
        × AppliedLimit limit page.limit
        × (page.total_in_log ≡ length s.audit)
  unfolding query_audit
  query_audit_lem limit actie since s page h =
      let same : page.limit ≡ eff_limit limit = ground arith in
      (
        newest_first s.audit,
        newest_first-Perm s.audit,
        newest_first-IsNewestFirst s.audit,
        ground (arith, collected limit actie since s page.entries)
            ∙ ap (take page.limit) (
                passing-kept (strip (or_empty actie)) (since_stamp parse_ts since)
                  (newest_first s.audit)),
        subst (AppliedLimit limit) (sym same) (eff_limit-AppliedLimit limit),
        ground arith,
      )

  -- Every row of the log has a stamp with a zone.
  abbrev pub IsZoned : AuditRow → Type 0
  IsZoned r = (t : Stamp) × (parse_ts r.created_at ≡ some t) × (t.aware ≡ true)

  abbrev pub AllZoned : List AuditRow → Type 0
  AllZoned [] = Unit
  AllZoned (r ∷ rs) = IsZoned r × AllZoned rs

  insert_newest-AllZoned :
      (r : AuditRow) (rs : List AuditRow) → IsZoned r → AllZoned rs → AllZoned (insert_newest r rs)
  unfolding insert_newest
  insert_newest-AllZoned r [] h hs = (h, tt)
  insert_newest-AllZoned r (q ∷ qs) h (g, gs) = elim (Bool-cases (is_newer r q)) [
    | inl e ↦ rw e (h, (g, gs))
    | inr e ↦ rw e (g, insert_newest-AllZoned r qs h gs)
  ]

  newest_first-AllZoned : (rs : List AuditRow) → AllZoned rs → AllZoned (newest_first rs)
  unfolding newest_first
  newest_first-AllZoned [] h = tt
  newest_first-AllZoned (r ∷ rs) (h, hs) =
      insert_newest-AllZoned r (newest_first rs) h (newest_first-AllZoned rs hs)

  length-insert_newest :
      (r : AuditRow) (rs : List AuditRow) → length (insert_newest r rs) ≡ suc (length rs)
  unfolding insert_newest
  length-insert_newest r [] = refl
  length-insert_newest r (q ∷ qs) = ground (arith, length-insert_newest r qs)

  length-newest_first : (rs : List AuditRow) → length (newest_first rs) ≡ length rs
  unfolding newest_first
  length-newest_first [] = refl
  length-newest_first (r ∷ rs) =
      omega (arith, length-insert_newest r (newest_first rs), length-newest_first rs)

  collect-naive :
      (room : ℕ) (since : Stamp) (rows : List AuditRow)
      → since.aware ≡ false
      → AllZoned rows
      → 0 < length rows
      → collect parse_ts room "" (some since) rows ≡ none
  unfolding collect
  collect-naive room since [] n h p = elim p [ ]
  collect-naive room since (r ∷ rs) n (h, hs) p = ground arith

  -- A `since` that parses to a date and time without a zone is not ignored: with no `actie` filter
  -- the query of a log that is not empty, whose rows all have a zone, raises the TypeError.
  pub query_audit_raises :
      (limit : Option ℤ) (text : String) (since : Stamp) (s : IngestionStore)
      → since_stamp parse_ts (some text) ≡ some since
      → since.aware ≡ false
      → AllZoned s.audit
      → 0 < length s.audit
      → query_audit parse_ts limit none (some text) s ≡ none
  unfolding query_audit strip
  query_audit_raises limit text since s e n h p =
      ap (λ o. page_of (collect parse_ts (eff_limit limit) "" o (newest_first s.audit))) e
      ∙ ap page_of (
          collect-naive (eff_limit limit) since (newest_first s.audit) n
            (newest_first-AllZoned s.audit h) (omega (arith, length-newest_first s.audit)))
    where
      page_of : Option (List AuditRow) → Option AuditPage
      page_of none = none
      page_of (some es) = some (record {
        total_in_log = length s.audit;
        limit = eff_limit limit;
        actie = "";
        entries = es;
      })
