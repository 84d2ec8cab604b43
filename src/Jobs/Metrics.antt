-- ===== src/Jobs/Metrics.antt =====
-- The nightly rollup `compute_daily_metrics_for` of backend/src/incident_desk/jobs/tasks.py. A day is
-- the time at which it begins, in UTC.
use incident_desk.Prelude.{
  ℕ, ◌+◌, ◌-◌, ◌%◌, ◌==◌, ==_iff, leb, ltb, ◌≡◌, refl, sym, ◌∙◌, Bool, true, false, ◌&&◌, ◌||◌,
  Option, none, some, List, [], ◌∷◌, find, select_where, exists_where, length, if◌then◌else◌, arith,
  Bool-cases, inl, inr,
}
use mathlib.Core.Path.{subst}
use incident_desk.Models.{Incident, OrgMetricsDaily, Mean}
use incident_desk.Session.{
  Session, Env, Action, pure, gets, modify, now, commit, written, ◌>>=◌, ◌>>◌,
}

-- `timedelta(days=1)`
abbrev pub day_length : ℕ
day_length = 86_400_000_000

abbrev pub in_day : ℕ → ℕ → Bool
in_day start t = leb start t && ltb t (start + day_length)

-- the two `WHERE`
abbrev pub created_in : ℕ → Incident → Bool
created_in start i = in_day start i.started_at

abbrev pub resolved_in : ℕ → Incident → Bool
resolved_in start i = elim i.resolved_at [ none ↦ false | some t ↦ in_day start t ]

-- `avg(end - started_at)`: null ends do not count, and the average of nothing is null
abbrev pub add_span : Option ℕ → ℕ → Option Mean → Option Mean
add_span none start m = m
add_span (some end) start none = some (record { ends = end; starts = start; rows = 1 })
add_span (some end) start (some m) =
    some (record { ends = m.ends + end; starts = m.starts + start; rows = m.rows + 1 })

abbrev pub average : (Incident → Option ℕ) → List Incident → Option Mean
average end_of [] = none
average end_of (i ∷ is) = add_span (end_of i) i.started_at (average end_of is)

-- `float(mean) if row and mean else None`: an average of zero is stored as null too
abbrev pub stored_mean : Option Mean → Option Mean
stored_mean none = none
stored_mean (some m) = if m.ends == m.starts then none else some m

abbrev pub of_org : ℕ → List Incident → List Incident
of_org org_id is = select_where (λ (i : Incident). i.org_id == org_id) is

abbrev acknowledged_end : Incident → Option ℕ
acknowledged_end i = i.acknowledged_at

abbrev resolved_end : Incident → Option ℕ
resolved_end i = i.resolved_at

-- the parameters of the statement for one organisation
abbrev pub metrics_row : ℕ → List Incident → ℕ → OrgMetricsDaily
metrics_row start is org_id =
    let made = of_org org_id (select_where (created_in start) is) in
    let done = of_org org_id (select_where (resolved_in start) is) in
    record {
      org_id = org_id;
      day = start;
      incidents_created = length made;
      incidents_resolved = length done;
      mtta_seconds = stored_mean (average acknowledged_end made);
      mttr_seconds = stored_mean (average resolved_end done);
    }

abbrev pub has_id : ℕ → List ℕ → Bool
has_id x xs = exists_where (λ y. y == x) xs

-- the organisations of some rows, each once
abbrev pub orgs_of : List Incident → List ℕ
orgs_of [] = []
orgs_of (i ∷ is) = let rest = orgs_of is in if has_id i.org_id rest then rest else i.org_id ∷ rest

-- `org_ids`: of the rows that either query has
abbrev pub metric_orgs : ℕ → List Incident → List ℕ
metric_orgs start is = orgs_of (select_where (λ i. created_in start i || resolved_in start i) is)

-- the primary key `(org_id, day)`
abbrev pub is_metrics : ℕ → ℕ → OrgMetricsDaily → Bool
is_metrics org_id day m = m.org_id == org_id && m.day == day

-- `INSERT ... ON CONFLICT (org_id, day) DO UPDATE`
abbrev pub upsert : OrgMetricsDaily → List OrgMetricsDaily → List OrgMetricsDaily
upsert row [] = row ∷ []
upsert row (m ∷ ms) =
    let rest = upsert row ms in if is_metrics row.org_id row.day m then row ∷ ms else m ∷ rest

-- the loop over the organisations
abbrev pub upsert_all : ℕ → List Incident → List ℕ → List OrgMetricsDaily → List OrgMetricsDaily
upsert_all start is [] ms = ms
upsert_all start is (org_id ∷ rest) ms =
    upsert_all start is rest (upsert (metrics_row start is org_id) ms)

-- the day that is given, or the one of the clock
abbrev day_of : Option ℕ → ℕ → ℕ
day_of none at = at - at % day_length
day_of (some day) at = day

unfoldable pub compute_daily_metrics_for : Env → Option ℕ → Action ℕ
unfolding ◌>>=◌
compute_daily_metrics_for env day = do
  at ← now env
  let start = day_of day at
  orgs ← gets (λ d. metric_orgs start d.incidents)
  modify (λ d. record d { daily_metrics = upsert_all start d.incidents orgs d.daily_metrics })
  commit env
  pure (length orgs)

module _ (row : OrgMetricsDaily) where
  find-upsert :
      (ms : List OrgMetricsDaily) → find (is_metrics row.org_id row.day) (upsert row ms) ≡ some row
  find-upsert [] = ground arith
  find-upsert (m ∷ ms) = ground (arith, find-upsert ms)

  find-upsert_other :
      (x day : ℕ)
      → is_metrics x day row ≡ false
      → (ms : List OrgMetricsDaily)
      → find (is_metrics x day) (upsert row ms) ≡ find (is_metrics x day) ms
  find-upsert_other x day n [] = ground (arith, n)
  find-upsert_other x day n (m ∷ ms) = ground (arith, n, find-upsert_other x day n ms)

module _ (start : ℕ) (is : List Incident) (x : ℕ) where
  find-upsert_all_other :
      (orgs : List ℕ) (ms : List OrgMetricsDaily)
      → has_id x orgs ≡ false
      → find (is_metrics x start) (upsert_all start is orgs ms) ≡ find (is_metrics x start) ms
  find-upsert_all_other [] ms n = refl
  find-upsert_all_other (o ∷ orgs) ms n =
      find-upsert_all_other orgs (upsert (metrics_row start is o) ms) (ground (arith, n))
      ∙ find-upsert_other (metrics_row start is o) x start (ground (arith, n)) ms

  find-upsert_all :
      (orgs : List ℕ) (ms : List OrgMetricsDaily)
      → has_id x orgs ≡ true
      → find (is_metrics x start) (upsert_all start is orgs ms) ≡ some (metrics_row start is x)
  find-upsert_all [] ms n = cc
  find-upsert_all (o ∷ orgs) ms n = elim (Bool-cases (has_id x orgs)) [
    | inl h ↦ find-upsert_all orgs (upsert (metrics_row start is o) ms) h
    | inr h ↦
        find-upsert_all_other orgs (upsert (metrics_row start is o) ms) h
        ∙ subst
            (λ y.
              find (is_metrics x start) (upsert (metrics_row start is y) ms)
              ≡ some (metrics_row start is x))
            (sym ((==_iff o x).0 (ground (arith, n, h)))) (find-upsert (metrics_row start is x) ms)
  ]

-- an incident of the organisation is among the rows
abbrev pub has_org : ℕ → List Incident → Bool
has_org x is = exists_where (λ (i : Incident). i.org_id == x) is

has_id-same : (x y : ℕ) (xs : List ℕ) → has_id y xs ≡ true → y == x ≡ true → has_id x xs ≡ true
has_id-same x y xs h e = subst (λ n. has_id n xs ≡ true) ((==_iff y x).0 e) h

has_id-orgs_of : (x : ℕ) (is : List Incident) → has_id x (orgs_of is) ≡ has_org x is
has_id-orgs_of x [] = refl
has_id-orgs_of x (i ∷ is) = elim (Bool-cases (has_id i.org_id (orgs_of is))) [
  | inl h ↦ ground (arith, h, has_id-orgs_of x is, has_id-same x i.org_id (orgs_of is) h)
  | inr h ↦ ground (arith, h, has_id-orgs_of x is)
]

-- the incidents that the rollup of a day reads
abbrev pub metric_rows : ℕ → List Incident → List Incident
metric_rows start is = select_where (λ i. created_in start i || resolved_in start i) is

-- the rows of an organisation for a day, after the rollup
pub compute_daily_metrics_for-rows :
    (env : Env) (start x : ℕ) (s : Session)
    → find
        (is_metrics x start)
        (written (compute_daily_metrics_for env (some start)) s).daily_metrics
      ≡ (if has_org x (metric_rows start s.db.incidents)
          then some (metrics_row start s.db.incidents x)
          else find (is_metrics x start) s.db.daily_metrics)
unfolding compute_daily_metrics_for
compute_daily_metrics_for-rows env start x s =
    elim (Bool-cases (has_org x (metric_rows start s.db.incidents))) [
      | inl h ↦
          find-upsert_all start s.db.incidents x (metric_orgs start s.db.incidents)
            s.db.daily_metrics (has_id-orgs_of x (metric_rows start s.db.incidents) ∙ h)
          ∙ ground (arith, h)
      | inr h ↦
          find-upsert_all_other start s.db.incidents x (metric_orgs start s.db.incidents)
            s.db.daily_metrics (has_id-orgs_of x (metric_rows start s.db.incidents) ∙ h)
          ∙ ground (arith, h)
    ]
