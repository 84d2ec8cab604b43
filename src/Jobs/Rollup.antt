-- ===== src/Jobs/Rollup.antt =====
-- What the nightly rollup of backend/src/incident_desk/jobs/tasks.py counts and averages, described
-- from the incidents alone.
use incident_desk.Prelude.{
  ℕ, ◌+◌, ◌==◌, leb, ltb, ◌≡◌, ◌≢◌, refl, sym, ap, ◌∙◌, Bool, true, false, ◌&&◌, ◌||◌, Option, none,
  some, List, [], ◌∷◌, find, select_where, exists_where, count_where, length, if◌then◌else◌, arith,
  Bool-cases, Option-cases, ◌⊎◌, inl, inr,
}
use incident_desk.Models.{Incident, OrgMetricsDaily, Mean}
use incident_desk.Session.{Session, Env, written}
use incident_desk.Jobs.Metrics.{
  created_in, resolved_in, add_span, average, stored_mean, of_org, metrics_row, is_metrics, has_org,
  metric_rows, compute_daily_metrics_for, compute_daily_metrics_for-rows,
}

-- the 24 hours from `start`
abbrev on_day : ℕ → ℕ → Bool
on_day start t = leb start t && ltb t (start + 86_400_000_000)

abbrev on_day_if : ℕ → Option ℕ → Bool
on_day_if start none = false
on_day_if start (some t) = on_day start t

-- the incidents of an organisation that began on the day, and those that were resolved on it
abbrev pub began : ℕ → ℕ → Incident → Bool
began start x i = i.org_id == x && on_day start i.started_at

abbrev pub ended : ℕ → ℕ → Incident → Bool
ended start x i = i.org_id == x && on_day_if start i.resolved_at

-- of the incidents that a test picks, when each began and a later time, for those that have one
abbrev pub spans : (Incident → Bool) → (Incident → Option ℕ) → List Incident → List (ℕ × ℕ)
spans p end_of [] = []
spans p end_of (i ∷ is) =
    let rest = spans p end_of is in
    if p i then elim (end_of i) [ none ↦ rest | some t ↦ (i.started_at, t) ∷ rest ] else rest

abbrev starts : List (ℕ × ℕ) → ℕ
starts [] = 0
starts (s ∷ ss) = starts ss + s.0

abbrev ends : List (ℕ × ℕ) → ℕ
ends [] = 0
ends (s ∷ ss) = ends ss + s.1

-- The mean of the spans as it is stored: the difference of the sums over the number of spans, and
-- null if there are none or if that is zero.
abbrev pub IsStoredMean : List (ℕ × ℕ) → Option Mean → Type 0
IsStoredMean ss m =
    ((m ≡ none) × (ends ss ≡ starts ss))
    ⊎ ((ends ss ≢ starts ss)
        × (m ≡ some (record { ends = ends ss; starts = starts ss; rows = length ss })))

-- the row of an organisation for a day
pub record IsRollup (start x : ℕ) (is : List Incident) (m : OrgMetricsDaily) : Type 0 where
  pub org_id : m.org_id ≡ x
  pub day : m.day ≡ start
  pub created : m.incidents_created ≡ count_where (began start x) is
  pub resolved : m.incidents_resolved ≡ count_where (ended start x) is
  pub mtta : IsStoredMean (spans (began start x) (λ i. i.acknowledged_at) is) m.mtta_seconds
  pub mttr : IsStoredMean (spans (ended start x) (λ i. i.resolved_at) is) m.mttr_seconds

abbrev mean_of : List (ℕ × ℕ) → Option Mean
mean_of [] = none
mean_of (s ∷ ss) =
    some (record { ends = ends (s ∷ ss); starts = starts (s ∷ ss); rows = length (s ∷ ss) })

add_span-mean_of :
    (start end : ℕ) (ss : List (ℕ × ℕ))
    → add_span (some end) start (mean_of ss) ≡ mean_of ((start, end) ∷ ss)
add_span-mean_of start end [] = ground arith
add_span-mean_of start end (s ∷ ss) = ground arith

stored_mean-mean_of : (ss : List (ℕ × ℕ)) → IsStoredMean ss (stored_mean (mean_of ss))
stored_mean-mean_of [] = inl (refl, refl)
stored_mean-mean_of (s ∷ ss) = elim (Bool-cases (ends (s ∷ ss) == starts (s ∷ ss))) [
  | inl e ↦ inl (rw e refl, ground (arith, e))
  | inr e ↦ inr ((λ q. absurd (ground (arith, e, q))), rw e refl)
]

module _ (p : Incident → Bool) (end_of : Incident → Option ℕ) where
  average-spans :
      (is : List Incident) → average end_of (select_where p is) ≡ mean_of (spans p end_of is)
  average-spans [] = refl
  average-spans (i ∷ is) = elim (Bool-cases (p i)) [
    | inl e ↦ elim (Option-cases (end_of i)) [
      | inl f ↦ rw (e, f) (average-spans is)
      | inr (t, f) ↦
          rw (e, f)
            (ap (add_span (some t) i.started_at) (average-spans is)
              ∙ add_span-mean_of i.started_at t (spans p end_of is))
    ]
    | inr e ↦ rw e (average-spans is)
  ]

module _ (x : ℕ) (q : Incident → Bool) where
  abbrev both : Incident → Bool
  both i = i.org_id == x && q i

  of_org-select : (is : List Incident) → of_org x (select_where q is) ≡ select_where both is
  of_org-select [] = refl
  of_org-select (i ∷ is) = ground (arith, of_org-select is)

  length-of_org : (is : List Incident) → length (of_org x (select_where q is)) ≡ count_where both is
  length-of_org [] = refl
  length-of_org (i ∷ is) = ground (arith, length-of_org is)

  mean-of_org :
      (end_of : Incident → Option ℕ) (is : List Incident)
      → IsStoredMean
          (spans both end_of is)
          (stored_mean (average end_of (of_org x (select_where q is))))
  mean-of_org end_of is =
      rw (of_org-select is, average-spans both end_of is)
        (stored_mean-mean_of (spans both end_of is))

metrics_row-IsRollup :
    (start x : ℕ) (is : List Incident) → IsRollup start x is (metrics_row start is x)
metrics_row-IsRollup start x is = record {
  org_id = refl;
  day = refl;
  created = length-of_org x (created_in start) is;
  resolved = length-of_org x (resolved_in start) is;
  mtta = mean-of_org x (created_in start) (λ i. i.acknowledged_at) is;
  mttr = mean-of_org x (resolved_in start) (λ i. i.resolved_at) is;
}

abbrev pub is_active : ℕ → ℕ → List Incident → Bool
is_active start x is = exists_where (λ i. began start x i || ended start x i) is

has_org-is_active :
    (start x : ℕ) (is : List Incident) → has_org x (metric_rows start is) ≡ is_active start x is
has_org-is_active start x [] = refl
has_org-is_active start x (i ∷ is) = ground (arith, has_org-is_active start x is)

-- The rollup of a given day, for any organisation. If an incident of it began or was resolved on the
-- day, the row for the day has the numbers of these incidents and the means of the times to
-- acknowledge those that began and to resolve those that were resolved, a mean of zero as null,
-- whatever stood there before. If not, the row for the day is as it was.
pub compute_daily_metrics_for-IsRollup :
    (env : Env) (start x : ℕ) (s : Session)
    → ((is_active start x s.db.incidents ≡ true)
        × ((m : OrgMetricsDaily) × (find
                (is_metrics x start)
                (written (compute_daily_metrics_for env (some start)) s).daily_metrics
              ≡ some m)
            × IsRollup start x s.db.incidents m))
      ⊎ ((is_active start x s.db.incidents ≡ false)
          × (find
                (is_metrics x start)
                (written (compute_daily_metrics_for env (some start)) s).daily_metrics
              ≡ find (is_metrics x start) s.db.daily_metrics))
compute_daily_metrics_for-IsRollup env start x s =
    let e = has_org-is_active start x s.db.incidents in
    let w = compute_daily_metrics_for-rows env start x s in
    elim (Bool-cases (has_org x (metric_rows start s.db.incidents))) [
      | inl h ↦ inl (
        sym e ∙ h,
        (
          metrics_row start s.db.incidents x,
          w ∙ rw h refl,
          metrics_row-IsRollup start x s.db.incidents,
        ),
      )
      | inr h ↦ inr (sym e ∙ h, w ∙ rw h refl)
    ]
