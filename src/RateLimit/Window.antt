-- ===== src/RateLimit/Window.antt =====
-- What the sliding window promises: no window holds more answered requests than the limit.
use incident_desk.Prelude.{
  ℕ, ◌+◌, ◌-◌, ◌*◌, ◌≤◌, ltb, ◌≡◌, refl, ap, ◌∙◌, String, Bool, true, false, none, some, List, [],
  ◌∷◌, arith, count_where, Bool-cases, inl, inr,
}
use incident_desk.RateLimit.{Redis, Documented, second, check, decide}

-- a request: its member and its time
abbrev pub Request : Type 0
Request = String × ℕ

-- newest first: at each time of the log, at most `limit` of its times are in the window up to then
abbrev pub IsWithin : ℕ → ℕ → List ℕ → Type 0
IsWithin limit width [] = Unit
IsWithin limit width (t ∷ ts) =
    (count_where (λ u. ltb (t - width) u) (t ∷ ts) ≤ limit) × IsWithin limit width ts

abbrev logged : Bool → ℕ → List ℕ → List ℕ
logged true t log = t ∷ log
logged false t log = log

abbrev has_room : ℕ → ℕ → ℕ → List ℕ → Bool
has_room limit width t log = ltb (count_where (λ u. ltb (t - width) u) log) limit

-- The sliding window without Redis: a request is allowed if the window up to it has fewer than
-- `limit` of the allowed ones.
unfoldable pub reference : ℕ → ℕ → List Request → List ℕ → List ℕ
reference limit width [] log = log
reference limit width (q ∷ qs) log =
    reference limit width qs (logged (has_room limit width q.1 log) q.1 log)

reference-IsWithin :
    (limit width : ℕ) (qs : List Request) (log : List ℕ)
    → IsWithin limit width log
    → IsWithin limit width (reference limit width qs log)
unfolding reference
reference-IsWithin limit width [] log within = within
reference-IsWithin limit width (q ∷ qs) log within =
    elim (Bool-cases (has_room limit width q.1 log)) [
      | inl e ↦ rw e (reference-IsWithin limit width qs (q.1 ∷ log) (ground arith, within))
      | inr e ↦ rw e (reference-IsWithin limit width qs log within)
    ]

module _ {S : Type 0} (r : Redis S) (key : String) (limit window : ℕ) where
  -- the times of the allowed requests, newest first, after those of a log
  unfoldable pub answered : List Request → S → List ℕ → List ℕ
  answered [] s log = log
  answered (q ∷ qs) s log =
      let d = check r key limit window q.0 q.1 s in answered qs d.1 (logged d.0.allowed q.1 log)

  -- the requests come in order of time, each with a member that the set does not have
  unfoldable pub IsRun : ℕ → List Request → S → Type 0
  IsRun from [] s = Unit
  IsRun from (q ∷ qs) s =
      (from ≤ q.1)
      × (r.zscore key q.0 s ≡ none)
      × IsRun q.1 qs (check r key limit window q.0 q.1 s).1

  -- the set counts the log, after any time from `from` on
  abbrev Counts : ℕ → List ℕ → S → Type 0
  Counts from log s = (u : ℕ) → from ≤ u → r.zcount key u s ≡ count_where (λ t. ltb u t) log

  module _ (laws : Documented r) where
    module _ (m : String) (at from : ℕ) (s : S) (log : List ℕ) (le : from ≤ at)
        (fresh : r.zscore key m s ≡ none) (counts : Counts (from - window * second) log s) where
      abbrev cutoff : ℕ
      cutoff = at - window * second

      abbrev trimmed : S
      trimmed = r.zremrangebyscore key cutoff s

      abbrev added : S
      added = r.zadd key m at trimmed

      abbrev kept : S
      kept = r.expire key window added

      trimmed-fresh : r.zscore key m trimmed ≡ none
      trimmed-fresh = laws.trim_score key m cutoff s fresh

      trimmed-Counts : Counts cutoff log trimmed
      trimmed-Counts u h = laws.trim_count key cutoff u s h ∙ counts u (omega arith)

      kept-Counts : Counts cutoff (at ∷ log) kept
      kept-Counts u h =
          let a = laws.expire_count key window u added in
          let b = laws.add_count key m at u trimmed trimmed-fresh in
          let c = trimmed-Counts u h in omega (arith, a, b, c)

      kept-score : r.zscore key m kept ≡ some at
      kept-score =
          laws.expire_score key m window added ∙ laws.add_score key m at trimmed trimmed-fresh

      removed-Counts : Counts cutoff log (r.zrem key m kept)
      removed-Counts u h =
          let a = laws.rem_count key m at u kept kept-score in
          let b = kept-Counts u h in omega (arith, a, b)

      card : r.zcard key added ≡ count_where (λ u. ltb cutoff u) log + 1
      card =
          let a = laws.add_card key m at trimmed trimmed-fresh in
          let b = laws.trim_card key cutoff s in
          let c = counts cutoff (omega arith) in omega (arith, a, b, c)

      step :
          let d = check r key limit window m at s in
          Counts cutoff (logged d.0.allowed at log) d.1
          × (d.0.allowed ≡ has_room limit (window * second) at log)
      unfolding check decide
      step = elim (Bool-cases (ltb limit (r.zcard key added))) [
        | inl e ↦ rw e (removed-Counts, ground (arith, card))
        | inr e ↦ rw e (kept-Counts, ground (arith, card))
      ]

    run :
        (qs : List Request) (from : ℕ) (s : S) (log : List ℕ)
        → IsRun from qs s
        → Counts (from - window * second) log s
        → answered qs s log ≡ reference limit (window * second) qs log
    unfolding answered IsRun reference
    run [] from s log h counts = refl
    run (q ∷ qs) from s log h counts =
        let (c, a) = step q.0 q.1 from s log h.0 h.1 counts in
        let d = check r key limit window q.0 q.1 s in
        run qs q.1 d.1 (logged d.0.allowed q.1 log) h.2 c
        ∙ ap (λ b. reference limit (window * second) qs (logged b q.1 log)) a

    -- Requests that come in order of time, each with a new member, to a limiter whose key is empty,
    -- while Redis answers as documented: those are allowed that the window without Redis allows, and
    -- at the time of each, at most `limit` of the allowed ones are in the window that ends there.
    pub answered-reference :
        (qs : List Request) (s : S)
        → IsRun 0 qs s
        → ((u : ℕ) → r.zcount key u s ≡ 0)
        → (answered qs s [] ≡ reference limit (window * second) qs [])
          × IsWithin limit (window * second) (answered qs s [])
    answered-reference qs s h empty =
        let w = run qs 0 s [] h (λ u _. empty u) in
        (w, rw w (reference-IsWithin limit (window * second) qs [] tt))
