-- ===== src/OnCall/Disjoint.antt =====
-- The shifts of a schedule never overlap, so at most one shift covers a moment.
use incident_desk.Prelude.{
  ℕ, ◌+◌, ◌≤◌, ◌≡◌, refl, Bool, true, false, none, some, List, [], ◌∷◌, ◌++◌, arith, find,
  delete_where, count_where, if◌then◌else◌, Bool-cases, Option-cases, inl, inr,
}
use incident_desk.Models.{Organization, Membership, OnCallSchedule, OnCallShift}
use incident_desk.Errors.{not_found, shift_overlap, not_a_member}
use incident_desk.Members.{is_membership}
use incident_desk.Session.{Database, Session, Env, Result, ok, err}
use incident_desk.Session.Keeping.{Keeps, Kept, Always, keeping}
use incident_desk.OnCall.{
  is_schedule, overlaps, violates, covers, get_schedule, add_shift, delete_shift,
}

-- Shifts end after they begin, and no two of one schedule overlap.
abbrev pub IsDisjoint : List OnCallShift → Type 0
IsDisjoint [] = Unit
IsDisjoint (x ∷ xs) = (violates x xs ≡ false) × IsDisjoint xs

abbrev pub HasDisjointShifts : Database → Type 0
HasDisjointShifts d = IsDisjoint d.shifts

-- a new shift that no row meets, at the end
add-violates :
    (x y : OnCallShift) (xs : List OnCallShift)
    → violates x xs ≡ false
    → overlaps y x ≡ false
    → violates x (xs ++ y ∷ []) ≡ false
add-violates x y [] h n = ground arith
add-violates x y (z ∷ xs) h n = ground (arith, add-violates x y xs)

add-IsDisjoint :
    (y : OnCallShift) (xs : List OnCallShift)
    → IsDisjoint xs
    → violates y xs ≡ false
    → IsDisjoint (xs ++ y ∷ [])
add-IsDisjoint y [] v h = (h, tt)
add-IsDisjoint y (x ∷ xs) v h =
    (add-violates x y xs v.0 (ground arith), add-IsDisjoint y xs v.1 (ground arith))

delete-violates :
    (p : OnCallShift → Bool) (x : OnCallShift) (xs : List OnCallShift)
    → violates x xs ≡ false
    → violates x (delete_where p xs) ≡ false
delete-violates p x [] h = h
delete-violates p x (y ∷ xs) h = ground (arith, delete-violates p x xs)

pub delete-IsDisjoint :
    (p : OnCallShift → Bool) (xs : List OnCallShift)
    → IsDisjoint xs
    → IsDisjoint (delete_where p xs)
delete-IsDisjoint p [] v = tt
delete-IsDisjoint p (x ∷ xs) v = elim (Bool-cases (p x)) [
  | inl e ↦ rw e (delete-IsDisjoint p xs v.1)
  | inr e ↦ rw e (delete-violates p x xs v.0, delete-IsDisjoint p xs v.1)
]

covers-none :
    (schedule moment : ℕ) (x : OnCallShift) (xs : List OnCallShift)
    → violates x xs ≡ false
    → covers schedule moment x ≡ true
    → count_where (covers schedule moment) xs ≡ 0
covers-none schedule moment x [] h c = refl
covers-none schedule moment x (y ∷ xs) h c = ground (arith, covers-none schedule moment x xs)

-- Where shifts are disjoint, at most one shift of a schedule covers a moment: one person at most is
-- on call.
pub covers_once :
    (schedule moment : ℕ) (xs : List OnCallShift)
    → IsDisjoint xs
    → count_where (covers schedule moment) xs ≤ 1
covers_once schedule moment [] v = omega arith
covers_once schedule moment (x ∷ xs) v =
    ground (arith, covers_once schedule moment xs, covers-none schedule moment x xs)

module _ (org : Organization) (schedule_id : ℕ) where
  pub delete_shift-Keeps :
      (shift_id : ℕ) → Keeps HasDisjointShifts (delete_shift org schedule_id shift_id)
  unfolding delete_shift get_schedule
  delete_shift-Keeps shift_id = search (keeping, delete-IsDisjoint) depth 9

  -- Deleting a shift keeps the shifts disjoint, whether it succeeds or fails.
  pub delete_shift-IsDisjoint :
      (shift_id : ℕ) (s : Session)
      → Always HasDisjointShifts s
      → Kept HasDisjointShifts (delete_shift org schedule_id shift_id s)
  delete_shift-IsDisjoint shift_id = (delete_shift-Keeps shift_id).at

module _ (env : Env) (org : Organization) (schedule_id user_id starts_at ends_at : ℕ)
    (s : Session) where
  -- the row that is added, for the id of the schedule
  abbrev shift_row : ℕ → OnCallShift
  shift_row id = record {
    id = env.uuid s.draws;
    schedule_id = id;
    user_id = user_id;
    starts_at = starts_at;
    ends_at = ends_at;
  }

  abbrev attempted : OnCallSchedule → Result OnCallShift × Session
  attempted c =
      if violates (shift_row c.id) s.db.shifts
      then (err shift_overlap, record s { draws = s.draws + 1 })
      else (
        ok (shift_row c.id),
        record s {
          db = record s.db { shifts = s.db.shifts ++ shift_row c.id ∷ [] };
          draws = s.draws + 1;
        },
      )

  add_shift-none :
      find (is_schedule org.id schedule_id) s.db.schedules ≡ none
      → add_shift env org schedule_id user_id starts_at ends_at s ≡ (err not_found, s)
  unfolding add_shift get_schedule
  add_shift-none e = ground arith

  add_shift-stranger :
      (c : OnCallSchedule)
      → find (is_schedule org.id schedule_id) s.db.schedules ≡ some c
      → find (is_membership user_id org.id) s.db.memberships ≡ none
      → add_shift env org schedule_id user_id starts_at ends_at s ≡ (err not_a_member, s)
  unfolding add_shift get_schedule
  add_shift-stranger c e f = ground arith

  add_shift-some :
      (c : OnCallSchedule) (m : Membership)
      → find (is_schedule org.id schedule_id) s.db.schedules ≡ some c
      → find (is_membership user_id org.id) s.db.memberships ≡ some m
      → add_shift env org schedule_id user_id starts_at ends_at s ≡ attempted c
  unfolding add_shift get_schedule
  add_shift-some c m e f = ground arith

  attempted-Kept :
      (c : OnCallSchedule) → Always HasDisjointShifts s → Kept HasDisjointShifts (attempted c)
  attempted-Kept c h = elim (Bool-cases (violates (shift_row c.id) s.db.shifts)) [
    | inl v ↦ rw v h.1
    | inr v ↦ rw v (add-IsDisjoint (shift_row c.id) s.db.shifts h.0 v, h.1)
  ]

  -- Adding a shift keeps the shifts disjoint, whether it succeeds or fails.
  pub add_shift-IsDisjoint :
      Always HasDisjointShifts s
      → Kept HasDisjointShifts (add_shift env org schedule_id user_id starts_at ends_at s)
  add_shift-IsDisjoint h =
      elim (Option-cases (find (is_schedule org.id schedule_id) s.db.schedules)) [
        | inl e ↦ rw (add_shift-none e) h.1
        | inr (c, e) ↦ elim (Option-cases (find (is_membership user_id org.id) s.db.memberships)) [
          | inl f ↦ rw (add_shift-stranger c e f) h.1
          | inr (m, f) ↦ rw (add_shift-some c m e f) (attempted-Kept c h)
        ]
      ]
