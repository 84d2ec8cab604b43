-- ===== src/Members/Rows.antt =====
-- The membership table under the writes of services/members.py: the primary key, and the number of
-- owners.
use incident_desk.Prelude.{
  ℕ, ◌+◌, ◌≡◌, refl, Bool, true, false, none, some, List, [], ◌∷◌, ◌++◌, arith, find, update_where,
  delete_where, count_where, if◌then◌else◌, Bool-cases, inl, inr,
}
use incident_desk.Enums.{Role}
use incident_desk.Models.{Membership}
use incident_desk.Members.{is_membership, is_owner_of, with_role}

-- The primary key `(user_id, org_id)` of `memberships` names one row.
abbrev pub IsKeyed : List Membership → Type 0
IsKeyed [] = Unit
IsKeyed (m ∷ ms) = (find (is_membership m.user_id m.org_id) ms ≡ none) × IsKeyed ms

abbrev pub weight : Bool → ℕ
weight b = if b then 1 else 0

module _ (user_id org_id : ℕ) where
  -- the rows with the key
  abbrev key : Membership → Bool
  key = is_membership user_id org_id

  pub find-key :
      (m : Membership) (ms : List Membership)
      → key m ≡ true
      → find (is_membership m.user_id m.org_id) ms ≡ none
      → find key ms ≡ none
  find-key m [] h n = refl
  find-key m (x ∷ ms) h n = ground (arith, find-key m ms)

  pub update-none :
      (r : Role) (ms : List Membership)
      → find key ms ≡ none
      → update_where key (with_role r) ms ≡ ms
  update-none r [] n = refl
  update-none r (x ∷ ms) n = ground (arith, update-none r ms)

  pub delete-none : (ms : List Membership) → find key ms ≡ none → delete_where key ms ≡ ms
  delete-none [] n = refl
  delete-none (x ∷ ms) n = ground (arith, delete-none ms)

  -- A change of role changes the count by the row that the key finds, and by no other.
  pub count-update :
      (x : ℕ) (r : Role) (ms : List Membership) (m : Membership)
      → IsKeyed ms
      → find key ms ≡ some m
      → count_where (is_owner_of x) (update_where key (with_role r) ms) + weight (is_owner_of x m)
        ≡ count_where (is_owner_of x) ms + weight (is_owner_of x (with_role r m))
  count-update x r [] m v e = cc
  count-update x r (y ∷ ms) m v e = elim (Bool-cases (key y)) [
    | inl h ↦ ground (arith, update-none r ms (find-key y ms h v.0))
    | inr h ↦ rw h (
        let e' : find key ms ≡ some m = ground arith in omega (arith, count-update x r ms m v.1 e'))
  ]

  pub count-delete :
      (x : ℕ) (ms : List Membership) (m : Membership)
      → IsKeyed ms
      → find key ms ≡ some m
      → count_where (is_owner_of x) (delete_where key ms) + weight (is_owner_of x m)
        ≡ count_where (is_owner_of x) ms
  count-delete x [] m v e = cc
  count-delete x (y ∷ ms) m v e = elim (Bool-cases (key y)) [
    | inl h ↦ ground (arith, delete-none ms (find-key y ms h v.0))
    | inr h ↦
        rw h (
          let e' : find key ms ≡ some m = ground arith in omega (arith, count-delete x ms m v.1 e'))
  ]

-- Other keys see no difference.
find-update :
    (u o u' o' : ℕ) (r : Role) (ms : List Membership)
    → find (is_membership u o) ms ≡ none
    → find (is_membership u o) (update_where (is_membership u' o') (with_role r) ms) ≡ none
find-update u o u' o' r [] h = refl
find-update u o u' o' r (x ∷ ms) h = ground (arith, find-update u o u' o' r ms)

find-delete :
    (u o u' o' : ℕ) (ms : List Membership)
    → find (is_membership u o) ms ≡ none
    → find (is_membership u o) (delete_where (is_membership u' o') ms) ≡ none
find-delete u o u' o' [] h = refl
find-delete u o u' o' (x ∷ ms) h = ground (arith, find-delete u o u' o' ms)

find-add :
    (u o : ℕ) (m : Membership) (ms : List Membership)
    → find (is_membership u o) ms ≡ none
    → is_membership u o m ≡ false
    → find (is_membership u o) (ms ++ m ∷ []) ≡ none
find-add u o m [] h n = ground arith
find-add u o m (x ∷ ms) h n = ground (arith, find-add u o m ms)

pub update-IsKeyed :
    (u o : ℕ) (r : Role) (ms : List Membership)
    → IsKeyed ms
    → IsKeyed (update_where (is_membership u o) (with_role r) ms)
update-IsKeyed u o r [] v = tt
update-IsKeyed u o r (x ∷ ms) v =
    ground (arith, update-IsKeyed u o r ms v.1, find-update x.user_id x.org_id u o r ms v.0)

pub delete-IsKeyed :
    (u o : ℕ) (ms : List Membership) → IsKeyed ms → IsKeyed (delete_where (is_membership u o) ms)
delete-IsKeyed u o [] v = tt
delete-IsKeyed u o (x ∷ ms) v =
    ground (arith, delete-IsKeyed u o ms v.1, find-delete x.user_id x.org_id u o ms v.0)

pub add-IsKeyed :
    (m : Membership) (ms : List Membership)
    → IsKeyed ms
    → find (is_membership m.user_id m.org_id) ms ≡ none
    → IsKeyed (ms ++ m ∷ [])
add-IsKeyed m [] v n = (refl, tt)
add-IsKeyed m (x ∷ ms) v n =
    ground (arith, add-IsKeyed m ms v.1, find-add x.user_id x.org_id m ms v.0)
