-- ===== src/Prelude/Tables.antt =====
-- A table is the list of its rows. `find` is `SELECT ... LIMIT 1`, `select_where` a `SELECT`,
-- `update_where` an `UPDATE` and `delete_where` a `DELETE`, each with its `WHERE` as a test.
use Prim.Native.Nat.{ℕ, suc, ◌+◌}
use mathlib.Core.Logic.{inl, inr}
use mathlib.Core.Path.{subst, ◌≡◌, refl, ap}
use mathlib.Core.Bool.{Bool, true, false, not, ◌||◌}
use mathlib.Core.Option.{Option, none, some}
use mathlib.Core.List.{List, [], ◌∷◌, ◌++◌}
use native.Mathlib.Omega.{arith}
use incident_desk.Prelude.Tests.{is_some, Bool-cases, if◌then◌else◌}
use incident_desk.Prelude.Lists.{All, length}

module _ {ℓ} {A : Type ℓ} where
  abbrev pub find : (A → Bool) → List A → Option A
  find p [] = none
  find p (x ∷ xs) = if p x then some x else find p xs

  abbrev pub select_where : (A → Bool) → List A → List A
  select_where p [] = []
  select_where p (x ∷ xs) = let rest = select_where p xs in if p x then x ∷ rest else rest

  abbrev pub update_where : (A → Bool) → (A → A) → List A → List A
  update_where p f [] = []
  update_where p f (x ∷ xs) = (if p x then f x else x) ∷ update_where p f xs

  abbrev pub delete_where : (A → Bool) → List A → List A
  delete_where p xs = select_where (λ x. not (p x)) xs

  abbrev pub count_where : (A → Bool) → List A → ℕ
  count_where p [] = 0
  count_where p (x ∷ xs) = (if p x then 1 else 0) + count_where p xs

  -- `ORDER BY`, where rows that are equal in the order keep theirs
  abbrev pub insert_by : (A → A → Bool) → A → List A → List A
  insert_by before x [] = x ∷ []
  insert_by before x (y ∷ ys) =
      let rest = insert_by before x ys in if before y x then y ∷ rest else x ∷ y ∷ ys

  abbrev pub order_by : (A → A → Bool) → List A → List A
  order_by before [] = []
  order_by before (x ∷ xs) = insert_by before x (order_by before xs)

  abbrev pub exists_where : (A → Bool) → List A → Bool
  exists_where p [] = false
  exists_where p (x ∷ xs) = p x || exists_where p xs

module _ {ℓ} {A : Type ℓ} (p : A → Bool) where
  pub find-holds : (xs : List A) (a : A) → find p xs ≡ some a → p a ≡ true
  find-holds [] a h = cc
  find-holds (x ∷ xs) a h = ground (arith, find-holds xs a)

  -- The row that is found has what all rows have.
  pub find-All {κ} : (P : A → Type κ) (xs : List A) (a : A) → All P xs → find p xs ≡ some a → P a
  find-All P [] a v h = cc
  find-All P (x ∷ xs) a v h = elim (Bool-cases (p x)) [
    | inl e ↦ let q : x ≡ a = ground arith in subst P q v.0
    | inr e ↦ find-All P xs a v.1 (ground arith)
  ]

  pub update_where-All {κ} :
      (P : A → Type κ) (f : A → A)
      → ((x : A) → P x → P (f x))
      → (xs : List A) → All P xs
      → All P (update_where p f xs)
  update_where-All P f k [] v = tt
  update_where-All P f k (x ∷ xs) v = elim (Bool-cases (p x)) [
    | inl e ↦ (rw e (k x v.0), update_where-All P f k xs v.1)
    | inr e ↦ (rw e v.0, update_where-All P f k xs v.1)
  ]

  -- An update of the found row is found in its place, if no update changes what is looked for.
  pub find-update_where :
      (q : A → Bool) (f : A → A) (k : (x : A) → p (f x) ≡ p x) (xs : List A) (a : A)
      → find p xs ≡ some a
      → q a ≡ true
      → find p (update_where q f xs) ≡ some (f a)
  find-update_where q f k [] a h t = cc
  find-update_where q f k (x ∷ xs) a h t = elim (Bool-cases (p x)) [
    | inl e ↦ let g : x ≡ a = ground arith in ground (arith, k x, ap q g, ap f g)
    | inr e ↦ ground (arith, k x, find-update_where q f k xs a (ground arith) t)
  ]

  pub length-update_where : (f : A → A) (xs : List A) → length (update_where p f xs) ≡ length xs
  length-update_where f [] = refl
  length-update_where f (x ∷ xs) = ap suc (length-update_where f xs)

  pub find-head : (x : A) (xs : List A) → p x ≡ true → find p (x ∷ xs) ≡ some x
  find-head x xs h = rw h

  pub find-append : (xs ys : List A) → find p xs ≡ none → find p (xs ++ ys) ≡ find p ys
  find-append [] ys h = refl
  find-append (x ∷ xs) ys h = ground (arith, find-append xs ys)

  pub find-append_some : (xs ys : List A) (a : A) → find p xs ≡ some a → find p (xs ++ ys) ≡ some a
  find-append_some [] ys a h = cc
  find-append_some (x ∷ xs) ys a h = ground (arith, find-append_some xs ys a)

  pub count_where-append :
      (xs ys : List A) → count_where p (xs ++ ys) ≡ count_where p xs + count_where p ys
  count_where-append [] ys = omega arith
  count_where-append (x ∷ xs) ys = omega (arith, count_where-append xs ys)

module _ {ℓ} {A : Type ℓ} (q : A → Bool) (a : A) (t : q a ≡ true) where
  -- Overwriting the rows that a test finds leaves one that it finds.
  pub find-overwritten_some :
      (xs : List A)
      → is_some (find q xs) ≡ true
      → is_some (find q (update_where q (λ _. a) xs)) ≡ true
  find-overwritten_some [] h = cc
  find-overwritten_some (x ∷ xs) h = ground (arith, find-overwritten_some xs)

  -- After that, what the new row has and only such rows have finds the new row.
  pub find-overwritten :
      (p : A → Bool) (k : (x : A) → p x ≡ true → q x ≡ true) (xs : List A)
      → p a ≡ true
      → is_some (find q xs) ≡ true
      → find p (update_where q (λ _. a) xs) ≡ some a
  find-overwritten p k [] e h = cc
  find-overwritten p k (x ∷ xs) e h = elim (Bool-cases (q x)) [
    | inl g ↦ ground arith
    | inr g ↦ ground (arith, k x, find-overwritten p k xs e (ground arith))
  ]

module _ {ℓ} {A : Type ℓ} (p : A → Bool) where
  -- a row that passes, among the first rows or the last
  pub exists_where-left :
      (xs ys : List A) → exists_where p xs ≡ true → exists_where p (xs ++ ys) ≡ true
  exists_where-left [] ys h = cc
  exists_where-left (x ∷ xs) ys h = ground (arith, exists_where-left xs ys)

  pub exists_where-right :
      (xs ys : List A) → exists_where p ys ≡ true → exists_where p (xs ++ ys) ≡ true
  exists_where-right [] ys h = h
  exists_where-right (x ∷ xs) ys h = ground (arith, exists_where-right xs ys h)
