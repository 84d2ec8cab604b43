-- ===== src/Paging/Sorted.antt =====
-- The order of a listing: rows that the order tells apart are listed strictly in order, and a
-- selection of the listing is the listing of the selection.
use incident_desk.Prelude.{
  ◌≡◌, refl, sym, ap, Bool, true, false, ◌&&◌, ◌⊎◌, inl, inr, List, [], ◌∷◌, All, arith,
  select_where, Bool-cases,
}
use incident_desk.Paging.{Keyset, before, insert_row, order_rows}

module _ {A C : Type 0} (k : Keyset A C) where
  abbrev pub Comparable : A → A → Type 0
  Comparable x y = (before k x y ≡ true) ⊎ (before k y x ≡ true)

  -- The order tells any two rows apart.
  abbrev pub IsTotal : List A → Type 0
  IsTotal [] = Unit
  IsTotal (x ∷ xs) = All (Comparable x) xs × IsTotal xs

  abbrev pub IsSorted : List A → Type 0
  IsSorted [] = Unit
  IsSorted (x ∷ xs) = All (λ y. before k x y ≡ true) xs × IsSorted xs

  pub All-insert_row :
      (P : A → Type 0) (x : A) (ys : List A) → P x → All P ys → All P (insert_row k x ys)
  All-insert_row P x [] px v = (px, tt)
  All-insert_row P x (y ∷ ys) px v = elim (Bool-cases (before k x y)) [
    | inl e ↦ rw e (px, v)
    | inr e ↦ rw e (v.0, All-insert_row P x ys px v.1)
  ]

  pub All-order_rows : (P : A → Type 0) (xs : List A) → All P xs → All P (order_rows k xs)
  All-order_rows P [] v = tt
  All-order_rows P (x ∷ xs) v = All-insert_row P x (order_rows k xs) v.0 (All-order_rows P xs v.1)

  All-before :
      (x y : A) (zs : List A)
      → before k x y ≡ true
      → All (λ z. before k y z ≡ true) zs
      → All (λ z. before k x z ≡ true) zs
  All-before x y [] e v = tt
  All-before x y (z ∷ zs) e v = (k.past_trans x y z e v.0, All-before x y zs e v.1)

  insert_row-IsSorted :
      (x : A) (ys : List A) → All (Comparable x) ys → IsSorted ys → IsSorted (insert_row k x ys)
  insert_row-IsSorted x [] c v = (tt, tt)
  insert_row-IsSorted x (y ∷ ys) c v = elim (Bool-cases (before k x y)) [
    | inl e ↦ rw e ((e, All-before x y ys e v.0), v)
    | inr e ↦ rw e (
      All-insert_row (λ z. before k y z ≡ true) x ys (elim c.0 [ inl p ↦ cc | inr p ↦ p ]) v.0,
      insert_row-IsSorted x ys c.1 v.1,
    )
  ]

  pub order_rows-IsSorted : (xs : List A) → IsTotal xs → IsSorted (order_rows k xs)
  order_rows-IsSorted [] v = tt
  order_rows-IsSorted (x ∷ xs) v =
      insert_row-IsSorted x (order_rows k xs) (All-order_rows (Comparable x) xs v.0)
        (order_rows-IsSorted xs v.1)

  -- Selections.
  pub All-select :
      (P : A → Type 0) (p : A → Bool) (xs : List A) → All P xs → All P (select_where p xs)
  All-select P p [] v = tt
  All-select P p (x ∷ xs) v = elim (Bool-cases (p x)) [
    | inl e ↦ rw e (v.0, All-select P p xs v.1)
    | inr e ↦ rw e (All-select P p xs v.1)
  ]

  pub select-IsTotal : (p : A → Bool) (xs : List A) → IsTotal xs → IsTotal (select_where p xs)
  select-IsTotal p [] v = tt
  select-IsTotal p (x ∷ xs) v = elim (Bool-cases (p x)) [
    | inl e ↦ rw e (All-select (Comparable x) p xs v.0, select-IsTotal p xs v.1)
    | inr e ↦ rw e (select-IsTotal p xs v.1)
  ]

  pub select-and :
      (p q : A → Bool) (xs : List A)
      → select_where (λ x. p x && q x) xs ≡ select_where q (select_where p xs)
  select-and p q [] = refl
  select-and p q (x ∷ xs) = ground (arith, select-and p q xs)

  insert_row-front :
      (x : A) (ys : List A) → All (λ y. before k x y ≡ true) ys → insert_row k x ys ≡ x ∷ ys
  insert_row-front x [] v = refl
  insert_row-front x (y ∷ ys) v = rw v.0

  select-insert_row :
      (p : A → Bool) (x : A) (ys : List A)
      → IsSorted ys
      → p x ≡ true
      → select_where p (insert_row k x ys) ≡ insert_row k x (select_where p ys)
  select-insert_row p x [] v e = rw e
  select-insert_row p x (y ∷ ys) v e = elim (Bool-cases (before k x y)) [
    | inl b ↦ elim (Bool-cases (p y)) [
      | inl q ↦ rw (b, e, q) (rw b)
      | inr q ↦
          rw (b, e, q)
            (sym (
              insert_row-front x (select_where p ys)
                (All-select (λ z. before k x z ≡ true) p ys (All-before x y ys b v.0))))
    ]
    | inr b ↦ ground (arith, select-insert_row p x ys v.1 e)
  ]

  select-insert_row_out :
      (p : A → Bool) (x : A) (ys : List A)
      → p x ≡ false
      → select_where p (insert_row k x ys) ≡ select_where p ys
  select-insert_row_out p x [] e = rw e
  select-insert_row_out p x (y ∷ ys) e = ground (arith, select-insert_row_out p x ys e)

  pub select-order_rows :
      (p : A → Bool) (xs : List A)
      → IsTotal xs
      → order_rows k (select_where p xs) ≡ select_where p (order_rows k xs)
  select-order_rows p [] v = refl
  select-order_rows p (x ∷ xs) v = elim (Bool-cases (p x)) [
    | inl e ↦
        rw (e, select-insert_row p x (order_rows k xs) (order_rows-IsSorted xs v.1) e)
          (ap (insert_row k x) (select-order_rows p xs v.1))
    | inr e ↦ rw (e, select-insert_row_out p x (order_rows k xs) e) (select-order_rows p xs v.1)
  ]
