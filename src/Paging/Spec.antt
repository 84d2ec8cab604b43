-- ===== src/Paging/Spec.antt =====
-- What pagination promises: a client that follows the cursors has seen each wanted row once, in
-- order. The promise names neither pages nor cursors.
use incident_desk.Prelude.{
  ℕ, suc, sym, Bool, none, List, [], ◌∷◌, length, select_where, Bool-cases, inl, inr,
}
use mathlib.Core.List.{Perm}
use mathlib.Core.List.Perm
use mathlib.Core.Path.{subst}
use incident_desk.Paging.{Keyset, before, insert_row, order_rows, listing_of, walk}
use incident_desk.Paging.Sorted.{IsTotal, IsSorted, select-IsTotal, order_rows-IsSorted}
use incident_desk.Paging.Walk.{walk-listing_of}

module _ {A C : Type 0} (k : Keyset A C) where
  insert_row-Perm : (x : A) (ys : List A) → Perm (insert_row k x ys) (x ∷ ys)
  insert_row-Perm x [] = Perm.rfl
  insert_row-Perm x (y ∷ ys) = elim (Bool-cases (before k x y)) [
    | inl e ↦ rw e Perm.rfl
    | inr e ↦ rw e (Perm.trans (Perm.cons y (insert_row-Perm x ys)) (Perm.swap x y ys))
  ]

  order_rows-Perm : (xs : List A) → Perm (order_rows k xs) xs
  order_rows-Perm [] = Perm.rfl
  order_rows-Perm (x ∷ xs) =
      Perm.trans (insert_row-Perm x (order_rows k xs)) (Perm.cons x (order_rows-Perm xs))

  -- `seen` has each wanted row once, in the order of the listing.
  abbrev pub IsListing : (A → Bool) → List A → List A → Type 0
  IsListing wanted rows seen = IsSorted k seen × Perm seen (select_where wanted rows)

  listing_of-IsListing :
      (wanted : A → Bool) (rows : List A)
      → IsTotal k rows
      → IsListing wanted rows (listing_of k wanted rows)
  unfolding listing_of
  listing_of-IsListing wanted rows total = (
    order_rows-IsSorted k (select_where wanted rows) (select-IsTotal k wanted rows total),
    order_rows-Perm (select_where wanted rows),
  )

  -- the requests that are enough: one more than there are rows
  abbrev pub enough : (A → Bool) → List A → ℕ
  enough wanted rows = suc (length (listing_of k wanted rows))

  pub walk-IsListing :
      (wanted : A → Bool) (rows : List A)
      → IsTotal k rows
      → (m : ℕ) → IsListing wanted rows (walk k wanted (suc m) rows (enough wanted rows) none)
  walk-IsListing wanted rows total m =
      subst (IsListing wanted rows) (sym (walk-listing_of k wanted rows total m))
        (listing_of-IsListing wanted rows total)
