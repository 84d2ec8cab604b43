-- ===== src/Paging/Walk.antt =====
-- Following the cursors visits every row of the listing once, in order.
use incident_desk.Prelude.{
  ℕ, zero, suc, ◌+◌, ◌<◌, ◌≤◌, ltb, ◌≡◌, refl, sym, ap, ◌∙◌, Bool, true, ◌&&◌, inl, inr, Option,
  none, some, List, [], ◌∷◌, ◌++◌, All, arith, take, length, length-append, last_or, select_where,
  Bool-cases,
}
use mathlib.Core.List.{append_assoc, append-nil}
use mathlib.Core.Path.{fun_ext, subst}
use incident_desk.Paging.{
  Keyset, before, order_rows, beyond, last_cursor, cut_page, listing_of, page_of, follow, walk,
}
use incident_desk.Paging.Sorted.{
  IsTotal, IsSorted, select-and, select-order_rows, select-IsTotal, order_rows-IsSorted,
}

-- A list longer than `m + 1` splits after its row of that index.
module _ {A : Type 0} where
  take-all : (n : ℕ) (xs : List A) → length xs ≤ n → take n xs ≡ xs
  take-all zero [] h = refl
  take-all zero (x ∷ xs) h = absurd (omega arith)
  take-all (suc n) [] h = refl
  take-all (suc n) (x ∷ xs) h = ap (◌∷◌ x) (take-all n xs (omega arith))

  length-take : (n : ℕ) (xs : List A) → n < length xs → length (take n xs) ≡ n
  length-take zero xs h = refl
  length-take (suc n) [] h = absurd (omega arith)
  length-take (suc n) (x ∷ xs) h = omega (arith, length-take n xs (omega arith))

  take-take-suc : (n : ℕ) (xs : List A) → take n (take (suc n) xs) ≡ take n xs
  take-take-suc zero xs = refl
  take-take-suc (suc n) [] = refl
  take-take-suc (suc n) (x ∷ xs) = ap (◌∷◌ x) (take-take-suc n xs)

  split_after :
      (m : ℕ) (zs : List A)
      → suc m < length zs
      → (ws : List A) × (a : A) × (rest : List A) × (zs ≡ ws ++ a ∷ rest)
        × (take (suc m) zs ≡ ws ++ a ∷ [])
  split_after zero [] h = absurd (omega arith)
  split_after zero (z ∷ zs) h = ([], z, zs, refl, refl)
  split_after (suc m) [] h = absurd (omega arith)
  split_after (suc m) (z ∷ zs) h =
      let (ws, a, rest, e, t) = split_after m zs (omega arith) in
      (z ∷ ws, a, rest, ap (◌∷◌ z) e, ap (◌∷◌ z) t)

  last_or-append : (d a : A) (ws : List A) → last_or d (ws ++ a ∷ []) ≡ a
  last_or-append d a [] = refl
  last_or-append d a (w ∷ ws) = last_or-append w a ws

module _ {A C : Type 0} (k : Keyset A C) where
  last_cursor-append : (ws : List A) (a : A) → last_cursor k (ws ++ a ∷ []) ≡ some (k.cursor_of a)
  last_cursor-append [] a = refl
  last_cursor-append (w ∷ ws) a = ap (λ x. some (k.cursor_of x)) (last_or-append w a ws)

  -- a page that holds all the rows that are left
  cut_page-last :
      (m : ℕ) (zs : List A)
      → length zs ≤ suc m
      → cut_page k (suc m) (take (suc m + 1) zs) ≡ (zs, none)
  cut_page-last m zs h =
      let t : take (suc m + 1) zs ≡ zs = take-all (suc m + 1) zs (omega arith) in
      rw t (ground arith)

  -- a page with another one after it
  cut_page-more :
      (m : ℕ) (ws : List A) (a : A) (zs : List A)
      → suc m < length zs
      → take (suc m) zs ≡ ws ++ a ∷ []
      → cut_page k (suc m) (take (suc m + 1) zs) ≡ (ws ++ a ∷ [], some (k.cursor_of a))
  cut_page-more m ws a zs h t =
      let e : take (suc m + 1) zs ≡ take (suc (suc m)) zs =
        let o : suc m + 1 ≡ suc (suc m) = omega arith in ap (λ (n : ℕ). take n zs) o in
      let l : suc m < length (take (suc (suc m)) zs) = longer m zs h in
      rw e (ground (arith, take-take-suc (suc m) zs, t, last_cursor-append ws a))
    where
      longer : (m : ℕ) (zs : List A) → suc m < length zs → suc m < length (take (suc (suc m)) zs)
      longer m [] h = absurd (omega arith)
      longer zero (z ∷ []) h = absurd (omega arith)
      longer zero (z ∷ y ∷ zs) h = omega arith
      longer (suc m) (z ∷ zs) h = omega (arith, longer m zs (omega arith))

  select-All : (p : A → Bool) (xs : List A) → All (λ x. p x ≡ true) xs → select_where p xs ≡ xs
  select-All p [] v = refl
  select-All p (x ∷ xs) v = rw v.0 (ap (◌∷◌ x) (select-All p xs v.1))

  All-member : (P : A → Type 0) (xs : List A) (a : A) (zs : List A) → All P (xs ++ a ∷ zs) → P a
  All-member P [] a zs v = v.0
  All-member P (x ∷ xs) a zs v = All-member P xs a zs v.1

  -- What stands after a row of the listing is what the row's cursor selects.
  select-past :
      (xs : List A) (a : A) (zs : List A)
      → IsSorted k (xs ++ a ∷ zs)
      → select_where (before k a) (xs ++ a ∷ zs) ≡ zs
  select-past [] a zs v = rw (k.past_irrefl a) (select-All (before k a) zs v.0)
  select-past (x ∷ xs) a zs v =
      let ahead : before k x a ≡ true = All-member (λ y. before k x y ≡ true) xs a zs v.0 in
      elim (Bool-cases (before k a x)) [
        | inl e ↦ absurd (cc (k.past_trans x a x ahead e, k.past_irrefl x))
        | inr e ↦ rw e (select-past xs a zs v.1)
      ]

  module _ (wanted : A → Bool) (limit : ℕ) (rows : List A) (total : IsTotal k rows) where
    -- the rows that a cursor leaves
    abbrev Leaves : Option C → List A → Type 0
    Leaves cursor zs = order_rows k (select_where (λ i. wanted i && beyond k cursor i) rows) ≡ zs

    Leaves-none : Leaves none (listing_of k wanted rows)
    unfolding listing_of
    Leaves-none =
        ap (λ (p : A → Bool). order_rows k (select_where p rows)) (fun_ext (λ i. ground arith))

    Leaves-some :
        (xs : List A) (a : A) (zs : List A)
        → listing_of k wanted rows ≡ xs ++ a ∷ zs
        → Leaves (some (k.cursor_of a)) zs
    unfolding listing_of
    Leaves-some xs a zs e =
        let t = select-IsTotal k wanted rows total in
        let s = order_rows-IsSorted k (select_where wanted rows) t in
        ap (order_rows k) (select-and k wanted (before k a) rows)
        ∙ select-order_rows k (before k a) (select_where wanted rows) t
        ∙ ap (select_where (before k a)) e
        ∙ select-past xs a zs (subst (IsSorted k) e s)

    page-Leaves :
        (cursor : Option C) (zs : List A)
        → Leaves cursor zs
        → page_of k wanted limit cursor rows ≡ cut_page k limit (take (limit + 1) zs)
    unfolding page_of
    page-Leaves cursor zs v = ap (λ (l : List A). cut_page k limit (take (limit + 1) l)) v

  module _ (wanted : A → Bool) (rows : List A) (total : IsTotal k rows) (m : ℕ) where
    -- one step of a walk, given the page
    walk-suc :
        (fuel : ℕ) (cursor : Option C) (found : List A) (next : Option C)
        → page_of k wanted (suc m) cursor rows ≡ (found, next)
        → walk k wanted (suc m) rows (suc fuel) cursor
          ≡ found ++ follow next (walk k wanted (suc m) rows fuel)
    unfolding walk
    walk-suc fuel cursor found next e =
        ap (λ (p : List A × Option C). p.0 ++ follow p.1 (walk k wanted (suc m) rows fuel)) e

    walk-Leaves :
        (fuel : ℕ) (cursor : Option C) (xs zs : List A)
        → listing_of k wanted rows ≡ xs ++ zs
        → Leaves wanted (suc m) rows total cursor zs
        → length zs < fuel
        → walk k wanted (suc m) rows fuel cursor ≡ zs
    walk-Leaves zero cursor xs zs e v h = absurd (omega arith)
    walk-Leaves (suc fuel) cursor xs zs e v h = elim (Bool-cases (ltb (suc m) (length zs))) [
      | inr short ↦
          walk-suc fuel cursor zs none
            (page-Leaves wanted (suc m) rows total cursor zs v ∙ cut_page-last m zs (ground arith))
          ∙ append-nil zs
      | inl long ↦
          let (ws, a, rest, q, t) = split_after m zs (ground arith) in
          let e' : listing_of k wanted rows ≡ (xs ++ ws) ++ a ∷ rest =
            e ∙ ap (λ (l : List A). xs ++ l) q ∙ sym (append_assoc xs ws (a ∷ rest)) in
          let e'' : listing_of k wanted rows ≡ ((xs ++ ws) ++ a ∷ []) ++ rest =
            e' ∙ sym (append_assoc (xs ++ ws) (a ∷ []) rest) in
          let n : length rest < fuel = omega (arith, ap length q, length-append ws (a ∷ rest)) in
          walk-suc fuel cursor (ws ++ a ∷ []) (some (k.cursor_of a)) (
            page-Leaves wanted (suc m) rows total cursor zs v
            ∙ cut_page-more m ws a zs (ground arith) t)
          ∙ ap (λ (l : List A). (ws ++ a ∷ []) ++ l)
              (walk-Leaves fuel (some (k.cursor_of a)) ((xs ++ ws) ++ a ∷ []) rest e''
                (Leaves-some wanted (suc m) rows total (xs ++ ws) a rest e') n)
          ∙ append_assoc ws (a ∷ []) rest
          ∙ sym q
    ]

    pub walk-listing_of :
        walk k wanted (suc m) rows (suc (length (listing_of k wanted rows))) none
        ≡ listing_of k wanted rows
    walk-listing_of =
        walk-Leaves (suc (length (listing_of k wanted rows))) none [] (listing_of k wanted rows)
          refl (Leaves-none wanted (suc m) rows total) (omega arith)
