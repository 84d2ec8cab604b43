-- ===== src/Paging/Keys.antt =====
-- The two orders of the listings: by a number, oldest first, and by a time and an id, newest first.
use incident_desk.Prelude.{
  ℕ, ltb, ◌==◌, ◌≡◌, ◌≢◌, Bool, true, false, ◌||◌, ◌&&◌, inl, inr, List, [], ◌∷◌, All, arith,
  Bool-cases,
}
use incident_desk.Paging.{Keyset}
use incident_desk.Paging.Sorted.{IsTotal, Comparable}

-- Rows with distinct values.
abbrev pub IsDistinct : {A : Type 0} → (A → ℕ) → List A → Type 0
IsDistinct f [] = Unit
IsDistinct f (x ∷ xs) = All (λ y. f x ≢ f y) xs × IsDistinct f xs

module _ {A : Type 0} (seq : A → ℕ) where
  pub ltb_irrefl : (x : A) → ltb (seq x) (seq x) ≡ false
  ltb_irrefl x = ground arith

  pub ltb_trans :
      (x y z : A)
      → ltb (seq x) (seq y) ≡ true
      → ltb (seq y) (seq z) ≡ true
      → ltb (seq x) (seq z) ≡ true
  ltb_trans x y z a b = ground arith

  -- `seq > pivot`, `ORDER BY seq`
  abbrev pub by_seq : Keyset A ℕ
  by_seq = record {
    past = λ pivot x. ltb pivot (seq x);
    cursor_of = seq;
    past_irrefl = ltb_irrefl;
    past_trans = ltb_trans;
  }

  seq-Comparable :
      (x : A) (xs : List A) → All (λ y. seq x ≢ seq y) xs → All (Comparable by_seq x) xs
  seq-Comparable x [] v = tt
  seq-Comparable x (y ∷ xs) v = (
    elim (Bool-cases (ltb (seq x) (seq y))) [
      | inl e ↦ inl e
      | inr e ↦ inr (let n = v.0 in ground arith)
    ],
    seq-Comparable x xs v.1,
  )

  pub seq-IsTotal : (xs : List A) → IsDistinct seq xs → IsTotal by_seq xs
  seq-IsTotal [] v = tt
  seq-IsTotal (x ∷ xs) v = (seq-Comparable x xs v.0, seq-IsTotal xs v.1)

module _ {A : Type 0} (time id : A → ℕ) where
  -- the row stands after the pair in (time DESC, id DESC)
  abbrev pub is_older : ℕ × ℕ → A → Bool
  is_older c x = ltb (time x) c.0 || (time x == c.0 && ltb (id x) c.1)

  abbrev pub pair_of : A → ℕ × ℕ
  pair_of x = (time x, id x)

  pub is_older_irrefl : (x : A) → is_older (pair_of x) x ≡ false
  is_older_irrefl x = ground arith

  pub is_older_trans :
      (x y z : A)
      → is_older (pair_of x) y ≡ true
      → is_older (pair_of y) z ≡ true
      → is_older (pair_of x) z ≡ true
  is_older_trans x y z a b = ground arith

  -- `ORDER BY time DESC, id DESC`
  abbrev pub newest_first : Keyset A (ℕ × ℕ)
  newest_first = record {
    past = is_older;
    cursor_of = pair_of;
    past_irrefl = is_older_irrefl;
    past_trans = is_older_trans;
  }

  id-Comparable :
      (x : A) (xs : List A) → All (λ y. id x ≢ id y) xs → All (Comparable newest_first x) xs
  id-Comparable x [] v = tt
  id-Comparable x (y ∷ xs) v = (
    elim (Bool-cases (is_older (pair_of x) y)) [
      | inl e ↦ inl e
      | inr e ↦ inr (let n = v.0 in ground arith)
    ],
    id-Comparable x xs v.1,
  )

  pub id-IsTotal : (xs : List A) → IsDistinct id xs → IsTotal newest_first xs
  id-IsTotal [] v = tt
  id-IsTotal (x ∷ xs) v = (id-Comparable x xs v.0, id-IsTotal xs v.1)
