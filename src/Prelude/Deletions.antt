-- ===== src/Prelude/Deletions.antt =====
-- What a `DELETE` leaves of a table, as a relation.
use Prim.Native.Nat.{ℕ, suc}
use mathlib.Core.Logic.{inl, inr}
use mathlib.Core.Path.{◌≡◌, refl}
use mathlib.Core.Bool.{Bool, true, false}
use mathlib.Core.List.{List, [], ◌∷◌, ◌++◌}
use native.Mathlib.Omega.{arith}
use incident_desk.Prelude.Tests.{Bool-cases}
use incident_desk.Prelude.Lists.{length}
use incident_desk.Prelude.Tables.{select_where, delete_where}

-- The second list has the rows of the first, in their order, without as many as the number says; the
-- rows that are left satisfy `Stay`, and those that are not satisfy `Gone`.
pub data Thinned {A : Type 0} (Stay Gone : A → Type 0) : List A → List A → ℕ → Type 0 where
  nothing : Thinned Stay Gone [] [] 0
  stays :
      {x : A} {xs ys : List A} {n : ℕ}
      → Stay x
      → Thinned Stay Gone xs ys n
      → Thinned Stay Gone (x ∷ xs) (x ∷ ys) n
  goes :
      {x : A} {xs ys : List A} {n : ℕ}
      → Gone x
      → Thinned Stay Gone xs ys n
      → Thinned Stay Gone (x ∷ xs) ys (suc n)

module _ {A : Type 0} (Stay Gone : A → Type 0) (p : A → Bool) where
  pub delete_where-Thinned :
      ((x : A) → p x ≡ false → Stay x)
      → ((x : A) → p x ≡ true → Gone x)
      → (xs : List A) → Thinned Stay Gone xs (delete_where p xs) (length (select_where p xs))
  delete_where-Thinned s g [] = nothing
  delete_where-Thinned s g (x ∷ xs) = elim (Bool-cases (p x)) [
    | inl e ↦ rw e (goes (g x e) (delete_where-Thinned s g xs))
    | inr e ↦ rw e (stays (s x e) (delete_where-Thinned s g xs))
  ]

module _ {A : Type 0} (Gone : A → Type 0) (p : A → Bool) (k : (x : A) → p x ≡ true → Gone x) where
  -- a deletion after others
  pub Thinned-delete_where :
      {xs ys : List A} {n : ℕ}
      → Thinned (λ _. Unit) Gone xs ys n
      → (m : ℕ) × Thinned (λ _. Unit) Gone xs (delete_where p ys) m
  Thinned-delete_where nothing = (0, nothing)
  Thinned-delete_where (goes g t) = let (m, r) = Thinned-delete_where t in (suc m, goes g r)
  Thinned-delete_where (stays {x} u t) =
      let (m, r) = Thinned-delete_where t in
      elim (Bool-cases (p x)) [
        | inl e ↦ (suc m, rw e (goes (k x e) r))
        | inr e ↦ (m, rw e (stays tt r))
      ]

module _ {A : Type 0} (Gone : A → Type 0) where
  pub all-Thinned : (xs : List A) → Thinned (λ _. Unit) Gone xs xs 0
  all-Thinned [] = nothing
  all-Thinned (x ∷ xs) = stays tt (all-Thinned xs)

pub delete_where-append :
    {A : Type 0} (p : A → Bool) (xs ys : List A)
    → delete_where p (xs ++ ys) ≡ delete_where p xs ++ delete_where p ys
delete_where-append p [] ys = refl
delete_where-append p (x ∷ xs) ys = ground (arith, delete_where-append p xs ys)
