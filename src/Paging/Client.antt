-- ===== src/Paging/Client.antt =====
-- A client of a paginated endpoint.
use incident_desk.Prelude.{
  ℕ, zero, suc, ◌≡◌, refl, ap, ◌∙◌, sym, Bool, Option, none, List, [], ◌++◌,
}
use mathlib.Core.Path.{subst, fun_ext}
use incident_desk.Session.{Session, Result, ok, err, Action, reply}
use incident_desk.Paging.{Keyset, page_of, follow, walk}
use incident_desk.Paging.Sorted.{IsTotal}
use incident_desk.Paging.Spec.{IsListing, enough, walk-IsListing}

module _ {A C : Type 0} where
  -- the rows and the cursor of an answer, none of an error
  abbrev pub answered : Result (List A × Option C) → List A × Option C
  answered (ok p) = p
  answered (err e) = ([], none)

  -- Call the endpoint with the cursor of the answer before, and collect the rows.
  unfoldable pub collect : (Option C → Action (List A × Option C)) → Session → ℕ → Option C → List A
  collect endpoint s zero cursor = []
  collect endpoint s (suc calls) cursor =
      let p = answered (reply (endpoint cursor) s) in p.0 ++ follow p.1 (collect endpoint s calls)

module _ {A C : Type 0} (k : Keyset A C) (wanted : A → Bool) (rows : List A)
    (total : IsTotal k rows) (m : ℕ) (endpoint : Option C → Action (List A × Option C))
    (s : Session)
    (pages : (c : Option C) → reply (endpoint c) s ≡ ok (page_of k wanted (suc m) c rows)) where
  collect-walk :
      (calls : ℕ) (cursor : Option C)
      → collect endpoint s calls cursor ≡ walk k wanted (suc m) rows calls cursor
  unfolding collect walk
  collect-walk zero cursor = refl
  collect-walk (suc calls) cursor =
      let p : List A × Option C = page_of k wanted (suc m) cursor rows in
      ap
        (λ (r : Result (List A × Option C)).
          (answered r).0 ++ follow (answered r).1 (collect endpoint s calls))
        (pages cursor)
      ∙ ap (λ (g : Option C → List A). p.0 ++ follow p.1 g) (fun_ext (collect-walk calls))

  pub collect-IsListing : IsListing k wanted rows (collect endpoint s (enough k wanted rows) none)
  collect-IsListing =
      subst (IsListing k wanted rows) (sym (collect-walk (enough k wanted rows) none))
        (walk-IsListing k wanted rows total m)
