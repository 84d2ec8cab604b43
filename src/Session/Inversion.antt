-- ===== src/Session/Inversion.antt =====
-- What a successful action has gone through.
use incident_desk.Prelude.{ap, ◌≡◌, refl, Bool, true, false, Option, none, some, arith}
use incident_desk.Errors.{Error}
use incident_desk.Session.Actions.{
  Session, Result, ok, err, Action, ⊤, or_raise, raise_if, ◌>>=◌, reply,
}

pub ok-injective : {A : Type 0} (x y : A) → ok x ≡ ok y → x ≡ y
ok-injective x y h = cc

module _ {A B : Type 0} where
  continue-ok :
      (f : A → Action B) (r : Result A) (s : Session) (b : B)
      → (let y : Result B × Session = elim r [ ok a ↦ f a s | err e ↦ (err e, s) ] in y).0 ≡ ok b
      → (a : A) × (r ≡ ok a) × (reply (f a) s ≡ ok b)
  continue-ok f (ok a) s b h = (a, refl, h)
  continue-ok f (err e) s b h = absurd (cc)

  -- A chain that returns: its first action returned, and the rest from there.
  pub bind-ok :
      (m : Action A) (f : A → Action B) (s : Session) (b : B)
      → reply (m >>= f) s ≡ ok b
      → (a : A) × (reply m s ≡ ok a) × (reply (f a) (m s).1 ≡ ok b)
  unfolding ◌>>=◌
  bind-ok m f s b h = continue-ok f (m s).0 (m s).1 b h

  continue-run :
      (f : A → Action B) (r : Result A) (s : Session) (a : A)
      → r ≡ ok a
      → (let y : Result B × Session = elim r [ ok x ↦ f x s | err e ↦ (err e, s) ] in y) ≡ f a s
  continue-run f (ok x) s a h = ground (arith, h)
  continue-run f (err e) s a h = absurd (cc)

  -- A chain whose first action returned is the rest from there.
  pub bind-run :
      (m : Action A) (f : A → Action B) (s : Session) (a : A)
      → reply m s ≡ ok a
      → (m >>= f) s ≡ f a (m s).1
  unfolding ◌>>=◌
  bind-run m f s a h = continue-run f (m s).0 (m s).1 a h

  -- A chain whose first action raises raises that.
  pub bind-refused :
      (m : Action A) (f : A → Action B) (s t : Session) (e : Error)
      → m s ≡ (err e, t)
      → (m >>= f) s ≡ (err e, t)
  unfolding ◌>>=◌
  bind-refused m f s t e h =
      ap
        (λ (p : Result A × Session).
          let y : Result B × Session = elim p.0 [ ok a ↦ f a p.1 | err e ↦ (err e, p.1) ] in y)
        h

pub or_raise-ok :
    {A : Type 0} (o : Option A) (e : Error) (s : Session) (a : A)
    → reply (or_raise o e) s ≡ ok a
    → o ≡ some a
unfolding ◌>>=◌
or_raise-ok none e s a h = cc
or_raise-ok (some x) e s a h = cc

pub raise_if-ok :
    (c : Bool) (e : Error) (s : Session) (u : ⊤) → reply (raise_if c e) s ≡ ok u → c ≡ false
unfolding ◌>>=◌
raise_if-ok true e s u h = cc
raise_if-ok false e s u h = refl
