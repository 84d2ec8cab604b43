-- ===== src/Session/Whole.antt =====
-- Actions that commit all that they write or nothing.
use incident_desk.Prelude.{◌≡◌, refl, sym, ◌∙◌}
use incident_desk.Errors.{Error}
use incident_desk.Session.Outside.{Env}
use incident_desk.Session.Actions.{
  Session, Message, Result, ok, err, Action, pure, raise, send, commit, ◌>>=◌,
}
use incident_desk.Session.Pending.{Pending}

-- After success all that is written is committed; after an error nothing new is.
abbrev pub IsWhole : {A : Type 0} → Result A × Session → Session → Type 0
IsWhole (ok a, t) s = t.committed ≡ t.db
IsWhole (err e, t) s = t.committed ≡ s.committed

pub record Whole {A : Type 0} (m : Action A) : Type 0 where
  pub at : (s : Session) → IsWhole (m s) s

-- The action succeeds and writes nothing.
abbrev IsIdle : {A : Type 0} → Result A × Session → Session → Type 0
IsIdle (ok a, t) s = (t.db ≡ s.db) × (t.committed ≡ s.committed)
IsIdle (err e, t) s = ⊥

pub record Idle {A : Type 0} (m : Action A) : Type 0 where
  pub at : (s : Session) → IsIdle (m s) s

pub Idle-pure : {A : Type 0} (a : A) → Idle (pure a)
unfolding ◌>>=◌
Idle-pure a = record { at = λ s. (refl, refl) }

pub Idle-send : (msg : Message) → Idle (send msg)
unfolding ◌>>=◌
Idle-send msg = record { at = λ s. (refl, refl) }

module _ {A B : Type 0} (f : A → Action B) where
  continue-IsIdle :
      (s : Session) (r : Result A) (t : Session)
      → ((a : A) → Idle (f a))
      → IsIdle (r, t) s
      → IsIdle (let y : Result B × Session = elim r [ ok a ↦ f a t | err e ↦ (err e, t) ] in y) s
  continue-IsIdle s (ok a) t k h = later (f a t).0 (f a t).1 ((k a).at t)
    where
      later : (q : Result B) (u : Session) → IsIdle (q, u) t → IsIdle (q, u) s
      later (ok b) u g = (g.0 ∙ h.0, g.1 ∙ h.1)
      later (err e) u g = g
  continue-IsIdle s (err e) t k h = h

  pub Idle-bind : (m : Action A) → Idle m → ((a : A) → Idle (f a)) → Idle (m >>= f)
  unfolding ◌>>=◌
  Idle-bind m km kf = record { at = λ s. continue-IsIdle s (m s).0 (m s).1 kf (km.at s) }

  continue-IsWhole :
      (s : Session) (r : Result A) (t : Session)
      → ((a : A) → Whole (f a))
      → t.committed ≡ s.committed
      → IsWhole (let y : Result B × Session = elim r [ ok a ↦ f a t | err e ↦ (err e, t) ] in y) s
  continue-IsWhole s (ok a) t k h = later (f a t).0 (f a t).1 ((k a).at t)
    where
      later : (q : Result B) (u : Session) → IsWhole (q, u) t → IsWhole (q, u) s
      later (ok b) u g = g
      later (err e) u g = g ∙ h
  continue-IsWhole s (err e) t k h = h

  -- what commits nothing, and then something whole
  pub Whole-bind : (m : Action A) → Pending m → ((a : A) → Whole (f a)) → Whole (m >>= f)
  unfolding ◌>>=◌
  Whole-bind m km kf = record { at = λ s. continue-IsWhole s (m s).0 (m s).1 kf (km.at s) }

  finish-IsWhole :
      (s : Session) (r : Result A) (t : Session)
      → ((a : A) → Idle (f a))
      → IsWhole (r, t) s
      → IsWhole (let y : Result B × Session = elim r [ ok a ↦ f a t | err e ↦ (err e, t) ] in y) s
  finish-IsWhole s (ok a) t k h = later (f a t).0 (f a t).1 ((k a).at t)
    where
      later : (q : Result B) (u : Session) → IsIdle (q, u) t → IsWhole (q, u) s
      later (ok b) u g = g.1 ∙ h ∙ sym g.0
      later (err e) u g = absurd g
  finish-IsWhole s (err e) t k h = h

  -- something whole, and then what succeeds without a write
  pub Whole-then : (m : Action A) → Whole m → ((a : A) → Idle (f a)) → Whole (m >>= f)
  unfolding ◌>>=◌
  Whole-then m km kf = record { at = λ s. finish-IsWhole s (m s).0 (m s).1 kf (km.at s) }

pub Whole-commit : (env : Env) → Whole (commit env)
unfolding ◌>>=◌
Whole-commit env = record { at = λ s. refl }

pub Whole-raise : {A : Type 0} (e : Error) → Whole (raise {A = A} e)
unfolding ◌>>=◌
Whole-raise e = record { at = λ s. refl }

pub ruleset whole =
    (Whole-commit, Whole-raise, Whole-then, Whole-bind, Idle-pure, Idle-send, Idle-bind)
