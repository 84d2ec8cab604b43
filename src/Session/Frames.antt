-- ===== src/Session/Frames.antt =====
-- Parts of the database that an action leaves alone, and one rule for each way to build an action.
use incident_desk.Prelude.{if◌then◌else◌, Bool, true, false, Option, none, some, ◌≡◌, refl, ◌∙◌}
use incident_desk.Errors.{Error}
use incident_desk.Session.Schema.{Database}
use incident_desk.Session.Outside.{Env}
use incident_desk.Session.Actions.{
  Session, Message, Result, ok, err, Action, ⊤, pure, raise, gets, or_raise, raise_if, modify, when,
  send, database_now, next_event_seq, next_comment_seq, now, new_uuid, new_secret, commit, ◌>>=◌,
}

-- The part of the database that `f` reads is the same after the action, also after an error.
pub record Frames {A X : Type 0} (f : Database → X) (m : Action A) : Type 0 where
  pub at : (s : Session) → f (m s).1.db ≡ f s.db

module _ {X : Type 0} {f : Database → X} where
  pub Frames-pure : {A : Type 0} (a : A) → Frames f (pure a)
  unfolding ◌>>=◌
  Frames-pure a = record { at = λ s. refl }

  pub Frames-raise : {A : Type 0} (e : Error) → Frames f (raise {A = A} e)
  unfolding ◌>>=◌
  Frames-raise e = record { at = λ s. refl }

  pub Frames-gets : {A : Type 0} (g : Database → A) → Frames f (gets g)
  unfolding ◌>>=◌
  Frames-gets g = record { at = λ s. refl }

  pub Frames-or_raise : {A : Type 0} (o : Option A) (e : Error) → Frames f (or_raise o e)
  unfolding ◌>>=◌
  Frames-or_raise none e = record { at = λ s. refl }
  Frames-or_raise (some a) e = record { at = λ s. refl }

  pub Frames-raise_if : (c : Bool) (e : Error) → Frames f (raise_if c e)
  unfolding ◌>>=◌
  Frames-raise_if true e = record { at = λ s. refl }
  Frames-raise_if false e = record { at = λ s. refl }

  pub Frames-modify :
      (g : Database → Database) → ((d : Database) → f (g d) ≡ f d) → Frames f (modify g)
  unfolding ◌>>=◌
  Frames-modify g k = record { at = λ s. k s.db }

  pub Frames-when : (c : Bool) (m : Action ⊤) → Frames f m → Frames f (when c m)
  unfolding ◌>>=◌
  Frames-when true m k = k
  Frames-when false m k = record { at = λ s. refl }

  pub Frames-send : (msg : Message) → Frames f (send msg)
  unfolding ◌>>=◌
  Frames-send msg = record { at = λ s. refl }

  pub Frames-database_now : Frames f database_now
  unfolding ◌>>=◌
  Frames-database_now = record { at = λ s. refl }

  pub Frames-next_event_seq : Frames f next_event_seq
  unfolding ◌>>=◌
  Frames-next_event_seq = record { at = λ s. refl }

  pub Frames-next_comment_seq : Frames f next_comment_seq
  unfolding ◌>>=◌
  Frames-next_comment_seq = record { at = λ s. refl }

  pub Frames-now : (env : Env) → Frames f (now env)
  unfolding ◌>>=◌
  Frames-now env = record { at = λ s. refl }

  pub Frames-new_uuid : (env : Env) → Frames f (new_uuid env)
  unfolding ◌>>=◌
  Frames-new_uuid env = record { at = λ s. refl }

  pub Frames-new_secret : (env : Env) → Frames f (new_secret env)
  unfolding ◌>>=◌
  Frames-new_secret env = record { at = λ s. refl }

  pub Frames-commit : (env : Env) → Frames f (commit env)
  unfolding ◌>>=◌
  Frames-commit env = record { at = λ s. refl }

module _ {X : Type 0} {f : Database → X} {A B : Type 0} where
  continue-Frames :
      (g : A → Action B)
      → ((a : A) → Frames f (g a))
      → (r : Result A) (s : Session)
      → f (let y : Result B × Session = elim r [ ok a ↦ g a s | err e ↦ (err e, s) ] in y).1.db
        ≡ f s.db
  continue-Frames g k (ok a) s = (k a).at s
  continue-Frames g k (err e) s = refl

  pub Frames-bind :
      (m : Action A) (g : A → Action B)
      → Frames f m
      → ((a : A) → Frames f (g a))
      → Frames f (m >>= g)
  unfolding ◌>>=◌
  Frames-bind m g km kg = record { at = λ s. continue-Frames g kg (m s).0 (m s).1 ∙ km.at s }

pub Frames-if :
    {A X : Type 0} {f : Database → X} (c : Bool) (m n : Action A)
    → Frames f m
    → Frames f n
    → Frames f (if c then m else n)
Frames-if true m n km kn = km
Frames-if false m n km kn = kn

pub ruleset framing = (
  Frames-if, Frames-pure, Frames-raise, Frames-gets, Frames-or_raise, Frames-raise_if,
  Frames-modify, Frames-when, Frames-send, Frames-database_now, Frames-next_event_seq,
  Frames-next_comment_seq, Frames-now, Frames-new_uuid, Frames-new_secret, Frames-commit,
  Frames-bind,
)
