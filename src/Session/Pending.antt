-- ===== src/Session/Pending.antt =====
-- Actions that leave what is committed alone, and what that says of a request that fails.
use incident_desk.Prelude.{
  String, Bool, true, false, Option, none, some, ◌≡◌, refl, ◌∙◌, sym, if◌then◌else◌,
}
use mathlib.Core.Path.{subst}
use incident_desk.Errors.{Error}
use incident_desk.Session.Schema.{Database}
use incident_desk.Session.Outside.{Env}
use incident_desk.Session.Actions.{
  Session, Message, Result, ok, err, Action, ⊤, pure, raise, gets, or_raise, raise_if, modify, when,
  send, database_now, next_event_seq, next_comment_seq, now, new_uuid, new_secret, hash_password,
  reply, written, ◌>>=◌,
}
use incident_desk.Session.Keeping.{Keeps, Kept}

-- What is committed is the same after the action, also after an error.
pub record Pending {A : Type 0} (m : Action A) : Type 0 where
  pub at : (s : Session) → (m s).1.committed ≡ s.committed

module _ {A : Type 0} where
  pub Pending-pure : (a : A) → Pending (pure a)
  unfolding ◌>>=◌
  Pending-pure a = record { at = λ s. refl }

  pub Pending-raise : (e : Error) → Pending (raise {A = A} e)
  unfolding ◌>>=◌
  Pending-raise e = record { at = λ s. refl }

  pub Pending-gets : (g : Database → A) → Pending (gets g)
  unfolding ◌>>=◌
  Pending-gets g = record { at = λ s. refl }

  pub Pending-or_raise : (o : Option A) (e : Error) → Pending (or_raise o e)
  unfolding ◌>>=◌
  Pending-or_raise none e = record { at = λ s. refl }
  Pending-or_raise (some a) e = record { at = λ s. refl }

pub Pending-raise_if : (c : Bool) (e : Error) → Pending (raise_if c e)
unfolding ◌>>=◌
Pending-raise_if true e = record { at = λ s. refl }
Pending-raise_if false e = record { at = λ s. refl }

pub Pending-modify : (g : Database → Database) → Pending (modify g)
unfolding ◌>>=◌
Pending-modify g = record { at = λ s. refl }

pub Pending-when : (c : Bool) (m : Action ⊤) → Pending m → Pending (when c m)
unfolding ◌>>=◌
Pending-when true m k = k
Pending-when false m k = record { at = λ s. refl }

pub Pending-send : (msg : Message) → Pending (send msg)
unfolding ◌>>=◌
Pending-send msg = record { at = λ s. refl }

pub Pending-database_now : Pending database_now
unfolding ◌>>=◌
Pending-database_now = record { at = λ s. refl }

pub Pending-next_event_seq : Pending next_event_seq
unfolding ◌>>=◌
Pending-next_event_seq = record { at = λ s. refl }

pub Pending-next_comment_seq : Pending next_comment_seq
unfolding ◌>>=◌
Pending-next_comment_seq = record { at = λ s. refl }

module _ (env : Env) where
  pub Pending-now : Pending (now env)
  unfolding ◌>>=◌
  Pending-now = record { at = λ s. refl }

  pub Pending-new_uuid : Pending (new_uuid env)
  unfolding ◌>>=◌
  Pending-new_uuid = record { at = λ s. refl }

  pub Pending-new_secret : Pending (new_secret env)
  unfolding ◌>>=◌
  Pending-new_secret = record { at = λ s. refl }

  pub Pending-hash_password : (password : String) → Pending (hash_password env password)
  unfolding ◌>>=◌
  Pending-hash_password password = record { at = λ s. refl }

module _ {A B : Type 0} where
  continue-Pending :
      (g : A → Action B)
      → ((a : A) → Pending (g a))
      → (r : Result A) (s : Session)
      → (let y : Result B × Session = elim r [ ok a ↦ g a s | err e ↦ (err e, s) ] in y).1.committed
        ≡ s.committed
  continue-Pending g k (ok a) s = (k a).at s
  continue-Pending g k (err e) s = refl

  pub Pending-bind :
      (m : Action A) (g : A → Action B) → Pending m → ((a : A) → Pending (g a)) → Pending (m >>= g)
  unfolding ◌>>=◌
  Pending-bind m g km kg = record { at = λ s. continue-Pending g kg (m s).0 (m s).1 ∙ km.at s }

pub Pending-if :
    {A : Type 0} (c : Bool) (m n : Action A) → Pending m → Pending n → Pending (if c then m else n)
Pending-if true m n km kn = km
Pending-if false m n km kn = kn

pub ruleset pending = (
  Pending-if, Pending-pure, Pending-raise, Pending-gets, Pending-or_raise, Pending-raise_if,
  Pending-modify, Pending-when, Pending-send, Pending-database_now, Pending-next_event_seq,
  Pending-next_comment_seq, Pending-now, Pending-new_uuid, Pending-new_secret,
  Pending-hash_password, Pending-bind,
)

module _ {A : Type 0} (P : Database → Type 0) where
  result-Kept :
      (r : Result A) (s : Session) → P s.committed → ((a : A) → r ≡ ok a → P s.db) → Kept P (r, s)
  result-Kept (ok a) s c k = (k a refl, c)
  result-Kept (err e) s c k = c

  -- An action keeps a property, if it leaves what is committed alone and keeps it where it returns.
  pub Pending-Keeps :
      (m : Action A)
      → Pending m
      → ((s : Session) (a : A) → P s.db → reply m s ≡ ok a → P (written m s))
      → Keeps P m
  Pending-Keeps m p k = record {
    at = λ s h. result-Kept (m s).0 (m s).1 (subst P (sym (p.at s)) h.1) (λ a e. k s a h.0 e);
  }
