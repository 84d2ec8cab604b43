-- ===== src/Session/Keeping.antt =====
-- Properties of the database that actions keep, and one rule for each way to build an action.
use incident_desk.Prelude.{
  if◌then◌else◌, String, Bool, true, false, Option, none, some, List, [], ◌∷◌,
}
use incident_desk.Errors.{Error}
use incident_desk.Session.Schema.{Database}
use incident_desk.Session.Outside.{Env}
use incident_desk.Session.Actions.{
  Session, Message, Result, ok, err, Action, ⊤, pure, raise, gets, or_raise, raise_if, modify, when,
  send, database_now, next_event_seq, next_comment_seq, now, new_uuid, new_secret, hash_password,
  commit, rollback, ◌>>=◌, close, serve,
}

-- of the open transaction and of what is committed
abbrev pub Always : (Database → Type 0) → Session → Type 0
Always P s = P s.db × P s.committed

-- What an action leaves: after an error only what is committed counts, since the rest is rolled back.
abbrev pub Kept : {A : Type 0} → (Database → Type 0) → Result A × Session → Type 0
Kept P (ok a, s) = Always P s
Kept P (err e, s) = P s.committed

pub record Keeps {A : Type 0} (P : Database → Type 0) (m : Action A) : Type 0 where
  pub at : (s : Session) → Always P s → Kept P (m s)

module _ {P : Database → Type 0} where
  pub Keeps-pure : {A : Type 0} (a : A) → Keeps P (pure a)
  unfolding ◌>>=◌
  Keeps-pure a = record { at = λ s h. h }

  pub Keeps-raise : {A : Type 0} (e : Error) → Keeps P (raise {A = A} e)
  unfolding ◌>>=◌
  Keeps-raise e = record { at = λ s h. h.1 }

  pub Keeps-gets : {A : Type 0} (f : Database → A) → Keeps P (gets f)
  unfolding ◌>>=◌
  Keeps-gets f = record { at = λ s h. h }

  pub Keeps-or_raise : {A : Type 0} (o : Option A) (e : Error) → Keeps P (or_raise o e)
  unfolding ◌>>=◌
  Keeps-or_raise none e = record { at = λ s h. h.1 }
  Keeps-or_raise (some a) e = record { at = λ s h. h }

  pub Keeps-raise_if : (c : Bool) (e : Error) → Keeps P (raise_if c e)
  unfolding ◌>>=◌
  Keeps-raise_if true e = record { at = λ s h. h.1 }
  Keeps-raise_if false e = record { at = λ s h. h }

  pub Keeps-modify :
      (f : Database → Database) → ((d : Database) → P d → P (f d)) → Keeps P (modify f)
  unfolding ◌>>=◌
  Keeps-modify f k = record { at = λ s h. (k s.db h.0, h.1) }

  pub Keeps-when : (c : Bool) (m : Action ⊤) → Keeps P m → Keeps P (when c m)
  unfolding ◌>>=◌
  Keeps-when true m k = k
  Keeps-when false m k = record { at = λ s h. h }

  pub Keeps-send : (msg : Message) → Keeps P (send msg)
  unfolding ◌>>=◌
  Keeps-send msg = record { at = λ s h. h }

  pub Keeps-database_now : Keeps P database_now
  unfolding ◌>>=◌
  Keeps-database_now = record { at = λ s h. h }

  pub Keeps-next_event_seq : Keeps P next_event_seq
  unfolding ◌>>=◌
  Keeps-next_event_seq = record { at = λ s h. h }

  pub Keeps-next_comment_seq : Keeps P next_comment_seq
  unfolding ◌>>=◌
  Keeps-next_comment_seq = record { at = λ s h. h }

module _ {P : Database → Type 0} (env : Env) where
  pub Keeps-now : Keeps P (now env)
  unfolding ◌>>=◌
  Keeps-now = record { at = λ s h. h }

  pub Keeps-new_uuid : Keeps P (new_uuid env)
  unfolding ◌>>=◌
  Keeps-new_uuid = record { at = λ s h. h }

  pub Keeps-new_secret : Keeps P (new_secret env)
  unfolding ◌>>=◌
  Keeps-new_secret = record { at = λ s h. h }

  pub Keeps-hash_password : (password : String) → Keeps P (hash_password env password)
  unfolding ◌>>=◌
  Keeps-hash_password password = record { at = λ s h. h }

  pub Keeps-commit : Keeps P (commit env)
  unfolding ◌>>=◌
  Keeps-commit = record { at = λ s h. (h.0, h.0) }

  pub Keeps-rollback : Keeps P (rollback env)
  unfolding ◌>>=◌
  Keeps-rollback = record { at = λ s h. (h.1, h.1) }

module _ {P : Database → Type 0} {A B : Type 0} where
  continue-Kept :
      (f : A → Action B)
      → ((a : A) → Keeps P (f a))
      → (r : Result A) (s : Session) → Kept P (r, s)
      → Kept P (let y : Result B × Session = elim r [ ok a ↦ f a s | err e ↦ (err e, s) ] in y)
  continue-Kept f k (ok a) s h = (k a).at s h
  continue-Kept f k (err e) s h = h

  pub Keeps-bind :
      (m : Action A) (f : A → Action B) → Keeps P m → ((a : A) → Keeps P (f a)) → Keeps P (m >>= f)
  unfolding ◌>>=◌
  Keeps-bind m f km kf = record { at = λ s h. continue-Kept f kf (m s).0 (m s).1 (km.at s h) }

pub Keeps-if :
    {P : Database → Type 0} {A : Type 0} (c : Bool) (m n : Action A)
    → Keeps P m
    → Keeps P n
    → Keeps P (if c then m else n)
Keeps-if true m n km kn = km
Keeps-if false m n km kn = kn

module _ (P Q : Database → Type 0) where
  both-Kept :
      {A : Type 0} (r : Result A) (s : Session)
      → Kept P (r, s)
      → Kept Q (r, s)
      → Kept (λ d. P d × Q d) (r, s)
  both-Kept (ok a) s h k = ((h.0, k.0), (h.1, k.1))
  both-Kept (err e) s h k = (h, k)

pub Keeps-and :
    {P Q : Database → Type 0} {A : Type 0} (m : Action A)
    → Keeps P m
    → Keeps Q m
    → Keeps (λ d. P d × Q d) m
Keeps-and {P} {Q} m kp kq = record {
  at = λ s h. both-Kept P Q (m s).0 (m s).1 (kp.at s (h.0.0, h.1.0)) (kq.at s (h.0.1, h.1.1));
}

pub ruleset keeping = (
  Keeps-if, Keeps-pure, Keeps-raise, Keeps-gets, Keeps-or_raise, Keeps-raise_if, Keeps-modify,
  Keeps-when, Keeps-send, Keeps-database_now, Keeps-next_event_seq, Keeps-next_comment_seq,
  Keeps-now, Keeps-new_uuid, Keeps-new_secret, Keeps-hash_password, Keeps-commit, Keeps-rollback,
  Keeps-bind,
)

abbrev pub AllKeep : {A : Type 0} → (Database → Type 0) → List (Action A) → Type 0
AllKeep P [] = Unit
AllKeep P (m ∷ ms) = Keeps P m × AllKeep P ms

pub committed-Kept :
    {A : Type 0} (P : Database → Type 0) (r : Result A) (s : Session)
    → Kept P (r, s)
    → P s.committed
committed-Kept P (ok a) s h = h.1
committed-Kept P (err e) s h = h

-- What every request keeps holds after any sequence of them, of what is committed.
pub serve-Always :
    {A : Type 0} (P : Database → Type 0) (ms : List (Action A))
    → AllKeep P ms
    → (s : Session) → Always P s
    → Always P (serve ms s)
serve-Always P [] k s h = h
serve-Always P (m ∷ ms) k s h =
    let g : P (m s).1.committed = committed-Kept P (m s).0 (m s).1 (k.0.at s h) in
    serve-Always P ms k.1 (close (m s).1) (g, g)
