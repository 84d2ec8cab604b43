-- ===== src/Api/Retries.antt =====
-- Retried creations: the same `Idempotency-Key` gets the same answer, and nothing is created twice.
use incident_desk.Prelude.{
  ◌≡◌, refl, sym, ap, ◌∙◌, true, Option, none, some, [], ◌∷◌, find, find-append, find-head, String,
}
use incident_desk.Models.{Organization, Incident, IdempotencyKey, User}
use incident_desk.Session.{Session, Env, Result, ok, err, reply, close}
use incident_desk.Errors.{Error}
use incident_desk.Enums.{sev1}
use incident_desk.Escalation.Config.{parse_config}
use incident_desk.Authz.{AuthContext, require_user}
use incident_desk.Audit.{AuditInfo}
use incident_desk.Idempotency.{is_key, stored_response, store}
use incident_desk.Incidents.{NewIncident, create_incident}
use incident_desk.Api.Incidents.{
  Answer, replay, created, announce, create_fresh, create_in, replay_or_create,
}
use incident_desk.Api.Keys.{
  keys, Answers, announce-keys, store-keys, settle-run, create_fresh-Answers, is_key_refl, recorded,
  recorded-keys, create_fresh-run,
}

module _ (env : Env) (info : AuditInfo) where
  create_in-run :
      (ctx : AuthContext) (args : NewIncident) (key : String) (s : Session)
      → create_in env info ctx args (some key) s
        ≡ replay_or_create env info ctx args key (find (is_key ctx.org.id key) (keys s.db)) s
  unfolding create_in stored_response
  create_in-run ctx args key s = refl

  replay-Answers :
      (ctx : AuthContext) (args : NewIncident) (key : String) (o : Option IdempotencyKey)
      (s : Session) (a : Answer)
      → s.db ≡ s.committed
      → find (is_key ctx.org.id key) (keys s.db) ≡ o
      → reply (replay_or_create env info ctx args key o) s ≡ ok a
      → Answers ctx.org.id key a (replay_or_create env info ctx args key o s).1.committed
  unfolding replay_or_create
  replay-Answers ctx args key none s a c f h = create_fresh-Answers env info ctx args key s a f h
  replay-Answers ctx args key (some row) s a c f h =
      let q : replay row ≡ a = cc in
      (
        row,
        ap (λ d. find (is_key ctx.org.id key) (keys d)) (sym c) ∙ f,
        ap (λ (x : Answer). record x { replayed = true }) q,
      )

  retry-run :
      (ctx : AuthContext) (args : NewIncident) (key : String) (s : Session) (a : Answer)
      → Answers ctx.org.id key a s.db
      → create_in env info ctx args (some key) s ≡ (ok (record a { replayed = true }), s)
  unfolding replay_or_create
  retry-run ctx args key s a (row, f, q) =
      create_in-run ctx args key s
      ∙ ap (λ o. replay_or_create env info ctx args key o s) f
      ∙ ap (λ (x : Answer). (ok x, s)) q

module _ (env : Env) (info : AuditInfo) where
  fresh-run :
      (ctx : AuthContext) (args : NewIncident) (key : String) (s : Session)
      → replay_or_create env info ctx args key none s ≡ create_fresh env info ctx args (some key) s
  unfolding replay_or_create
  fresh-run ctx args key s = refl

  announce-raises :
      (org : Organization) (i : Incident) (body : String) (e : Error) (s : Session)
      → i.severity ≡ sev1
      → parse_config env org.settings ≡ err e
      → reply (announce env info org i body) s ≡ err e
  unfolding announce
  announce-raises org i body e s v c = rw (v, c) refl

-- A creation with an idempotency key that was answered: when a request sends the key again to the
-- organisation, with any incident and by anyone, it gets the same status and body, marked as
-- replayed, and it changes nothing, so that no second incident is made.
pub create_once :
    (env : Env) (info info' : AuditInfo) (ctx ctx' : AuthContext) (args args' : NewIncident)
    (key : String) (s : Session) (a : Answer)
    → ctx'.org.id ≡ ctx.org.id
    → reply (create_in env info ctx args (some key)) (close s) ≡ ok a
    → let after = close (create_in env info ctx args (some key) (close s)).1 in
      create_in env info' ctx' args' (some key) after ≡ (ok (record a { replayed = true }), after)
create_once env info info' ctx ctx' args args' key s a o h =
    let w = create_in-run env info ctx args key (close s) in
    let found = find (is_key ctx.org.id key) (keys s.committed) in
    let t =
      replay-Answers env info ctx args key found (close s) a refl refl
        (sym (ap (λ (p : Result Answer × Session). p.0) w) ∙ h) in
    retry-run env info' ctx' args' key (close (create_in env info ctx args (some key) (close s)).1)
      a (rw (o, w) t)

-- A creation of a sev1 incident with a new idempotency key, where the service makes the incident but
-- `parse_config` raises at the settings of the organisation: the answer is that error. Any retry with
-- the key then gets the stored 201 with the incident's body, and does nothing: it sends nothing either.
pub escalation_lost :
    (env : Env) (info info' : AuditInfo) (ctx ctx' : AuthContext) (args args' : NewIncident)
    (key : String) (s : Session) (user : User) (i : Incident) (e : Error)
    → ctx'.org.id ≡ ctx.org.id
    → find (is_key ctx.org.id key) s.committed.idempotency_keys ≡ none
    → reply (require_user ctx) (close s) ≡ ok user
    → reply (create_incident env ctx.org args user) (require_user ctx (close s)).1 ≡ ok i
    → i.severity ≡ sev1
    → parse_config env ctx.org.settings ≡ err e
    → let first = create_in env info ctx args (some key) (close s) in
      (first.0 ≡ err e)
      × (create_in env info' ctx' args' (some key) (close first.1) ≡ (
        ok (record { status = 201; body = env.incident_json i; replayed = true }),
        close first.1,
      ))
escalation_lost env info info' ctx ctx' args args' key s user i e o n p q v c =
    let t = close s in
    let s3 = recorded env info ctx args user i t in
    let body = env.incident_json i in
    let n3 : find (is_key ctx.org.id key) (keys s3.db) ≡ none =
      rw (recorded-keys env info ctx args user i t) n in
    let s4 = (store env ctx.org.id key 201 body s3).1 in
    let row : IdempotencyKey = record {
      org_id = ctx.org.id;
      key = key;
      status_code = 201;
      response_body = body;
      created_at = s3.transaction_time;
    } in
    let w : create_in env info ctx args (some key) t ≡ announce env info ctx.org i body s4 =
      create_in-run env info ctx args key t
      ∙ ap (λ o. replay_or_create env info ctx args key o t) n
      ∙ fresh-run env info ctx args key t
      ∙ create_fresh-run env info ctx args (some key) t user i p q
      ∙ settle-run env info ctx.org i key s3 n3 in
    let table =
      announce-keys env info ctx.org i body s4
      ∙ store-keys env info ctx.org.id key 201 body s3 n3 in
    let found =
      ap (find (is_key ctx.org.id key)) table
      ∙ find-append (is_key ctx.org.id key) (keys s3.db) (row ∷ []) n3
      ∙ find-head (is_key ctx.org.id key) row [] (is_key_refl row) in
    (
      ap (λ (x : Result Answer × Session). x.0) w
          ∙ announce-raises env info ctx.org i body e s4 v c,
      retry-run env info' ctx' args' key (close (create_in env info ctx args (some key) t).1)
          (created body) (rw (o, w) (row, found, refl)),
    )
