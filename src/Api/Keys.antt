-- ===== src/Api/Keys.antt =====
-- The row of an idempotency key that a creation leaves: services/idempotency.py under
-- backend/src/incident_desk, called by `create_incident` of api/v1/incidents.py.
use incident_desk.Prelude.{
  ℕ, ◌≡◌, refl, sym, ap, ◌∙◌, true, Option, none, some, List, [], ◌∷◌, ◌++◌, arith, find,
  find-append, find-head, String, eq_refl,
}
use incident_desk.Enums.{severity_value}
use incident_desk.Models.{
  dict, number, text, null, Organization, Incident, IdempotencyKey, User, Json,
}
use incident_desk.Session.{Database, Session, Env, Result, ok, Action, ⊤, reply, ◌>>=◌}
use incident_desk.Session.Frames.{Frames, framing}
use incident_desk.Session.Inversion.{bind-ok, bind-run}
use incident_desk.Authz.{AuthContext, require_user, actor_id}
use incident_desk.Audit.{AuditInfo, record_audit}
use incident_desk.Timeline.{record_event}
use incident_desk.Idempotency.{is_key, store}
use incident_desk.Incidents.{
  NewIncident, create_incident, insert_incident, allocate_sequence_number, require_assignee,
  require_member,
}
use incident_desk.Api.Incidents.{
  Answer, replay, created, from_result, announce, after_store, after_incident, settle, create_fresh,
}

abbrev pub keys : Database → List IdempotencyKey
keys d = d.idempotency_keys

pub is_key_refl : (row : IdempotencyKey) → is_key row.org_id row.key row ≡ true
is_key_refl row = ground (arith, eq_refl row.key)

-- the table of committed keys answers a retry as the first answer says
abbrev pub Answers : ℕ → String → Answer → Database → Type 0
Answers org_id key a d =
    (row : IdempotencyKey) × (find (is_key org_id key) (keys d) ≡ some row)
    × (replay row ≡ record a { replayed = true })

module _ (env : Env) where
  record_event-Frames :
      (id : ℕ) (a : Option ℕ) (t : String) (p : Json) → Frames keys (record_event env id a t p)
  unfolding record_event
  record_event-Frames id a t p = search framing depth 7

  pub record_audit-Frames :
      (org_id : ℕ) (a : Option ℕ) (action kind : String) (r : Option ℕ) (b c : Json)
      (info : AuditInfo)
      → Frames keys (record_audit env org_id a action kind r b c info)
  unfolding record_audit
  record_audit-Frames org_id a action kind r b c info = search framing depth 7

  require_assignee-Frames : (org_id : ℕ) (o : Option ℕ) → Frames keys (require_assignee org_id o)
  unfolding require_assignee require_member
  require_assignee-Frames org_id none = search framing
  require_assignee-Frames org_id (some u) = search framing

  allocate-Frames : (org_id : ℕ) → Frames keys (allocate_sequence_number org_id)
  unfolding allocate_sequence_number
  allocate-Frames org_id = search framing depth 7

  insert_incident-Frames :
      (org : Organization) (args : NewIncident) (by : User)
      → Frames keys (insert_incident env org args by)
  unfolding insert_incident
  insert_incident-Frames org args by =
      search (framing, allocate-Frames, record_event-Frames) depth 12

  pub create_incident-Frames :
      (org : Organization) (args : NewIncident) (by : User)
      → Frames keys (create_incident env org args by)
  unfolding create_incident
  create_incident-Frames org args by =
      search (framing, require_assignee-Frames, insert_incident-Frames) depth 9

  pub require_user-Frames : (ctx : AuthContext) → Frames keys (require_user ctx)
  unfolding require_user
  require_user-Frames ctx = search framing

module _ (env : Env) (info : AuditInfo) where
  from_result-Frames : {A : Type 0} (r : Result A) → Frames keys (from_result r)
  unfolding from_result
  from_result-Frames r = record { at = λ s. refl }

  pub announce-keys :
      (org : Organization) (i : Incident) (body : String) (s : Session)
      → keys (announce env info org i body s).1.committed ≡ keys s.db
  unfolding announce
  announce-keys org i body s = ground arith

  pub announce-created :
      (org : Organization) (i : Incident) (body : String) (s : Session) (a : Answer)
      → reply (announce env info org i body) s ≡ ok a
      → a ≡ created body
  unfolding announce
  announce-created org i body s a h = ground arith

  store-free :
      (org_id : ℕ) (key : String) (code : ℕ) (body : String) (s : Session)
      → find (is_key org_id key) (keys s.db) ≡ none
      → reply (store env org_id key code body) s ≡ ok none
  unfolding store
  store-free org_id key code body s n = ground arith

  pub store-keys :
      (org_id : ℕ) (key : String) (code : ℕ) (body : String) (s : Session)
      → find (is_key org_id key) (keys s.db) ≡ none
      → keys (store env org_id key code body s).1.db
        ≡ keys s.db
          ++ record {
            org_id = org_id;
            key = key;
            status_code = code;
            response_body = body;
            created_at = s.transaction_time;
          }
            ∷ []
  unfolding store
  store-keys org_id key code body s n = ground arith

  pub settle-run :
      (org : Organization) (i : Incident) (key : String) (s : Session)
      → find (is_key org.id key) (keys s.db) ≡ none
      → settle env info org i (some key) s
        ≡ announce env info org i
            (env.incident_json i)
            (store env org.id key 201 (env.incident_json i) s).1
  unfolding settle
  settle-run org i key s n =
      bind-run (store env org.id key 201 (env.incident_json i)) (after_store env info org i) s none
        (store-free org.id key 201 (env.incident_json i) s n)

  settle-Answers :
      (org : Organization) (i : Incident) (key : String) (s : Session) (a : Answer)
      → find (is_key org.id key) (keys s.db) ≡ none
      → reply (settle env info org i (some key)) s ≡ ok a
      → Answers org.id key a (settle env info org i (some key) s).1.committed
  settle-Answers org i key s a n h =
      let body = env.incident_json i in
      let s1 = (store env org.id key 201 body s).1 in
      let w = settle-run org i key s n in
      let row : IdempotencyKey = record {
        org_id = org.id;
        key = key;
        status_code = 201;
        response_body = body;
        created_at = s.transaction_time;
      } in
      let made =
        announce-created org i body s1 a (sym (ap (λ (p : Result Answer × Session). p.0) w) ∙ h) in
      let table =
        ap (λ (p : Result Answer × Session). keys p.1.committed) w
        ∙ announce-keys org i body s1
        ∙ store-keys org.id key 201 body s n in
      (
        row,
        ap (find (is_key org.id key)) table
            ∙ find-append (is_key org.id key) (keys s.db) (row ∷ []) n
            ∙ find-head (is_key org.id key) row [] (is_key_refl row),
        ap (λ (x : Answer). record x { replayed = true }) (sym made),
      )

  abbrev pub summary : Incident → Json
  summary i = dict (
      ("number", number i.sequence_number)
      ∷ ("title", text i.title)
      ∷ ("severity", text (severity_value i.severity))
      ∷ [])

  abbrev pub audited : AuthContext → Incident → Action ⊤
  audited ctx i =
      record_audit env ctx.org.id (actor_id ctx) "incident.created" "incident" (some i.id) null
        (summary i) info

  abbrev pub for_user : AuthContext → NewIncident → Option String → User → Action Answer
  for_user ctx args key user =
      create_incident env ctx.org args user >>= after_incident env info ctx key

  -- the session after the user, the incident and its entry in the audit log
  abbrev pub recorded : AuthContext → NewIncident → User → Incident → Session → Session
  recorded ctx args user i s =
      (audited ctx i (create_incident env ctx.org args user (require_user ctx s).1).1).1

  pub recorded-keys :
      (ctx : AuthContext) (args : NewIncident) (user : User) (i : Incident) (s : Session)
      → keys (recorded ctx args user i s).db ≡ keys s.db
  recorded-keys ctx args user i s =
      let s1 = (require_user ctx s).1 in
      (record_audit-Frames env ctx.org.id (actor_id ctx) "incident.created" "incident" (some i.id)
          null (summary i) info).at
        (create_incident env ctx.org args user s1).1
      ∙ (create_incident-Frames env ctx.org args user).at s1
      ∙ (require_user-Frames env ctx).at s

  audited-ok : (ctx : AuthContext) (i : Incident) (s : Session) → reply (audited ctx i) s ≡ ok tt
  unfolding record_audit
  audited-ok ctx i s = refl

  pub create_fresh-run :
      (ctx : AuthContext) (args : NewIncident) (key : Option String) (s : Session) (user : User)
      (i : Incident)
      → reply (require_user ctx) s ≡ ok user
      → reply (create_incident env ctx.org args user) (require_user ctx s).1 ≡ ok i
      → create_fresh env info ctx args key s
        ≡ settle env info ctx.org i key (recorded ctx args user i s)
  unfolding create_fresh after_incident
  create_fresh-run ctx args key s user i p q =
      let s1 = (require_user ctx s).1 in
      let make = create_incident env ctx.org args user in
      bind-run (require_user ctx) (for_user ctx args key) s user p
      ∙ bind-run make (after_incident env info ctx key) s1 i q
      ∙ bind-run (audited ctx i) (λ _. settle env info ctx.org i key) (make s1).1 tt
          (audited-ok ctx i (make s1).1)

  pub create_fresh-Answers :
      (ctx : AuthContext) (args : NewIncident) (key : String) (s : Session) (a : Answer)
      → find (is_key ctx.org.id key) (keys s.db) ≡ none
      → reply (create_fresh env info ctx args (some key)) s ≡ ok a
      → Answers ctx.org.id key a (create_fresh env info ctx args (some key) s).1.committed
  unfolding create_fresh
  create_fresh-Answers ctx args key s a n h =
      let (user, p, h1) = bind-ok (require_user ctx) (for_user ctx args (some key)) s a h in
      let s1 = (require_user ctx s).1 in
      let make = create_incident env ctx.org args user in
      let (i, q, _) = bind-ok make (after_incident env info ctx (some key)) s1 a h1 in
      let w = create_fresh-run ctx args (some key) s user i p q in
      rw w (
        settle-Answers ctx.org i key (recorded ctx args user i s) a
          (rw (recorded-keys ctx args user i s) n)
          (sym (ap (λ (p : Result Answer × Session). p.0) w) ∙ h))
