-- ===== src/Lib.antt =====
-- Incident Desk: the core of the backend, modelled and verified.
--
-- Incident Desk is a multi-tenant incident tracker: a FastAPI application over PostgreSQL. A request
-- is authenticated to a principal, authorised against an organisation, served by functions that work
-- on one database session, audited, and committed; what it has not committed when the session closes
-- is rolled back.
--
-- Parts, with paths from backend/src/incident_desk/:
--   Prelude          tests, lists, tables as lists of rows, and the texts that the model shares
--   Enums, Errors    enums.py, errors.py and the exceptions that the services declare
--   Models           db/models.py: a record for each table
--   Session          the database session: Schema is the set of tables, Outside the clock, the random
--                    draws and the libraries, Actions the actions of a session with commit, rollback
--                    and raised errors; Keeping has the rules for invariants, Frames those for the
--                    parts that an action leaves alone, Pending those for actions that commit
--                    nothing, Whole those for actions that commit all or nothing, Inversion
--                    those for actions that succeed
--   Paging           the keyset pages that the listings of the services share, what they promise
--                    (Spec), and a client that follows the cursors (Client)
--   StateMachine     state_machine.py: LEGAL_TRANSITIONS, allowed_targets, is_legal
--   Incidents        services/incidents.py: create_incident, transition_status here, update_incident
--                    in Incidents/Edits, list_incidents in Incidents/Listing
--   Timeline, Audit  services/timeline.py and services/audit.py
--   Comments         services/comments.py
--   Attachments      services/attachments.py
--   Cursors          pagination.py: the text of a cursor
--   Tokens           security/jwt.py: access tokens and MFA tokens
--   Idempotency      services/idempotency.py
--   Members          services/members.py: roles, removal, invitations
--   Authz            authz.py and the dependency `require` of api/authz.py
--   Principals       api/deps.py: bearer tokens and API keys to principals
--   ApiKeys          services/apikeys.py
--   Sessions         services/sessions.py: login sessions and refresh-token families
--   Accounts         services/auth_service.py: registration, verification, password reset
--   Mfa              services/mfa.py and match_code of security/totp.py
--   OnCall           services/oncall.py, with the constraints of the table of shifts
--   Escalation       jobs/escalation.py: plan here, parse_config in Escalation/Config
--   Jobs             jobs/tasks.py: the escalation check, the cleanup, the scan hook, and the daily
--                    rollup in Jobs/Metrics, with what it counts and averages in Jobs/Rollup
--   Orgs             services/orgs.py and services/catalog.py
--   Api              the handlers of api/v1: Auth, Members, Incidents with Etag for the version tags,
--                    Comments and Attachments (of incidents.py), Orgs (with services.py),
--                    OnCall, ApiKeys and AuditLog
--   System           the calls together: Calls lists every handler and job of the model that changes
--                    the database, with the credentials it is sent with; Sound has the invariant of
--                    the program, and Tenancy, Logins, Tracking, Background and Rotation what the
--                    operations keep of it, Handlers what the handlers keep, put together in
--                    Invariant; Uncommitted has the operations that commit nothing, and Refusals
--                    what a refused call leaves
--   RateLimit        ratelimit.py: the sliding window over sorted sets of Redis; RateLimit/Bucket has
--                    api/ratelimit_dep.py
--   Realtime         the registry of RealtimeBroker in services/realtime.py; Realtime/Redis has the
--                    tickets and presence, Channels and Socket the websocket of api/realtime_ws.py,
--                    and Viewing the REST API beside it
--   Samples          test data; Examples and Escalation/Examples hold tests and instances
-- A definition has the name of the function that it models, without a leading underscore; a handler
-- of api/v1 other than auth.py and audit.py has `_request` at its end. A part of a function that
-- stands alone has a comment that says which part it is.
--
-- How the code is read. A table is the list of its rows in insertion order; a query filters it, and
-- `find` gives the first row. The mapped object and its row are one: a change of an attribute is
-- written at once. An action takes the session and gives a result or an error, and the session as it
-- then is, so writes before a raise stay in the open transaction until it is rolled back. Ids and
-- times are natural numbers, times and durations in microseconds. Each reading of the clock, each
-- random id and each random text takes the next draw of the session, so that two of them may differ.
-- In a JSON payload, the display number `INC-n` stands as the number n. Error messages are left out.
-- The listings take the values that the text of a cursor encodes, and answer them. A header is
-- Latin-1 text. Rows that a query does not order come in insertion order. An email is its recipient
-- and one text: the link's token, or the subject of an escalation.
-- The counter of a TOTP step is a natural number, so the step before the first one is the first one.
--
-- Parameters (the record Env): the clock, uuid4, secrets, SHA-256, str.lower, argon2, pyotp, the
-- signing and decoding of JSON Web Tokens, the full-text search and the collation of PostgreSQL, the
-- JSON of an incident, and Python's reading of UUIDs and integers from text. What a theorem assumes of
-- them is among its hypotheses: that a token decodes to the same claims at any time, that the prefix
-- of an API key has no underscore, that the hash of a new key is new, and that the lower case of
-- "Bearer" is "bearer". The commands of Redis are the parameters of RateLimit, and the record
-- Documented is what is assumed of them. PyJWT, base64, json, and the Redis of the tickets are
-- parameters of Tokens, Cursors and Realtime/Redis; the records Reads are what is assumed of the
-- first three.
--
-- Bounds: actions recur on the structure of their inputs. The follow-up checks of an escalation run
-- on fuel, and more than the length of the chain is shown to be enough; the client of a listing runs
-- on fuel, and one more than the length of the listing is shown to be enough.
--
-- Not modelled: foreign keys other than those of deleting a service, the uniqueness of generated ids
-- other than the primary keys of incidents, organisations and memberships, transactions that run at
-- the same time, the tasks that carry messages between Redis and the sockets, a failure of Redis
-- other than in RateLimit, the delivery of emails, the queue of the jobs and its retries, the SQL
-- aggregates of the metrics page, password hashing, schemas, start-up, migrations, the frontend, and
-- the endpoints that list by name (members, services, organisations, schedules). The limit of 4300
-- digits that Python puts on int is left out, and so are the numbers in the settings of an
-- organisation that are not integers.
-- That a text fits its column is looked at for attachments only: schemas bound the other texts.
pub mod Prelude
pub mod Enums
pub mod Errors
pub mod Models
pub mod Session
pub mod Paging
pub mod Cursors
pub mod ApiKeys
pub mod Principals
pub mod Jobs
pub mod Tokens
pub mod RateLimit
pub mod Realtime
pub mod StateMachine
pub mod Authz
pub mod Members
pub mod Audit
pub mod Idempotency
pub mod Timeline
pub mod Incidents
pub mod Sessions
pub mod Accounts
pub mod Mfa
pub mod OnCall
pub mod Escalation
pub mod Orgs
pub mod Comments
pub mod Attachments
pub mod Api
pub mod System
pub mod Samples
pub mod Examples
