-- ===== src/Examples/Access.antt =====
-- Instances of the theorems on members, tokens, permissions, codes and shifts.
use incident_desk.Prelude.{
  find, ◌<◌, ℕ, String, strip, ◌≤◌, ◌≡◌, refl, true, none, some, [], ◌∷◌, str_eq, arith,
  count_where,
}
use incident_desk.Enums.{admin, responder, viewer}
use incident_desk.Errors.{invalid_invitation, refresh_reused}
use incident_desk.Models.{Membership, User, ApiKey, OnCallShift, null}
use incident_desk.Session.{Session, ok, err, reply, written, close}
use incident_desk.Session.Keeping.{Kept}
use incident_desk.Members.{change_role, remove_member, accept_invitation}
use incident_desk.Members.Rows.{IsKeyed}
use incident_desk.Members.Guard.{owners, change_role_by_others, remove_member_by_others}
use incident_desk.Members.Once.{accept_invitation_once}
use incident_desk.Sessions.{SessionTokens, is_user, rotate_refresh}
use incident_desk.Sessions.Families.{IsRevoked}
use incident_desk.Sessions.Rotation.{rotate_refresh_once}
use incident_desk.Api.Auth.{refresh}
use incident_desk.Api.Refresh.{refresh_commits_revocation}
use incident_desk.Mfa.{matching, try_totp}
use incident_desk.Mfa.Replay.{try_totp_increases}
use incident_desk.OnCall.{covers, add_shift, delete_shift}
use incident_desk.OnCall.Disjoint.{
  IsDisjoint, HasDisjointShifts, covers_once, add_shift-IsDisjoint, delete_shift-IsDisjoint,
}
use incident_desk.Authz.{
  AuthContext, incident_view, incident_update, user_session, api_key, role_has, require,
  all_granted, all_in_scopes,
}
use incident_desk.Authz.Grants.{
  IsStanding, role_has_monotone, require_user_session, require_api_key, require_writes_nothing,
}
use incident_desk.Samples.{
  ann, acme, ann_member, bob_member, bob, person, refresh_token, sample, sample_db, sample_env,
  sample_settings, session_on,
}

keyed : IsKeyed (ann_member ∷ bob_member ∷ [])
keyed = (refl, (refl, tt))

change_role_by_others_example :
    owners 1 (written (change_role acme admin 8 viewer) sample).memberships ≡ ann_member ∷ []
change_role_by_others_example =
    change_role_by_others acme admin 8 1 sample keyed (λ e. absurd (cc e)) viewer

owner_not_removed :
    owners 1 (written (remove_member acme admin 7) sample).memberships ≡ ann_member ∷ []
owner_not_removed = remove_member_by_others acme admin 7 1 sample keyed (λ e. absurd (cc e))

abbrev eve_member : Membership
eve_member = record { user_id = 9; org_id = 1; role = admin; joined_at = 1_000 }

eve_accepts :
    reply (accept_invitation sample_env (person 9 "eve") "ticket") sample ≡ ok (acme, eve_member)
unfolding accept_invitation
eve_accepts = refl

accept_invitation_once_example :
    accept_invitation sample_env bob "ticket"
      (accept_invitation sample_env (person 9 "eve") "ticket" sample).1
    ≡ (err invalid_invitation, (accept_invitation sample_env (person 9 "eve") "ticket" sample).1)
accept_invitation_once_example =
    accept_invitation_once sample_env "ticket" (person 9 "eve") bob sample (acme, eve_member)
      eve_accepts

abbrev next_tokens : SessionTokens
next_tokens = record { access_token = "token"; refresh_token = "secret"; expires_in = 10 }

new_rotates : reply (rotate_refresh sample_env sample_settings "new") sample ≡ ok next_tokens
unfolding rotate_refresh
new_rotates = refl

rotate_refresh_once_example :
    (reply
        (rotate_refresh sample_env sample_settings "new")
        (rotate_refresh sample_env sample_settings "new" sample).1
      ≡ err refresh_reused)
    × IsRevoked 60
        (written
          (rotate_refresh sample_env sample_settings "new")
          (rotate_refresh sample_env sample_settings "new" sample).1).refresh_tokens
rotate_refresh_once_example =
    rotate_refresh_once sample_env sample_settings "new" sample next_tokens new_rotates
      (refresh_token 62 "new" none none) refl

refresh_commits_revocation_example :
    ((refresh sample_env sample_settings "old" sample).0 ≡ err refresh_reused)
    × IsRevoked 60 (close (refresh sample_env sample_settings "old" sample).1).db.refresh_tokens
refresh_commits_revocation_example =
    refresh_commits_revocation sample_env sample_settings "old" sample
      (refresh_token 61 "old" (some 5) none) refl refl refl

-- bob with an authenticator, after a code of counter 0
abbrev enrolled : User
enrolled = record bob {
  mfa_secret = some "key";
  mfa_enabled_at = some 2;
  mfa_last_counter = some 0;
}

abbrev at_login : Session
at_login = session_on (record sample_db { users = ann ∷ enrolled ∷ [] })

code_accepted : reply (try_totp sample_env enrolled "000000") at_login ≡ ok true
unfolding try_totp strip
code_accepted = refl

-- bob as the code leaves him, and a minute later
abbrev counted : User
counted = record enrolled { mfa_last_counter = some 1 }

abbrev minute_later : Session
minute_later = record at_login {
  db = written (try_totp sample_env enrolled "000000") at_login;
  draws = 60_000_000;
}

next_accepted : reply (try_totp sample_env counted "000000") minute_later ≡ ok true
unfolding try_totp strip
next_accepted = refl

still_enrolled : find (is_user 8) minute_later.db.users ≡ some counted
unfolding try_totp strip
still_enrolled = refl

try_totp_increases_example :
    (secret : String) × (c c' : ℕ) × (enrolled.mfa_secret ≡ some secret)
    × (matching sample_env secret "000000" 1_000 ≡ some c)
    × (matching sample_env secret "000000" 60_001_000 ≡ some c')
    × (c < c')
try_totp_increases_example =
    try_totp_increases sample_env enrolled counted "000000" "000000" at_login minute_later refl
      code_accepted refl still_enrolled next_accepted

abbrev shift : ℕ → ℕ → ℕ → ℕ → OnCallShift
shift id user_id starts_at ends_at = record {
  id = id;
  schedule_id = 71;
  user_id = user_id;
  starts_at = starts_at;
  ends_at = ends_at;
}

abbrev rota : Session
rota = session_on (record sample_db {
  schedules = record { id = 71; org_id = 1; service_id = 21; name = "main"; rotation = null } ∷ [];
  shifts = shift 81 7 0 10 ∷ shift 82 8 10 20 ∷ [];
})

rota-IsDisjoint : IsDisjoint (shift 81 7 0 10 ∷ shift 82 8 10 20 ∷ [])
rota-IsDisjoint = (refl, (refl, tt))

covers_once_example : count_where (covers 71 10) (shift 81 7 0 10 ∷ shift 82 8 10 20 ∷ []) ≤ 1
covers_once_example = covers_once 71 10 (shift 81 7 0 10 ∷ shift 82 8 10 20 ∷ []) rota-IsDisjoint

disjoint_after_shift : Kept HasDisjointShifts (add_shift sample_env acme 71 8 20 30 rota)
disjoint_after_shift =
    add_shift-IsDisjoint sample_env acme 71 8 20 30 rota (rota-IsDisjoint, rota-IsDisjoint)

rota-Kept : Kept HasDisjointShifts (delete_shift acme 71 81 rota)
rota-Kept = delete_shift-IsDisjoint acme 71 81 rota (rota-IsDisjoint, rota-IsDisjoint)

responder_updates : role_has responder incident_update ≡ true
unfolding role_has
responder_updates = refl

admin_updates : role_has admin incident_update ≡ true
admin_updates = role_has_monotone responder admin incident_update (omega arith) responder_updates

abbrev bob_context : AuthContext
bob_context = record { org = acme; user = some bob; membership = some bob_member; key = none }

bob_allowed :
    reply (require (incident_update ∷ []) "acme" (user_session bob)) sample ≡ ok bob_context
unfolding require
bob_allowed = refl

require_user_session_example :
    (m : Membership) × (bob_context.membership ≡ some m)
    × (bob_context.user ≡ some bob)
    × IsStanding "acme" 8 (acme ∷ []) (ann_member ∷ bob_member ∷ []) (acme, m)
    × (all_granted (incident_update ∷ []) m.role ≡ true)
require_user_session_example =
    require_user_session (incident_update ∷ []) "acme" sample bob_context bob bob_allowed

abbrev reader : ApiKey
reader = record {
  id = 91;
  org_id = 1;
  name = "ci";
  key_hash = "h";
  prefix = "p";
  scopes = "incident:view" ∷ [];
  last_used_at = none;
  expires_at = none;
  revoked_at = none;
  created_at = 0;
}

abbrev key_context : AuthContext
key_context = record { org = acme; user = none; membership = none; key = some reader }

reader_allowed :
    reply (require (incident_view ∷ []) "acme" (api_key reader)) sample ≡ ok key_context
unfolding require
reader_allowed = refl

require_api_key_example :
    (acme.id ≡ reader.org_id)
    × (str_eq acme.slug "acme" ≡ true)
    × (key_context.user ≡ none)
    × (all_in_scopes (incident_view ∷ []) ("incident:view" ∷ []) ≡ true)
require_api_key_example =
    require_api_key (incident_view ∷ []) "acme" sample key_context reader reader_allowed

nothing_written : (require (incident_view ∷ []) "acme" (api_key reader) sample).1 ≡ sample
nothing_written = require_writes_nothing (incident_view ∷ []) "acme" (api_key reader) sample
