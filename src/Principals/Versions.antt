-- ===== src/Principals/Versions.antt =====
-- Access tokens and the version of a user: `_resolve_user` of
-- backend/src/incident_desk/api/deps.py.
use incident_desk.Prelude.{
  ℕ, ◌+◌, ◌==◌, ◌≡◌, refl, String, true, false, none, some, arith, find, Option-cases, inl, inr,
  find-overwritten, find-holds, ==_refl, update_where,
}
use incident_desk.Errors.{unauthorized}
use incident_desk.Models.{User}
use incident_desk.Session.{Session, Env, AccessClaims, ok, err, reply}
use incident_desk.Sessions.{is_user, revoke_all_sessions}
use incident_desk.Principals.{resolve_user}

module _ (env : Env) (token : String) (s : Session) where
  resolved :
      (u : User)
      → reply (resolve_user env token) s ≡ ok u
      → (c : AccessClaims) × (env.decode_access (env.clock s.draws) token ≡ some c)
        × (find (is_user c.user_id) s.db.users ≡ some u)
        × ((u.token_version == c.token_version) ≡ true)
  unfolding resolve_user
  resolved u h = elim (Option-cases (env.decode_access (env.clock s.draws) token)) [
    | inl e ↦ absurd (ground arith)
    | inr (c, e) ↦ elim (Option-cases (find (is_user c.user_id) s.db.users)) [
      | inl f ↦ absurd (ground arith)
      | inr (v, f) ↦ (c, e, ground arith, ground arith)
    ]
  ]

  refused_undecoded :
      env.decode_access (env.clock s.draws) token ≡ none
      → reply (resolve_user env token) s ≡ err unauthorized
  unfolding resolve_user
  refused_undecoded e = ground arith

  refused_version :
      (c : AccessClaims) (v : User)
      → env.decode_access (env.clock s.draws) token ≡ some c
      → find (is_user c.user_id) s.db.users ≡ some v
      → (v.token_version == c.token_version) ≡ false
      → reply (resolve_user env token) s ≡ err unauthorized
  unfolding resolve_user
  refused_version c v e f n = ground arith

-- what a text decodes to does not depend on when it decodes
abbrev pub IsStable : Env → String → Type 0
IsStable env token =
    (at at' : ℕ) (c c' : AccessClaims)
    → env.decode_access at token ≡ some c
    → env.decode_access at' token ≡ some c'
    → c ≡ c'

bumped_user : User → User
bumped_user u = record u { token_version = u.token_version + 1 }

revoke_all_sessions-users :
    (env : Env) (u : User) (t : Session)
    → (revoke_all_sessions env u t).1.db.users
      ≡ update_where (is_user u.id) (λ _. bumped_user u) t.db.users
unfolding revoke_all_sessions bumped_user
revoke_all_sessions-users env u t = refl

-- An access token that opened the account of a user: after `revoke_all_sessions` of that user, and
-- as long as nobody writes to the users, it is refused.
pub revoked_token_refused :
    (env : Env) (token : String) (s t r : Session) (u : User)
    → IsStable env token
    → reply (resolve_user env token) s ≡ ok u
    → t.db.users ≡ s.db.users
    → r.db.users ≡ (revoke_all_sessions env u t).1.db.users
    → reply (resolve_user env token) r ≡ err unauthorized
unfolding bumped_user
revoked_token_refused env token s t r u stable h e g =
    let (c, d, f, v) = resolved env token s u h in
    let k = find-holds (is_user c.user_id) s.db.users u f in
    let left : find (is_user c.user_id) r.db.users ≡ some (bumped_user u) =
      rw (g, revoke_all_sessions-users env u t, e)
        (find-overwritten (is_user u.id) (bumped_user u) (==_refl u.id) (is_user c.user_id)
          (λ x p. ground arith) s.db.users (ground arith) (ground (arith, k, f))) in
    elim (Option-cases (env.decode_access (env.clock r.draws) token)) [
      | inl n ↦ refused_undecoded env token r n
      | inr (c', n) ↦
          let q : c ≡ c' = stable (env.clock s.draws) (env.clock r.draws) c c' d n in
          refused_version env token r c (bumped_user u) (rw q n) left (ground (arith, v))
    ]
