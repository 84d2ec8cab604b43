-- ===== src/Realtime/Viewing.antt =====
-- The channel of an organisation beside the REST API: `_channel_allowed` of
-- backend/src/incident_desk/api/realtime_ws.py, and the dependencies of api/deps.py and api/authz.py
-- that a route for reading incidents runs through.
use incident_desk.Prelude.{
  ◌+◌, ◌==◌, ◌≡◌, ap, ◌∙◌, String, concat, true, false, ◌&&◌, Option, some, [], ◌∷◌, find, arith,
  Bool-cases, inl, inr,
}
use incident_desk.Models.{User}
use incident_desk.Session.{Session, Env, AccessClaims, Action, reply, ◌>>=◌}
use incident_desk.Sessions.{is_user}
use incident_desk.Authz.{AuthContext, incident_view, user_session, require}
use incident_desk.Principals.{is_key_token, resolve_user, resolve_session, get_principal}
use incident_desk.Realtime.Channels.{channel_allowed, channel_allowed-require, answers}

-- `get_principal` and then `require(Permission.INCIDENT_VIEW)`
unfoldable pub view_incidents : Env → Option String → String → Action AuthContext
unfolding get_principal require ◌>>=◌
view_incidents env bearer slug = do
  principal ← get_principal env bearer
  require (incident_view ∷ []) slug principal

module _ (env : Env) (slug token : String) (claims : AccessClaims) (user : User) (s : Session)
    (session : is_key_token token ≡ false)
    (decoded : env.decode_access (env.clock s.draws) token ≡ some claims)
    (found : find (is_user claims.user_id) s.db.users ≡ some user) where
  view-current :
      user.is_active ≡ true
      → (user.token_version == claims.token_version) ≡ true
      → reply (view_incidents env (some token) slug) s
        ≡ reply
            (require (incident_view ∷ []) slug (user_session user))
            (record s { draws = s.draws + 1 })
  unfolding view_incidents get_principal resolve_session resolve_user
  view-current a v = ground (arith, session, decoded, found, a, v)

  view-inactive :
      user.is_active ≡ false → answers (reply (view_incidents env (some token) slug) s) ≡ false
  unfolding view_incidents get_principal resolve_session resolve_user
  view-inactive a = ground (arith, session, decoded, found, a)

  view-outdated :
      user.is_active ≡ true
      → (user.token_version == claims.token_version) ≡ false
      → answers (reply (view_incidents env (some token) slug) s) ≡ false
  unfolding view_incidents get_principal resolve_session resolve_user
  view-outdated a v = ground (arith, session, decoded, found, a, v)

  -- For an access token whose claims name a user of the database: the REST API lets its bearer view
  -- the incidents of an organisation exactly if a socket lets this user listen to the channel of the
  -- organisation, the user is active, and the token has the user's current version. The socket asks
  -- for the membership alone. This holds for every slug, also one that names no organisation.
  pub channel_allowed-view_incidents : answers (reply (view_incidents env (some token) slug) s) ≡ (
      user.is_active
      && user.token_version == claims.token_version
      && channel_allowed env s.db (concat "org:" (concat slug ":incidents")) user.id)
  channel_allowed-view_incidents = elim (Bool-cases user.is_active) [
    | inr a ↦ view-inactive a ∙ ground (arith, a)
    | inl a ↦ elim (Bool-cases (user.token_version == claims.token_version)) [
      | inr v ↦ view-outdated a v ∙ ground (arith, a, v)
      | inl v ↦
          ap answers (view-current a v)
          ∙ ground (
            arith,
            a,
            v,
            channel_allowed-require env (record s { draws = s.draws + 1 }) slug user,
          )
    ]
  ]
