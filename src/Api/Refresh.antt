-- ===== src/Api/Refresh.antt =====
-- The handler `refresh` of api/v1/auth.py: what a detected reuse leaves committed.
use incident_desk.Prelude.{◌+◌, ◌≡◌, refl, String, true, none, some, is_some, update_where}
use incident_desk.Errors.{refresh_reused}
use incident_desk.Models.{RefreshToken}
use incident_desk.Session.{Session, Env, err, close}
use incident_desk.Sessions.{Settings, is_live_of_family, revoke_at}
use incident_desk.Sessions.Families.{presented, rotate-reused, revoke-IsRevoked, IsRevoked}
use incident_desk.Api.Auth.{refresh, after_rotation}

module _ (env : Env) (settings : Settings) (raw : String) (s : Session) (t : RefreshToken) where
  refresh-reused :
      presented env settings raw s ≡ some t
      → is_some t.consumed_at ≡ true
      → t.revoked_at ≡ none
      → refresh env settings raw s
        ≡ after_rotation env (err refresh_reused) (record s {
          db = record s.db {
            refresh_tokens =
                update_where
                  (is_live_of_family t.family_id)
                  (revoke_at (env.clock s.draws))
                  s.db.refresh_tokens;
          };
          draws = s.draws + 1;
        })
  unfolding refresh
  refresh-reused e c n = rw (rotate-reused env settings raw s t e c n) refl

  -- A consumed token that is presented to the endpoint is refused, and after the session closes the
  -- revocation of its whole family stands, although the request failed.
  pub refresh_commits_revocation :
      presented env settings raw s ≡ some t
      → is_some t.consumed_at ≡ true
      → t.revoked_at ≡ none
      → ((refresh env settings raw s).0 ≡ err refresh_reused)
        × IsRevoked t.family_id (close (refresh env settings raw s).1).db.refresh_tokens
  unfolding after_rotation
  refresh_commits_revocation e c n =
      rw (refresh-reused e c n)
        (refl, revoke-IsRevoked t.family_id (env.clock s.draws) s.db.refresh_tokens)
