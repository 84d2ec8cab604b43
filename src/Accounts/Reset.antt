-- ===== src/Accounts/Reset.antt =====
-- `reset_password` of backend/src/incident_desk/services/auth_service.py: what a reset ends.
use incident_desk.Prelude.{
  ℕ, ◌+◌, ==_refl, ◌≡◌, refl, String, true, Option, none, some, List, [], ◌∷◌, All, arith, is_some,
  find, update_where, find-update_where, Option-cases, inl, inr,
}
use incident_desk.Errors.{invalid_token}
use incident_desk.Models.{User, RefreshToken, MailToken}
use incident_desk.Session.{Session, Env, ok, err, reply, written}
use incident_desk.Members.{hash_token}
use incident_desk.Sessions.{is_user, is_live_of_user, revoke_at, revoke_all_sessions}
use incident_desk.Accounts.{has_mail_hash, is_mail_token, consume_mail, reset_password}

-- every refresh token of the user is revoked
abbrev pub IsLoggedOut : ℕ → List RefreshToken → Type 0
IsLoggedOut user ts = All (λ t. t.user_id ≡ user → is_some t.revoked_at ≡ true) ts

revoke-IsLoggedOut :
    (user at : ℕ) (ts : List RefreshToken)
    → IsLoggedOut user (update_where (is_live_of_user user) (revoke_at at) ts)
revoke-IsLoggedOut user at [] = tt
revoke-IsLoggedOut user at (t ∷ ts) = (λ e. ground arith, revoke-IsLoggedOut user at ts)

module _ (env : Env) (raw : String) where
  -- the token that the text stands for
  abbrev mailed : Session → Option MailToken
  mailed s = find (has_mail_hash (hash_token env raw)) s.db.reset_tokens

  reset-used :
      (password : String) (s : Session) (t : MailToken)
      → mailed s ≡ some t
      → is_some t.consumed_at ≡ true
      → reset_password env raw password s ≡ (err invalid_token, s)
  unfolding reset_password
  reset-used password s t e c = ground arith

  reset-unknown :
      (password : String) (s : Session)
      → mailed s ≡ none
      → reset_password env raw password s ≡ (err invalid_token, s)
  unfolding reset_password
  reset-unknown password s e = ground arith

  module _ (password : String) (s : Session) (u : User)
      (h : reply (reset_password env raw password) s ≡ ok u) where
    -- the two tables after a reset
    reset-writes :
        (t : MailToken)
        → mailed s ≡ some t
        → (at : ℕ) × ((written (reset_password env raw password) s).refresh_tokens
            ≡ update_where (is_live_of_user u.id) (revoke_at at) s.db.refresh_tokens)
          × ((written (reset_password env raw password) s).reset_tokens
              ≡ update_where
                  (is_mail_token t.id)
                  (consume_mail (env.clock (s.draws + 1)))
                  s.db.reset_tokens)
    unfolding reset_password revoke_all_sessions
    reset-writes t e = elim (Option-cases (find (is_user t.user_id) s.db.users)) [
      | inl f ↦ absurd (ground arith)
      | inr (v, f) ↦ elim (Option-cases v.email_verified_at) [
        | inl g ↦ (env.clock (s.draws + 1 + 1 + 1 + 1), ground arith, ground arith)
        | inr (x, g) ↦ (env.clock (s.draws + 1 + 1 + 1), ground arith, ground arith)
      ]
    ]

    -- A password that was reset ends every session of the user: all refresh tokens are revoked.
    pub reset_password-IsLoggedOut :
        IsLoggedOut u.id (written (reset_password env raw password) s).refresh_tokens
    reset_password-IsLoggedOut = elim (Option-cases (mailed s)) [
      | inl e ↦ absurd (cc (reset-unknown password s e))
      | inr (t, e) ↦
          let (at, w, x) = reset-writes t e in rw w (revoke-IsLoggedOut u.id at s.db.refresh_tokens)
    ]

    -- After a password was reset, the same link is refused, and nothing is written.
    pub reset_password_once :
        (other : String)
        → reset_password env raw other (reset_password env raw password s).1
          ≡ (err invalid_token, (reset_password env raw password s).1)
    reset_password_once other = elim (Option-cases (mailed s)) [
      | inl e ↦ absurd (cc (reset-unknown password s e))
      | inr (t, e) ↦
          let (at, w, x) = reset-writes t e in
          reset-used other (reset_password env raw password s).1
            (consume_mail (env.clock (s.draws + 1)) t)
            (rw x (
              find-update_where (has_mail_hash (hash_token env raw)) (is_mail_token t.id)
                (consume_mail (env.clock (s.draws + 1))) (λ y. refl) s.db.reset_tokens t e
                (==_refl t.id)))
            refl
    ]
