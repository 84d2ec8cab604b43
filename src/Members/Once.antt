-- ===== src/Members/Once.antt =====
-- An invitation of services/members.py is accepted once.
use incident_desk.Prelude.{
  ℕ, ◌+◌, ◌==◌, ==_refl, ◌≡◌, refl, String, true, none, some, arith, is_some, find, update_where,
  find-update_where, Option-cases, inl, inr,
}
use incident_desk.Errors.{invalid_invitation}
use incident_desk.Models.{Organization, Membership, OrgInvitation, User}
use incident_desk.Session.{Session, Env, ok, err, reply, written}
use incident_desk.Members.{has_token, accept_invitation, admit, add_member, keep_member}

abbrev accepted_at : ℕ → OrgInvitation → OrgInvitation
accepted_at at i = record i { accepted_at = some at }

module _ (env : Env) (raw : String) where
  accept-used :
      (user : User) (s : Session) (i : OrgInvitation)
      → find (has_token env raw) s.db.invitations ≡ some i
      → is_some i.accepted_at ≡ true
      → accept_invitation env user raw s ≡ (err invalid_invitation, s)
  unfolding accept_invitation
  accept-used user s i e a = ground arith

  accept-unknown :
      (user : User) (s : Session)
      → find (has_token env raw) s.db.invitations ≡ none
      → accept_invitation env user raw s ≡ (err invalid_invitation, s)
  unfolding accept_invitation
  accept-unknown user s e = ground arith

  accept-writes :
      (user : User) (s : Session) (i : OrgInvitation) (r : Organization × Membership)
      → find (has_token env raw) s.db.invitations ≡ some i
      → reply (accept_invitation env user raw) s ≡ ok r
      → (written (accept_invitation env user raw) s).invitations
        ≡ update_where (λ j. j.id == i.id) (accepted_at (env.clock (s.draws + 1))) s.db.invitations
  unfolding accept_invitation admit add_member keep_member
  accept-writes user s i r e h = ground arith

  -- After an invitation was accepted, its token is refused whoever presents it, and nothing is
  -- written.
  pub accept_invitation_once :
      (user later : User) (s : Session) (r : Organization × Membership)
      → reply (accept_invitation env user raw) s ≡ ok r
      → accept_invitation env later raw (accept_invitation env user raw s).1
        ≡ (err invalid_invitation, (accept_invitation env user raw s).1)
  accept_invitation_once user later s r h =
      elim (Option-cases (find (has_token env raw) s.db.invitations)) [
        | inl e ↦ absurd (cc (accept-unknown user s e))
        | inr (i, e) ↦
            accept-used later (accept_invitation env user raw s).1
              (accepted_at (env.clock (s.draws + 1)) i)
              (rw (accept-writes user s i r e h) (
                find-update_where (has_token env raw) (λ j. j.id == i.id)
                  (accepted_at (env.clock (s.draws + 1))) (λ x. refl) s.db.invitations i e
                  (==_refl i.id)))
              refl
      ]
