-- ===== src/Sessions/Rotation.antt =====
-- A refresh token is rotated once: presented again, it revokes the family, and the handler of
-- api/v1/auth.py commits that.
use incident_desk.Prelude.{
  ℕ, ◌+◌, ==_refl, ◌≡◌, refl, String, none, some, List, [], ◌∷◌, ◌++◌, arith, find, update_where,
  find-update_where, find-append_some, Option-cases, inl, inr,
}
use incident_desk.Errors.{refresh_reused}
use incident_desk.Models.{RefreshToken, User}
use incident_desk.Session.{Session, Env, ok, err, reply, written}
use incident_desk.Members.{hash_token}
use incident_desk.Sessions.{
  Settings, SessionTokens, has_hash, has_id, is_user, consume_at, rotate_refresh, reissue,
  consume_and_mint, mint,
}
use incident_desk.Sessions.Families.{
  presented, rotate-unknown, rotate-fresh, rotate-reused, revoked_family_refused,
  reuse_revokes_family, IsRevoked,
}

module _ (env : Env) (settings : Settings) where
  -- the token that follows `t` in its family, from the draw `n` on
  abbrev minted : RefreshToken → User → ℕ → RefreshToken
  minted t user n = record {
    id = env.uuid (n + 1 + 1);
    user_id = user.id;
    family_id = t.family_id;
    token_hash = hash_token env (env.secret n);
    expires_at = env.clock (n + 1) + settings.refresh_token_ttl;
    consumed_at = none;
    revoked_at = none;
  }

  -- the table after a rotation
  abbrev rotated : RefreshToken → User → Session → List RefreshToken
  rotated t user s =
      update_where (has_id t.id) (consume_at (env.clock (s.draws + 1))) s.db.refresh_tokens
      ++ minted t user (s.draws + 1 + 1) ∷ []

  reissue-writes :
      (t : RefreshToken) (s : Session) (r : SessionTokens)
      → reply (reissue env settings t) s ≡ ok r
      → (user : User) × ((written (reissue env settings t) s).refresh_tokens ≡ rotated t user s)
  unfolding reissue consume_and_mint mint
  reissue-writes t s r h = elim (Option-cases (find (is_user t.user_id) s.db.users)) [
    | inl e ↦ absurd (ground arith)
    | inr (u, e) ↦ (u, ground arith)
  ]

  module _ (raw : String) (s : Session) (r : SessionTokens)
      (h : reply (rotate_refresh env settings raw) s ≡ ok r) where
    -- a token that is rotated is neither revoked nor consumed
    rotate-found :
        (t : RefreshToken) × (presented env settings raw s ≡ some t)
        × (t.revoked_at ≡ none)
        × (t.consumed_at ≡ none)
    rotate-found = elim (Option-cases (presented env settings raw s)) [
      | inl e ↦ absurd (cc (rotate-unknown env settings raw s e))
      | inr (t, e) ↦ elim (Option-cases t.revoked_at) [
        | inr (x, f) ↦ absurd (cc (revoked_family_refused env settings raw s t e (rw f refl)))
        | inl f ↦ elim (Option-cases t.consumed_at) [
          | inr (x, g) ↦ absurd (cc (rotate-reused env settings raw s t e (rw g refl) f))
          | inl g ↦ (t, e, f, g)
        ]
      ]
    ]

    -- After a token was rotated, presenting it again is refused, and revokes every token of its
    -- family, the one that replaced it included.
    pub rotate_refresh_once :
        (t : RefreshToken)
        → presented env settings raw s ≡ some t
        → (reply (rotate_refresh env settings raw) (rotate_refresh env settings raw s).1
            ≡ err refresh_reused)
          × IsRevoked t.family_id
              (written
                (rotate_refresh env settings raw)
                (rotate_refresh env settings raw s).1).refresh_tokens
    rotate_refresh_once t e =
        let (t', e', f, g) = rotate-found in
        let q : some t' ≡ some t = cc (e, e') in
        let f1 : t.revoked_at ≡ none = ground (arith, q) in
        let g1 : t.consumed_at ≡ none = ground (arith, q) in
        let fresh = rotate-fresh env settings raw s t e f1 g1 in
        let (user, w) = reissue-writes t s r (cc (h, fresh)) in
        reuse_revokes_family env settings raw (rotate_refresh env settings raw s).1
          (consume_at (env.clock (s.draws + 1)) t)
          (rw (fresh, w)
            (find-append_some (has_hash (hash_token env raw)) _ _ _ (
              find-update_where (has_hash (hash_token env raw)) (has_id t.id)
                (consume_at (env.clock (s.draws + 1))) (λ x. refl) s.db.refresh_tokens t e
                (==_refl t.id))))
          refl f1
