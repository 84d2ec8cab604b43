-- ===== src/Sessions/Families.antt =====
-- Refresh-token families: reuse of a consumed token revokes its whole family, and a family without
-- a live token never gets one again.
use incident_desk.Prelude.{
  ℕ, ◌+◌, ◌≡◌, ◌≢◌, refl, Bool, true, not, ◌&&◌, Option, none, some, List, [], ◌∷◌, ◌++◌, arith,
  is_some, find, update_where, Option-cases, inl, inr, String, All, All-append, update_where-All,
  find-All,
}
use incident_desk.Errors.{invalid_refresh, refresh_reused}
use incident_desk.Models.{User, RefreshToken}
use incident_desk.Session.{Database, Session, Env, err, modify, reply, written}
use incident_desk.Session.Keeping.{Keeps, Kept, Always, keeping, Keeps-modify}
use incident_desk.Members.{hash_token}
use incident_desk.Sessions.{
  Settings, has_hash, has_id, is_live_of_family, revoke_at, consume_at, rotate_refresh, mint,
  consume_and_mint, reissue,
}

-- a token that can still be rotated, its lifetime left aside
abbrev pub is_live : RefreshToken → Bool
is_live t = not (is_some t.revoked_at) && not (is_some t.consumed_at)

-- every token of the family is revoked
abbrev pub IsRevoked : ℕ → List RefreshToken → Type 0
IsRevoked family ts = All (λ t. t.family_id ≡ family → is_some t.revoked_at ≡ true) ts

pub revoke-IsRevoked :
    (family at : ℕ) (ts : List RefreshToken)
    → IsRevoked family (update_where (is_live_of_family family) (revoke_at at) ts)
revoke-IsRevoked family at [] = tt
revoke-IsRevoked family at (t ∷ ts) = (λ e. ground arith, revoke-IsRevoked family at ts)

module _ (env : Env) (settings : Settings) (raw : String) (s : Session) where
  -- the token that the text stands for
  abbrev pub presented : Option RefreshToken
  presented = find (has_hash (hash_token env raw)) s.db.refresh_tokens

  pub rotate-reused :
      (t : RefreshToken)
      → presented ≡ some t
      → is_some t.consumed_at ≡ true
      → t.revoked_at ≡ none
      → rotate_refresh env settings raw s ≡ (
        err refresh_reused,
        record s {
          db = record s.db {
            refresh_tokens =
                update_where
                  (is_live_of_family t.family_id)
                  (revoke_at (env.clock s.draws))
                  s.db.refresh_tokens;
          };
          draws = s.draws + 1;
        },
      )
  unfolding rotate_refresh
  rotate-reused t e c n = ground arith

  pub rotate-unknown :
      presented ≡ none → rotate_refresh env settings raw s ≡ (err invalid_refresh, s)
  unfolding rotate_refresh
  rotate-unknown e = ground arith

  pub rotate-fresh :
      (t : RefreshToken)
      → presented ≡ some t
      → t.revoked_at ≡ none
      → t.consumed_at ≡ none
      → rotate_refresh env settings raw s ≡ reissue env settings t s
  unfolding rotate_refresh
  rotate-fresh t e f g = ground arith

  -- A consumed token that is presented again is refused, and every token of its family is revoked.
  pub reuse_revokes_family :
      (t : RefreshToken)
      → presented ≡ some t
      → is_some t.consumed_at ≡ true
      → t.revoked_at ≡ none
      → (reply (rotate_refresh env settings raw) s ≡ err refresh_reused)
        × IsRevoked t.family_id (written (rotate_refresh env settings raw) s).refresh_tokens
  reuse_revokes_family t e c n =
      rw (rotate-reused t e c n, reply, written)
        (refl, revoke-IsRevoked t.family_id (env.clock s.draws) s.db.refresh_tokens)

  -- A token of a revoked family is refused.
  pub revoked_family_refused :
      (t : RefreshToken)
      → presented ≡ some t
      → is_some t.revoked_at ≡ true
      → rotate_refresh env settings raw s ≡ (err invalid_refresh, s)
  unfolding rotate_refresh
  revoked_family_refused t e r = ground arith

-- a family of which every token is revoked
abbrev pub IsDead : ℕ → Database → Type 0
IsDead family d = IsRevoked family d.refresh_tokens

consume-IsRevoked :
    (family id at : ℕ) (ts : List RefreshToken)
    → IsRevoked family ts
    → IsRevoked family (update_where (has_id id) (consume_at at) ts)
consume-IsRevoked family id at ts v =
    update_where-All (has_id id) (λ t. t.family_id ≡ family → is_some t.revoked_at ≡ true)
      (consume_at at) (λ t h. h) ts v

add-IsRevoked :
    (family : ℕ) (t : RefreshToken) (ts : List RefreshToken)
    → IsRevoked family ts
    → t.family_id ≢ family
    → IsRevoked family (ts ++ t ∷ [])
add-IsRevoked family t ts v n =
    All-append (λ (u : RefreshToken). u.family_id ≡ family → is_some u.revoked_at ≡ true) ts
      (t ∷ []) v (λ e. absurd (n e), tt)

module _ (env : Env) (settings : Settings) (family : ℕ) where
  mint-Keeps :
      (user : User) (other : ℕ)
      → other ≢ family
      → Keeps (IsDead family) (mint env settings user other)
  unfolding mint
  mint-Keeps user other n = record {
    at = λ s h. (add-IsRevoked family _ s.db.refresh_tokens h.0 n, h.1);
  }

  consume-Keeps :
      (t : RefreshToken) (at : ℕ)
      → Keeps (IsDead family) (
          modify (λ d. record d {
            refresh_tokens = update_where (has_id t.id) (consume_at at) d.refresh_tokens;
          }))
  consume-Keeps t at = Keeps-modify _ (λ d h. consume-IsRevoked family t.id at d.refresh_tokens h)

  consume_and_mint-Keeps :
      (t : RefreshToken) (user : User)
      → t.family_id ≢ family
      → Keeps (IsDead family) (consume_and_mint env settings t user)
  unfolding consume_and_mint
  consume_and_mint-Keeps t user n = search (keeping, consume-Keeps, mint-Keeps)

  reissue-Keeps :
      (t : RefreshToken) → t.family_id ≢ family → Keeps (IsDead family) (reissue env settings t)
  unfolding reissue
  reissue-Keeps t n = search (keeping, consume_and_mint-Keeps) depth 9

  -- However a token is rotated, a family of which every token is revoked in what is written and in
  -- what is committed stays so.
  pub rotate_refresh-IsDead :
      (raw : String) (s : Session)
      → Always (IsDead family) s
      → Kept (IsDead family) (rotate_refresh env settings raw s)
  rotate_refresh-IsDead raw s h = elim (Option-cases (presented env settings raw s)) [
    | inl e ↦ rw (rotate-unknown env settings raw s e) h.1
    | inr (t, e) ↦ elim (Option-cases t.revoked_at) [
      | inr (r, f) ↦ rw (revoked_family_refused env settings raw s t e (rw f)) h.1
      | inl f ↦ elim (Option-cases t.consumed_at) [
        | inr (k, g) ↦ rw (rotate-reused env settings raw s t e (rw g) f) h.1
        | inl g ↦ rw (rotate-fresh env settings raw s t e f g) (
            (reissue-Keeps t (λ q.
                let r =
                  find-All (has_hash (hash_token env raw))
                    (λ u. u.family_id ≡ family → is_some u.revoked_at ≡ true) s.db.refresh_tokens t
                    h.0 e q in
                ground arith)).at
              s h)
      ]
    ]
  ]
