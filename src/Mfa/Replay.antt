-- ===== src/Mfa/Replay.antt =====
-- No TOTP code of services/mfa.py counts twice.
use incident_desk.Prelude.{
  ℕ, ◌+◌, ◌<◌, ◌≡◌, inl, inr, String, true, false, Option, none, some, arith, update_where, find,
  find-overwritten, strip, refl, sym, ap, ◌∙◌, Bool-cases, ==_refl, Option-cases,
}
use mathlib.Core.Path.{subst}
use incident_desk.Errors.{type_error}
use incident_desk.Models.{User}
use incident_desk.Session.{Session, Env, ok, err, reply, written}
use incident_desk.Sessions.{is_user}
use incident_desk.Mfa.{
  is_ascii, is_after_counter, matching, match_code, try_totp, accept_counter, match_secret,
}

-- The counter is later than the last one, if there was one.
abbrev pub IsLater : Option ℕ → ℕ → Type 0
IsLater none c = Unit
IsLater (some last) c = last < c

after→IsLater : (o : Option ℕ) (c : ℕ) → is_after_counter o c ≡ true → IsLater o c
after→IsLater none c h = tt
after→IsLater (some last) c h = ground arith

module _ (env : Env) (user : User) (code : String) (s : Session) where
  totp-ascii :
      (secret : String)
      → user.mfa_secret ≡ some secret
      → is_ascii (strip code) ≡ true
      → try_totp env user code s
        ≡ accept_counter env user
            (matching env secret code (env.clock s.draws))
            (record s { draws = s.draws + 1 })
  unfolding try_totp match_secret match_code
  totp-ascii secret e a = rw (e, a) refl

  totp-no_secret : user.mfa_secret ≡ none → reply (try_totp env user code) s ≡ ok false
  unfolding try_totp match_secret match_code
  totp-no_secret e = rw e refl

  totp-not_ascii :
      (secret : String)
      → user.mfa_secret ≡ some secret
      → is_ascii (strip code) ≡ false
      → reply (try_totp env user code) s ≡ err type_error
  unfolding try_totp match_secret match_code
  totp-not_ascii secret e a = rw (e, a) refl

  -- A code that is accepted matches a counter later than the last one accepted, and that counter is
  -- stored.
  accepted :
      reply (try_totp env user code) s ≡ ok true
      → (secret : String) × (c : ℕ) × (user.mfa_secret ≡ some secret)
        × (matching env secret code (env.clock s.draws) ≡ some c)
        × IsLater user.mfa_last_counter c
        × ((written (try_totp env user code) s).users
            ≡ update_where
                (is_user user.id)
                (λ _. record user { mfa_last_counter = some c })
                s.db.users)
  unfolding accept_counter
  accepted h = elim (Option-cases user.mfa_secret) [
    | inl e ↦ absurd (cc (totp-no_secret e))
    | inr (secret, e) ↦ elim (Bool-cases (is_ascii (strip code))) [
      | inr a ↦ absurd (cc (totp-not_ascii secret e a))
      | inl a ↦ elim (Option-cases (matching env secret code (env.clock s.draws))) [
        | inl f ↦ absurd (ground (arith, totp-ascii secret e a))
        | inr (c, f) ↦ (
          secret,
          c,
          e,
          f,
          after→IsLater user.mfa_last_counter c (ground (arith, totp-ascii secret e a)),
          rw (totp-ascii secret e a, written) (ground (arith, totp-ascii secret e a)),
        )
      ]
    ]
  ]

some_inj : {A : Type 0} {x y : A} → some x ≡ some y → x ≡ y
some_inj h = ground arith

-- After a code of a user was accepted, and as long as nobody else writes to the users: a code that is
-- accepted for the user as they then stand, whether it is the same or another, matches a later counter
-- than the one before. So no code is accepted twice for one counter.
pub try_totp_increases :
    (env : Env) (user later : User) (code again : String) (s t : Session)
    → find (is_user user.id) s.db.users ≡ some user
    → reply (try_totp env user code) s ≡ ok true
    → t.db.users ≡ (written (try_totp env user code) s).users
    → find (is_user user.id) t.db.users ≡ some later
    → reply (try_totp env later again) t ≡ ok true
    → (secret : String) × (c c' : ℕ) × (user.mfa_secret ≡ some secret)
      × (matching env secret code (env.clock s.draws) ≡ some c)
      × (matching env secret again (env.clock t.draws) ≡ some c')
      × (c < c')
try_totp_increases env user later code again s t found h e found' h' =
    let (secret, c, k, m, l, w) = accepted env user code s h in
    let (secret', c', k', m', l', w') = accepted env later again t h' in
    let marked : User = record user { mfa_last_counter = some c } in
    let left : find (is_user user.id) t.db.users ≡ some marked =
      ap (find (is_user user.id)) (e ∙ w)
      ∙ find-overwritten (is_user user.id) marked (==_refl user.id) (is_user user.id) (λ x p. p)
          s.db.users (==_refl user.id) (rw found refl) in
    let same : later ≡ marked = some_inj (sym found' ∙ left) in
    let key : secret' ≡ secret = ground (arith, k, k', same) in
    (
      secret,
      c,
      c',
      k,
      m,
      subst (λ x. matching env x again (env.clock t.draws) ≡ some c') key m',
      subst (λ (u : User). IsLater u.mfa_last_counter c') same l',
    )
