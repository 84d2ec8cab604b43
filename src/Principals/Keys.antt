-- ===== src/Principals/Keys.antt =====
-- API keys as credentials: `_resolve_api_key` of backend/src/incident_desk/api/deps.py with
-- services/apikeys.py beside it.
use incident_desk.Prelude.{
  ℕ, ◌+◌, ◌==◌, ◌≡◌, refl, sym, ap, ◌∙◌, String, concat, is_empty, all_chars, not, Bool, true,
  false, Option, none, some, List, [], ◌∷◌, ◌++◌, arith, find, find-append, is_some, inl, inr,
  find-update_where, Bool-cases, find-head, update_where, ==_refl, eq_refl,
}
use Prim.Native.Char.{code}
use Prim.Native.String.{[], ◌∷◌}
use incident_desk.Errors.{unauthorized}
use incident_desk.Models.{Organization, ApiKey}
use incident_desk.Session.{Session, Env, Result, ok, err, reply}
use incident_desk.Session.Inversion.{ok-injective}
use incident_desk.Members.{hash_token}
use incident_desk.Authz.{Permission, Principal, api_key}
use incident_desk.ApiKeys.{
  format_token, create_api_key, revoke_api_key, is_api_key, has_key_id, key_row, scope_values,
}
use incident_desk.Principals.{
  cut, parts_after, last_parts, key_parts, is_candidate, has_expired, resolve_parts,
  resolve_api_key, is_key_token, get_principal,
}

abbrev pub is_plain : ℕ → Bool
is_plain c = not (c == 95)

pub cut-concat :
    (p s : String) → all_chars is_plain p ≡ true → cut (concat p ("_" ∷ s)) ≡ some (p, s)
unfolding cut concat
cut-concat [] s h = refl
cut-concat (c ∷ p) s h =
    let r = cut-concat p s (ground arith) in
    let n : (code c == 95) ≡ false = ground arith in rw (n, r) refl

pub cut-format_token :
    (p s : String) → cut (format_token p s) ≡ some ("i" ∷ "k" ∷ [], concat p ("_" ∷ s))
unfolding cut format_token
cut-format_token p s = refl

key_parts-cut :
    (token rest p s : String) (first : String)
    → cut token ≡ some (first, rest)
    → cut rest ≡ some (p, s)
    → is_empty p ≡ false
    → is_empty s ≡ false
    → key_parts token ≡ some (p, s)
unfolding key_parts
key_parts-cut token rest p s first t r e f = ap parts_after t ∙ ap last_parts r ∙ rw (e, f) refl

key_parts-format_token :
    (p s : String)
    → is_empty p ≡ false
    → is_empty s ≡ false
    → all_chars is_plain p ≡ true
    → key_parts (format_token p s) ≡ some (p, s)
key_parts-format_token p s e f h =
    key_parts-cut (format_token p s) (concat p ("_" ∷ s)) p s ("i" ∷ "k" ∷ [])
      (cut-format_token p s) (cut-concat p s h) e f

module _ (env : Env) (p h : String) (s : Session) where
  resolve-found :
      (k : ApiKey)
      → find (is_candidate p (hash_token env h)) s.db.api_keys ≡ some k
      → is_some k.revoked_at ≡ false
      → has_expired (env.clock s.draws) k ≡ false
      → reply (resolve_parts env (p, h)) s
        ≡ ok (api_key (record k { last_used_at = some (env.clock s.draws) }))
  unfolding resolve_parts
  resolve-found k f r x = rw (f, r, x) refl

  resolve-revoked :
      (k : ApiKey)
      → find (is_candidate p (hash_token env h)) s.db.api_keys ≡ some k
      → is_some k.revoked_at ≡ true
      → reply (resolve_parts env (p, h)) s ≡ err unauthorized
  unfolding resolve_parts
  resolve-revoked k f r = rw (f, r) refl

  parts-run :
      (token : String)
      → key_parts token ≡ some (p, h)
      → resolve_api_key env token s ≡ resolve_parts env (p, h) s
  unfolding resolve_api_key
  parts-run token e = rw e refl

principal-key :
    (env : Env) (token : String) (s : Session)
    → is_key_token token ≡ true
    → get_principal env (some token) s ≡ resolve_api_key env token s
unfolding get_principal
principal-key env token s e = rw e refl

pub key_token-format_token : (p s : String) → is_key_token (format_token p s) ≡ true
unfolding is_key_token format_token
key_token-format_token p s = refl

module _ (env : Env) (org : Organization) (name : String) (scopes : List Permission)
    (expires_at : Option ℕ) (s : Session) where
  abbrev drawn_prefix : String
  drawn_prefix = env.secret s.draws

  abbrev drawn_secret : String
  drawn_secret = env.secret (s.draws + 1)

  -- the row that a creation adds
  abbrev drawn_key : ApiKey
  drawn_key =
      key_row (env.uuid (s.draws + 1 + 1)) org.id name (hash_token env drawn_secret) drawn_prefix
        (scope_values scopes) expires_at s.transaction_time

  create-reply :
      reply (create_api_key env org name scopes expires_at) s
      ≡ ok (drawn_key, format_token drawn_prefix drawn_secret)
  unfolding create_api_key
  create-reply = refl

  create-table :
      (create_api_key env org name scopes expires_at s).1.db.api_keys
      ≡ s.db.api_keys ++ drawn_key ∷ []
  unfolding create_api_key
  create-table = refl

  -- A key just made, of a hash that no key with its prefix has, from a prefix without `_`, neither
  -- text empty: while it has not expired, its full token opens it, with its scopes, and the use is
  -- noted.
  pub get_principal-create_api_key :
      (t : Session)
      → t.db.api_keys ≡ (create_api_key env org name scopes expires_at s).1.db.api_keys
      → is_empty (env.secret s.draws) ≡ false
      → is_empty (env.secret (s.draws + 1)) ≡ false
      → all_chars is_plain (env.secret s.draws) ≡ true
      → find
          (is_candidate (env.secret s.draws) (hash_token env (env.secret (s.draws + 1))))
          s.db.api_keys
        ≡ none
      → (key : ApiKey) (token : String)
      → reply (create_api_key env org name scopes expires_at) s ≡ ok (key, token)
      → has_expired (env.clock t.draws) key ≡ false
      → reply (get_principal env (some token)) t
        ≡ ok (api_key (record key { last_used_at = some (env.clock t.draws) }))
  get_principal-create_api_key t e np ns pl fresh key token h x =
      let y : (drawn_key, format_token drawn_prefix drawn_secret) ≡ (key, token) =
        ok-injective (drawn_key, format_token drawn_prefix drawn_secret) (key, token)
          (sym create-reply ∙ h) in
      let k : drawn_key ≡ key = ap (λ (v : ApiKey × String). v.0) y in
      let made : format_token drawn_prefix drawn_secret ≡ token =
        ap (λ (v : ApiKey × String). v.1) y in
      let candidate = is_candidate drawn_prefix (hash_token env drawn_secret) in
      let found : find candidate t.db.api_keys ≡ some drawn_key =
        ap (find candidate) (e ∙ create-table)
        ∙ find-append candidate s.db.api_keys (drawn_key ∷ []) fresh
        ∙ find-head candidate drawn_key []
            (rw (eq_refl drawn_prefix, eq_refl (hash_token env drawn_secret)) refl) in
      let opened =
        principal-key env (format_token drawn_prefix drawn_secret) t
          (key_token-format_token drawn_prefix drawn_secret)
        ∙ parts-run env drawn_prefix drawn_secret t (format_token drawn_prefix drawn_secret)
            (key_parts-format_token drawn_prefix drawn_secret np ns pl) in
      let run =
        resolve-found env drawn_prefix drawn_secret t drawn_key found refl
          (ap (has_expired (env.clock t.draws)) k ∙ x) in
      ap (λ v. reply (get_principal env (some v)) t) (sym made)
      ∙ ap (λ (v : Result Principal × Session). v.0) opened
      ∙ run
      ∙ ap (λ (v : ApiKey). ok (api_key (record v { last_used_at = some (env.clock t.draws) }))) k

revoke-table :
    (env : Env) (org : Organization) (id : ℕ) (s : Session) (k : ApiKey)
    → find (is_api_key org.id id) s.db.api_keys ≡ some k
    → is_some k.revoked_at ≡ false
    → (revoke_api_key env org id s).1.db.api_keys
      ≡ update_where
          (has_key_id k.id)
          (λ x. record x { revoked_at = some (env.clock s.draws) })
          s.db.api_keys
unfolding revoke_api_key
revoke-table env org id s k f r = rw (f, r) refl

revoke-twice :
    (env : Env) (org : Organization) (id : ℕ) (s : Session) (k : ApiKey)
    → find (is_api_key org.id id) s.db.api_keys ≡ some k
    → is_some k.revoked_at ≡ true
    → (revoke_api_key env org id s).1.db.api_keys ≡ s.db.api_keys
unfolding revoke_api_key
revoke-twice env org id s k f r = rw (f, r) refl

-- the row that the token stands for
abbrev pub Opens : Env → String → ApiKey → List ApiKey → Type 0
Opens env token k keys =
    (p : String) × (h : String) × (key_parts token ≡ some (p, h))
    × (find (is_candidate p (hash_token env h)) keys ≡ some k)

still_revoked :
    (env : Env) (org : Organization) (id : ℕ) (s : Session) (k : ApiKey) (p h : String)
    → find (is_api_key org.id id) s.db.api_keys ≡ some k
    → find (is_candidate p (hash_token env h)) s.db.api_keys ≡ some k
    → (k' : ApiKey) × (is_some k'.revoked_at ≡ true)
      × (find (is_candidate p (hash_token env h)) (revoke_api_key env org id s).1.db.api_keys
          ≡ some k')
still_revoked env org id s k p h f g = elim (Bool-cases (is_some k.revoked_at)) [
  | inl r ↦ (k, r, rw (revoke-twice env org id s k f r) g)
  | inr r ↦ (
    record k { revoked_at = some (env.clock s.draws) },
    refl,
    rw (revoke-table env org id s k f r) (
        find-update_where (is_candidate p (hash_token env h)) (has_key_id k.id)
          (λ x. record x { revoked_at = some (env.clock s.draws) }) (λ x. refl) s.db.api_keys k g
          (==_refl k.id)),
  )
]

-- A key whose row a token stands for: once the key is revoked, the token is refused, at any time
-- and in any session that has that table of keys.
pub revoked_key_refused :
    (env : Env) (org : Organization) (id : ℕ) (token : String) (s t : Session) (k : ApiKey)
    → is_key_token token ≡ true
    → find (is_api_key org.id id) s.db.api_keys ≡ some k
    → Opens env token k s.db.api_keys
    → t.db.api_keys ≡ (revoke_api_key env org id s).1.db.api_keys
    → reply (get_principal env (some token)) t ≡ err unauthorized
revoked_key_refused env org id token s t k e f (p, h, parts, g) same =
    let (k', r, found) = still_revoked env org id s k p h f g in
    ap (λ (v : Result Principal × Session). v.0)
      (principal-key env token t e ∙ parts-run env p h t token parts)
    ∙ resolve-revoked env p h t k' (rw same found) r
