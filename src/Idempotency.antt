-- ===== src/Idempotency.antt =====
-- Idempotency keys: backend/src/incident_desk/services/idempotency.py.
use incident_desk.Prelude.{
  ℕ, ◌==◌, String, str_eq, Bool, ◌&&◌, Option, none, [], ◌∷◌, ◌++◌, is_some, find, if◌then◌else◌,
}
use incident_desk.Models.{IdempotencyKey}
use incident_desk.Session.{Env, Action, pure, gets, modify, database_now, rollback, ◌>>=◌, ◌>>◌}

-- the primary key `(org_id, key)`
abbrev pub is_key : ℕ → String → IdempotencyKey → Bool
is_key org_id key k = k.org_id == org_id && str_eq k.key key

unfoldable pub stored_response : ℕ → String → Action (Option IdempotencyKey)
unfolding ◌>>=◌
stored_response org_id key = gets (λ d. find (is_key org_id key) d.idempotency_keys)

-- The insert breaks the primary key if a row has it: then the transaction is rolled back, and the
-- row that won is read.
unfoldable pub store : Env → ℕ → String → ℕ → String → Action (Option IdempotencyKey)
unfolding stored_response ◌>>=◌
store env org_id key status_code body = do
  at ← database_now
  taken ← gets (λ d. is_some (find (is_key org_id key) d.idempotency_keys))
  if taken then (do rollback env; stored_response org_id key) else do
    modify (λ d. record d {
      idempotency_keys =
          d.idempotency_keys
          ++ record {
            org_id = org_id;
            key = key;
            status_code = status_code;
            response_body = body;
            created_at = at;
          }
            ∷ [];
    })
    pure none
