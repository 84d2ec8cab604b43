-- ===== src/Jobs/Retention.antt =====
-- The nightly cleanup: `prune_retention_now` of backend/src/incident_desk/jobs/tasks.py.
use incident_desk.Prelude.{
  ℕ, ◌+◌, ◌-◌, ◌≤◌, ◌<◌, ltb, ◌≡◌, refl, List, arith, length, select_where, delete_where, Thinned,
  delete_where-Thinned,
}
use incident_desk.Models.{IdempotencyKey, AuditLog, RefreshToken, MailToken}
use incident_desk.Session.{Database, Session, Env, ok, reply, written}
use incident_desk.Jobs.{RetentionSettings, Counts, pruned, counted, prune_retention_now}

-- As many rows as `count` went from a table, those whose time was more than `window` ago at a time;
-- the others stay, in their order.
abbrev pub IsCleaned : {A : Type 0} → (A → ℕ) → ℕ → ℕ → List A → List A → ℕ → Type 0
IsCleaned time_of window at before after count =
    Thinned (λ x. at ≤ time_of x + window) (λ x. time_of x + window < at) before after count

module _ {A : Type 0} (time_of : A → ℕ) (window at : ℕ) where
  delete_where-IsCleaned :
      (xs : List A)
      → IsCleaned time_of window at xs
          (delete_where (λ x. ltb (time_of x) (at - window)) xs)
          (length (select_where (λ x. ltb (time_of x) (at - window)) xs))
  delete_where-IsCleaned =
      delete_where-Thinned _ _ (λ x. ltb (time_of x) (at - window)) (λ x e. ground arith)
        (λ x e. ground arith)

-- what the cleanup leaves of a database, and its counts
pub record IsPruned (settings : RetentionSettings) (at : ℕ) (d e : Database) (c : Counts)
    : Type 0 where
  pub keys :
      IsCleaned
        (λ (k : IdempotencyKey). k.created_at)
        settings.idempotency_retention
        at
        d.idempotency_keys
        e.idempotency_keys
        c.idempotency_keys
  pub entries :
      IsCleaned
        (λ (a : AuditLog). a.created_at)
        settings.audit_retention
        at
        d.audit_log
        e.audit_log
        c.audit_log
  pub sessions :
      IsCleaned
        (λ (t : RefreshToken). t.expires_at)
        settings.expired_token_grace
        at
        d.refresh_tokens
        e.refresh_tokens
        c.refresh_tokens
  pub resets :
      IsCleaned
        (λ (t : MailToken). t.expires_at)
        settings.expired_token_grace
        at
        d.reset_tokens
        e.reset_tokens
        c.reset_tokens
  pub verifications :
      IsCleaned
        (λ (t : MailToken). t.expires_at)
        settings.expired_token_grace
        at
        d.verification_tokens
        e.verification_tokens
        c.verification_tokens
  pub others : e ≡ record d {
    idempotency_keys = e.idempotency_keys;
    audit_log = e.audit_log;
    refresh_tokens = e.refresh_tokens;
    reset_tokens = e.reset_tokens;
    verification_tokens = e.verification_tokens;
  }

pruned-IsPruned :
    (settings : RetentionSettings) (at : ℕ) (d : Database)
    → IsPruned settings at d (pruned settings at d) (counted settings at d)
pruned-IsPruned settings at d = record {
  keys =
      delete_where-IsCleaned (λ (k : IdempotencyKey). k.created_at) settings.idempotency_retention
        at d.idempotency_keys;
  entries =
      delete_where-IsCleaned (λ (a : AuditLog). a.created_at) settings.audit_retention at
        d.audit_log;
  sessions =
      delete_where-IsCleaned (λ (t : RefreshToken). t.expires_at) settings.expired_token_grace at
        d.refresh_tokens;
  resets =
      delete_where-IsCleaned (λ (t : MailToken). t.expires_at) settings.expired_token_grace at
        d.reset_tokens;
  verifications =
      delete_where-IsCleaned (λ (t : MailToken). t.expires_at) settings.expired_token_grace at
        d.verification_tokens;
  others = refl;
}

-- The cleanup answers with counts and commits what it leaves: the idempotency keys, audit entries,
-- refresh tokens, reset tokens and verification tokens whose time and window were over before the
-- reading of the clock are gone, as many of each as its count says; the other rows of the five tables
-- stay in their order, and the other tables are as they were.
pub prune_retention_now-IsPruned :
    (env : Env) (settings : RetentionSettings) (s : Session)
    → (counts : Counts) × (reply (prune_retention_now env settings) s ≡ ok counts)
      × IsPruned settings
          (env.clock s.draws)
          s.db
          (written (prune_retention_now env settings) s)
          counts
      × ((prune_retention_now env settings s).1.committed
          ≡ written (prune_retention_now env settings) s)
unfolding prune_retention_now
prune_retention_now-IsPruned env settings s = (
  counted settings (env.clock s.draws) s.db,
  refl,
  pruned-IsPruned settings (env.clock s.draws) s.db,
  refl,
)
