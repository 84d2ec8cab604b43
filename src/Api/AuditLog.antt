-- ===== src/Api/AuditLog.antt =====
-- The handler of backend/src/incident_desk/api/v1/audit.py.
use incident_desk.Prelude.{ℕ, String, Option, List, [], ◌∷◌}
use incident_desk.Models.{AuditLog}
use incident_desk.Session.{Action, ◌>>=◌}
use incident_desk.Authz.{audit_view, Principal, require}
use incident_desk.Audit.{EntryFilters, list_entries}

unfoldable pub list_audit_log :
    String → Principal → EntryFilters → ℕ → Option (ℕ × ℕ) → Action (List AuditLog × Option (ℕ × ℕ))
unfolding list_entries require ◌>>=◌
list_audit_log org_slug principal f limit cursor = do
  ctx ← require (audit_view ∷ []) org_slug principal
  list_entries ctx.org f limit cursor
