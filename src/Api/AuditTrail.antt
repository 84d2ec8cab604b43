-- ===== src/Api/AuditTrail.antt =====
-- The audit log under the requests of api/v1/members.py: entries are added at its end, and none is
-- changed or taken away.
use incident_desk.Prelude.{ℕ, ◌≡◌, ◌∙◌, ap, Option, none, some, String, List, [], ◌∷◌, ◌++◌}
use mathlib.Core.List.{append_assoc}
use incident_desk.Models.{Json, AuditLog, User, Organization, OrgInvitation, Membership}
use incident_desk.Enums.{Role}
use incident_desk.Session.{Database, Session, Env, modify, serve}
use incident_desk.Session.Keeping.{
  Keeps, Always, AllKeep, keeping, Keeps-modify, Keeps-bind, Keeps-gets, serve-Always,
}
use incident_desk.Authz.{
  AuthContext, Permission, Principal, user_session, api_key, require, require_user,
}
use incident_desk.Audit.{AuditInfo, record_audit}
use incident_desk.Members.{
  change_role, remove_member, create_invitation, revoke_invitation, accept_invitation, admit, join,
  add_member, keep_member,
}
use incident_desk.Api.Members.{
  change_role_request, remove_member_request, invite_request, revoke_invitation_request,
  accept_invitation_request,
}
use incident_desk.Api.LastOwner.{
  MemberRequest, change, remove, invite, revoke, accept, perform, perform_all,
}

-- the log begins with these entries
abbrev pub IsExtension : List AuditLog → Database → Type 0
IsExtension es d = (tail : List AuditLog) × (d.audit_log ≡ es ++ tail)

module _ (es : List AuditLog) where
  append-IsExtension :
      (e : AuditLog)
      → Keeps (IsExtension es) (modify (λ d. record d { audit_log = d.audit_log ++ e ∷ [] }))
  append-IsExtension e = Keeps-modify _ (λ d h.
      (h.0 ++ e ∷ [], ap (λ (l : List AuditLog). l ++ e ∷ []) h.1 ∙ append_assoc es h.0 (e ∷ [])))

  record_audit-IsExtension :
      (env : Env) (org_id : ℕ) (a : Option ℕ) (action kind : String) (r : Option ℕ) (b c : Json)
      (info : AuditInfo)
      → Keeps (IsExtension es) (record_audit env org_id a action kind r b c info)
  unfolding record_audit
  record_audit-IsExtension env org_id a action kind r b c info =
      search (keeping, append-IsExtension) depth 9

  require-IsExtension :
      (ps : List Permission) (slug : String) (p : Principal)
      → Keeps (IsExtension es) (require ps slug p)
  unfolding require
  require-IsExtension ps slug (user_session u) = search keeping depth 9
  require-IsExtension ps slug (api_key k) = search keeping depth 9

  change_role-IsExtension :
      (org : Organization) (a : Role) (u : ℕ) (r : Role)
      → Keeps (IsExtension es) (change_role org a u r)
  unfolding change_role
  change_role-IsExtension org a u r = search keeping depth 12

  remove_member-IsExtension :
      (org : Organization) (a : Role) (u : ℕ) → Keeps (IsExtension es) (remove_member org a u)
  unfolding remove_member
  remove_member-IsExtension org a u = search keeping depth 12

  add_member-IsExtension :
      (env : Env) (user : User) (org : Organization) (i : OrgInvitation)
      → Keeps (IsExtension es) (add_member env user org i)
  unfolding add_member
  add_member-IsExtension env user org i = record { at = λ s h. h }

  keep_member-IsExtension :
      (env : Env) (i : OrgInvitation) (m : Membership)
      → Keeps (IsExtension es) (keep_member env i m)
  unfolding keep_member
  keep_member-IsExtension env i m = record { at = λ s h. h }

  join-IsExtension :
      (env : Env) (user : User) (org : Organization) (i : OrgInvitation) (o : Option Membership)
      → Keeps (IsExtension es) (join env user org i o)
  unfolding join
  join-IsExtension env user org i none = add_member-IsExtension env user org i
  join-IsExtension env user org i (some m) = keep_member-IsExtension env i m

  admit-IsExtension :
      (env : Env) (user : User) (org : Organization) (i : OrgInvitation)
      → Keeps (IsExtension es) (admit env user org i)
  unfolding admit
  admit-IsExtension env user org i =
      Keeps-bind _ _ (Keeps-gets _) (λ o. join-IsExtension env user org i o)

  require_user-IsExtension : (ctx : AuthContext) → Keeps (IsExtension es) (require_user ctx)
  unfolding require_user
  require_user-IsExtension ctx = search keeping

  accept_invitation-IsExtension :
      (env : Env) (user : User) (raw : String)
      → Keeps (IsExtension es) (accept_invitation env user raw)
  unfolding accept_invitation
  accept_invitation-IsExtension env user raw = search (keeping, admit-IsExtension) depth 12

  create_invitation-IsExtension :
      (env : Env) (org : Organization) (address : String) (r : Role) (by : User) (a : Role)
      → Keeps (IsExtension es) (create_invitation env org address r by a)
  unfolding create_invitation
  create_invitation-IsExtension env org address r by a = search keeping depth 12

  revoke_invitation-IsExtension :
      (org : Organization) (id : ℕ) → Keeps (IsExtension es) (revoke_invitation org id)
  unfolding revoke_invitation
  revoke_invitation-IsExtension org id = search keeping depth 7

ruleset requests = (
  keeping, require-IsExtension, require_user-IsExtension, record_audit-IsExtension,
  change_role-IsExtension, remove_member-IsExtension, accept_invitation-IsExtension,
  create_invitation-IsExtension, revoke_invitation-IsExtension,
)

module _ (env : Env) (info : AuditInfo) (es : List AuditLog) where
  perform-IsExtension : (r : MemberRequest) → Keeps (IsExtension es) (perform env info r)
  unfolding perform change_role_request remove_member_request invite_request
      revoke_invitation_request accept_invitation_request
  perform-IsExtension (change slug p user_id role) = search requests depth 12
  perform-IsExtension (remove slug p user_id) = search requests depth 12
  perform-IsExtension (invite slug p address role) = search requests depth 14
  perform-IsExtension (revoke slug p id) = search requests depth 12
  perform-IsExtension (accept user token) = search requests depth 12

  perform_all-IsExtension :
      (rs : List MemberRequest) → AllKeep (IsExtension es) (perform_all env info rs)
  unfolding perform_all
  perform_all-IsExtension [] = tt
  perform_all-IsExtension (r ∷ rs) = (perform-IsExtension r, perform_all-IsExtension rs)

-- If the audit log begins with some entries, in what is written and in what is committed, it begins
-- with them after any sequence of requests on members: no entry is changed or taken away.
pub member_requests-IsExtension :
    (env : Env) (info : AuditInfo) (es : List AuditLog) (rs : List MemberRequest) (s : Session)
    → Always (IsExtension es) s
    → Always (IsExtension es) (serve (perform_all env info rs) s)
member_requests-IsExtension env info es rs s h =
    serve-Always (IsExtension es) (perform_all env info rs) (perform_all-IsExtension env info es rs)
      s h
