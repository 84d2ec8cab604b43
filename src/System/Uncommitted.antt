-- ===== src/System/Uncommitted.antt =====
-- The operations of services/ that the calls in an organisation use commit nothing themselves.
use incident_desk.Prelude.{ℕ, String, List, Option, Bool, refl}
use incident_desk.Models.{User, Organization, Json, ApiKey}
use incident_desk.Enums.{Role, ServiceTier}
use incident_desk.Session.{Env, Result}
use incident_desk.Session.Pending.{Pending, pending}
use incident_desk.Audit.{AuditInfo, record_audit}
use incident_desk.Authz.{
  AuthContext, Permission, Principal, user_session, api_key, require, require_user,
}
use incident_desk.Members.{change_role, remove_member, create_invitation, revoke_invitation}
use incident_desk.Orgs.{create_service, update_service, delete_service, get_service}
use incident_desk.OnCall.{create_schedule, add_shift, delete_shift, get_schedule}
use incident_desk.ApiKeys.{create_api_key, revoke_api_key, revoke_key}
use incident_desk.Incidents.Uncommitted.{record_event-Pending, get_incident-Pending}
use incident_desk.Comments.{get_comment, add_comment, edit_comment, delete_comment}
use incident_desk.Attachments.{Upload, new_storage_key, save_attachment}
use incident_desk.Api.Incidents.{from_result}

pub require-Pending :
    (ps : List Permission) (slug : String) (p : Principal) → Pending (require ps slug p)
unfolding require
require-Pending ps slug (user_session u) = search pending depth 9
require-Pending ps slug (api_key k) = search pending depth 9

pub require_user-Pending : (ctx : AuthContext) → Pending (require_user ctx)
unfolding require_user
require_user-Pending ctx = search pending

pub from_result-Pending : {A : Type 0} (r : Result A) → Pending (from_result r)
unfolding from_result
from_result-Pending r = record { at = λ s. refl }

pub change_role-Pending :
    (org : Organization) (a : Role) (u : ℕ) (r : Role) → Pending (change_role org a u r)
unfolding change_role
change_role-Pending org a u r = search pending depth 12

pub remove_member-Pending :
    (org : Organization) (a : Role) (u : ℕ) → Pending (remove_member org a u)
unfolding remove_member
remove_member-Pending org a u = search pending depth 12

pub revoke_invitation-Pending : (org : Organization) (id : ℕ) → Pending (revoke_invitation org id)
unfolding revoke_invitation
revoke_invitation-Pending org id = search pending depth 7

pub update_service-Pending :
    (org : Organization) (id : ℕ) (name description team : Option String)
    (tier : Option ServiceTier)
    → Pending (update_service org id name description team tier)
unfolding update_service get_service
update_service-Pending org id name description team tier = search pending depth 9

pub delete_service-Pending : (org : Organization) (id : ℕ) → Pending (delete_service org id)
unfolding delete_service get_service
delete_service-Pending org id = search pending depth 9

pub delete_shift-Pending : (org : Organization) (c id : ℕ) → Pending (delete_shift org c id)
unfolding delete_shift get_schedule
delete_shift-Pending org c id = search pending depth 9

module _ (env : Env) where
  pub record_audit-Pending :
      (org_id : ℕ) (a : Option ℕ) (action kind : String) (r : Option ℕ) (b c : Json)
      (info : AuditInfo)
      → Pending (record_audit env org_id a action kind r b c info)
  unfolding record_audit
  record_audit-Pending org_id a action kind r b c info = search pending depth 9

  pub create_invitation-Pending :
      (org : Organization) (address : String) (r : Role) (by : User) (a : Role)
      → Pending (create_invitation env org address r by a)
  unfolding create_invitation
  create_invitation-Pending org address r by a = search pending depth 12

  pub create_service-Pending :
      (org : Organization) (name description team : String) (tier : ServiceTier)
      → Pending (create_service env org name description team tier)
  unfolding create_service
  create_service-Pending org name description team tier = search pending depth 9

  pub create_schedule-Pending :
      (org : Organization) (service_id : ℕ) (name : String) (rotation : Json)
      → Pending (create_schedule env org service_id name rotation)
  unfolding create_schedule
  create_schedule-Pending org service_id name rotation = search pending depth 9

  pub add_shift-Pending : (org : Organization) (c u a b : ℕ) → Pending (add_shift env org c u a b)
  unfolding add_shift get_schedule
  add_shift-Pending org c u a b = search pending depth 12

  pub create_api_key-Pending :
      (org : Organization) (name : String) (ps : List Permission) (e : Option ℕ)
      → Pending (create_api_key env org name ps e)
  unfolding create_api_key
  create_api_key-Pending org name ps e = search pending depth 9

  revoke_key-Pending : (k : ApiKey) → Pending (revoke_key env k)
  unfolding revoke_key
  revoke_key-Pending k = search pending depth 9

  pub revoke_api_key-Pending : (org : Organization) (id : ℕ) → Pending (revoke_api_key env org id)
  unfolding revoke_api_key
  revoke_api_key-Pending org id = search (pending, revoke_key-Pending)

  pub add_comment-Pending :
      (org : Organization) (id : ℕ) (author : User) (body : String)
      → Pending (add_comment env org id author body)
  unfolding add_comment
  add_comment-Pending org id author body =
      search (pending, get_incident-Pending, record_event-Pending) depth 12

  pub edit_comment-Pending :
      (org : Organization) (id comment_id : ℕ) (actor : User) (body : String)
      → Pending (edit_comment env org id comment_id actor body)
  unfolding edit_comment get_comment
  edit_comment-Pending org id comment_id actor body =
      search (pending, record_event-Pending) depth 12

  pub delete_comment-Pending :
      (org : Organization) (id comment_id : ℕ) (actor : User) (can : Bool)
      → Pending (delete_comment env org id comment_id actor can)
  unfolding delete_comment get_comment
  delete_comment-Pending org id comment_id actor can =
      search (pending, record_event-Pending) depth 12

  new_storage_key-Pending : (id : ℕ) → Pending (new_storage_key env id)
  unfolding new_storage_key
  new_storage_key-Pending id = record { at = λ s. refl }

  pub save_attachment-Pending :
      (limit : ℕ) (org : Organization) (id : ℕ) (user : User) (upload : Upload)
      → Pending (save_attachment env limit org id user upload)
  unfolding save_attachment
  save_attachment-Pending limit org id user upload =
      search (pending, get_incident-Pending, new_storage_key-Pending, record_event-Pending) depth 14
