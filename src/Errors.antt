-- ===== src/Errors.antt =====
-- The exceptions of the application: backend/src/incident_desk/errors.py and the subclasses that
-- the services declare. A constructor stands for a class; it carries the `details` that the code
-- attaches. The messages are left out: clients branch on `code`.
use incident_desk.Prelude.{ℕ, String, Option, List}
use incident_desk.Enums.{IncidentStatus, Severity}

-- services/incidents.py, `_conflict_snapshot`
pub record Snapshot : Type 0 where
  pub current_version : ℕ
  pub title : String
  pub description : String
  pub severity : Severity
  pub status : IncidentStatus
  pub assigned_to : Option ℕ
  pub tags : List String

pub data Error : Type 0 where
  unauthorized forbidden not_found user_required : Error
  assignee_not_a_member resolution_required : Error
  illegal_transition : IncidentStatus → IncidentStatus → List IncidentStatus → Error
  version_conflict : Snapshot → Error
  already_member invitation_pending last_owner invalid_invitation wrong_account : Error
  shift_overlap not_a_member : Error
  invalid_credentials email_unverified invalid_refresh refresh_reused : Error
  mfa_already_enabled mfa_not_enrolled invalid_mfa_code : Error
  email_taken invalid_token slug_taken : Error
  service_name_taken service_in_use : Error
  invalid_cursor precondition_required invalid_precondition : Error
  attachment_too_large : Error
  rate_limited : ℕ → Error
  -- an `IntegrityError` of the database that the code does not catch
  integrity_error : Error
  -- a `DBAPIError` for a text that is too long for its column
  data_error : Error
  -- other exceptions that the code does not catch
  value_error type_error attribute_error overflow_error : Error

-- `status_code` of the class, or of the nearest base class that sets it.
pub status_code : Error → ℕ
status_code unauthorized = 401
status_code forbidden = 403
status_code user_required = 403
status_code not_found = 404
status_code assignee_not_a_member = 409
status_code resolution_required = 400
status_code (illegal_transition _ _ _) = 409
status_code (version_conflict _) = 409
status_code already_member = 409
status_code invitation_pending = 409
status_code last_owner = 409
status_code invalid_invitation = 400
status_code wrong_account = 400
status_code shift_overlap = 409
status_code not_a_member = 409
status_code invalid_credentials = 401
status_code email_unverified = 401
status_code invalid_refresh = 401
status_code refresh_reused = 401
status_code mfa_already_enabled = 409
status_code mfa_not_enrolled = 400
status_code invalid_mfa_code = 401
status_code email_taken = 409
status_code invalid_token = 400
status_code slug_taken = 409
status_code service_name_taken = 409
status_code service_in_use = 409
status_code invalid_cursor = 400
status_code precondition_required = 428
status_code invalid_precondition = 400
status_code attachment_too_large = 413
status_code (rate_limited _) = 429
status_code integrity_error = 500
status_code data_error = 500
status_code value_error = 500
status_code type_error = 500
status_code attribute_error = 500
status_code overflow_error = 500
