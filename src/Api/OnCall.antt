-- ===== src/Api/OnCall.antt =====
-- The handlers of backend/src/incident_desk/api/v1/oncall.py.
use incident_desk.Prelude.{ℕ, String, Option, none, List, [], ◌∷◌}
use incident_desk.Models.{User, OnCallSchedule, OnCallShift, Json}
use incident_desk.Session.{Env, Action, ⊤, pure, commit, ◌>>=◌, ◌>>◌}
use incident_desk.Authz.{oncall_view, oncall_manage, Principal, require}
use incident_desk.OnCall.{create_schedule, list_shifts, add_shift, delete_shift, who_is_on_call}

unfoldable pub list_shifts_request :
    String → Principal → ℕ → Option ℕ → Option ℕ → Action (List OnCallShift)
unfolding list_shifts require ◌>>=◌
list_shifts_request org_slug principal schedule_id window_start window_end = do
  ctx ← require (oncall_view ∷ []) org_slug principal
  list_shifts ctx.org schedule_id window_start window_end

module _ (env : Env) where
  unfoldable pub create_schedule_request :
      String → Principal → ℕ → String → Json → Action OnCallSchedule
  unfolding create_schedule require ◌>>=◌
  create_schedule_request org_slug principal service_id name rotation = do
    ctx ← require (oncall_manage ∷ []) org_slug principal
    schedule ← create_schedule env ctx.org service_id name rotation
    commit env
    pure schedule

  unfoldable pub add_shift_request : String → Principal → ℕ → ℕ → ℕ → ℕ → Action OnCallShift
  unfolding add_shift require ◌>>=◌
  add_shift_request org_slug principal schedule_id user_id starts_at ends_at = do
    ctx ← require (oncall_manage ∷ []) org_slug principal
    shift ← add_shift env ctx.org schedule_id user_id starts_at ends_at
    commit env
    pure shift

  unfoldable pub delete_shift_request : String → Principal → ℕ → ℕ → Action ⊤
  unfolding delete_shift require ◌>>=◌
  delete_shift_request org_slug principal schedule_id shift_id = do
    ctx ← require (oncall_manage ∷ []) org_slug principal
    delete_shift ctx.org schedule_id shift_id
    commit env

  unfoldable pub who_is_on_call_request :
      String → Principal → ℕ → Action (List (OnCallSchedule × Option User))
  unfolding who_is_on_call require ◌>>=◌
  who_is_on_call_request org_slug principal service_id = do
    ctx ← require (oncall_view ∷ []) org_slug principal
    who_is_on_call env ctx.org service_id none
