-- ===== src/Models/Rota.antt =====
-- On-call schedules and shifts (db/models.py).
use incident_desk.Prelude.{ℕ, String}
use incident_desk.Models.Values.{Json}

pub record OnCallSchedule : Type 0 where
  pub id : ℕ
  pub org_id : ℕ
  pub service_id : ℕ
  pub name : String
  pub rotation : Json

pub record OnCallShift : Type 0 where
  pub id : ℕ
  pub schedule_id : ℕ
  pub user_id : ℕ
  pub starts_at : ℕ
  pub ends_at : ℕ
