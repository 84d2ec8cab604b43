-- ===== src/Examples.antt =====
-- Instances of the theorems at concrete inputs, and tests of the definitions.
pub mod Access
pub mod Trails
pub mod Runs
pub mod Texts
pub mod Sockets
pub mod Uploads
pub mod Endpoints
pub mod Pages
pub mod Credentials
pub mod Limits
pub mod Broker
use incident_desk.Prelude.{
  ℕ, String, Bool, true, false, ◌≡◌, ◌≢◌, ◌≤◌, refl, inl, ◌+◌, ◌↔◌, Option, none, some, List, [],
  ◌∷◌, ◌++◌, arith, is_some, find, update_where,
}
use incident_desk.Enums.{
  sev1, owner, admin, responder, viewer, opened, acknowledged, mitigated, resolved, postmortem,
  IncidentStatus, status_eq,
}
use incident_desk.StateMachine.{is_legal}
use incident_desk.StateMachine.Diagram.{
  ◌⟶◌, acknowledge, is_legal_iff, Moves, still, move, Moves-bounded, Moves-irreversible,
}
use incident_desk.Errors.{
  Error, illegal_transition, invalid_refresh, version_conflict, refresh_reused,
}
use incident_desk.Models.{Incident, RefreshToken}
use incident_desk.Session.{Session, ok, err, reply, written, serve}
use incident_desk.Session.Keeping.{Kept, Always}
use incident_desk.Authz.{user_session}
use incident_desk.Members.Owners.{HasOwner}
use incident_desk.Api.LastOwner.{
  change, remove, invite, accept, perform_all, member_requests-HasOwner,
}
use incident_desk.Incidents.{
  is_incident, has_incident_id, NewIncident, create_incident, transition_status, conflict_snapshot,
  summary_text,
}
use incident_desk.Incidents.Numbers.{IsGapless, create_incident-IsGapless}
use incident_desk.Incidents.Transitions.{
  Allowed, moved, transition_status_sound, transition_status_complete, transition_status_refused,
}
use incident_desk.Incidents.Edits.{Changes, is_stale, update_incident}
use incident_desk.Incidents.Concurrency.{update_incident_stale, update_incident-version}
use incident_desk.Sessions.{rotate_refresh}
use incident_desk.Sessions.Families.{
  IsDead, IsRevoked, presented, reuse_revokes_family, revoked_family_refused, rotate_refresh-IsDead,
}
use incident_desk.Samples.{
  acme, ann, bob, person, outage, refresh_token, sample, sample_db, sample_env, sample_info,
  sample_settings,
}

has_owner : Always (HasOwner 1) sample
has_owner = let h : HasOwner 1 sample_db = ((refl, (refl, tt)), omega arith) in (h, h)

is_legal_iff_example : (is_legal acknowledged resolved ≡ true) ↔ (acknowledged ⟶ resolved)
is_legal_iff_example = is_legal_iff acknowledged resolved

two-Moves : Moves opened 2 resolved
unfolding is_legal
two-Moves = move {b = acknowledged} (move still refl) refl

two_in_bounds : 2 ≤ 4
two_in_bounds = Moves-bounded 2 two-Moves

no_way_back : opened ≢ resolved
no_way_back = Moves-irreversible 1 two-Moves

owner_after_requests : Always (HasOwner 1) (
    serve
      (perform_all sample_env sample_info (
        accept (person 9 "eve") "ticket"
        ∷ remove "acme" (user_session (person 9 "eve")) 7
        ∷ change "acme" (user_session ann) 7 viewer
        ∷ []))
      sample)
owner_after_requests =
    member_requests-HasOwner sample_env sample_info 1
      (accept (person 9 "eve") "ticket"
        ∷ remove "acme" (user_session (person 9 "eve")) 7
        ∷ change "acme" (user_session ann) 7 viewer
        ∷ [])
      sample has_owner

abbrev report : NewIncident
report = record {
  service_id = 21;
  title = "slow";
  description = "";
  severity = sev1;
  assigned_to = some 8;
  started_at = none;
  tags = [];
}

gapless : Always (IsGapless 1) sample
gapless = (((refl, tt), refl), ((refl, tt), refl))

created-IsGapless : Kept (IsGapless 1) (create_incident sample_env acme report ann sample)
created-IsGapless = create_incident-IsGapless sample_env 1 acme report ann sample gapless

-- the incident after bob acknowledges it
abbrev acknowledged_outage : Incident
acknowledged_outage = record outage {
  status = acknowledged;
  version = 2;
  acknowledged_at = some 1_000;
}

outage_acknowledged :
    reply (transition_status sample_env acme 41 acknowledged (some bob) none) sample
    ≡ ok acknowledged_outage
unfolding transition_status
outage_acknowledged = refl

transition_status_sound_example :
    (i : Incident) × (find (is_incident 1 41) (outage ∷ []) ≡ some i)
    × Allowed i.status acknowledged none
    × (acknowledged_outage ≡ moved sample_env acme 41 acknowledged (some bob) none sample i)
    × ((written
          (transition_status sample_env acme 41 acknowledged (some bob) none)
          sample).incidents
        ≡ update_where (has_incident_id i.id) (λ _. acknowledged_outage) (outage ∷ []))
transition_status_sound_example =
    transition_status_sound sample_env acme 41 acknowledged (some bob) none sample
      acknowledged_outage outage_acknowledged

transition_status_complete_example :
    (i' : Incident) × (reply
        (transition_status sample_env acme 41 acknowledged (some bob) none)
        sample
      ≡ ok i')
transition_status_complete_example =
    transition_status_complete sample_env acme 41 acknowledged (some bob) none sample outage refl
      (acknowledge, inl (λ e. absurd (cc e)))

-- an open incident cannot be resolved
outage_not_resolved :
    reply (transition_status sample_env acme 41 resolved (some bob) none) sample
    ≡ err (illegal_transition opened resolved (acknowledged ∷ []))
unfolding transition_status
outage_not_resolved = refl

transition_refused :
    (transition_status sample_env acme 41 resolved (some bob) none sample).1 ≡ sample
transition_refused =
    transition_status_refused sample_env acme 41 resolved (some bob) none sample
      (illegal_transition opened resolved (acknowledged ∷ [])) outage_not_resolved

-- a new title, for an expected version
abbrev retitled : ℕ → Changes
retitled v = record {
  title = some "api down";
  description = none;
  severity = none;
  tags = none;
  assigned_to = none;
  assignee_provided = false;
  expected_version = some v;
}

outage-retitled :
    reply (update_incident sample_env (some bob) acme 41 (retitled 1)) sample
    ≡ ok (record outage { title = "api down"; version = 2 })
unfolding update_incident
outage-retitled = refl

update_incident-version_example :
    (i : Incident) × (find (is_incident 1 41) (outage ∷ []) ≡ some i)
    × (is_stale (some 1) i ≡ false)
    × ((2 ≡ i.version + 1) × (41 ≡ i.id) × (1 ≡ i.sequence_number) × (opened ≡ i.status))
update_incident-version_example =
    update_incident-version sample_env (some bob) acme 41 (retitled 1) sample
      (record outage { title = "api down"; version = 2 }) outage-retitled

reuse-IsRevoked :
    (reply (rotate_refresh sample_env sample_settings "old") sample ≡ err refresh_reused)
    × IsRevoked 60 (written (rotate_refresh sample_env sample_settings "old") sample).refresh_tokens
reuse-IsRevoked =
    reuse_revokes_family sample_env sample_settings "old" sample
      (refresh_token 61 "old" (some 5) none) refl refl refl

abbrev gone_token : RefreshToken
gone_token = record (refresh_token 63 "gone" none (some 6)) { family_id = 64 }

family-IsDead : Always (IsDead 64) sample
family-IsDead =
    let d : IsDead 64 sample_db =
      (λ e. absurd (omega (arith, e)), (λ e. absurd (omega (arith, e)), (λ e. refl, tt))) in
    (d, d)

rotate_refresh-IsDead_example :
    Kept (IsDead 64) (rotate_refresh sample_env sample_settings "new" sample)
rotate_refresh-IsDead_example =
    rotate_refresh-IsDead sample_env sample_settings 64 "new" sample family-IsDead
