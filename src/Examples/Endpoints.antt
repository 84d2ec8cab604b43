-- ===== src/Examples/Endpoints.antt =====
-- Instances of the theorems on version tags, retried creations and escalation settings.
use incident_desk.Prelude.{◌≡◌, refl, none, some, [], ◌∷◌, show, true, false}
use Prim.Native.String.{[], ◌∷◌}
use incident_desk.Enums.{sev1}
use incident_desk.Errors.{version_conflict, type_error, value_error}
use incident_desk.Models.{Organization, Incident, null, object, field, end}
use incident_desk.Session.{ok, err, reply, close}
use incident_desk.Authz.{AuthContext, require_user}
use incident_desk.Escalation.Config.{parse_config}
use incident_desk.Incidents.{NewIncident, new_incident, create_incident, conflict_snapshot}
use incident_desk.Api.Etag.{parse_if_match, etag, parse_if_match-etag, parse_if_match_uncaught}
use incident_desk.Api.Incidents.{Answer, Edit, create_in, edit_at}
use incident_desk.Api.Retries.{create_once, escalation_lost}
use incident_desk.Api.Tags.{second_tag_refused}
use incident_desk.Samples.{
  acme, ann, bob, ann_member, bob_member, outage, sample, sample_env, sample_info,
}

parse_if_match-etag_example :
    (parse_if_match (etag 12) ≡ ok 12)
    × (parse_if_match ("W" ∷ "/" ∷ etag 12) ≡ ok 12)
    × (parse_if_match (show 12) ≡ ok 12)
parse_if_match-etag_example = parse_if_match-etag 12

abbrev report : NewIncident
report = record {
  service_id = 21;
  title = "slow";
  description = "";
  severity = sev1;
  assigned_to = some 8;
  started_at = none;
  tags = [];
}

abbrev ann_context : AuthContext
ann_context = record { org = acme; user = some ann; membership = some ann_member; key = none }

abbrev bob_context : AuthContext
bob_context = record { org = acme; user = some bob; membership = some bob_member; key = none }

abbrev first : Answer
first = record { status = 201; body = "slow"; replayed = false }

created_at_first :
    reply (create_in sample_env sample_info ann_context report (some "k1")) (close sample)
    ≡ ok first
unfolding create_in parse_config
created_at_first = refl

create_once_example :
    create_in sample_env sample_info bob_context
      (record report { title = "other" })
      (some "k1")
      (close (create_in sample_env sample_info ann_context report (some "k1") (close sample)).1)
    ≡ (
      ok (record { status = 201; body = "slow"; replayed = true }),
      close (create_in sample_env sample_info ann_context report (some "k1") (close sample)).1,
    )
create_once_example =
    create_once sample_env sample_info sample_info ann_context bob_context report
      (record report { title = "other" }) "k1" sample first refl created_at_first

-- the chain of the settings is null
abbrev misconfigured : Organization
misconfigured = record acme {
  settings = object (field "escalation" (object (field "chain" null end)) end);
}

abbrev strange_context : AuthContext
strange_context = record ann_context { org = misconfigured }

unreadable : parse_config sample_env misconfigured.settings ≡ err type_error
unfolding parse_config
unreadable = refl

abbrev ann_report : Incident
ann_report = new_incident 1 report 7 2 500 1_000

ann_reports :
    reply
      (create_incident sample_env misconfigured report ann)
      (require_user strange_context (close sample)).1
    ≡ ok ann_report
unfolding create_incident require_user
ann_reports = refl

escalation_lost_example :
    ((create_in sample_env sample_info strange_context report (some "k1") (close sample)).0
      ≡ err type_error)
    × (create_in sample_env sample_info strange_context report (some "k1") (
          close
            (create_in sample_env sample_info strange_context report (some "k1") (close sample)).1)
        ≡ (
          ok (record { status = 201; body = "slow"; replayed = true }),
          close
              (create_in sample_env sample_info strange_context report
                (some "k1")
                (close sample)).1,
        ))
unfolding require_user
escalation_lost_example =
    escalation_lost sample_env sample_info sample_info strange_context strange_context report report
      "k1" sample ann ann_report type_error refl refl refl ann_reports refl unreadable

abbrev redescribed : Edit
redescribed = record {
  changes = record {
    title = none;
    description = some "timeouts";
    severity = none;
    tags = none;
    assigned_to = none;
    assignee_provided = false;
    expected_version = none;
  };
  fields_set = "description" ∷ [];
  dumped = null;
}

abbrev edited : Incident
edited = record outage { description = "timeouts"; version = 2 }

edited_first :
    reply (edit_at sample_env sample_info ann_context 41 redescribed (some "\"1\"")) (close sample)
    ≡ ok (edited, "\"2\"")
unfolding edit_at parse_if_match
edited_first = refl

second_tag_refused_example :
    (edit_at sample_env sample_info bob_context 41 redescribed (some "\"1\"") (
        close
          (edit_at sample_env sample_info ann_context 41 redescribed
            (some "\"1\"")
            (close sample)).1)
      ≡ (
        err (version_conflict (conflict_snapshot edited)),
        close
            (edit_at sample_env sample_info ann_context 41 redescribed
              (some "\"1\"")
              (close sample)).1,
      ))
    × ("\"2\"" ≡ etag 2)
second_tag_refused_example =
    second_tag_refused sample_env sample_info sample_info ann_context bob_context 41 redescribed
      redescribed "\"1\"" sample edited "\"2\"" refl edited_first

-- the header `²`
parse_if_match_uncaught_example : parse_if_match "²" ≡ err value_error
parse_if_match_uncaught_example = parse_if_match_uncaught "²" refl refl refl
