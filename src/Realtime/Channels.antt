-- ===== src/Realtime/Channels.antt =====
-- Which channels a user may listen to: `_channel_allowed` of
-- backend/src/incident_desk/api/realtime_ws.py, beside the authorisation of the REST API.
use incident_desk.Prelude.{
  ℕ, ◌+◌, ◌-◌, ◌==◌, leb, ◌≡◌, refl, ◌∙◌, ap, sym, String, concat, size, size-concat, str_eq,
  eq_refl, truncate, skip, Bool, true, false, ◌&&◌, Option, none, some, [], ◌∷◌, is_some,
  exists_where, if◌then◌else◌, arith, Option-cases, inl, inr,
}
use Prim.Native.String.{[], ◌∷◌}
use incident_desk.Models.{Membership, Incident}
use incident_desk.Session.{Database, Env}
use incident_desk.Enums.{Role, owner, admin, responder, viewer}
use incident_desk.Models.{User}
use incident_desk.Session.{Session, Result, ok, err, reply}
use incident_desk.Authz.{find_standing, incident_view, user_session, role_has, require}

abbrev pub starts_with : String → String → Bool
starts_with prefix s = str_eq (truncate (size prefix) s) prefix

abbrev pub ends_with : String → String → Bool
ends_with suffix s = leb (size suffix) (size s) && str_eq (skip (size s - size suffix) s) suffix

abbrev pub is_org_channel : String → Bool
is_org_channel channel = starts_with "org:" channel && ends_with ":incidents" channel

abbrev pub is_incident_channel : String → Bool
is_incident_channel channel = starts_with "incident:" channel

-- `channel[len("org:") : -len(":incidents")]`, and `channel.removeprefix("incident:")`
abbrev pub channel_slug : String → String
channel_slug channel = skip 4 (truncate (size channel - 10) channel)

abbrev pub channel_incident : String → String
channel_incident channel = skip 9 channel

-- the join of memberships and incidents
abbrev pub sees_incident : ℕ → Database → Option ℕ → Bool
sees_incident user_id d none = false
sees_incident user_id d (some id) =
    exists_where
      (λ (i : Incident).
        i.id == id
        && exists_where (λ (m : Membership). m.org_id == i.org_id && m.user_id == user_id)
            d.memberships)
      d.incidents

unfoldable pub channel_allowed : Env → Database → String → ℕ → Bool
unfolding find_standing
channel_allowed env d channel user_id =
    if is_org_channel channel
    then is_some (find_standing (channel_slug channel) user_id d.organizations d.memberships)
    else if is_incident_channel channel
    then sees_incident user_id d (env.uuid_of_text (channel_incident channel))
    else false

truncate-concat : (s t : String) → truncate (size s) (concat s t) ≡ s
unfolding truncate concat
truncate-concat [] t = refl
truncate-concat (c ∷ s) t = ap (λ r. c ∷ r) (truncate-concat s t)

skip-concat : (s t : String) → skip (size s) (concat s t) ≡ t
unfolding skip concat
skip-concat [] t = refl
skip-concat (c ∷ s) t = skip-concat s t

concat_assoc : (s t u : String) → concat (concat s t) u ≡ concat s (concat t u)
unfolding concat
concat_assoc [] t u = refl
concat_assoc (c ∷ s) t u = ap (λ r. c ∷ r) (concat_assoc s t u)

abbrev org_text : String → String
org_text slug = concat "org:" (concat slug ":incidents")

org_text-starts : (slug : String) → starts_with "org:" (org_text slug) ≡ true
org_text-starts slug =
    ap (λ t. str_eq t "org:") (truncate-concat "org:" (concat slug ":incidents")) ∙ eq_refl "org:"

-- the text before the suffix
abbrev front : String → String
front slug = concat "org:" slug

org_text-front : (slug : String) → org_text slug ≡ concat (front slug) ":incidents"
org_text-front slug = sym (concat_assoc "org:" slug ":incidents")

org_text-size : (slug : String) → size (org_text slug) ≡ size (front slug) + 10
org_text-size slug = ap size (org_text-front slug) ∙ size-concat (front slug) ":incidents"

org_text-cut : (slug : String) → size (org_text slug) - 10 ≡ size (front slug)
org_text-cut slug = omega (arith, org_text-size slug)

org_text-skip : (slug : String) → skip (size (org_text slug) - 10) (org_text slug) ≡ ":incidents"
org_text-skip slug =
    ap (λ n. skip n (org_text slug)) (org_text-cut slug)
    ∙ ap (skip (size (front slug))) (org_text-front slug)
    ∙ skip-concat (front slug) ":incidents"

org_text-truncate :
    (slug : String) → truncate (size (org_text slug) - 10) (org_text slug) ≡ front slug
org_text-truncate slug =
    ap (λ n. truncate n (org_text slug)) (org_text-cut slug)
    ∙ ap (truncate (size (front slug))) (org_text-front slug)
    ∙ truncate-concat (front slug) ":incidents"

org_text-long : (slug : String) → leb 10 (size (org_text slug)) ≡ true
org_text-long slug = ground (arith, org_text-size slug)

is_org_channel-org_text : (slug : String) → is_org_channel (org_text slug) ≡ true
is_org_channel-org_text slug =
    rw (org_text-starts slug, org_text-long slug, org_text-skip slug, eq_refl ":incidents") refl

channel_slug-org_text : (slug : String) → channel_slug (org_text slug) ≡ slug
channel_slug-org_text slug = ap (skip 4) (org_text-truncate slug) ∙ skip-concat "org:" slug

abbrev pub answers : {A : Type 0} → Result A → Bool
answers (ok a) = true
answers (err e) = false

everyone_views : (r : Role) → role_has r incident_view ≡ true
unfolding role_has
everyone_views owner = refl
everyone_views admin = refl
everyone_views responder = refl
everyone_views viewer = refl

module _ (env : Env) (s : Session) (slug : String) (user : User) where
  require-answers :
      answers (reply (require (incident_view ∷ []) slug (user_session user)) s)
      ≡ is_some (find_standing slug user.id s.db.organizations s.db.memberships)
  unfolding require
  require-answers =
      elim (Option-cases (find_standing slug user.id s.db.organizations s.db.memberships)) [
        | inl e ↦ ground (arith, e)
        | inr ((o, m), e) ↦ ground (arith, e, everyone_views m.role)
      ]

  -- the membership that both ask for
  pub channel_allowed-require :
      channel_allowed env s.db (concat "org:" (concat slug ":incidents")) user.id
      ≡ answers (reply (require (incident_view ∷ []) slug (user_session user)) s)
  unfolding channel_allowed
  channel_allowed-require =
      rw (is_org_channel-org_text slug, channel_slug-org_text slug) (sym require-answers)
