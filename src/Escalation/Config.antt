-- ===== src/Escalation/Config.antt =====
-- `parse_config` of backend/src/incident_desk/jobs/escalation.py: an organisation's settings are any
-- JSON object, so each step meets any value; numbers that are not integers are left out. What `parse_config` does not catch is an error here.
use incident_desk.Prelude.{
  ℕ, zero, suc, ◌*◌, ltb, String, str_eq, is_empty, show, concat, Option, none, some, List, [], ◌∷◌,
  if◌then◌else◌,
}
use incident_desk.Errors.{type_error, attribute_error, overflow_error}
use incident_desk.Models.{
  Json, null, boolean, number, negative, text, uid, texts, array, object, Items, nil, cons, Fields,
  end, field,
}
use incident_desk.Session.{Env, Result, ok, err}
use incident_desk.Escalation.{EscalationConfig}

abbrev pub minute : ℕ
minute = 60_000_000

-- `DEFAULT_ACK_TIMEOUT_MINUTES`
abbrev pub default_minutes : ℕ
default_minutes = 15

-- the greatest `timedelta` has 999,999,999 days: above this many minutes there is an `OverflowError`
abbrev pub max_minutes : ℕ
max_minutes = 1_439_999_999_999

-- `d.get(key)`
pub get_field : String → Fields → Option Json
get_field key end = none
get_field key (field k v rest) = if str_eq k key then some v else get_field key rest

-- `value.get(key)` of a dict
abbrev get_key : String → Json → Option Json
get_key key (object fields) = get_field key fields
get_key key _ = none

-- `org_settings.get("escalation") or {}`, an `AttributeError` if that is no dict
abbrev dict_or_empty : Option Json → Result Fields
dict_or_empty none = ok end
dict_or_empty (some null) = ok end
dict_or_empty (some (boolean b)) = if b then err attribute_error else ok end
dict_or_empty (some (number zero)) = ok end
dict_or_empty (some (number (suc n))) = err attribute_error
dict_or_empty (some (negative n)) = err attribute_error
dict_or_empty (some (text t)) = if is_empty t then ok end else err attribute_error
dict_or_empty (some (uid u)) = err attribute_error
dict_or_empty (some (texts [])) = ok end
dict_or_empty (some (texts (t ∷ ts))) = err attribute_error
dict_or_empty (some (array nil)) = ok end
dict_or_empty (some (array (cons v vs))) = err attribute_error
dict_or_empty (some (object fields)) = ok fields

module _ (env : Env) where
  or_default : Option ℕ → ℕ
  or_default none = default_minutes
  or_default (some m) = m

  -- `max(0, int(minutes))`, and the default at a `TypeError` or a `ValueError`
  abbrev minutes_of : Option Json → ℕ
  minutes_of none = default_minutes
  minutes_of (some (boolean b)) = if b then 1 else 0
  minutes_of (some (number n)) = n
  minutes_of (some (negative n)) = 0
  minutes_of (some (text t)) = or_default (env.int_of_text t)
  minutes_of (some _) = default_minutes

  -- `UUID(str(entry))`, none where it raises a `ValueError`
  abbrev entry_of : Json → Option ℕ
  entry_of (uid u) = some u
  entry_of (text t) = env.uuid_of_text t
  entry_of (number n) = env.uuid_of_text (show n)
  entry_of (negative n) = env.uuid_of_text (concat "-" (show n))
  entry_of _ = none

  -- `try: chain.append(...)`, `except ValueError: continue`
  add_entry : Option ℕ → List ℕ → List ℕ
  add_entry none rest = rest
  add_entry (some u) rest = u ∷ rest

  chain_of_items : Items → List ℕ
  unfolding add_entry
  chain_of_items nil = []
  chain_of_items (cons v vs) = add_entry (entry_of v) (chain_of_items vs)

  chain_of_texts : List String → List ℕ
  unfolding add_entry
  chain_of_texts [] = []
  chain_of_texts (t ∷ ts) = add_entry (env.uuid_of_text t) (chain_of_texts ts)

  -- the keys of a dict
  chain_of_keys : Fields → List ℕ
  unfolding add_entry
  chain_of_keys end = []
  chain_of_keys (field k v rest) = add_entry (env.uuid_of_text k) (chain_of_keys rest)

  -- The loop, a `TypeError` at a value that cannot be iterated; no character of a text is a UUID.
  abbrev chain_of : Option Json → Result (List ℕ)
  chain_of none = ok []
  chain_of (some (text t)) = ok []
  chain_of (some (uid u)) = ok []
  chain_of (some (texts ts)) = ok (chain_of_texts ts)
  chain_of (some (array vs)) = ok (chain_of_items vs)
  chain_of (some (object fields)) = ok (chain_of_keys fields)
  chain_of (some _) = err type_error

  abbrev config_of : ℕ → Result (List ℕ) → Result EscalationConfig
  config_of minutes (ok chain) = ok (record { ack_timeout = minutes * minute; chain = chain })
  config_of minutes (err e) = err e

  abbrev config_from : Result Fields → Result EscalationConfig
  config_from (err e) = err e
  config_from (ok raw) =
      let minutes = minutes_of (get_field "ack_timeout_minutes" raw) in
      if ltb max_minutes minutes
      then err overflow_error
      else config_of minutes (chain_of (get_field "chain" raw))

  unfoldable pub parse_config : Json → Result EscalationConfig
  unfolding get_field or_default chain_of_texts chain_of_items chain_of_keys
  parse_config settings = config_from (dict_or_empty (get_key "escalation" settings))
