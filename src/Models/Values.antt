-- ===== src/Models/Values.antt =====
-- The values of a JSONB column.
use incident_desk.Prelude.{ℕ, String, Bool, Option, none, some, List, [], ◌∷◌}

mutual
  pub data Json : Type 0 where
    null : Json
    boolean : Bool → Json
    -- an integer from zero, and an integer below zero
    number negative : ℕ → Json
    text : String → Json
    -- `str(uuid)`
    uid : ℕ → Json
    texts : List String → Json
    array : Items → Json
    object : Fields → Json

  pub data Items : Type 0 where
    nil : Items
    cons : Json → Items → Items

  pub data Fields : Type 0 where
    end : Fields
    field : String → Json → Fields → Fields

abbrev fields_of : List (String × Json) → Fields
fields_of [] = end
fields_of ((k, v) ∷ rest) = field k v (fields_of rest)

-- a dict display
abbrev pub dict : List (String × Json) → Json
dict entries = object (fields_of entries)

-- `str(x) if x else None` of a nullable id
abbrev pub opt_uid : Option ℕ → Json
opt_uid none = null
opt_uid (some u) = uid u
