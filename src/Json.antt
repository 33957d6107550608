-- ===== src/Json.antt =====
-- `serde_json::Value`, as far as the daemon reads and builds values itself: the payloads of
-- events and the metadata of tasks. A number is kept as its text.
use opendaemon.Prelude.{String, Bool, true, false, Option, none, some, str_eq, if◌then◌else◌}

mutual
  pub data Value : Type 0 where
    null : Value
    bool : Bool → Value
    number : String → Value
    string : String → Value
    array : Items → Value
    object : Fields → Value

  pub data Items : Type 0 where
    nil : Items
    cons : Value → Items → Items

  -- the entries of a `Map<String, Value>`
  pub data Fields : Type 0 where
    end : Fields
    field : String → Value → Fields → Fields

abbrev pub empty_object : Value
empty_object = object end

abbrev pub is_object : Value → Bool
is_object (object _) = true
is_object _ = false

abbrev pub get_field : String → Fields → Option Value
get_field k end = none
get_field k (field j v fs) = let rest = get_field k fs in if str_eq j k then some v else rest

-- `value.get(key)`
abbrev pub get : Value → String → Option Value
get (object fs) k = get_field k fs
get _ k = none

-- `value[key]`: null where there is no such entry
abbrev pub index : Value → String → Value
index v k = elim (get v k) [ none ↦ null | some u ↦ u ]

abbrev pub as_bool : Value → Option Bool
as_bool (bool b) = some b
as_bool _ = none

abbrev pub as_str : Value → Option String
as_str (string s) = some s
as_str _ = none

-- an optional text: null, or a string
abbrev pub from_option : Option String → Value
from_option none = null
from_option (some s) = string s
