-- ===== src/Json.antt =====
-- serde_json::Value with the readers that src/engine/provider.rs and src/proxy/sanitize.rs call. The
-- parser and the printer of that library are parameters of the modules that use them.
use anser.Prelude.{
  ℕ, String, Bool, Option, none, some, List, [], ◌∷◌, ◌==◌, string_key, if◌then◌else◌,
}

-- A number that is no `u64` is known by its text only.
mutual
  pub data Value : Type 0 where
    null : Value
    boolean : Bool → Value
    number : ℕ → Value
    other_number : String → Value
    string : String → Value
    array : Items → Value
    object : Members → Value

  pub data Items : Type 0 where
    end_array : Items
    item : Value → Items → Items

  pub data Members : Type 0 where
    end_object : Members
    member : String → Value → Members → Members

-- What `serde_json::from_str` gives.
pub data Parsed : Type 0 where
  parsed : Value → Parsed
  invalid : (detail : String) → Parsed

unfoldable pub find_member : String → Members → Option Value
find_member key end_object = none
find_member key (member k v rest) = if key == k then some v else find_member key rest

unfoldable pub get : String → Value → Option Value
unfolding find_member
get key (object members) = find_member key members
get key _ = none

unfoldable pub as_str : Value → Option String
as_str (string s) = some s
as_str _ = none

unfoldable pub as_u64 : Value → Option ℕ
as_u64 (number n) = some n
as_u64 _ = none

unfoldable pub values : Items → List Value
values end_array = []
values (item v rest) = v ∷ values rest

unfoldable pub as_array : Value → Option (List Value)
unfolding values
as_array (array items) = some (values items)
as_array _ = none

-- `.and_then(|v| v.get(key))`.
unfoldable pub get_in : String → Option Value → Option Value
unfolding get
get_in key none = none
get_in key (some v) = get key v

unfoldable pub str_in : Option Value → Option String
unfolding as_str
str_in none = none
str_in (some v) = as_str v

unfoldable pub u64_in : Option Value → Option ℕ
unfolding as_u64
u64_in none = none
u64_in (some v) = as_u64 v

-- `.and_then(Value::as_array).into_iter().flatten()`.
unfoldable pub elements : Option Value → List Value
unfolding as_array
elements none = []
elements (some v) = elim (as_array v) [ none ↦ [] | some vs ↦ vs ]
