-- ===== src/Auth/Json.antt =====
-- `serde_json::Value`, as far as the server reads it.
use canonical_cloud.Base.{ℕ, Option, none, some, Text, Bool, if◌then◌else◌, text_eq, ◌==◌}

mutual
  pub data Json : Type 0 where
    null : Json
    bool : Bool → Json
    num : ℕ → Json
    neg : ℕ → Json
    str : Text → Json
    arr : Items → Json
    obj : Fields → Json

  pub data Items : Type 0 where
    nil : Items
    cons : Json → Items → Items

  pub data Fields : Type 0 where
    end : Fields
    field : Text → Json → Fields → Fields

unfoldable pub get_field : Text → Fields → Option Json
get_field k end = none
get_field k (field j v rest) = if j == k then some v else get_field k rest

-- `Value::get` by a key.
unfoldable pub get : Text → Json → Option Json
unfolding get_field
get k (obj fields) = get_field k fields
get k _ = none

unfoldable pub as_str : Json → Option Text
as_str (str s) = some s
as_str _ = none
