-- ===== src/Models/Json.antt =====
-- The values of a `dict[str, JsonValue]` field: metadata, event data and command data.
use Prim.Native.Nat.{ℕ}
use base_agent.Base.{String, Bool, Option, none, some, ◌==◌, string_eq, if◌then◌else◌}
use base_agent.Base.Time.{ℤ}

-- `number` is a Python `int`, `real` a `float` by its 64 bits.
mutual
  pub data Json : Type 0 where
    null : Json
    boolean : Bool → Json
    number : ℤ → Json
    real : ℕ → Json
    text : String → Json
    array : Items → Json
    object : Fields → Json

  pub data Items : Type 0 where
    nil : Items
    cons : Json → Items → Items

  -- The entries of a `dict`, in order.
  pub data Fields : Type 0 where
    end : Fields
    field : String → Json → Fields → Fields

-- `d.get(key)`.
unfoldable pub get_field : String → Fields → Option Json
get_field key end = none
get_field key (field k v rest) = if k == key then some v else get_field key rest

-- `{**fields, key: value}`.
unfoldable pub set_field : String → Json → Fields → Fields
set_field key value end = field key value end
set_field key value (field k v rest) =
    if k == key then field k value rest else field k v (set_field key value rest)

-- `{**a, **b}`.
unfoldable pub merge_fields : Fields → Fields → Fields
unfolding set_field
merge_fields a end = a
merge_fields a (field k v rest) = merge_fields (set_field k v a) rest
