-- ===== src/Workflows/Json.antt =====
-- JSON values, nested, as the API decodes them. A number with a fraction is kept as its text.
use foundora_ai.Base.{ℕ, suc, String, Bool, Option, none, some, ◌==◌, string_eq, if◌then◌else◌}

mutual
  pub data Json : Type 0 where
    null : Json
    boolean : Bool → Json
    integer negative : ℕ → Json
    real string : String → Json
    array : Items → Json
    object : Fields → Json

  pub data Items : Type 0 where
    no_items : Items
    item : Json → Items → Items

  pub data Fields : Type 0 where
    no_fields : Fields
    field : String → Json → Fields → Fields

-- `dict.get(key)`
unfoldable pub get : String → Fields → Option Json
get key no_fields = none
get key (field k v rest) = if k == key then some v else get key rest

unfoldable pub item_count : Items → ℕ
item_count no_items = 0
item_count (item j rest) = suc (item_count rest)
