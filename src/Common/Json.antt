-- ===== src/Common/Json.antt =====
-- Values that `json.loads` yields, and what the services ask of them. A number that is not a whole
-- one stands as its text.
use Prim.Native.Nat.{ℕ}
use Prim.Native.String.{String}
use mathlib.Core.Bool.{Bool, true, false, not}
use mathlib.Core.Option.{Option, none, some}
use mathlib.Core.List.{List, [], ◌∷◌}
use text.Mathlib.Text.{◌==◌ as text_eq}
use zero_agent_dev_telegram.Common.Tests.{◌==◌, if◌then◌else◌}
use zero_agent_dev_telegram.Common.Text.{is_empty_text}

mutual
  pub data Json : Type 0 where
    null : Json
    boolean : Bool → Json
    whole negative : ℕ → Json
    real str : String → Json
    array : Items → Json
    object : Fields → Json

  pub data Items : Type 0 where
    none_left : Items
    item : Json → Items → Items

  pub data Fields : Type 0 where
    no_field : Fields
    field : String → Json → Fields → Fields

-- `data.get(key)`; of keys that repeat, `json.loads` keeps the last, and a dict has one of each.
unfoldable pub get_field : String → Fields → Option Json
get_field key no_field = none
get_field key (field k v rest) = if text_eq k key then some v else get_field key rest

abbrev pub is_empty_items : Items → Bool
is_empty_items none_left = true
is_empty_items (item v rest) = false

abbrev pub is_empty_fields : Fields → Bool
is_empty_fields no_field = true
is_empty_fields (field k v rest) = false

abbrev is_zero_text : String → Bool
is_zero_text s = if text_eq s "0.0" then true else text_eq s "-0.0"

-- `bool(value)`.
abbrev pub is_truthy : Json → Bool
is_truthy null = false
is_truthy (boolean b) = b
is_truthy (whole n) = not (n == 0)
is_truthy (negative n) = not (n == 0)
is_truthy (real s) = not (is_zero_text s)
is_truthy (str s) = not (is_empty_text s)
is_truthy (array items) = not (is_empty_items items)
is_truthy (object fields) = not (is_empty_fields fields)

abbrev cons_text : String → Option (List String) → Option (List String)
cons_text s none = none
cons_text s (some rest) = some (s ∷ rest)

-- The items, if each of them is a text.
unfoldable pub texts_of : Items → Option (List String)
texts_of none_left = some []
texts_of (item (str s) rest) = cons_text s (texts_of rest)
texts_of (item v rest) = none
