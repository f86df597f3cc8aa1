-- ===== src/Contract/Json.antt =====
-- JSON as `json.loads` gives it: a Python value, where an object is a `dict`. Numbers are opaque.
use rule2llm_orch_lab.Prelude.{
  ℕ, String, Bool, true, false, Option, none, some, str_eq, ◌&&◌, if◌then◌else◌,
}

mutual
  pub data Json : Type 0 where
    null : Json
    boolean : Bool → Json
    number : ℕ → Json
    text : String → Json
    array : Items → Json
    object : Fields → Json

  pub data Items : Type 0 where
    nil : Items
    cons : Json → Items → Items

  pub data Fields : Type 0 where
    end : Fields
    field : String → Json → Fields → Fields

-- `xs + ys`
abbrev pub append_items : Items → Items → Items
append_items nil ys = ys
append_items (cons x xs) ys = cons x (append_items xs ys)

-- `d.get(key)`; a `dict` has each key once.
unfoldable pub lookup : String → Fields → Option Json
lookup key end = none
lookup key (field k v fs) = let rest = lookup key fs in if str_eq k key then some v else rest

-- `all(p(key, value) for key, value in d.items())`
unfoldable pub all_fields : (String → Json → Bool) → Fields → Bool
all_fields p end = true
all_fields p (field k v fs) = p k v && all_fields p fs

-- `isinstance(value, str)`, with the text
abbrev pub as_text : Json → Option String
as_text (text s) = some s
as_text _ = none

-- `isinstance(value, dict)`, with the fields
abbrev pub as_object : Json → Option Fields
as_object (object fs) = some fs
as_object _ = none

-- A text or null
abbrev pub is_text_or_null : Json → Bool
is_text_or_null null = true
is_text_or_null (text s) = true
is_text_or_null _ = false

-- The text of a field, none for null or for no field
abbrev pub text_of : Option Json → Option String
text_of none = none
text_of (some v) = as_text v
