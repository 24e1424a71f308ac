-- ===== src/Event.antt =====
-- server/matrix_webhook.go: the events that the Matrix server pushes, with the JSON of their content.
-- Of a number, the whole part is kept, which is all that the program reads.
use mattermost_plugin_matrix.Prelude.{ℕ, Bool, Option, none, some, [], Text, ◌==◌, if◌then◌else◌}
use mattermost_plugin_matrix.Prelude.Int.{ℤ}

mutual
  pub data Json : Type 0 where
    string : Text → Json
    boolean : Bool → Json
    number : ℤ → Json
    object : Fields → Json
    array : Items → Json
    null : Json

  -- `map[string]any`
  pub data Fields : Type 0 where
    end : Fields
    entry : Text → Json → Fields → Fields

  -- `[]any`
  pub data Items : Type 0 where
    last : Items
    item : Json → Items → Items

-- `MatrixEvent`, less the two fields that nothing reads
pub record MatrixEvent : Type 0 where
  pub kind : Text
  pub event_id : Text
  pub sender : Text
  pub room_id : Text
  pub content : Fields
  pub state_key : Option Text
  pub timestamp : ℕ

-- `value, ok := m[name]`
unfoldable pub find : Text → Fields → Option Json
find name end = none
find name (entry key value rest) = if key == name then some value else find name rest

-- the type assertion `.(string)`
abbrev pub as_text : Option Json → Option Text
as_text (some (string s)) = some s
as_text _ = none

-- the type assertion `.(map[string]any)`
abbrev pub as_object : Option Json → Option Fields
as_object (some (object fields)) = some fields
as_object _ = none

-- `text, ok := m[name].(string)`
unfoldable pub text_at : Text → Fields → Option Text
text_at name fields = as_text (find name fields)

-- `object, ok := m[name].(map[string]any)`
unfoldable pub object_at : Text → Fields → Option Fields
object_at name fields = as_object (find name fields)

-- A text that the program reads with the empty text for a missing one.
abbrev pub or_empty : Option Text → Text
or_empty none = []
or_empty (some s) = s
