-- ===== src/Api/Service/Key.antt =====
-- crates/gum-api/src/service.rs: `resolve_key_value`, the deduplication key in the input of a run.
use Prim.Native.String.{◌++◌ as append}
use gum.Prelude.{Bool, true, false, Option, none, some, String}
use gum.Types.{Result, ok, err}
use gum.Api.Json.{Shape, JsonLibrary}

-- `format!("key field \"{key_field}\" {problem}")`
key_error : String → String → String
key_error key_field problem = append "key field \"" (append key_field (append "\" " problem))

-- `bool::to_string`
bool_text : Bool → String
bool_text true = "true"
bool_text false = "false"

scalar_text : String → Shape → Result (Option String)
unfolding key_error bool_text
scalar_text key_field (Shape.string_value inner) = ok (some inner)
scalar_text key_field (Shape.number_value inner) = ok (some inner)
scalar_text key_field (Shape.bool_value inner) = ok (some (bool_text inner))
scalar_text key_field Shape.null_value = err (key_error key_field "must not be null")
scalar_text key_field Shape.array_value = err (key_error key_field "must resolve to a scalar value")
scalar_text key_field Shape.object_value =
    err (key_error key_field "must resolve to a scalar value")

module _ {Json : Type 0} (json : JsonLibrary Json) where
  key_at : Json → String → Option Json → Result (Option String)
  unfolding scalar_text key_error
  key_at input key_field none = err (key_error key_field "missing from input")
  key_at input key_field (some value) = scalar_text key_field (json.shape value)

  unfoldable pub resolve_key_value : Option String → Json → Result (Option String)
  unfolding key_at
  resolve_key_value none input = ok none
  resolve_key_value (some key_field) input = key_at input key_field (json.get_field input key_field)
