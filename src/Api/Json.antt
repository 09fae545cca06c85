-- ===== src/Api/Json.antt =====
-- serde_json's `Value`, as far as crates/gum-api reads it: a parameter of the model.
use gum.Prelude.{Bool, Option, String}

-- What a value is; a number comes as the text that `to_string` prints.
pub data Shape : Type 0 where
  string_value number_value : String → Shape
  bool_value : Bool → Shape
  null_value array_value object_value : Shape

pub record JsonLibrary (Json : Type 0) : Type 0 where
  -- `value.get(field)`
  pub get_field : Json → String → Option Json
  pub shape : Json → Shape
