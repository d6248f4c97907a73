-- ===== src/Json.antt =====
-- The JSON values of the serde_json crate, which the program reads but does not implement: a type
-- with the accessors that are called. Every definition that reads JSON takes it as a parameter.
pub mod Plain
use openclaw_rust_node.Base.{ℕ, String, Bool, Option, List}

pub record Json : Type 1 where
  pub Value : Type 0
  pub Object : Type 0
  -- `Value::get(key)` and `Map::get(key)`.
  pub get : Value → String → Option Value
  pub object_get : Object → String → Option Value
  pub as_str : Value → Option String
  pub as_bool : Value → Option Bool
  pub as_u64 : Value → Option ℕ
  pub as_array : Value → Option (List Value)
  pub as_object : Value → Option Object
