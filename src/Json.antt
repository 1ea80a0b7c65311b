-- ===== src/Json.antt =====
-- serde_json's `Value`, which is not code of this repository: a type with the operations that the
-- program calls, and the laws of them that it relies on.
pub mod Sample
use hwatu.Common.{◌≡◌, ◌↔◌, Bool, true, false, Option, List}
use hwatu.Common.Text.{Text, text_eq}

pub record JsonApi : Type 1 where
  pub Value : Type 0
  -- `==` on values; a `Value` holds no NaN.
  pub same : Value → Value → Bool
  pub same_refl : (a : Value) → same a a ≡ true
  -- `Value::get` with a key, `as_str`, `as_array`.
  pub get : Value → Text → Option Value
  pub as_str : Value → Option Text
  pub as_array : Value → Option (List Value)
  -- `Value::Null`, `Value::String`, `Value::Array`, and the object that the `json!` macro makes of its entries.
  pub null : Value
  pub string : Text → Value
  pub array : List Value → Value
  pub object : List (Text × Value) → Value
  -- `as_object_mut` then `remove(key)`: no change on what is not an object.
  pub without : Value → Text → Value
  pub get-without : (v : Value) (j k : Text) → text_eq j k ≡ false → get (without v k) j ≡ get v j
