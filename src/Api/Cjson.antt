-- ===== src/Api/Cjson.antt =====
-- The calls of cJSON that api_types.c makes: a parameter, since the library is not in the
-- repository. A null pointer is `none`, and every reader accepts one, as cJSON's do.
use professor_ai.Prelude.{Option, List, Bool}
use professor_ai.Prelude.Bytes.{Bytes}

-- `string_value` is `cJSON_IsString` with `valuestring`, `number_value` `cJSON_IsNumber` with
-- `valuedouble`, `bool_value` `cJSON_IsBool` with `cJSON_IsTrue`, and `array_items` is
-- `cJSON_IsArray` with the items that `cJSON_GetArraySize` counts and `cJSON_GetArrayItem` gives.
pub record Cjson (D : Type 0) : Type 1 where
  pub Item : Type 0
  pub parse_with_length : Bytes → Option Item
  pub get_object_item : Option Item → Bytes → Option Item
  pub string_value : Option Item → Option Bytes
  pub number_value : Option Item → Option D
  pub bool_value : Option Item → Option Bool
  pub array_items : Option Item → Option (List Item)
