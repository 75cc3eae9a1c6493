-- ===== src/Float.antt =====
-- The floating-point values that the program stores and compares. There are no floats in the model:
-- the type and the operations that the code uses are a parameter, with the laws of IEEE comparison
-- that it relies on.
pub mod Sample
use professor_ai.Prelude.{◌≡◌, Bool, true, false}
use professor_ai.Prelude.Int.{ℤ}
use professor_ai.Prelude.Bytes.{Bytes}

pub record Floats : Type 1 where
  pub F : Type 0
  pub D : Type 0
  pub nan : F
  pub is_nan : F → Bool
  pub is_inf : F → Bool
  pub less : F → F → Bool
  pub zero_f : F
  pub one_f : F
  pub two_f : F
  pub min_top_p : F
  pub default_temperature : F
  pub default_top_p : F
  pub default_repeat_penalty : F
  pub of_double : D → F
  pub int32_of_double : D → ℤ
  pub strtof : Bytes → F
  pub nan_is_nan : is_nan nan ≡ true
  pub less_asym : (a b : F) → less a b ≡ true → less b a ≡ false
  pub zero_less_two : less zero_f two_f ≡ true
  pub zero_less_one : less zero_f one_f ≡ true
  pub one_less_two : less one_f two_f ≡ true
  pub min_less_one : less min_top_p one_f ≡ true
