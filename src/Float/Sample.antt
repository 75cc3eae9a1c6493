-- ===== src/Float/Sample.antt =====
-- Floats for runs: hundredths as whole numbers, with one value that is not a number.
use professor_ai.Prelude.{ℕ, ◌*◌, ◌≡◌, refl, Bool, true, false, Option, none, some, ltb, arith}
use professor_ai.Prelude.Int.{pos}
use professor_ai.Float.{Floats}

abbrev less : Option ℕ → Option ℕ → Bool
less none b = false
less (some a) none = false
less (some a) (some b) = ltb a b

abbrev is_none : Option ℕ → Bool
is_none none = true
is_none (some a) = false

pub less_asym : (a b : Option ℕ) → less a b ≡ true → less b a ≡ false
less_asym none none h = refl
less_asym none (some b) h = refl
less_asym (some a) none h = refl
less_asym (some a) (some b) h = ground arith

abbrev pub hundredths : Floats
hundredths = record {
  F = Option ℕ;
  D = ℕ;
  nan = none;
  is_nan = is_none;
  is_inf = λ a. false;
  less = less;
  zero_f = some 0;
  one_f = some 100;
  two_f = some 200;
  min_top_p = some 1;
  default_temperature = some 70;
  default_top_p = some 90;
  default_repeat_penalty = some 110;
  of_double = λ d. some (d * 100);
  int32_of_double = λ d. pos d;
  strtof = λ s. some 0;
  nan_is_nan = refl;
  less_asym = less_asym;
  zero_less_two = refl;
  zero_less_one = refl;
  one_less_two = refl;
  min_less_one = refl;
}
