-- ===== src/Prelude/Bytes.antt =====
-- C strings. A `char` array is modelled by its bytes before the first NUL, and a byte by a number.
use Prim.Native.Nat.{ℕ, zero, suc, ◌-◌, ◌≤◌, ◌<◌}
use Prim.Native.Char.{code}
use Prim.Native.String.{String}
use mathlib.Core.Path.{◌≡◌, refl, ap₂}
use mathlib.Core.Bool.{Bool, true, false, ◌&&◌}
use mathlib.Core.List.{List, [], ◌∷◌}
use native.Mathlib.Omega.{arith}
use professor_ai.Prelude.Tests.{◌==◌}
use professor_ai.Prelude.Lists.{length, take, length-take}

abbrev pub Bytes : Type 0
Bytes = List ℕ

-- The bytes of a string literal.
abbrev pub codes : String → Bytes
codes String.[] = []
codes (String.◌∷◌ c s) = code c ∷ codes s

-- `strcmp(a, b) == 0`
unfoldable pub streq : Bytes → Bytes → Bool
streq [] [] = true
streq [] (b ∷ bs) = false
streq (a ∷ as') [] = false
streq (a ∷ as') (b ∷ bs) = a == b && streq as' bs

-- `snprintf(dst, size, "%s", s)`: at most `size - 1` bytes, then the NUL.
abbrev pub snprintf_s : ℕ → Bytes → Bytes
snprintf_s size s = take (size - 1) s

-- `strncmp(s, key, strlen(key)) == 0`
unfoldable pub has_prefix : Bytes → Bytes → Bool
has_prefix [] s = true
has_prefix (k ∷ ks) [] = false
has_prefix (k ∷ ks) (c ∷ s) = k == c && has_prefix ks s

pub streq_sound : (a b : Bytes) → streq a b ≡ true → a ≡ b
unfolding streq
streq_sound [] [] h = refl
streq_sound [] (y ∷ b) h = cc
streq_sound (x ∷ a) [] h = cc
streq_sound (x ∷ a) (y ∷ b) h = ground (arith, streq_sound a b)

pub streq_refl : (a : Bytes) → streq a a ≡ true
unfolding streq
streq_refl [] = refl
streq_refl (x ∷ a) = ground (arith, streq_refl a)

pub length-snprintf : (n : ℕ) (s : Bytes) → 0 < n → length (snprintf_s n s) < n
length-snprintf n s h = omega (arith, length-take {0} (n - 1) s)

-- What fits is copied whole.
pub take_all {ℓ} : {A : Type ℓ} (n : ℕ) (s : List A) → length s ≤ n → take n s ≡ s
take_all zero [] h = refl
take_all zero (x ∷ s) h = absurd (omega arith)
take_all (suc n) [] h = refl
take_all (suc n) (x ∷ s) h = ap₂ ◌∷◌ refl (take_all n s (omega arith))
