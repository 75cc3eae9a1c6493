-- ===== src/Ring/Window.antt =====
-- The tokens that a ring holds, oldest first, and the invariant of its two indices.
use professor_ai.Prelude.{
  ℕ, zero, suc, ◌+◌, ◌-◌, ◌%◌, ◌<◌, ◌≡◌, refl, ap, ap₂, ◌∙◌, ◌≢◌, List, [], ◌∷◌, ◌++◌, true, false,
  arith, length, get_or, set,
}
use professor_ai.Prelude.Bytes.{Bytes}
use professor_ai.Ring.{TokenRing, ring_size, is_full, is_empty}

-- The `n` slots from index `t` on, going round at the ring's size.
abbrev pub slots : List Bytes → ℕ → ℕ → List Bytes
slots buf t zero = []
slots buf t (suc n) = get_or buf t [] ∷ slots buf ((t + 1) % ring_size) n

-- How many tokens wait.
abbrev pub count : TokenRing → ℕ
count r = (r.head + ring_size - r.tail) % ring_size

abbrev pub contents : TokenRing → List Bytes
contents r = slots r.text r.tail (count r)

-- Every slot holds a text that fits its array with the NUL.
abbrev pub Fit : List Bytes → Type 0
Fit [] = Unit {0}
Fit (s ∷ ss) = (length s < 128) × Fit ss

pub record IsValid (r : TokenRing) : Type 0 where
  pub slots_of : length r.text ≡ 256
  pub head_in : r.head < 256
  pub tail_in : r.tail < 256
  pub fits : Fit r.text

pub length-slots : (buf : List Bytes) (t n : ℕ) → length (slots buf t n) ≡ n
length-slots buf t zero = refl
length-slots buf t (suc n) = ap suc (length-slots buf ((t + 1) % ring_size) n)

get_or-set_self :
    (xs : List Bytes) (i : ℕ) (v : Bytes) → i < length xs → get_or (set xs i v) i [] ≡ v
get_or-set_self [] i v h = absurd (omega arith)
get_or-set_self (x ∷ xs) zero v h = refl
get_or-set_self (x ∷ xs) (suc i) v h = get_or-set_self xs i v (omega arith)

get_or-set_ne :
    (xs : List Bytes) (i j : ℕ) (v : Bytes) → i ≢ j → get_or (set xs i v) j [] ≡ get_or xs j []
get_or-set_ne [] i j v h = refl
get_or-set_ne (x ∷ xs) zero zero v h = absurd (h refl)
get_or-set_ne (x ∷ xs) zero (suc j) v h = refl
get_or-set_ne (x ∷ xs) (suc i) zero v h = refl
get_or-set_ne (x ∷ xs) (suc i) (suc j) v h = get_or-set_ne xs i j v (λ e. h (ap suc e))

pub Fit-set : (xs : List Bytes) (i : ℕ) (v : Bytes) → Fit xs → length v < 128 → Fit (set xs i v)
Fit-set [] i v f h = f
Fit-set (x ∷ xs) zero v f h = (h, f.1)
Fit-set (x ∷ xs) (suc i) v f h = (f.0, Fit-set xs i v f.1 h)

pub Fit-get_or : (xs : List Bytes) (i : ℕ) → Fit xs → length (get_or xs i []) < 128
Fit-get_or [] i f = omega arith
Fit-get_or (x ∷ xs) zero f = f.0
Fit-get_or (x ∷ xs) (suc i) f = Fit-get_or xs i f.1

-- Writing `m` slots past a window leaves the window alone.
slots-set_outside :
    (buf : List Bytes) (v : Bytes) (n m t i : ℕ)
    → t < 256
    → n + m < 256
    → i ≡ (t + n + m) % 256
    → slots (set buf i v) t n ≡ slots buf t n
slots-set_outside buf v zero m t i ht h e = refl
slots-set_outside buf v (suc n) m t i ht h e =
    ap₂ ◌∷◌ (get_or-set_ne buf i t v (omega arith))
      (slots-set_outside buf v n m ((t + 1) % 256) i (omega arith) (omega arith) (omega arith))

slots-snoc :
    (buf : List Bytes) (n t i : ℕ)
    → t < 256
    → i ≡ (t + n) % 256
    → slots buf t (suc n) ≡ slots buf t n ++ get_or buf i [] ∷ []
slots-snoc buf zero t i ht e = let e' : t ≡ i = omega arith in ap (λ k. get_or buf k [] ∷ []) e'
slots-snoc buf (suc n) t i ht e =
    ap (◌∷◌ (get_or buf t [])) (slots-snoc buf n ((t + 1) % 256) i (omega arith) (omega arith))

-- Writing just past a window of fewer than 256 slots extends it by that text.
pub slots-set :
    (buf : List Bytes) (v : Bytes) (n t i : ℕ)
    → length buf ≡ 256
    → t < 256
    → n < 256
    → i ≡ (t + n) % 256
    → slots (set buf i v) t (suc n) ≡ slots buf t n ++ v ∷ []
slots-set buf v n t i hl ht hn e =
    slots-snoc (set buf i v) n t i ht e
    ∙ ap₂ (λ a b. a ++ b ∷ []) (slots-set_outside buf v n 0 t i ht (omega arith) (omega arith))
        (get_or-set_self buf i v (omega arith))

-- `window` matches on `suc`; the code tests the indices.
pub slots_of_pos :
    (buf : List Bytes) (t n : ℕ)
    → 0 < n
    → slots buf t n ≡ get_or buf t [] ∷ slots buf ((t + 1) % 256) (n - 1)
slots_of_pos buf t zero h = absurd (omega arith)
slots_of_pos buf t (suc n) h = ap (λ k. get_or buf t [] ∷ slots buf ((t + 1) % 256) k) (omega arith)

-- The two tests of the code, in terms of the count.
pub is_full-count : (r : TokenRing) → IsValid r → is_full r ≡ true → count r ≡ 255
unfolding is_full
is_full-count r v h = ground arith

pub not_full-count : (r : TokenRing) → IsValid r → is_full r ≡ false → count r < 255
unfolding is_full
not_full-count r v h = ground arith

pub is_empty-count : (r : TokenRing) → IsValid r → is_empty r ≡ true → count r ≡ 0
unfolding is_empty
is_empty-count r v h = ground arith

pub not_empty-count : (r : TokenRing) → IsValid r → is_empty r ≡ false → 0 < count r
unfolding is_empty
not_empty-count r v h = ground arith
