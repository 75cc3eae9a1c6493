-- ===== src/Api/RequestId.antt =====
-- `generate_request_id` of src/api_types.c, and a reader of its digits.
use professor_ai.Prelude.{
  ℕ, zero, suc, ◌+◌, ◌-◌, ◌*◌, ◌/◌, ◌%◌, ◌≤◌, ◌<◌, ◌≡◌, refl, ap, ◌∙◌, Bool, inl, inr, Bool-cases,
  List, [], ◌∷◌, ◌++◌, if◌then◌else◌, ltb, take, drop, length, arith, length-append, length-take,
}
use professor_ai.Prelude.Bytes.{Bytes, take_all, snprintf_s}

-- "%02x" of a byte.
unfoldable pub hex_digit : ℕ → ℕ
hex_digit n = if ltb n 10 then 48 + n else 87 + n

unfoldable pub hex_of : List ℕ → Bytes
unfolding hex_digit
hex_of [] = []
hex_of (b ∷ bs) = hex_digit (b / 16) ∷ hex_digit (b % 16) ∷ hex_of bs

-- `generate_request_id(buf, len, prefix)` of the 16 bytes that are read.
unfoldable pub generate_request_id : ℕ → Bytes → List ℕ → Bytes
unfolding hex_of
generate_request_id len prefix rand_bytes =
    snprintf_s len (prefix ++ 45 ∷ hex_of (take 12 rand_bytes))

abbrev pub AllBytes : List ℕ → Type 0
AllBytes [] = 0 ≤ 0
AllBytes (x ∷ xs) = (x < 256) × AllBytes xs

-- `/dev/urandom`: whether it can be opened, and what `read` of 16 bytes gives.
pub record Urandom : Type 0 where
  pub opens : Bool
  pub got : List ℕ

-- A number in `n` bytes, the lowest first.
unfoldable pub low_first : ℕ → ℕ → List ℕ
low_first zero x = []
low_first (suc n) x = x % 256 ∷ low_first n (x / 256)

-- The 16 bytes, on a machine whose `struct timespec` is two numbers of 8 bytes.
unfoldable pub random_bytes : Urandom → ℕ → ℕ → List ℕ
unfolding low_first
random_bytes u sec nsec =
    let clock = low_first 8 sec ++ low_first 8 nsec in
    if u.opens then (if ltb (length u.got) 16 then clock else u.got) else clock

low_first-AllBytes : (n x : ℕ) → AllBytes (low_first n x)
unfolding low_first
low_first-AllBytes zero x = omega arith
low_first-AllBytes (suc n) x = (omega arith, low_first-AllBytes n (x / 256))

AllBytes-append : (xs ys : List ℕ) → AllBytes xs → AllBytes ys → AllBytes (xs ++ ys)
AllBytes-append [] ys h k = k
AllBytes-append (x ∷ xs) ys (small, h) k = (small, AllBytes-append xs ys h k)

-- Whatever `/dev/urandom` does, the id is made of bytes, at least 16 of them.
pub random_bytes_fit :
    (u : Urandom) (sec nsec : ℕ)
    → AllBytes u.got
    → AllBytes (random_bytes u sec nsec) × (16 ≤ length (random_bytes u sec nsec))
unfolding random_bytes
random_bytes_fit u sec nsec h =
    let clock =
      AllBytes-append (low_first 8 sec) (low_first 8 nsec) (low_first-AllBytes 8 sec)
        (low_first-AllBytes 8 nsec) in
    elim (Bool-cases u.opens) [
      | inr closed ↦ rw closed (clock, omega arith)
      | inl open_ ↦ elim (Bool-cases (ltb (length u.got) 16)) [
        | inl short ↦ rw (open_, short) (clock, omega arith)
        | inr enough ↦ rw (open_, enough) (h, ground arith)
      ]
    ]

abbrev pub unhex_digit : ℕ → ℕ
unhex_digit c = if ltb c 87 then c - 48 else c - 87

abbrev pub unhex : Bytes → List ℕ
unhex [] = []
unhex (a ∷ []) = []
unhex (a ∷ c ∷ s) = (unhex_digit a * 16 + unhex_digit c) ∷ unhex s

digit_back : (n : ℕ) → n < 16 → unhex_digit (hex_digit n) ≡ n
unfolding hex_digit
digit_back n h = ground arith

unhex-hex_of : (xs : List ℕ) → AllBytes xs → unhex (hex_of xs) ≡ xs
unfolding hex_of
unhex-hex_of [] h = refl
unhex-hex_of (x ∷ xs) (small, h) =
    let high = digit_back (x / 16) (omega arith) in
    let low = digit_back (x % 16) (omega arith) in
    let whole : x / 16 * 16 + x % 16 ≡ x = omega arith in
    rw (high, low, whole, unhex-hex_of xs h) refl

length-hex_of : (xs : List ℕ) → length (hex_of xs) ≡ 2 * length xs
unfolding hex_of
length-hex_of [] = omega arith
length-hex_of (x ∷ xs) = omega (arith, length-hex_of xs)

AllBytes-take : (n : ℕ) (xs : List ℕ) → AllBytes xs → AllBytes (take n xs)
AllBytes-take zero xs h = omega arith
AllBytes-take (suc n) [] h = omega arith
AllBytes-take (suc n) (x ∷ xs) (small, h) = (small, AllBytes-take n xs h)

drop-prefix : (pre s : Bytes) → drop (length pre) (pre ++ s) ≡ s
drop-prefix [] s = refl
drop-prefix (c ∷ pre) s = drop-prefix pre s

-- Where the array takes the prefix, the dash and 24 digits, the digits behind the dash read back as the
-- first twelve of the random bytes: the ids of different bytes differ, and are not cut.
pub generate_request_id_reads :
    (len : ℕ) (prefix : Bytes) (rand_bytes : List ℕ)
    → AllBytes rand_bytes
    → length prefix + 25 < len
    → unhex (drop 1 (drop (length prefix) (generate_request_id len prefix rand_bytes)))
      ≡ take 12 rand_bytes
unfolding generate_request_id
generate_request_id_reads len prefix rand_bytes small room =
    let hex = hex_of (take 12 rand_bytes) in
    let short : length (prefix ++ 45 ∷ hex) ≤ len - 1 = omega (
      arith,
      length-append prefix (45 ∷ hex),
      length-hex_of (take 12 rand_bytes),
      length-take {0} 12 rand_bytes,
    ) in
    let whole = take_all (len - 1) (prefix ++ 45 ∷ hex) short in
    ap (λ s. unhex (drop 1 (drop (length prefix) s))) whole
    ∙ ap (λ s. unhex (drop 1 s)) (drop-prefix prefix (45 ∷ hex))
    ∙ unhex-hex_of (take 12 rand_bytes) (AllBytes-take 12 rand_bytes small)
