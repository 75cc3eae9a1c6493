-- ===== src/Server/Auth.antt =====
-- src/server.c: `check_auth`, with its comparison in constant time.
use Prim.Native.Nat.{bit_or, bit_xor}
use professor_ai.Prelude.{
  ℕ, ◌+◌, ◌<◌, ◌≡◌, refl, ap, ap₂, ◌∙◌, ◌⊎◌, inl, inr, ◌↔◌, Bool, true, false, Option, none, some,
  [], ◌∷◌, ◌++◌, if◌then◌else◌, ltb, ◌==◌, length, drop, arith, Bool-cases,
}
use professor_ai.Prelude.Bytes.{Bytes, codes, snprintf_s, take_all}
use professor_ai.Prelude.BitZero.{bit_or-zero, bit_xor-zero, bit_xor_self}
use professor_ai.Config.{key_max}

-- The loop over the bytes that both strings have.
unfoldable pub compare_bytes : ℕ → Bytes → Bytes → ℕ
compare_bytes diff [] expected = diff
compare_bytes diff (a ∷ auth) [] = diff
compare_bytes diff (a ∷ auth) (e ∷ expected) =
    compare_bytes (bit_or diff (bit_xor a e)) auth expected

-- The loop over the rest of the expected value.
unfoldable pub pad_bytes : ℕ → Bytes → ℕ
pad_bytes diff [] = diff
pad_bytes diff (e ∷ expected) = pad_bytes (bit_or diff e) expected

-- `snprintf(expected, PROF_KEY_MAX + 8, "Bearer %s", api_key)`
abbrev pub expected_value : Bytes → Bytes
expected_value api_key = snprintf_s (key_max + 8) (codes "Bearer " ++ api_key)

-- The comparison of a header with what is expected.
unfoldable pub header_diff : Bytes → Bytes → ℕ
header_diff auth expected =
    let elen = length expected in
    let diff = if length auth == elen then 0 else 1 in
    let cmp_len = if ltb (length auth) elen then length auth else elen in
    pad_bytes (compare_bytes diff auth expected) (drop cmp_len expected)

-- `check_auth` returns 0. `auth` is the request's Authorization header.
unfoldable pub check_auth : Bytes → Option Bytes → Bool
check_auth [] auth = true
check_auth (k ∷ key) none = false
check_auth (k ∷ key) (some auth) = header_diff auth (expected_value (k ∷ key)) == 0

compare_bytes-zero :
    (diff : ℕ) (auth expected : Bytes)
    → length auth ≡ length expected
    → compare_bytes diff auth expected ≡ 0
    → (diff ≡ 0) × (auth ≡ expected)
unfolding compare_bytes
compare_bytes-zero diff [] [] h e = (e, refl)
compare_bytes-zero diff [] (x ∷ expected) h e = absurd (omega arith)
compare_bytes-zero diff (a ∷ auth) [] h e = absurd (omega arith)
compare_bytes-zero diff (a ∷ auth) (x ∷ expected) h e =
    let ih = compare_bytes-zero (bit_or diff (bit_xor a x)) auth expected (omega arith) e in
    let parts = bit_or-zero diff (bit_xor a x) ih.0 in
    (parts.0, ap₂ ◌∷◌ (bit_xor-zero a x parts.1) ih.1)

-- A difference that was found is never lost.
compare_bytes-pos :
    (diff : ℕ) (auth expected : Bytes) → 0 < diff → 0 < compare_bytes diff auth expected
unfolding compare_bytes
compare_bytes-pos diff [] expected h = h
compare_bytes-pos diff (a ∷ auth) [] h = h
compare_bytes-pos diff (a ∷ auth) (x ∷ expected) h =
    compare_bytes-pos (bit_or diff (bit_xor a x)) auth expected (stays diff (bit_xor a x) h)
  where
    stays : (p q : ℕ) → 0 < p → 0 < bit_or p q
    stays p q k = ground (arith, bit_or-zero p q)

pad_bytes-pos : (diff : ℕ) (expected : Bytes) → 0 < diff → 0 < pad_bytes diff expected
unfolding pad_bytes
pad_bytes-pos diff [] h = h
pad_bytes-pos diff (x ∷ expected) h =
    pad_bytes-pos (bit_or diff x) expected (ground (arith, bit_or-zero diff x))

compare_bytes_self : (s : Bytes) → compare_bytes 0 s s ≡ 0
unfolding compare_bytes
compare_bytes_self [] = refl
compare_bytes_self (x ∷ s) = rw (bit_xor_self x) (compare_bytes_self s)

drop-length : (s : Bytes) → drop (length s) s ≡ []
drop-length [] = refl
drop-length (x ∷ s) = drop-length s

header_diff-zero : (auth expected : Bytes) → header_diff auth expected ≡ 0 → auth ≡ expected
unfolding header_diff
header_diff-zero auth expected h =
    let d : ℕ = if length auth == length expected then 0 else 1 in
    let rest =
      drop (if ltb (length auth) (length expected) then length auth else length expected)
        expected in
    let c = compare_bytes d auth expected in
    let clean : c ≡ 0 = ground (arith, pad_bytes-pos c rest) in
    elim (Bool-cases (length auth == length expected)) [
      | inl same ↦
          let e : length auth ≡ length expected = ground arith in
          (compare_bytes-zero d auth expected e clean).1
      | inr other ↦
          let found : 0 < d = ground arith in
          absurd (omega (arith, compare_bytes-pos d auth expected found))
    ]

header_diff_self : (s : Bytes) → header_diff s s ≡ 0
unfolding header_diff pad_bytes
header_diff_self s =
    let same : (length s == length s) ≡ true = ground arith in
    let all : ltb (length s) (length s) ≡ false = ground arith in
    rw (same, all, compare_bytes_self s, drop-length s)

expected_whole : (key : Bytes) → length key < 128 → expected_value key ≡ codes "Bearer " ++ key
expected_whole key h = take_all 135 (codes "Bearer " ++ key) (omega arith)

-- For a key that the configuration can hold, the check passes exactly when no key is configured or
-- the header is "Bearer " and the key.
pub check_auth_iff :
    (key : Bytes) (auth : Option Bytes)
    → length key < 128
    → (check_auth key auth ≡ true) ↔ ((key ≡ []) ⊎ (auth ≡ some (codes "Bearer " ++ key)))
unfolding check_auth
check_auth_iff [] auth h = ((λ e. inl refl), (λ e. refl))
check_auth_iff (k ∷ key) none h = ((λ e. cc), (λ e. elim e [ inl a ↦ cc | inr a ↦ cc ]))
check_auth_iff (k ∷ key) (some auth) h =
    let want = expected_whole (k ∷ key) h in
    (
      (λ e. inr (ap some (header_diff-zero auth (expected_value (k ∷ key)) (ground arith) ∙ want))),
      (λ e. elim e [
        | inl a ↦ cc
        | inr a ↦
            let sent : auth ≡ codes "Bearer " ++ k ∷ key = ground arith in
            let self : header_diff auth (expected_value (k ∷ key)) ≡ 0 =
              rw (sent, want) (header_diff_self (codes "Bearer " ++ k ∷ key)) in
            ground (arith, self)
      ]),
    )
