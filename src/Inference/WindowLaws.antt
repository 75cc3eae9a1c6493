-- ===== src/Inference/WindowLaws.antt =====
-- The rolling window is the last 64 bytes of the whole text, so the search in it finds the stop
-- sequences with which the text ends.
use professor_ai.Prelude.{
  ℕ, zero, suc, ◌+◌, ◌-◌, ◌≤◌, ◌<◌, ◌≡◌, refl, ap, ap₂, sym, ◌∙◌, inl, inr, Bool, true, false, ◌&&◌,
  ◌||◌, List, [], ◌∷◌, ◌++◌, ltb, leb, length, drop, length-drop, length-append, arith, Bool-cases,
}
use professor_ai.Prelude.Bytes.{Bytes, streq}
use professor_ai.Api.WellFormed.{AllFit}
use professor_ai.Inference.Window.{push_piece, stop_hit, any_stop}

-- The last 64 bytes.
abbrev pub last : Bytes → Bytes
last t = drop (length t - 64) t

-- The text ends with a stop sequence that is not empty.
unfoldable pub ends_with : Bytes → Bytes → Bool
ends_with t stop =
    ltb 0 (length stop)
    && leb (length stop) (length t)
    && streq (drop (length t - length stop) t) stop

unfoldable pub any_ends : ℕ → List Bytes → Bytes → Bool
unfolding ends_with
any_ends zero stops t = false
any_ends (suc n) [] t = false
any_ends (suc n) (s ∷ stops) t = ends_with t s || any_ends n stops t

drop-append_left : (n : ℕ) (xs ys : Bytes) → n ≤ length xs → drop n (xs ++ ys) ≡ drop n xs ++ ys
drop-append_left zero xs ys h = refl
drop-append_left (suc n) [] ys h = absurd (omega arith)
drop-append_left (suc n) (x ∷ xs) ys h = drop-append_left n xs ys (omega arith)

drop-append_right :
    (n : ℕ) (xs ys : Bytes) → length xs ≤ n → drop n (xs ++ ys) ≡ drop (n - length xs) ys
drop-append_right n [] ys h = ap (λ k. drop k ys) (omega arith)
drop-append_right zero (x ∷ xs) ys h = absurd (omega arith)
drop-append_right (suc n) (x ∷ xs) ys h =
    drop-append_right n xs ys (omega arith) ∙ ap (λ k. drop k ys) (omega arith)

drop-nil : (n : ℕ) → drop {A = ℕ} n [] ≡ []
drop-nil zero = refl
drop-nil (suc n) = refl

drop-drop : (m n k : ℕ) (xs : Bytes) → n + m ≡ k → drop m (drop n xs) ≡ drop k xs
drop-drop m zero k xs e = ap (λ j. drop j xs) (omega arith)
drop-drop m (suc n) k [] e = drop-nil m ∙ sym (drop-nil k)
drop-drop m (suc n) zero (x ∷ xs) e = absurd (omega arith)
drop-drop m (suc n) (suc k) (x ∷ xs) e = drop-drop m n k xs (omega arith)

-- Taking a piece in keeps the window the last 64 bytes of the text.
pub push_piece-last : (t p : Bytes) → push_piece (last t) p ≡ last (t ++ p)
unfolding push_piece
push_piece-last t p =
    let total = length-append t p in
    let held = length-drop (length t - 64) t in
    elim (Bool-cases (ltb 64 (length p))) [
      | inl long ↦
          let past : 64 < length p = ground arith in
          rw long (
            sym (
              drop-append_right (length (t ++ p) - 64) t p (omega arith)
              ∙ ap (λ k. drop k p) (omega arith)))
      | inr short ↦
          let fits : length p ≤ 64 = ground arith in
          elim (Bool-cases (ltb 64 (length (last t) + length p))) [
            | inl over ↦
                let past : 64 < length (last t) + length p = ground arith in
                rw (short, over)
                  (ap (λ z. z ++ p)
                      (drop-drop (length (last t) + length p - 64) (length t - 64)
                        (length (t ++ p) - 64) t (omega arith))
                    ∙ sym (drop-append_left (length (t ++ p) - 64) t p (omega arith)))
            | inr room ↦
                let low : length (last t) + length p ≤ 64 = ground arith in
                rw (short, room)
                  (ap (λ k. drop k t ++ p) (omega arith)
                    ∙ sym (drop-append_left (length (t ++ p) - 64) t p (omega arith)))
          ]
    ]

-- On a stop sequence of at most 64 bytes the window's test is the text's.
pub stop_hit-last : (t stop : Bytes) → length stop ≤ 64 → stop_hit (last t) stop ≡ ends_with t stop
unfolding stop_hit ends_with
stop_hit-last t stop h =
    let held = length-drop (length t - 64) t in
    elim (Bool-cases (leb (length stop) (length t))) [
      | inl fits ↦
          let le : length stop ≤ length t = ground arith in
          let fits' : leb (length stop) (length (last t)) ≡ true = ground arith in
          rw (fits, fits')
            (ap (λ s. ltb 0 (length stop) && true && streq s stop)
              (drop-drop (length (last t) - length stop) (length t - 64) (length t - length stop) t
                (omega arith)))
      | inr long ↦
          let fits' : leb (length stop) (length (last t)) ≡ false = ground arith in
          rw (long, fits') (ground arith)
    ]

pub any_stop-last :
    (n : ℕ) (stops : List Bytes) (t : Bytes)
    → AllFit stops
    → any_stop n stops (last t) ≡ any_ends n stops t
unfolding any_stop any_ends
any_stop-last zero stops t f = refl
any_stop-last (suc n) [] t f = refl
any_stop-last (suc n) (s ∷ stops) t f =
    ap₂ ◌||◌ (stop_hit-last t s (omega arith)) (any_stop-last n stops t f.1)
