-- ===== src/Worker/Accum.antt =====
-- src/worker.c: the response buffer of a job that does not stream, and `accum_token_cb`.
use professor_ai.Prelude.{
  ℕ, ◌+◌, ◌*◌, ◌%◌, ◌^◌, ◌≤◌, ◌<◌, ◌≡◌, refl, ap, ◌⊎◌, inl, inr, Bool, true, false, not, ◌||◌, [],
  ◌++◌, if◌then◌else◌, ltb, leb, length, take, arith, length-append, Bool-cases,
}
use professor_ai.Prelude.Int.{ℤ, pos, ltb_ℤ, pos_part}
use professor_ai.Prelude.Bytes.{Bytes, take_all}
use professor_ai.Api.{content_max}

-- `size_t` sums and products.
abbrev pub size_add : ℕ → ℕ → ℕ
size_add a b = (a + b) % 2 ^ 64

abbrev pub size_mul : ℕ → ℕ → ℕ
size_mul a b = (a * b) % 2 ^ 64

-- `response_buf`, `response_len` and `response_cap` of a job whose buffer is allocated: `buf` is the
-- bytes in use, the NUL stands after them.
pub record Response : Type 0 where
  pub buf : Bytes
  pub len : ℕ
  pub cap : ℕ

-- The capacity that `worker_thread_func` allocates.
unfoldable pub first_cap : ℤ → ℕ
first_cap max_tokens =
    let asked = if ltb_ℤ (pos 0) max_tokens then size_mul (pos_part max_tokens) 16 else 8192 in
    let least = if ltb asked 8192 then 8192 else asked in
    if ltb content_max least then content_max else least

unfoldable pub fresh : ℤ → Response
unfolding first_cap
fresh max_tokens = record { buf = []; len = 0; cap = first_cap max_tokens }

-- The capacity that a token of length `tlen` asks for.
unfoldable pub new_cap : Response → ℕ → ℕ
new_cap r tlen =
    let doubled = size_mul r.cap 2 in
    let wanted = size_add (size_add r.len tlen) 1 in
    let grown = if ltb doubled wanted then wanted else doubled in
    if ltb content_max grown then content_max else grown

-- The `memcpy` at `response_len`, and the NUL behind it.
unfoldable pub put_token : Response → Bytes → Response
put_token r token = record r {
  buf = take r.len r.buf ++ token;
  len = size_add r.len (length token);
}

-- `accum_token_cb`: the buffer, and whether it returns 0. `realloc` says whether a reallocation
-- succeeds.
unfoldable pub accum_token_cb : Bool → Bool → Bool → Response → Bytes → Response × Bool
accum_token_cb cancel shutdown realloc r token =
    let tlen = length token in
    let cap = new_cap r tlen in
    if cancel || shutdown
    then (r, false)
    else if ltb (size_add r.len tlen) r.cap
    then (put_token r token, true)
    else if leb cap (size_add r.len tlen)
    then (r, false)
    else if not realloc
    then (r, false)
    else (put_token (record r { cap = cap }) token, true)

-- The bytes in use and their NUL fit the allocation, which stays within a response's limit.
pub record IsValid (r : Response) : Type 0 where
  pub counted : length r.buf ≡ r.len
  pub room : r.len < r.cap
  pub bounded : r.cap ≤ 65536

-- The first allocation is valid, for every value of `max_tokens`.
pub fresh-IsValid : (max_tokens : ℤ) → IsValid (fresh max_tokens)
unfolding fresh
fresh-IsValid max_tokens = ground arith

put_token-lem :
    (r : Response) (token : Bytes) (cap : ℕ)
    → length r.buf ≡ r.len
    → r.len + length token < cap
    → cap ≤ 65536
    → ((put_token (record r { cap = cap }) token).buf ≡ r.buf ++ token)
      × IsValid (put_token (record r { cap = cap }) token)
unfolding put_token
put_token-lem r token cap h fits small =
    let whole = take_all r.len r.buf (omega arith) in
    let total = length-append r.buf token in
    (
      ap (λ t. t ++ token) whole,
      record { counted = rw whole (omega arith); room = omega arith; bounded = small },
    )

new_cap-lem :
    (r : Response) (tlen : ℕ)
    → IsValid r
    → tlen ≤ 65536
    → (new_cap r tlen ≤ 65536) × ((r.len + tlen < new_cap r tlen) ⊎ (65536 ≤ r.len + tlen))
unfolding new_cap
new_cap-lem r tlen v small = ground arith

-- What a call makes of a token: refused with a reason and nothing changed, or appended whole.
abbrev pub IsAccumulated : Bool → Bool → Response → Bytes → Response × Bool → Type 0
IsAccumulated stop realloc r token out =
    IsValid out.0
    × ((out.1 ≡ false)
          × (out.0 ≡ r)
          × ((stop ≡ true)
              ⊎ (65536 ≤ r.len + length token)
              ⊎ (realloc ≡ false) × (r.cap ≤ r.len + length token))
        ⊎ (out.1 ≡ true)
          × (out.0.buf ≡ r.buf ++ token)
          × (stop ≡ false)
          × (r.len + length token < 65536))

-- Where neither flag is up.
going-IsAccumulated :
    (realloc : Bool) (r : Response) (token : Bytes)
    → IsValid r
    → length token ≤ 65536
    → IsAccumulated false realloc r token (accum_token_cb false false realloc r token)
unfolding accum_token_cb
going-IsAccumulated realloc r token v small =
    let cap = new_cap-lem r (length token) v small in
    let same : size_add r.len (length token) ≡ r.len + length token = omega arith in
    elim (Bool-cases (ltb (size_add r.len (length token)) r.cap)) [
      | inl fits ↦
          let below : r.len + length token < r.cap = ground arith in
          let put = put_token-lem r token r.cap v.counted below v.bounded in
          rw fits (put.1, inr (refl, put.0, refl, omega arith))
      | inr full ↦
          let over : r.cap ≤ r.len + length token = ground arith in
          elim (Bool-cases (leb (new_cap r (length token)) (size_add r.len (length token)))) [
            | inl too_long ↦
                let limit : 65536 ≤ r.len + length token = ground arith in
                rw (full, too_long) (v, inl (refl, refl, inr (inl limit)))
            | inr enough ↦
                let below : r.len + length token < new_cap r (length token) = ground arith in
                let put = put_token-lem r token (new_cap r (length token)) v.counted below cap.0 in
                rw (full, enough)
                  (elim (Bool-cases realloc) [
                    | inl yes_memory ↦ rw yes_memory (put.1, inr (refl, put.0, refl, omega arith))
                    | inr no_memory ↦ rw no_memory (v, inl (refl, refl, inr (inr (refl, over))))
                  ])
          ]
    ]

-- A token that is refused leaves the buffer as it was; one that is taken is appended whole, after
-- the bytes that were there, and the buffer stays within its allocation. A token of at most 64 KiB is
-- refused only when the job is cancelled or the daemon shuts down, when the response would reach
-- 64 KiB with its NUL, or when the buffer has to grow and cannot; it is taken only otherwise.
pub accum_token_cb-IsAccumulated :
    (cancel shutdown realloc : Bool) (r : Response) (token : Bytes)
    → IsValid r
    → length token ≤ 65536
    → IsAccumulated
        (cancel || shutdown)
        realloc
        r
        token
        (accum_token_cb cancel shutdown realloc r token)
unfolding accum_token_cb
accum_token_cb-IsAccumulated true shutdown realloc r token v small = (v, inl (refl, refl, inl refl))
accum_token_cb-IsAccumulated false true realloc r token v small = (v, inl (refl, refl, inl refl))
accum_token_cb-IsAccumulated false false realloc r token v small =
    going-IsAccumulated realloc r token v small
