-- ===== src/Worker/Collects.antt =====
-- src/worker.c: `accum_token_cb` as the callback of a job that does not stream.
use professor_ai.Prelude.{ℕ, ◌≤◌, ◌≡◌, ap, inl, inr, true, false, ◌++◌, length, arith}
use professor_ai.Prelude.Bytes.{Bytes}
use professor_ai.Inference.Pieces.{Collects}
use professor_ai.Worker.Accum.{Response, IsValid, accum_token_cb-IsAccumulated}
use professor_ai.Worker.Run.{Flags, Collecting, collect}

pub collect-keeps :
    (flags : ℕ → Flags) (s : Collecting) (p : Bytes)
    → length p ≤ 255
    → IsValid s.response
    → IsValid (collect flags s p).0.response
unfolding collect
collect-keeps flags s p small v =
    let f = flags s.calls in
    (accum_token_cb-IsAccumulated f.cancel f.shutdown f.realloc s.response p v (omega arith)).0

pub collect-appends :
    (flags : ℕ → Flags) (s : Collecting) (p : Bytes)
    → length p ≤ 255
    → IsValid s.response
    → (collect flags s p).1 ≡ true
    → (collect flags s p).0.response.buf ≡ s.response.buf ++ p
unfolding collect
collect-appends flags s p small v taken =
    let f = flags s.calls in
    elim ((accum_token_cb-IsAccumulated f.cancel f.shutdown f.realloc s.response p v
      (omega arith)).1) [ inl left ↦ cc | inr accepted ↦ accepted.1 ]

pub collect-refuses :
    (flags : ℕ → Flags) (s : Collecting) (p : Bytes)
    → length p ≤ 255
    → IsValid s.response
    → (collect flags s p).1 ≡ false
    → (collect flags s p).0.response.buf ≡ s.response.buf
unfolding collect
collect-refuses flags s p small v taken =
    let f = flags s.calls in
    elim ((accum_token_cb-IsAccumulated f.cancel f.shutdown f.realloc s.response p v
      (omega arith)).1) [ inl left ↦ ap (λ (r : Response). r.buf) left.1 | inr accepted ↦ cc ]

-- The callback of a job keeps the text in the job's buffer.
abbrev pub collects : (flags : ℕ → Flags) → Collects 255 (collect flags)
collects flags = record {
  text = λ s. s.response.buf;
  Holds = λ s. IsValid s.response;
  keeps = collect-keeps flags;
  appends = collect-appends flags;
  refuses = collect-refuses flags;
}
