-- ===== src/Inference/Window.antt =====
-- src/inference.c: the rolling window of `inference_complete`, in which stop sequences are looked
-- for. The window is the bytes of `stop_window` up to `stop_window_len`.
use professor_ai.Prelude.{
  ℕ, zero, suc, ◌+◌, ◌-◌, Bool, false, ◌&&◌, ◌||◌, List, [], ◌∷◌, ◌++◌, if◌then◌else◌, ltb, leb,
  length, drop,
}
use professor_ai.Prelude.Bytes.{Bytes, streq}

-- `(int)sizeof(stop_window) - 1`
abbrev pub max_window : ℕ
max_window = 64

-- The clamping, the shift and the copies.
unfoldable pub push_piece : Bytes → Bytes → Bytes
push_piece window piece =
    let plen = length piece in
    let len = length window in
    if ltb max_window plen
    then drop (plen - max_window) piece
    else if ltb max_window (len + plen)
    then drop (len + plen - max_window) window ++ piece
    else window ++ piece

-- The test of one stop sequence: it is not empty, fits the window, and is the window's suffix.
unfoldable pub stop_hit : Bytes → Bytes → Bool
stop_hit window stop =
    let slen = length stop in
    let len = length window in ltb 0 slen && leb slen len && streq (drop (len - slen) window) stop

-- The loop over the first `n` stop sequences.
unfoldable pub any_stop : ℕ → List Bytes → Bytes → Bool
unfolding stop_hit
any_stop zero stops window = false
any_stop (suc n) [] window = false
any_stop (suc n) (s ∷ stops) window = stop_hit window s || any_stop n stops window
