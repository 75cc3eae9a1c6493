-- ===== src/Ring/Progress.antt =====
-- When `ring_write` comes back from its wait loop.
use professor_ai.Prelude.{
  ℕ, zero, suc, ◌≤◌, ◌<◌, ◌≡◌, ap, sym, ◌∙◌, ◌≢◌, ◌⊎◌, inl, inr, List, [], ◌∷◌, Bool, true, ◌||◌,
  arith, length, drop, length-drop, replicate, length-replicate,
}
use professor_ai.Prelude.Bytes.{Bytes}
use professor_ai.Ring
use professor_ai.Ring.{TokenRing, Wake, Written, blocked}
use professor_ai.Ring.Window.{IsValid, contents, Fit}
use professor_ai.Ring.Fifo.{waiting, queue_write, view, write_refines, length-contents}

-- A wake-up that lets the writer go on: the reader took a token, or a flag is up.
abbrev pub Relieves : Wake → Type 0
Relieves w = (0 < w.taken) ⊎ ((w.cancel || w.shutdown) ≡ true)

abbrev pub SomeRelief : List Wake → Type 0
SomeRelief [] = ⊥
SomeRelief (w ∷ ws) = Relieves w ⊎ SomeRelief ws

-- A queue with room, or a raised flag, does not make the writer wait.
queue_write_ready :
    (q : List Bytes) (text : Bytes) (c s : Bool) (ws : List Wake) (q' : List Bytes)
    → (length q < 255) ⊎ ((c || s) ≡ true)
    → queue_write q text c s ws ≢ waiting q'
unfolding queue_write
queue_write_ready q text c s [] q' (inl room) = ground arith
queue_write_ready q text c s [] q' (inr stop) = ground arith
queue_write_ready q text c s (w ∷ ws) q' (inl room) = ground arith
queue_write_ready q text c s (w ∷ ws) q' (inr stop) = ground arith

queue_write_relieved :
    (q : List Bytes) (text : Bytes) (c s : Bool) (ws : List Wake) (q' : List Bytes)
    → length q ≤ 255
    → SomeRelief ws
    → queue_write q text c s ws ≢ waiting q'
unfolding queue_write
queue_write_relieved q text c s [] q' h relief = absurd relief
queue_write_relieved q text c s (w ∷ ws) q' h (inl (inl took)) = ground (
  arith,
  length-drop w.taken q,
  queue_write_ready (drop w.taken q) text w.cancel w.shutdown ws q',
)
queue_write_relieved q text c s (w ∷ ws) q' h (inl (inr stop)) =
    ground (arith, queue_write_ready (drop w.taken q) text w.cancel w.shutdown ws q')
queue_write_relieved q text c s (w ∷ ws) q' h (inr later) = ground (
  arith,
  length-drop w.taken q,
  queue_write_relieved (drop w.taken q) text w.cancel w.shutdown ws q',
)

-- A write on a valid ring does not stay blocked once a wake-up finds that the reader has taken a
-- token, or that the job is cancelled or the daemon shuts down.
pub write_returns :
    (r : TokenRing) (text : Bytes) (c s : Bool) (ws : List Wake) (r' : TokenRing)
    → IsValid r
    → SomeRelief ws
    → Ring.write r text c s ws ≢ blocked r'
write_returns r text c s ws r' v relief e =
    queue_write_relieved (contents r) text c s ws (contents r') (omega (arith, length-contents r))
      relief (sym (write_refines r text c s ws v) ∙ ap view e)

Fit-replicate : (n : ℕ) → Fit (replicate n [])
Fit-replicate zero = tt
Fit-replicate (suc n) = (omega arith, Fit-replicate n)

-- `ring_init` gives a valid ring.
pub init-IsValid : IsValid Ring.init
unfolding Ring.init
init-IsValid = record {
  slots_of = length-replicate {A = Bytes} 256 [];
  head_in = omega arith;
  tail_in = omega arith;
  fits = Fit-replicate 256;
}
