-- ===== src/Ring/Script.antt =====
-- Sequences of critical sections on one ring, in the order in which its mutex is taken: the writer's
-- `ring_write`, and the event loop's `ring_read` and batch drain.
use professor_ai.Prelude.{
  ℕ, zero, suc, ◌-◌, ◌≡◌, refl, ap, ap₂, ◌∙◌, inl, inr, List, [], ◌∷◌, Bool, true, false, not, ◌&&◌,
  ◌||◌, Option, none, some, arith, get_or, take, drop, if◌then◌else◌, Bool-cases,
}
use professor_ai.Prelude.Bytes.{Bytes, take_all}
use professor_ai.Ring
use professor_ai.Ring.{
  TokenRing, Wake, Written, accepted, refused, blocked, clip, store, advance_by, finish_write,
  is_full, is_empty, drain_batch, read,
}
use professor_ai.Ring.Window.{IsValid, contents, Fit-get_or}
use professor_ai.Ring.Fifo.{
  Outcome, stored, dropped, waiting, queue_write, view, clip-eq-take, store-IsValid, moved,
  moved-IsValid, contents-moved, contents-empty, advance_by-IsValid, write_refines,
}

pub data Op : Type 0 where
  put : Bytes → Bool → Bool → List Wake → Op
  get : ℕ → Op
  drain : ℕ → Op

pub data Reply : Type 0 where
  put_ok put_stopped put_blocked nothing : Reply
  got : Bytes → Reply
  batch : List Bytes → Reply

-- The queue's side.
unfoldable pub queue_take : ℕ → List Bytes → List Bytes × Reply
queue_take out_len [] = ([], nothing)
queue_take out_len (x ∷ q) = (q, got (take (out_len - 1) x))

abbrev outcome_reply : Outcome → List Bytes × Reply
outcome_reply (stored q) = (q, put_ok)
outcome_reply (dropped q) = (q, put_stopped)
outcome_reply (waiting q) = (q, put_blocked)

unfoldable pub queue_step : List Bytes → Op → List Bytes × Reply
unfolding queue_take queue_write
queue_step q (put text c s ws) = outcome_reply (queue_write q text c s ws)
queue_step q (get out_len) = queue_take out_len q
queue_step q (drain n) = (drop n q, batch (take n q))

unfoldable pub queue_run : List Bytes → List Op → List Reply
unfolding queue_step
queue_run q [] = []
queue_run q (op ∷ ops) = let (q', reply) = queue_step q op in reply ∷ queue_run q' ops

-- The ring's side.
abbrev pub ring_of : Written → TokenRing × Reply
ring_of (accepted r) = (r, put_ok)
ring_of (refused r) = (r, put_stopped)
ring_of (blocked r) = (r, put_blocked)

abbrev read_reply : Option Bytes → Reply
read_reply none = nothing
read_reply (some t) = got t

unfoldable pub step : TokenRing → Op → TokenRing × Reply
unfolding Ring.write read drain_batch
step r (put text c s ws) = ring_of (Ring.write r text c s ws)
step r (get out_len) = let (r', out) = read r out_len in (r', read_reply out)
step r (drain n) = let (r', ts) = drain_batch n r in (r', batch ts)

unfoldable pub run : TokenRing → List Op → List Reply
unfolding step
run r [] = []
run r (op ∷ ops) = let (r', reply) = step r op in reply ∷ run r' ops

abbrev pub ring_after : Written → TokenRing
ring_after w = (ring_of w).0

finish-IsValid :
    (r : TokenRing) (text : Bytes) (stop : Bool)
    → IsValid r
    → IsValid (ring_after (finish_write r text stop))
unfolding finish_write
finish-IsValid r text true v = v
finish-IsValid r text false v = store-IsValid r text v

choose-IsValid :
    (b : Bool) (x y : Written)
    → IsValid (ring_after x)
    → IsValid (ring_after y)
    → IsValid (ring_after (if b then x else y))
choose-IsValid true x y vx vy = vx
choose-IsValid false x y vx vy = vy

-- A write keeps the invariant, however long it waits and however it ends.
pub write-IsValid :
    (r : TokenRing) (text : Bytes) (c s : Bool) (ws : List Wake)
    → IsValid r
    → IsValid (ring_after (Ring.write r text c s ws))
unfolding Ring.write
write-IsValid r text c s [] v =
    choose-IsValid (is_full r && not c && not s) (blocked r) (finish_write r text (c || s)) v
      (finish-IsValid r text (c || s) v)
write-IsValid r text c s (w ∷ ws) v =
    choose-IsValid (is_full r && not c && not s)
      (Ring.write (advance_by w.taken r) text w.cancel w.shutdown ws) (finish_write r text (c || s))
      (write-IsValid (advance_by w.taken r) text w.cancel w.shutdown ws
        (advance_by-IsValid w.taken r v))
      (finish-IsValid r text (c || s) v)

pub drain-IsValid : (n : ℕ) (r : TokenRing) → IsValid r → IsValid (drain_batch n r).0
unfolding drain_batch
drain-IsValid zero r v = v
drain-IsValid (suc n) r v = ground (arith, drain-IsValid n (moved r) (moved-IsValid r v))

read-IsValid : (r : TokenRing) (n : ℕ) → IsValid r → IsValid (read r n).0
unfolding read
read-IsValid r n v = ground (arith, moved-IsValid r v)

pub step-IsValid : (r : TokenRing) (op : Op) → IsValid r → IsValid (step r op).0
unfolding step
step-IsValid r (put text c s ws) v = write-IsValid r text c s ws v
step-IsValid r (get n) v = read-IsValid r n v
step-IsValid r (drain n) v = drain-IsValid n r v

clip-slot : (r : TokenRing) (i : ℕ) → IsValid r → clip (get_or r.text i []) ≡ get_or r.text i []
clip-slot r i v =
    clip-eq-take (get_or r.text i [])
    ∙ take_all 127 (get_or r.text i []) (omega (arith, Fit-get_or r.text i v.fits))

-- One batch takes the oldest tokens off the queue, unchanged and in order.
pub drain_refines :
    (n : ℕ) (r : TokenRing)
    → IsValid r
    → (contents (drain_batch n r).0 ≡ drop n (contents r))
      × ((drain_batch n r).1 ≡ take n (contents r))
unfolding drain_batch
drain_refines zero r v = (refl, refl)
drain_refines (suc n) r v = elim (Bool-cases (is_empty r)) [
  | inl h ↦ rw (h, contents-empty r v h) (refl, refl)
  | inr h ↦
      let ih = drain_refines n (moved r) (moved-IsValid r v) in
      rw (h, contents-moved r v h) (ih.0, ap₂ ◌∷◌ (clip-slot r r.tail v) ih.1)
]

read_refines :
    (r : TokenRing) (n : ℕ)
    → IsValid r
    → (contents (read r n).0 ≡ (queue_take n (contents r)).0)
      × (read_reply (read r n).1 ≡ (queue_take n (contents r)).1)
unfolding read queue_take
read_refines r n v = elim (Bool-cases (is_empty r)) [
  | inl h ↦ rw (h, contents-empty r v h) (refl, refl)
  | inr h ↦ rw (h, contents-moved r v h) (refl, refl)
]

view-reply :
    (w : Written)
    → (contents (ring_of w).0 ≡ (outcome_reply (view w)).0)
      × ((ring_of w).1 ≡ (outcome_reply (view w)).1)
view-reply (accepted r) = (refl, refl)
view-reply (refused r) = (refl, refl)
view-reply (blocked r) = (refl, refl)

pub step_refines :
    (r : TokenRing) (op : Op)
    → IsValid r
    → (contents (step r op).0 ≡ (queue_step (contents r) op).0)
      × ((step r op).1 ≡ (queue_step (contents r) op).1)
unfolding step queue_step
step_refines r (put text c s ws) v =
    rw (← write_refines r text c s ws v) (view-reply (Ring.write r text c s ws))
step_refines r (get n) v = read_refines r n v
step_refines r (drain n) v = let d = drain_refines n r v in (d.0, ap batch d.1)

-- No sequence of critical sections tells a valid ring from the queue of the tokens that it holds:
-- every call returns what the queue's call returns.
pub run_refines :
    (ops : List Op) (r : TokenRing) → IsValid r → run r ops ≡ queue_run (contents r) ops
unfolding run queue_run
run_refines [] r v = refl
run_refines (op ∷ ops) r v =
    let e = step_refines r op v in
    ap₂ ◌∷◌ e.1
      (run_refines ops (step r op).0 (step-IsValid r op v) ∙ ap (λ q. queue_run q ops) e.0)
