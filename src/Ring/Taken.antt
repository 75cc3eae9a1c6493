-- ===== src/Ring/Taken.antt =====
-- src/worker.c and src/server.c: what the reader takes off the ring while a write waits for room.
use professor_ai.Prelude.{
  ℕ, ◌≡◌, refl, sym, ap, ◌∙◌, inl, inr, Bool, true, false, not, ◌&&◌, ◌||◌, List, [], ◌∷◌, ◌++◌,
  take, if◌then◌else◌, arith, take-append-drop, append_assoc, Bool-cases,
}
use professor_ai.Prelude.Bytes.{Bytes}
use professor_ai.Ring
use professor_ai.Ring.{
  TokenRing, Wake, Written, accepted, refused, blocked, is_full, finish_write, store, drain_batch,
  advance_by,
}
use professor_ai.Ring.Window.{IsValid, contents}
use professor_ai.Ring.Fifo.{contents-store, advance_by-IsValid, contents-advance_by}
use professor_ai.Ring.Script.{drain_refines}

-- What `drain_batch` gives to the reader at each wake-up of a write that waits.
unfoldable pub taken_while : TokenRing → Bool → Bool → List Wake → List Bytes
unfolding is_full drain_batch
taken_while r cancel shutdown [] = []
taken_while r cancel shutdown (w ∷ ws) =
    let rest = taken_while (advance_by w.taken r) w.cancel w.shutdown ws in
    if is_full r && not cancel && not shutdown then (drain_batch w.taken r).1 ++ rest else []

-- With what the reader has taken, the ring holds what it held, and the text where it was accepted.
abbrev pub Follows : List Bytes → Bytes → List Bytes → Written → Type 0
Follows q text taken (accepted r) = taken ++ contents r ≡ q ++ take 127 text ∷ []
Follows q text taken (refused r) = taken ++ contents r ≡ q
Follows q text taken (blocked r) = taken ++ contents r ≡ q

-- What was taken before counts as well.
pub earlier-Follows :
    (q before after : List Bytes) (text : Bytes) (taken : List Bytes) (w : Written)
    → before ++ after ≡ q
    → Follows after text taken w
    → Follows q text (before ++ taken) w
earlier-Follows q before after text taken (accepted r) e f =
    append_assoc before taken (contents r)
    ∙ ap (λ x. before ++ x) f
    ∙ sym (append_assoc before after (take 127 text ∷ []))
    ∙ ap (λ x. x ++ take 127 text ∷ []) e
earlier-Follows q before after text taken (refused r) e f =
    append_assoc before taken (contents r) ∙ ap (λ x. before ++ x) f ∙ e
earlier-Follows q before after text taken (blocked r) e f =
    append_assoc before taken (contents r) ∙ ap (λ x. before ++ x) f ∙ e

finish_write-Follows :
    (r : TokenRing) (text : Bytes) (c s : Bool)
    → IsValid r
    → (is_full r && not c && not s) ≡ false
    → Follows (contents r) text [] (finish_write r text (c || s))
unfolding finish_write
finish_write-Follows r text true s v h = refl
finish_write-Follows r text false true v h = refl
finish_write-Follows r text false false v h = contents-store r text v (ground arith)

-- A reader's batch comes off the front.
pub drain_batch-front :
    (n : ℕ) (r : TokenRing)
    → IsValid r
    → (drain_batch n r).1 ++ contents (advance_by n r) ≡ contents r
drain_batch-front n r v =
    rw ((drain_refines n r v).1, contents-advance_by n r v) (take-append-drop n (contents r))

-- A write on a valid ring.
pub write-Follows :
    (r : TokenRing) (text : Bytes) (c s : Bool) (ws : List Wake)
    → IsValid r
    → Follows (contents r) text (taken_while r c s ws) (Ring.write r text c s ws)
unfolding Ring.write taken_while
write-Follows r text c s [] v = elim (Bool-cases (is_full r && not c && not s)) [
  | inl h ↦ rw h refl
  | inr h ↦ rw h (finish_write-Follows r text c s v h)
]
write-Follows r text c s (w ∷ ws) v = elim (Bool-cases (is_full r && not c && not s)) [
  | inl h ↦
      let later = advance_by w.taken r in
      rw h (
        earlier-Follows (contents r) (drain_batch w.taken r).1 (contents later) text
          (taken_while later w.cancel w.shutdown ws) (Ring.write later text w.cancel w.shutdown ws)
          (drain_batch-front w.taken r v)
          (write-Follows later text w.cancel w.shutdown ws (advance_by-IsValid w.taken r v)))
  | inr h ↦ rw h (finish_write-Follows r text c s v h)
]
