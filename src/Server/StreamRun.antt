-- ===== src/Server/StreamRun.antt =====
-- A whole stream of src/server.c, over its wake-ups.
use professor_ai.Prelude.{
  ◌≡◌, ap, sym, ◌∙◌, inl, inr, Bool, true, List, [], ◌∷◌, ◌++◌, arith, append_assoc, append-nil,
  Bool-cases,
}
use professor_ai.Prelude.Bytes.{Bytes}
use professor_ai.Ring.{TokenRing, is_empty}
use professor_ai.Ring.Window.{IsValid, contents}
use professor_ai.Ring.Fifo.{contents-empty}
use professor_ai.Worker.Protocol.{JobState, is_busy_state}
use professor_ai.Server.Stream.{
  put_all, drain_loop, mark, Wakeup, Streamed, join_wakeup, stream_run, stream_ends,
}
use professor_ai.Server.StreamLaws.{
  put_all-IsValid, contents-put_all, drain_loop-IsValid, drain_loop-ordered,
}

-- The mark changes neither the indices nor the texts.
mark-IsValid : (b : Bool) (r : TokenRing) → IsValid r → IsValid (mark b r)
mark-IsValid b r v = record {
  slots_of = v.slots_of;
  head_in = v.head_in;
  tail_in = v.tail_in;
  fits = v.fits;
}

abbrev IsOrdered : List Bytes → Streamed → Type 0
IsOrdered old s = old ++ s.stored ≡ s.sent ++ contents s.ring

join_wakeup-IsOrdered :
    (old stored sent : List Bytes) (r : TokenRing) (state : JobState) (rest : Streamed)
    → old ++ stored ≡ sent ++ contents r
    → IsOrdered (contents r) rest
    → IsOrdered old (join_wakeup r stored sent state rest)
unfolding join_wakeup
join_wakeup-IsOrdered old stored sent r state rest now later =
    elim (Bool-cases (stream_ends r state)) [
      | inl over ↦ rw over now
      | inr goes_on ↦ rw goes_on (
          sym (append_assoc old stored rest.stored)
          ∙ ap (λ x. x ++ rest.stored) now
          ∙ append_assoc sent (contents r) rest.stored
          ∙ ap (λ x. sent ++ x) later
          ∙ sym (append_assoc sent rest.sent (contents rest.ring)))
    ]

wakeup-ordered :
    (w : Wakeup) (r : TokenRing)
    → IsValid r
    → contents r ++ ((drain_loop w.gaps r).stored ++ (put_all w.late (drain_loop w.gaps r).ring).1)
      ≡ (drain_loop w.gaps r).sent ++ contents (put_all w.late (drain_loop w.gaps r).ring).0
wakeup-ordered w r v =
    let d = drain_loop w.gaps r in
    let late = put_all w.late d.ring in
    sym (append_assoc (contents r) d.stored late.1)
    ∙ ap (λ x. x ++ late.1) (drain_loop-ordered w.gaps r v)
    ∙ append_assoc d.sent (contents d.ring) late.1
    ∙ ap (λ x. d.sent ++ x) (sym (contents-put_all w.late d.ring (drain_loop-IsValid w.gaps r v)))

wakeup-IsValid :
    (w : Wakeup) (r : TokenRing)
    → IsValid r
    → IsValid (mark w.marks (put_all w.late (drain_loop w.gaps r).ring).0)
wakeup-IsValid w r v =
    let d = drain_loop w.gaps r in
    mark-IsValid w.marks (put_all w.late d.ring).0
      (put_all-IsValid w.late d.ring (drain_loop-IsValid w.gaps r v))

stream_run-IsOrdered :
    (ws : List Wakeup) (r : TokenRing) → IsValid r → IsOrdered (contents r) (stream_run ws r)
unfolding stream_run
stream_run-IsOrdered [] r v = append-nil (contents r)
stream_run-IsOrdered (w ∷ ws) r v =
    let d = drain_loop w.gaps r in
    let late = put_all w.late d.ring in
    let marked = mark w.marks late.0 in
    join_wakeup-IsOrdered (contents r) (d.stored ++ late.1) d.sent marked w.state
      (stream_run ws marked) (wakeup-ordered w r v)
      (stream_run-IsOrdered ws marked (wakeup-IsValid w r v))

stream_ends-empty :
    (r : TokenRing) (state : JobState)
    → is_busy_state state ≡ true
    → stream_ends r state ≡ true
    → is_empty r ≡ true
unfolding stream_ends
stream_ends-empty r state busy ends = ground arith

join_wakeup-empty :
    (r : TokenRing) (stored sent : List Bytes) (state : JobState) (rest : Streamed)
    → (rest.ended ≡ true → is_busy_state rest.state ≡ true → is_empty rest.ring ≡ true)
    → (join_wakeup r stored sent state rest).ended ≡ true
    → is_busy_state (join_wakeup r stored sent state rest).state ≡ true
    → is_empty (join_wakeup r stored sent state rest).ring ≡ true
unfolding join_wakeup
join_wakeup-empty r stored sent state rest later = elim (Bool-cases (stream_ends r state)) [
  | inl over ↦ rw over (λ h busy. stream_ends-empty r state busy over)
  | inr goes_on ↦ rw goes_on later
]

stream_run-empty :
    (ws : List Wakeup) (r : TokenRing)
    → (stream_run ws r).ended ≡ true
    → is_busy_state (stream_run ws r).state ≡ true
    → is_empty (stream_run ws r).ring ≡ true
unfolding stream_run
stream_run-empty [] r over busy = ground arith
stream_run-empty (w ∷ ws) r over busy =
    let d = drain_loop w.gaps r in
    let late = put_all w.late d.ring in
    let marked = mark w.marks late.0 in
    join_wakeup-empty marked (d.stored ++ late.1) d.sent w.state (stream_run ws marked)
      (stream_run-empty ws marked) over busy

stream_run-IsValid : (ws : List Wakeup) (r : TokenRing) → IsValid r → IsValid (stream_run ws r).ring
unfolding stream_run join_wakeup
stream_run-IsValid [] r v = v
stream_run-IsValid (w ∷ ws) r v =
    let marked = mark w.marks (put_all w.late (drain_loop w.gaps r).ring).0 in
    let v' = wakeup-IsValid w r v in
    let rest = stream_run-IsValid ws marked v' in
    elim (Bool-cases (stream_ends marked w.state)) [
      | inl over ↦ rw over v'
      | inr goes_on ↦ rw goes_on rest
    ]

-- A stream that ends while the job is not yet stored as finished, that is because its ring is done and
-- empty, has sent every token that was in the ring or that the worker has stored, in order, over however
-- many wake-ups and whatever the worker writes between the steps of the event loop.
pub stream_run_complete :
    (ws : List Wakeup) (r : TokenRing)
    → IsValid r
    → (stream_run ws r).ended ≡ true
    → is_busy_state (stream_run ws r).state ≡ true
    → (stream_run ws r).sent ≡ contents r ++ (stream_run ws r).stored
stream_run_complete ws r v over busy =
    let s = stream_run ws r in
    let left =
      contents-empty s.ring (stream_run-IsValid ws r v) (stream_run-empty ws r over busy) in
    sym (stream_run-IsOrdered ws r v ∙ ap (λ x. s.sent ++ x) left ∙ append-nil s.sent)
