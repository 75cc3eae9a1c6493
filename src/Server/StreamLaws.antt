-- ===== src/Server/StreamLaws.antt =====
-- The streaming loop of `drain_stream_ring` in src/server.c, against the contents of the ring.
use professor_ai.Prelude.{
  ℕ, zero, suc, ◌-◌, ◌*◌, ◌≤◌, ◌<◌, ◌≡◌, refl, ap, ap₂, sym, ◌∙◌, ltb, ◌⊎◌, inl, inr, true, false,
  List, [], ◌∷◌, ◌++◌, ◌==◌, arith, length, take, drop, take-append-drop, length-take, length-drop,
  append_assoc, append-nil, Bool-cases, replicate,
}
use professor_ai.Prelude.Bytes.{Bytes}
use professor_ai.Ring.{TokenRing, is_full, store, drain_batch, clip}
use professor_ai.Ring.Window.{IsValid, contents, is_full-count}
use professor_ai.Ring.Fifo.{length-contents, clip-eq-take, store-IsValid, contents-store}
use professor_ai.Ring.Script.{drain-IsValid, drain_refines}
use professor_ai.Worker.Protocol.{done, is_busy_state}
use professor_ai.Server.Stream.{put_all, Drained, join_round, drain_loop, stream_ends}

pub put_all-IsValid : (ts : List Bytes) (r : TokenRing) → IsValid r → IsValid (put_all ts r).0
unfolding put_all
put_all-IsValid [] r v = v
put_all-IsValid (t ∷ ts) r v = ground (arith, put_all-IsValid ts (store r t) (store-IsValid r t v))

-- What is stored stands behind what was there.
pub contents-put_all :
    (ts : List Bytes) (r : TokenRing)
    → IsValid r
    → contents (put_all ts r).0 ≡ contents r ++ (put_all ts r).1
unfolding put_all
contents-put_all [] r v = sym (append-nil (contents r))
contents-put_all (t ∷ ts) r v = elim (Bool-cases (is_full r)) [
  | inl full ↦ rw full (sym (append-nil (contents r)))
  | inr room ↦
      let ih = contents-put_all ts (store r t) (store-IsValid r t v) in
      let one = contents-store r t v room ∙ ap (λ c. contents r ++ c ∷ []) (sym (clip-eq-take t)) in
      let all = append_assoc (contents r) (clip t ∷ []) (put_all ts (store r t)).1 in
      rw room (ih ∙ ap (λ c. c ++ (put_all ts (store r t)).1) one ∙ all)
]

drain-split :
    (n : ℕ) (r : TokenRing)
    → IsValid r
    → (drain_batch n r).1 ++ contents (drain_batch n r).0 ≡ contents r
drain-split n r v =
    let (left, taken) = drain_refines n r v in ap₂ ◌++◌ taken left ∙ take-append-drop n (contents r)

-- One round, whatever the rest is.
join_round-ordered :
    (old stored batch : List Bytes) (after : TokenRing) (rest : Drained)
    → old ++ stored ≡ batch ++ contents after
    → contents after ++ rest.stored ≡ rest.sent ++ contents rest.ring
    → old ++ (join_round after stored batch rest).stored
      ≡ (join_round after stored batch rest).sent
        ++ contents (join_round after stored batch rest).ring
unfolding join_round
join_round-ordered old stored batch after rest now later = elim (Bool-cases (length batch == 32)) [
  | inl full ↦ rw full (
      sym (append_assoc old stored rest.stored)
      ∙ ap (λ x. x ++ rest.stored) now
      ∙ append_assoc batch (contents after) rest.stored
      ∙ ap (λ x. batch ++ x) later
      ∙ sym (append_assoc batch rest.sent (contents rest.ring)))
  | inr less ↦ rw less now
]

pub drain_loop-IsValid :
    (gaps : List (List Bytes)) (r : TokenRing) → IsValid r → IsValid (drain_loop gaps r).ring
unfolding drain_loop join_round
drain_loop-IsValid [] r v = v
drain_loop-IsValid (ts ∷ gaps) r v =
    let put = put_all ts r in
    let cut = drain_batch 32 put.0 in
    let v' = drain-IsValid 32 put.0 (put_all-IsValid ts r v) in
    let rest = drain_loop-IsValid gaps cut.0 v' in
    elim (Bool-cases (length cut.1 == 32)) [ inl full ↦ rw full rest | inr less ↦ rw less v' ]

-- However the worker writes in between, the tokens that were in the ring and those that the worker
-- stores are, in this order, those that are sent and then those that are still in the ring: none is
-- lost, doubled or moved.
pub drain_loop-ordered :
    (gaps : List (List Bytes)) (r : TokenRing)
    → IsValid r
    → contents r ++ (drain_loop gaps r).stored
      ≡ (drain_loop gaps r).sent ++ contents (drain_loop gaps r).ring
unfolding drain_loop
drain_loop-ordered [] r v = append-nil (contents r)
drain_loop-ordered (ts ∷ gaps) r v =
    let put = put_all ts r in
    let cut = drain_batch 32 put.0 in
    let v' = put_all-IsValid ts r v in
    let now = sym (contents-put_all ts r v) ∙ sym (drain-split 32 put.0 v') in
    join_round-ordered (contents r) put.1 cut.1 cut.0 (drain_loop gaps cut.0) now
      (drain_loop-ordered gaps cut.0 (drain-IsValid 32 put.0 v'))

-- A worker that writes nothing.
abbrev pub quiet : ℕ → List (List Bytes)
quiet rounds = replicate rounds []

abbrev pub IsWhole : List Bytes → Drained → Type 0
IsWhole old d = (d.sent ≡ old) × (contents d.ring ≡ []) × (d.ended ≡ true)

length_nil : (xs : List Bytes) → length xs ≤ 0 → xs ≡ []
length_nil [] h = refl
length_nil (x ∷ xs) h = ground arith

join_round-IsWhole :
    (old : List Bytes) (after : TokenRing) (rest : Drained)
    → contents after ≡ drop 32 old
    → (length old < 32) ⊎ ((32 ≤ length old) × IsWhole (contents after) rest)
    → IsWhole old (join_round after [] (take 32 old) rest)
unfolding join_round
join_round-IsWhole old after rest left (inl few) =
    let short : (length (take 32 old) == 32) ≡ false = ground (arith, length-take 32 old) in
    let none_left = length_nil (drop 32 old) (omega (arith, length-drop 32 old)) in
    let whole = ap (λ x. take 32 old ++ x) (sym none_left) ∙ take-append-drop 32 old in
    rw short (sym (append-nil (take 32 old)) ∙ whole, left ∙ none_left, refl)
join_round-IsWhole old after rest left (inr (many, (sent, empty, ended))) =
    let full : (length (take 32 old) == 32) ≡ true = ground (arith, length-take 32 old) in
    rw full (ap (λ x. take 32 old ++ x) (sent ∙ left) ∙ take-append-drop 32 old, empty, ended)

-- When the worker writes nothing in between, the loop ends after at most one round more than there are
-- full batches, with all tokens sent in order and the ring empty.
pub drain_loop-whole :
    (rounds : ℕ) (r : TokenRing)
    → IsValid r
    → length (contents r) < rounds * 32
    → ((drain_loop (quiet rounds) r).sent ≡ contents r)
      × (contents (drain_loop (quiet rounds) r).ring ≡ [])
      × ((drain_loop (quiet rounds) r).ended ≡ true)
unfolding drain_loop put_all
drain_loop-whole zero r v few = ground arith
drain_loop-whole (suc rounds) r v few =
    let (left, taken) = drain_refines 32 r v in
    let after = (drain_batch 32 r).0 in
    let fewer : length (contents after) ≡ length (contents r) - 32 =
      ap length left ∙ length-drop 32 (contents r) in
    let rest = drain_loop (quiet rounds) after in
    let next : (length (contents r) < 32)
        ⊎ ((32 ≤ length (contents r)) × IsWhole (contents after) rest) =
      elim (Bool-cases (ltb (length (contents r)) 32)) [
        | inl h ↦ inl (ground arith)
        | inr h ↦
            inr (ground arith, drain_loop-whole rounds after (drain-IsValid 32 r v) (ground arith))
      ] in
    rw taken (join_round-IsWhole (contents r) after rest left next)

-- An empty ring takes a text.
put_one :
    (r : TokenRing) (text : Bytes)
    → IsValid r
    → contents r ≡ []
    → contents (put_all (text ∷ []) r).0 ≡ take 127 text ∷ []
unfolding put_all
put_one r text v empty = elim (Bool-cases (is_full r)) [
  | inl full ↦ ground (arith, is_full-count r v full, length-contents r, ap length empty)
  | inr room ↦ rw room (contents-store r text v room ∙ ap (λ c. c ++ take 127 text ∷ []) empty)
]

stream_ends-done : (r : TokenRing) → stream_ends r done ≡ true
unfolding stream_ends is_busy_state
stream_ends-done r = ground arith

-- The test for the end asks for an empty ring only where the ring is marked as done: after a loop that
-- left the ring empty, a token that the worker writes before it stores the final state ends up in a
-- ring that is given up with the job.
pub stream_ends_early :
    (gaps : List (List Bytes)) (r : TokenRing) (text : Bytes)
    → IsValid r
    → contents (drain_loop gaps r).ring ≡ []
    → (contents (put_all (text ∷ []) (drain_loop gaps r).ring).0 ≡ take 127 text ∷ [])
      × (stream_ends (put_all (text ∷ []) (drain_loop gaps r).ring).0 done ≡ true)
stream_ends_early gaps r text v empty =
    let d = drain_loop gaps r in
    (
      put_one d.ring text (drain_loop-IsValid gaps r v) empty,
      stream_ends-done (put_all (text ∷ []) d.ring).0,
    )
