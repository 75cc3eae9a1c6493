-- ===== src/Ring/Fifo.antt =====
-- The ring as a FIFO of at most 255 tokens: every operation of the ring does to `contents` what the
-- queue's operation of the same name does.
use professor_ai.Prelude.{
  ℕ, zero, suc, ◌+◌, ◌-◌, ◌%◌, ◌≤◌, ◌<◌, ◌≡◌, refl, ap, ◌∙◌, sym, inl, inr, List, [], ◌∷◌, ◌++◌,
  Bool, true, false, not, ◌&&◌, ◌||◌, arith, length, get_or, take, drop, length-set, length-take,
  if◌then◌else◌, ◌==◌, leb, Bool-cases,
}
use professor_ai.Prelude.Bytes.{Bytes, take_all}
use professor_ai.Ring
use professor_ai.Ring.{
  TokenRing, Wake, Written, accepted, refused, blocked, clip, store, advance, advance_by,
  finish_write, is_full, is_empty, drain_batch,
}
use professor_ai.Ring.Window.{
  IsValid, contents, count, slots, length-slots, slots-set, slots_of_pos, Fit-set, is_full-count,
  not_full-count, is_empty-count, not_empty-count,
}

-- What the queue makes of a write.
pub data Outcome : Type 0 where
  stored : List Bytes → Outcome
  dropped : List Bytes → Outcome
  waiting : List Bytes → Outcome

-- A bounded queue's write, with the wake-ups of a writer that finds it full.
unfoldable pub queue_write : List Bytes → Bytes → Bool → Bool → List Wake → Outcome
queue_write q text cancel shutdown [] =
    if cancel || shutdown
    then dropped q
    else if length q == 255
    then waiting q
    else stored (q ++ take 127 text ∷ [])
queue_write q text cancel shutdown (w ∷ ws) =
    let rest = queue_write (drop w.taken q) text w.cancel w.shutdown ws in
    if cancel || shutdown
    then dropped q
    else if length q == 255
    then rest
    else stored (q ++ take 127 text ∷ [])

abbrev pub view : Written → Outcome
view (accepted r) = stored (contents r)
view (refused r) = dropped (contents r)
view (blocked r) = waiting (contents r)

pub clip-eq-take : (text : Bytes) → clip text ≡ take 127 text
clip-eq-take text = elim (Bool-cases (leb 128 (length text))) [
  | inl h ↦ rw h
  | inr h ↦
      let short : length text ≤ 127 = ground arith in
      rw h (take_all (length text) text (omega arith) ∙ sym (take_all 127 text short))
]

pub length-clip : (text : Bytes) → length (clip text) < 128
length-clip text = omega (arith, ap length (clip-eq-take text), length-take {0} 127 text)

pub length-contents : (r : TokenRing) → length (contents r) ≡ count r
length-contents r = length-slots r.text r.tail (count r)

pub store-IsValid : (r : TokenRing) (text : Bytes) → IsValid r → IsValid (store r text)
unfolding store
store-IsValid r text v = record {
  slots_of = length-set r.text r.head (clip text) ∙ v.slots_of;
  head_in = omega arith;
  tail_in = v.tail_in;
  fits = Fit-set r.text r.head (clip text) v.fits (length-clip text);
}

-- The store at `head` appends the clipped text.
pub contents-store :
    (r : TokenRing) (text : Bytes)
    → IsValid r
    → is_full r ≡ false
    → contents (store r text) ≡ contents r ++ take 127 text ∷ []
unfolding store
contents-store r text v h =
    let room = not_full-count r v h in
    let grown : ((r.head + 1) % 256 + 256 - r.tail) % 256 ≡ suc (count r) = omega arith in
    rw (
      grown,
      slots-set r.text (clip text) (count r) r.tail r.head v.slots_of v.tail_in (omega arith)
          (omega arith),
      clip-eq-take text,
    )

-- The ring after one token is taken.
abbrev pub moved : TokenRing → TokenRing
moved r = record r { tail = (r.tail + 1) % 256 }

pub moved-IsValid : (r : TokenRing) → IsValid r → IsValid (moved r)
moved-IsValid r v = record {
  slots_of = v.slots_of;
  head_in = v.head_in;
  tail_in = omega arith;
  fits = v.fits;
}

pub contents-moved :
    (r : TokenRing)
    → IsValid r
    → is_empty r ≡ false
    → contents r ≡ get_or r.text r.tail [] ∷ contents (moved r)
contents-moved r v h =
    let some_left = not_empty-count r v h in
    let less : count r - 1 ≡ count (moved r) = omega arith in
    slots_of_pos r.text r.tail (count r) some_left
    ∙ ap (λ n. get_or r.text r.tail [] ∷ slots r.text ((r.tail + 1) % 256) n) less

pub contents-empty : (r : TokenRing) → IsValid r → is_empty r ≡ true → contents r ≡ []
contents-empty r v h = ap (slots r.text r.tail) (is_empty-count r v h)

pub advance-IsValid : (r : TokenRing) → IsValid r → IsValid (advance r)
unfolding advance
advance-IsValid r v = ground (arith, moved-IsValid r v)

pub contents-advance : (r : TokenRing) → IsValid r → contents (advance r) ≡ drop 1 (contents r)
unfolding advance
contents-advance r v = elim (Bool-cases (is_empty r)) [
  | inl h ↦ rw (h, contents-empty r v h)
  | inr h ↦ rw (h, contents-moved r v h)
]

drop-one : (n : ℕ) (q : List Bytes) → drop n (drop 1 q) ≡ drop (suc n) q
drop-one zero [] = refl
drop-one (suc n) [] = refl
drop-one n (x ∷ q) = refl

pub advance_by-IsValid : (n : ℕ) (r : TokenRing) → IsValid r → IsValid (advance_by n r)
unfolding advance_by
advance_by-IsValid zero r v = v
advance_by-IsValid (suc n) r v = advance_by-IsValid n (advance r) (advance-IsValid r v)

pub contents-advance_by :
    (n : ℕ) (r : TokenRing) → IsValid r → contents (advance_by n r) ≡ drop n (contents r)
unfolding advance_by
contents-advance_by zero r v = refl
contents-advance_by (suc n) r v =
    contents-advance_by n (advance r) (advance-IsValid r v)
    ∙ ap (drop n) (contents-advance r v)
    ∙ drop-one n (contents r)

-- The code's test for a full ring is the queue's.
pub is_full-eq : (r : TokenRing) → IsValid r → is_full r ≡ (length (contents r) == 255)
is_full-eq r v = elim (Bool-cases (is_full r)) [
  | inl h ↦ rw h (ground (arith, length-contents r, is_full-count r v h))
  | inr h ↦ rw h (ground (arith, length-contents r, not_full-count r v h))
]

-- One round of the wait loop, where `x` is what the code goes on to and `y` the queue.
round-eq :
    (r : TokenRing) (text : Bytes) (cancel shutdown : Bool) (x : Written) (y : Outcome)
    → IsValid r
    → view x ≡ y
    → view (
        if is_full r && not cancel && not shutdown
        then x
        else finish_write r text (cancel || shutdown))
      ≡ (if cancel || shutdown
          then dropped (contents r)
          else if length (contents r) == 255
          then y
          else stored (contents r ++ take 127 text ∷ []))
unfolding finish_write
round-eq r text true shutdown x y v e = elim (Bool-cases (is_full r)) [
  | inl h ↦ rw h refl
  | inr h ↦ rw h refl
]
round-eq r text false true x y v e = elim (Bool-cases (is_full r)) [
  | inl h ↦ rw h refl
  | inr h ↦ rw h refl
]
round-eq r text false false x y v e = elim (Bool-cases (is_full r)) [
  | inl h ↦ rw (h, sym (is_full-eq r v) ∙ h) e
  | inr h ↦ rw (h, sym (is_full-eq r v) ∙ h) (ap stored (contents-store r text v h))
]

-- Whatever the writer meets while it waits, the ring does what the queue does.
pub write_refines :
    (r : TokenRing) (text : Bytes) (cancel shutdown : Bool) (ws : List Wake)
    → IsValid r
    → view (Ring.write r text cancel shutdown ws) ≡ queue_write (contents r) text cancel shutdown ws
unfolding Ring.write queue_write
write_refines r text cancel shutdown [] v =
    round-eq r text cancel shutdown (blocked r) (waiting (contents r)) v refl
write_refines r text cancel shutdown (w ∷ ws) v = round-eq r text cancel shutdown _ _ v (
    write_refines (advance_by w.taken r) text w.cancel w.shutdown ws
      (advance_by-IsValid w.taken r v)
    ∙ ap (λ q. queue_write q text w.cancel w.shutdown ws) (contents-advance_by w.taken r v))
