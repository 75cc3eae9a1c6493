-- ===== src/Inference/ChatLaws.antt =====
-- src/inference.c: the ChatML prompt is never cut, and the limits on the prompt's size.
use professor_ai.Prelude.{
  ℕ, ◌+◌, ◌-◌, ◌%◌, ◌^◌, ◌≤◌, ◌<◌, ◌≡◌, refl, ap, sym, ◌∙◌, Bool, true, false, some, List, [], ◌∷◌,
  ◌++◌, if◌then◌else◌, ltb, ◌==◌, length, take, append_assoc, append-nil, length-append,
  length-take, arith, ◌⊎◌,
}
use professor_ai.Prelude.Int.{pos, pos_part, ◌≤ℤ◌}
use professor_ai.Config.Parse.{to_int32-pos}
use professor_ai.Prelude.Bytes.{Bytes, codes, take_all}
use professor_ai.Api.{ChatMessage}
use professor_ai.Inference.Generate.{context_overflow, backend_error}
use professor_ai.Inference.Chat.{
  messages_size, message_text, assistant_text, append_text, append_messages, build_chatml_prompt,
  prompt, refused, Template, render_chatml, render_fallback, render_template, render_prompt,
}

-- The conversation as ChatML, with the opening of the assistant's turn.
unfoldable pub chatml : List ChatMessage → Bytes
chatml [] = assistant_text
chatml (m ∷ ms) = message_text m ++ chatml ms

abbrev turns : List ChatMessage → Bytes
turns [] = []
turns (m ∷ ms) = message_text m ++ turns ms

chatml-eq : (ms : List ChatMessage) → chatml ms ≡ turns ms ++ assistant_text
unfolding chatml
chatml-eq [] = refl
chatml-eq (m ∷ ms) =
    ap (◌++◌ (message_text m)) (chatml-eq ms)
    ∙ sym (append_assoc (message_text m) (turns ms) assistant_text)

length-message_text :
    (m : ChatMessage) → length (message_text m) ≤ 27 + length m.role + length m.content
unfolding message_text
length-message_text m = omega (
  arith,
  length-append m.role (10 ∷ (m.content ++ (codes "<|im_end|>" ++ 10 ∷ []))),
  length-append m.content (codes "<|im_end|>" ++ 10 ∷ []),
)

length-assistant_text : length assistant_text ≡ 22
unfolding assistant_text
length-assistant_text = refl

-- A text that fits is appended whole.
append_text-fits :
    (needed : ℕ) (t piece : Bytes)
    → needed < 2 ^ 63
    → length t + length piece ≤ needed
    → append_text needed (record { text = t; pos = length t }) piece
      ≡ record { text = t ++ piece; pos = length (t ++ piece) }
unfolding append_text
append_text-fits needed t piece small fits =
    let room = (needed + 1 + 2 ^ 64 - length t) % 2 ^ 64 in
    let whole : length piece ≤ room - 1 = omega arith in
    rw (take_all (length t) t (omega arith), take_all (room - 1) piece whole, length-append t piece)

append_messages-fits :
    (needed : ℕ) (t : Bytes) (ms : List ChatMessage)
    → needed < 2 ^ 63
    → length t + messages_size ms ≤ needed
    → append_messages needed (record { text = t; pos = length t }) ms
      ≡ record { text = t ++ turns ms; pos = length (t ++ turns ms) }
unfolding append_messages messages_size
append_messages-fits needed t [] small fits = rw (append-nil t)
append_messages-fits needed t (m ∷ ms) small fits =
    let len = length-message_text m in
    let total = length-append t (message_text m) in
    rw (
      append_text-fits needed t (message_text m) small (omega arith),
      append_messages-fits needed (t ++ message_text m) ms small (omega arith),
      append_assoc t (message_text m) (turns ms),
    )

length-turns : (ms : List ChatMessage) → length (turns ms) ≤ messages_size ms
unfolding messages_size
length-turns [] = omega arith
length-turns (m ∷ ms) =
    omega (arith, length-append (message_text m) (turns ms), length-message_text m, length-turns ms)

-- If the allocation succeeds and the size stays below 2^31, `build_chatml_prompt` gives the whole
-- conversation and its length: the size computed in advance suffices, so no `snprintf` cuts a message.
pub build_chatml_prompt-whole :
    (ms : List ChatMessage)
    → messages_size ms + 24 < 2 ^ 31
    → build_chatml_prompt true ms ≡ some (chatml ms, pos (length (chatml ms)))
unfolding build_chatml_prompt
build_chatml_prompt-whole ms small =
    let needed = messages_size ms + 24 in
    rw (
      append_messages-fits needed [] ms (omega arith) (omega arith),
      append_text-fits needed (turns ms) assistant_text (omega arith)
          (omega (arith, length-turns ms, length-assistant_text)),
      chatml-eq ms,
      to_int32-pos (length (turns ms ++ assistant_text)) (
          omega (
            arith,
            length-append (turns ms) assistant_text,
            length-turns ms,
            length-assistant_text,
          )),
    )

length-chatml : (ms : List ChatMessage) → 0 < length (chatml ms)
length-chatml ms = omega (
  arith,
  ap length (chatml-eq ms),
  length-append (turns ms) assistant_text,
  length-assistant_text,
)

-- The two ChatML paths differ on a conversation of more than 256 KiB as ChatML, whose size stays below
-- 2^31 and for which memory can be allocated: a model without a template refuses it as a context
-- overflow, and a model whose template reports no positive size passes the whole text on.
pub render_prompt_unchecked :
    (t : Template) (ms : List ChatMessage)
    → messages_size ms + 24 < 2 ^ 31
    → t.size ms ≤ℤ pos 0
    → 262144 < length (chatml ms)
    → (render_prompt true true true t ms ≡ refused context_overflow)
      × (render_prompt false true true t ms ≡ prompt (chatml ms))
unfolding render_prompt render_chatml render_template render_fallback
render_prompt_unchecked t ms small fails long =
    let built = build_chatml_prompt-whole ms small in
    let left : render_chatml true ms ≡ refused context_overflow =
      rw (built, render_chatml) (ground arith) in
    let back : render_fallback true ms ≡ prompt (chatml ms) =
      rw (built, render_fallback) (ground arith) in
    (left, ground (arith, back))

take-le : (n : ℕ) (t : Bytes) → length (take n t) ≤ n
take-le n t = omega (arith, length-take {0} n t)

render_chatml_no_memory : (ms : List ChatMessage) → render_chatml false ms ≡ refused backend_error
unfolding render_chatml build_chatml_prompt
render_chatml_no_memory ms = refl

render_chatml-eq :
    (ms : List ChatMessage)
    → messages_size ms + 24 < 2 ^ 31
    → render_chatml true ms ≡ (
        if length (chatml ms) == 0
        then refused backend_error
        else if ltb 262144 (length (chatml ms))
        then refused context_overflow
        else prompt (chatml ms))
unfolding render_chatml
render_chatml-eq ms small = rw (build_chatml_prompt-whole ms small, render_chatml) (ground arith)

-- For a conversation whose size stays below 2^31, every prompt that is passed on by a model without a
-- template, or by one whose template reports a positive size, has at most 256 KiB.
pub render_prompt_checked :
    (use_chatml_fallback malloc_messages malloc_text : Bool) (t : Template) (ms : List ChatMessage)
    (text : Bytes)
    → messages_size ms + 24 < 2 ^ 31
    → (use_chatml_fallback ≡ true) ⊎ (pos 1 ≤ℤ t.size ms)
    → render_prompt use_chatml_fallback malloc_messages malloc_text t ms ≡ prompt text
    → length text ≤ 262144
unfolding render_prompt render_template
render_prompt_checked true mm false t ms text small how e = cc (render_chatml_no_memory ms)
render_prompt_checked true mm true t ms text small how e =
    let checked = render_chatml-eq ms small in ground (arith, checked)
render_prompt_checked false mm mt t ms text small how e =
    let cut = take-le (pos_part (t.render ms).0) (t.render ms).1 in ground (arith, cut)
