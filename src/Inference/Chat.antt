-- ===== src/Inference/Chat.antt =====
-- src/inference.c: `build_chatml_prompt`, and the rendering of the prompt in `inference_chat`. The
-- prompt then goes to `inference_complete`.
use professor_ai.Prelude.{
  ℕ, ◌+◌, ◌-◌, ◌%◌, ◌^◌, Bool, false, not, ◌||◌, Option, none, some, List, [], ◌∷◌, ◌++◌,
  if◌then◌else◌, ◌==◌, length, take,
}
use professor_ai.Prelude.Int.{ℤ, pos, negsuc, ltb_ℤ, pos_part}
use professor_ai.Prelude.Bytes.{Bytes, codes}
use professor_ai.Config.Parse.{to_int32}
use professor_ai.Api.{ChatMessage, max_prompt_bytes}
use professor_ai.Inference.Generate.{FinishReason, context_overflow, backend_error}

-- `needed`: the sizes that the code adds up.
unfoldable pub messages_size : List ChatMessage → ℕ
messages_size [] = 0
messages_size (m ∷ ms) = 13 + length m.role + 1 + length m.content + 12 + 1 + messages_size ms

abbrev newline : Bytes
newline = 10 ∷ []

-- "<|im_start|>%s\n%s<|im_end|>\n"
unfoldable pub message_text : ChatMessage → Bytes
message_text m =
    codes "<|im_start|>" ++ (m.role ++ (newline ++ (m.content ++ (codes "<|im_end|>" ++ newline))))

-- "<|im_start|>assistant\n"
unfoldable pub assistant_text : Bytes
assistant_text = codes "<|im_start|>assistant" ++ newline

-- The buffer up to the NUL, and `pos`.
pub record Buffer : Type 0 where
  pub text : Bytes
  pub pos : ℕ

-- `snprintf(buf + pos, needed + 1 - pos, …)` and `pos += w`; the size is a `size_t`.
unfoldable pub append_text : ℕ → Buffer → Bytes → Buffer
append_text needed b piece =
    let room = (needed + 1 + 2 ^ 64 - b.pos) % 2 ^ 64 in
    record { text = take b.pos b.text ++ take (room - 1) piece; pos = b.pos + length piece }

unfoldable pub append_messages : ℕ → Buffer → List ChatMessage → Buffer
append_messages needed b [] = b
append_messages needed b (m ∷ ms) =
    append_messages needed (append_text needed b (message_text m)) ms

-- `build_chatml_prompt`: the text and `*out_len`, an `int32_t`; `none` for NULL.
unfoldable pub build_chatml_prompt : Bool → List ChatMessage → Option (Bytes × ℤ)
unfolding to_int32
build_chatml_prompt malloc ms =
    let needed = messages_size ms + 24 in
    let filled = append_messages needed (record { text = []; pos = 0 }) ms in
    let last = append_text needed filled assistant_text in
    if malloc then some (last.text, to_int32 (pos last.pos)) else none

-- `flen == 0`
abbrev pub is_zero : ℤ → Bool
is_zero (pos n) = n == 0
is_zero (negsuc n) = false

pub data Rendered : Type 0 where
  prompt : Bytes → Rendered
  refused : FinishReason → Rendered

-- `llama_chat_apply_template`: `size` is its result with no buffer, `render` its result with one,
-- and the text.
pub record Template : Type 0 where
  pub size : List ChatMessage → ℤ
  pub render : List ChatMessage → ℤ × Bytes

-- The branch for a model without a template.
unfoldable pub render_chatml : Bool → List ChatMessage → Rendered
render_chatml malloc ms = elim (build_chatml_prompt malloc ms) [
  | none ↦ refused backend_error
  | some (text, len) ↦
      if is_zero len
      then refused backend_error
      else if ltb_ℤ (pos max_prompt_bytes) len
      then refused context_overflow
      else prompt text
]

-- Where the template's size is not positive: ChatML again.
unfoldable pub render_fallback : Bool → List ChatMessage → Rendered
render_fallback malloc ms = elim (build_chatml_prompt malloc ms) [
  | none ↦ refused backend_error
  | some (text, len) ↦ if is_zero len then refused backend_error else prompt text
]

-- The result of the second call: `actual <= 0 || actual > needed` is an error.
unfoldable pub check_render : ℤ → ℤ × Bytes → Rendered
check_render needed (actual, text) =
    if not (ltb_ℤ (pos 0) actual) || ltb_ℤ needed actual
    then refused backend_error
    else prompt (take (pos_part actual) text)

-- The branch for a model with a template.
unfoldable pub render_template : Bool → Bool → Template → List ChatMessage → Rendered
unfolding check_render
render_template malloc_messages malloc_text t ms =
    if not malloc_messages
    then refused backend_error
    else if not (ltb_ℤ (pos 0) (t.size ms))
    then render_fallback malloc_text ms
    else if ltb_ℤ (pos max_prompt_bytes) (t.size ms)
    then refused context_overflow
    else if not malloc_text
    then refused backend_error
    else check_render (t.size ms) (t.render ms)

-- `inference_chat` up to its call of `inference_complete`.
unfoldable pub render_prompt : Bool → Bool → Bool → Template → List ChatMessage → Rendered
render_prompt use_chatml_fallback malloc_messages malloc_text t ms =
    if use_chatml_fallback
    then render_chatml malloc_text ms
    else render_template malloc_messages malloc_text t ms
