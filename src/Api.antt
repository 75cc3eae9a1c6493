-- ===== src/Api.antt =====
-- src/api_types.h: the request and response types. A `char`
-- array of size n holds a string of fewer than n bytes.
pub mod Cjson
pub mod Builder
pub mod Serialize
pub mod RoundTrip
pub mod RequestId
pub mod Toy
mod SerializeTests
pub mod Parse
pub mod WellFormed
pub mod FieldBounds
pub mod ParseBounds
pub mod CompletionBounds
pub mod Cut
mod Tests
mod CutTests
use professor_ai.Prelude.{ℕ, ◌*◌, List, Option, Bool}
use professor_ai.Prelude.Int.{ℤ}
use professor_ai.Prelude.Bytes.{Bytes}

-- PROF_MODEL_MAX, PROF_ROLE_MAX, PROF_CONTENT_MAX, PROF_STOP_MAX, PROF_STOP_LEN, PROF_ID_MAX
abbrev pub model_max : ℕ
model_max = 128

abbrev pub role_max : ℕ
role_max = 32

abbrev pub content_max : ℕ
content_max = 65536

abbrev pub stop_max : ℕ
stop_max = 4

abbrev pub stop_len : ℕ
stop_len = 64

abbrev pub id_max : ℕ
id_max = 64

-- PROF_MAX_BODY_BYTES, PROF_MAX_MESSAGES, PROF_MAX_PROMPT_BYTES, PROF_MAX_CONNECTIONS
abbrev pub max_body_bytes : ℕ
max_body_bytes = 1048576

abbrev pub max_messages : ℕ
max_messages = 64

abbrev pub max_prompt_bytes : ℕ
max_prompt_bytes = 262144

abbrev pub max_connections : ℕ
max_connections = 32

-- `chat_message_t`
pub record ChatMessage : Type 0 where
  pub role : Bytes
  pub content : Bytes

-- `chat_request_t` over the type of floats. `messages` is `none` for the null pointer.
pub record ChatRequest (F : Type 0) : Type 0 where
  pub model : Bytes
  pub messages : Option (List ChatMessage)
  pub message_count : ℕ
  pub temperature : F
  pub top_p : F
  pub max_tokens : ℤ
  pub frequency_penalty : F
  pub presence_penalty : F
  pub repeat_penalty : F
  pub stop : List Bytes
  pub stop_count : ℕ
  pub stream : Bool

-- `completion_request_t`
pub record CompletionRequest (F : Type 0) : Type 0 where
  pub model : Bytes
  pub prompt : Bytes
  pub temperature : F
  pub top_p : F
  pub max_tokens : ℤ
  pub repeat_penalty : F
  pub stop : List Bytes
  pub stop_count : ℕ
  pub stream : Bool
