-- ===== src/Api/Serialize.antt =====
-- src/api_types.c: the serializers and `generate_request_id`; src/server.c: the response that is made of
-- a finished job. Allocations after that of the root succeed.
use professor_ai.Prelude.{Bool, Option, none, List, [], ◌∷◌, if◌then◌else◌}
use professor_ai.Prelude.Int.{ℤ, pos, ◌+ℤ◌}
use professor_ai.Prelude.Bytes.{Bytes, codes, snprintf_s}
use professor_ai.Config.Parse.{is_nil, to_int32}
use professor_ai.Api.{id_max, model_max, content_max}
use professor_ai.Api.Builder.{Builder}

-- `usage_t`
pub record Usage : Type 0 where
  pub prompt_tokens : ℤ
  pub completion_tokens : ℤ
  pub total_tokens : ℤ

-- `chat_response_t` and `completion_response_t`; `content` is `text` in the second.
pub record Reply : Type 0 where
  pub id : Bytes
  pub model : Bytes
  pub created : ℤ
  pub content : Bytes
  pub finish_reason : Bytes
  pub usage : Usage

-- `stream_chunk_t`
pub record StreamChunk : Type 0 where
  pub id : Bytes
  pub model : Bytes
  pub created : ℤ
  pub delta_content : Bytes
  pub finish_reason : Bytes
  pub is_chat : Bool

-- Of a finished job: its ids, its response buffer (empty where there is none), and its results.
pub record Result : Type 0 where
  pub request_id : Bytes
  pub model_id : Bytes
  pub response : Bytes
  pub finish_reason : Bytes
  pub prompt_tokens : ℤ
  pub completion_tokens : ℤ

unfoldable pub reply_of : Result → ℤ → Reply
unfolding to_int32 ◌+ℤ◌
reply_of job now = record {
  id = snprintf_s id_max job.request_id;
  model = snprintf_s model_max job.model_id;
  created = now;
  content = snprintf_s content_max job.response;
  finish_reason = snprintf_s 32 job.finish_reason;
  usage = record {
    prompt_tokens = job.prompt_tokens;
    completion_tokens = job.completion_tokens;
    total_tokens = to_int32 (job.prompt_tokens +ℤ job.completion_tokens);
  };
}

-- The last chunk of a stream.
unfoldable pub final_chunk_of : Result → ℤ → Bool → StreamChunk
final_chunk_of job now is_chat = record {
  id = snprintf_s id_max job.request_id;
  model = snprintf_s model_max job.model_id;
  created = now;
  delta_content = [];
  finish_reason = snprintf_s 32 job.finish_reason;
  is_chat = is_chat;
}

module _ {D : Type 0} (b : Builder D) where
  open b use {Node, Text, object, string, number, null, array, add, print, of_int}

  -- The fields that are added to a new object, in order.
  unfoldable pub object_of : Node → List (Bytes × Node) → Node
  object_of n [] = n
  object_of n ((k, v) ∷ fields) = object_of (add n k v) fields

  -- `cJSON_PrintUnformatted` of the root, where `cJSON_CreateObject` has succeeded.
  unfoldable pub print_root : Bool → Node → Option Text
  print_root created root = if created then print root else none

  unfoldable pub usage_node : Usage → Node
  unfolding object_of
  usage_node u = object_of object (
      (codes "prompt_tokens", number (of_int u.prompt_tokens))
      ∷ (codes "completion_tokens", number (of_int u.completion_tokens))
      ∷ (codes "total_tokens", number (of_int u.total_tokens))
      ∷ [])

  unfoldable pub chat_document : Reply → Node
  unfolding object_of usage_node
  chat_document r =
      let message =
        object_of object
          ((codes "role", string (codes "assistant")) ∷ (codes "content", string r.content) ∷ []) in
      let choice = object_of object (
        (codes "index", number (of_int (pos 0)))
        ∷ (codes "message", message)
        ∷ (codes "finish_reason", string r.finish_reason)
        ∷ []) in
      object_of object (
        (codes "id", string r.id)
        ∷ (codes "object", string (codes "chat.completion"))
        ∷ (codes "created", number (of_int r.created))
        ∷ (codes "model", string r.model)
        ∷ (codes "choices", array (choice ∷ []))
        ∷ (codes "usage", usage_node r.usage)
        ∷ [])

  unfoldable pub chat_response_to_json : Bool → Reply → Option Text
  unfolding print_root chat_document
  chat_response_to_json created r = print_root created (chat_document r)

  unfoldable pub completion_document : Reply → Node
  unfolding object_of usage_node
  completion_document r =
      let choice = object_of object (
        (codes "index", number (of_int (pos 0)))
        ∷ (codes "text", string r.content)
        ∷ (codes "finish_reason", string r.finish_reason)
        ∷ []) in
      object_of object (
        (codes "id", string r.id)
        ∷ (codes "object", string (codes "text_completion"))
        ∷ (codes "created", number (of_int r.created))
        ∷ (codes "model", string r.model)
        ∷ (codes "choices", array (choice ∷ []))
        ∷ (codes "usage", usage_node r.usage)
        ∷ [])

  unfoldable pub completion_response_to_json : Bool → Reply → Option Text
  unfolding print_root completion_document
  completion_response_to_json created r = print_root created (completion_document r)

  -- The choice of a chunk: no content where the text is empty, and null for an empty reason.
  unfoldable pub chunk_choice : StreamChunk → Node
  unfolding object_of
  chunk_choice c =
      let delta =
        object_of object
          (if is_nil c.delta_content then [] else (codes "content", string c.delta_content) ∷ []) in
      object_of object (
        (codes "index", number (of_int (pos 0)))
        ∷ (if c.is_chat then (codes "delta", delta) else (codes "text", string c.delta_content))
        ∷ (codes "finish_reason", if is_nil c.finish_reason then null else string c.finish_reason)
        ∷ [])

  unfoldable pub chunk_document : StreamChunk → Node
  unfolding object_of chunk_choice
  chunk_document c = object_of object (
      (codes "id", string c.id)
      ∷ (
        codes "object",
        string (codes (if c.is_chat then "chat.completion.chunk" else "text_completion.chunk")),
      )
      ∷ (codes "created", number (of_int c.created))
      ∷ (codes "model", string c.model)
      ∷ (codes "choices", array (chunk_choice c ∷ []))
      ∷ [])

  unfoldable pub stream_chunk_to_json : Bool → StreamChunk → Option Text
  unfolding print_root chunk_document
  stream_chunk_to_json created c = print_root created (chunk_document c)

  unfoldable pub models_list_to_json : Bool → Bytes → Option Text
  unfolding print_root object_of
  models_list_to_json created model_id =
      let m = object_of object (
        (codes "id", string model_id)
        ∷ (codes "object", string (codes "model"))
        ∷ (codes "created", number (of_int (pos 0)))
        ∷ (codes "owned_by", string (codes "local"))
        ∷ []) in
      print_root created (
        object_of object
          ((codes "object", string (codes "list")) ∷ (codes "data", array (m ∷ [])) ∷ []))

  unfoldable pub error_to_json : Bool → ℤ → Bytes → Bytes → Option Text
  unfolding print_root object_of
  error_to_json created code message type =
      let err = object_of object (
        (codes "message", string message)
        ∷ (codes "type", string type)
        ∷ (codes "code", number (of_int code))
        ∷ []) in
      print_root created (object_of object ((codes "error", err) ∷ []))

-- The two branches of `drain_stream_ring` that answer a finished job.
unfoldable pub job_to_json : {D : Type 0} (b : Builder D) → Bool → Bool → Result → ℤ → Option b.Text
job_to_json b created is_chat job now =
    if is_chat
    then chat_response_to_json b created (reply_of job now)
    else completion_response_to_json b created (reply_of job now)
