-- ===== src/Api/Parse.antt =====
-- src/api_types.c: `chat_request_parse`, `chat_request_free` and `completion_request_parse`.
use professor_ai.Prelude.{
  ℕ, zero, suc, ◌-◌, Bool, true, false, not, ◌||◌, Option, none, some, List, [], ◌∷◌, ltb, leb,
  if◌then◌else◌, length, replicate,
}
use professor_ai.Prelude.Int.{ℤ, negsuc}
use professor_ai.Prelude.Bytes.{Bytes, codes, streq, snprintf_s}
use professor_ai.Float.{Floats}
use professor_ai.Api.Cjson.{Cjson}
use professor_ai.Api.{
  ChatMessage, ChatRequest, CompletionRequest, model_max, role_max, content_max, stop_max, stop_len,
  max_messages,
}

-- `valid_role`
unfoldable pub valid_role : Bytes → Bool
valid_role role =
    streq role (codes "system") || streq role (codes "user") || streq role (codes "assistant")

module _ (fl : Floats) (cj : Cjson (fl.D)) where
  open fl use {F, D, nan, of_double, int32_of_double}
  open cj use {
    Item, parse_with_length, get_object_item, string_value, number_value, bool_value, array_items,
  }

  -- `if (cJSON_IsString(item)) snprintf(dst, size, "%s", item->valuestring);`
  unfoldable pub string_or : ℕ → Option Item → Bytes → Bytes
  string_or size item old = elim (string_value item) [ none ↦ old | some s ↦ snprintf_s size s ]

  -- `if (cJSON_IsNumber(item)) dst = (float)item->valuedouble;`
  unfoldable pub float_or : Option Item → F → F
  float_or item old = elim (number_value item) [ none ↦ old | some d ↦ of_double d ]

  unfoldable pub int32_or : Option Item → ℤ → ℤ
  int32_or item old = elim (number_value item) [ none ↦ old | some d ↦ int32_of_double d ]

  unfoldable pub bool_or : Option Item → Bool → Bool
  bool_or item old = elim (bool_value item) [ none ↦ old | some b ↦ b ]

  -- One round of the loop over the messages; `none` for the two early returns.
  unfoldable pub parse_message : Item → Option ChatMessage
  unfolding string_or
  parse_message msg =
      let jrole = get_object_item (some msg) (codes "role") in
      let jcontent = get_object_item (some msg) (codes "content") in
      elim (string_value jrole) [
        | none ↦ none
        | some role ↦
            if valid_role role
            then some (record {
              role = snprintf_s role_max role;
              content = string_or content_max jcontent [];
            })
            else none
      ]

  unfoldable pub parse_messages : List Item → Option (List ChatMessage)
  unfolding parse_message
  parse_messages [] = some []
  parse_messages (m ∷ ms) =
      let rest = parse_messages ms in
      elim (parse_message m) [
        | none ↦ none
        | some msg ↦ elim rest [ none ↦ none | some more ↦ some (msg ∷ more) ]
      ]

  -- The `room` slots of `stop` after the loop over the items: a string fills its slot, and a slot of
  -- another item, or past the last item, keeps its zero bytes.
  unfoldable pub fill_stops : ℕ → List Item → List Bytes
  unfolding string_or
  fill_stops zero items = []
  fill_stops (suc n) [] = [] ∷ fill_stops n []
  fill_stops (suc n) (s ∷ items) = string_or stop_len (some s) [] ∷ fill_stops n items

  unfoldable pub clamp_count : ℕ → ℕ
  clamp_count sc = if ltb stop_max sc then stop_max else sc

  -- The state after `memset` and the defaults.
  unfoldable pub fresh_chat : ChatRequest F
  fresh_chat = record {
    model = [];
    messages = none;
    message_count = 0;
    temperature = nan;
    top_p = nan;
    max_tokens = negsuc 0;
    frequency_penalty = nan;
    presence_penalty = nan;
    repeat_penalty = nan;
    stop = replicate stop_max [];
    stop_count = 0;
    stream = false;
  }

  -- `chat_request_free`
  unfoldable pub chat_request_free : ChatRequest F → ChatRequest F
  chat_request_free req = record req { messages = none; message_count = 0 }

  -- The optional numbers and the stream flag.
  unfoldable pub chat_options : Item → ChatRequest F → ChatRequest F
  unfolding float_or int32_or bool_or
  chat_options root req = record req {
    temperature = float_or (get_object_item (some root) (codes "temperature")) req.temperature;
    top_p = float_or (get_object_item (some root) (codes "top_p")) req.top_p;
    max_tokens = int32_or (get_object_item (some root) (codes "max_tokens")) req.max_tokens;
    frequency_penalty =
        float_or (get_object_item (some root) (codes "frequency_penalty")) req.frequency_penalty;
    presence_penalty =
        float_or (get_object_item (some root) (codes "presence_penalty")) req.presence_penalty;
    repeat_penalty =
        float_or (get_object_item (some root) (codes "repeat_penalty")) req.repeat_penalty;
    stream = bool_or (get_object_item (some root) (codes "stream")) req.stream;
  }

  -- The stop sequences of a chat request: an array, or one string.
  unfoldable pub chat_stops : Item → ChatRequest F → ChatRequest F
  unfolding fill_stops clamp_count
  chat_stops root req =
      let jstop = get_object_item (some root) (codes "stop") in
      elim (array_items jstop) [
        | some items ↦ record req {
          stop_count = clamp_count (length items);
          stop = fill_stops stop_max items;
        }
        | none ↦ elim (string_value jstop) [
          | some s ↦ record req {
            stop_count = 1;
            stop = snprintf_s stop_len s ∷ replicate (stop_max - 1) [];
          }
          | none ↦ req
        ]
      ]

  -- What follows the checks on the array of messages. `calloc` says whether the allocation succeeds.
  unfoldable pub chat_body : Bool → Item → List Item → ChatRequest F → ChatRequest F × Bool
  unfolding parse_messages chat_options chat_stops chat_request_free
  chat_body calloc root items req =
      if not calloc then (req, false) else elim (parse_messages items) [
        | none ↦ (chat_request_free (record req { message_count = length items }), false)
        | some msgs ↦ (
          chat_stops root (
              chat_options root
                (record req { messages = some msgs; message_count = length items })),
          true,
        )
      ]

  -- `chat_request_parse`: the request, and whether it returns 0.
  unfoldable pub chat_request_parse : Bool → Bytes → ChatRequest F × Bool
  unfolding fresh_chat chat_body string_or
  chat_request_parse calloc json = elim (parse_with_length json) [
    | none ↦ (fresh_chat, false)
    | some root ↦
        let req = record fresh_chat {
          model = string_or model_max (get_object_item (some root) (codes "model")) [];
        } in
        elim (array_items (get_object_item (some root) (codes "messages"))) [
          | none ↦ (req, false)
          | some items ↦
              let count = length items in
              if leb count 0
              then (req, false)
              else if ltb max_messages count
              then (req, false)
              else chat_body calloc root items req
        ]
  ]

  unfoldable pub fresh_completion : CompletionRequest F
  fresh_completion = record {
    model = [];
    prompt = [];
    temperature = nan;
    top_p = nan;
    max_tokens = negsuc 0;
    repeat_penalty = nan;
    stop = replicate stop_max [];
    stop_count = 0;
    stream = false;
  }

  unfoldable pub completion_options : Item → CompletionRequest F → CompletionRequest F
  unfolding float_or int32_or bool_or
  completion_options root req = record req {
    temperature = float_or (get_object_item (some root) (codes "temperature")) req.temperature;
    top_p = float_or (get_object_item (some root) (codes "top_p")) req.top_p;
    max_tokens = int32_or (get_object_item (some root) (codes "max_tokens")) req.max_tokens;
    repeat_penalty =
        float_or (get_object_item (some root) (codes "repeat_penalty")) req.repeat_penalty;
    stream = bool_or (get_object_item (some root) (codes "stream")) req.stream;
  }

  -- A completion request takes no single string for `stop`.
  unfoldable pub completion_stops : Item → CompletionRequest F → CompletionRequest F
  unfolding fill_stops clamp_count
  completion_stops root req = elim (array_items (get_object_item (some root) (codes "stop"))) [
    | some items ↦ record req {
      stop_count = clamp_count (length items);
      stop = fill_stops stop_max items;
    }
    | none ↦ req
  ]

  -- `completion_request_parse`
  unfoldable pub completion_request_parse : Bytes → CompletionRequest F × Bool
  unfolding fresh_completion completion_options completion_stops string_or
  completion_request_parse json = elim (parse_with_length json) [
    | none ↦ (fresh_completion, false)
    | some root ↦
        let req = record fresh_completion {
          model = string_or model_max (get_object_item (some root) (codes "model")) [];
        } in
        elim (string_value (get_object_item (some root) (codes "prompt"))) [
          | none ↦ (req, false)
          | some prompt ↦ (
            completion_stops root
                (completion_options root (record req { prompt = snprintf_s content_max prompt })),
            true,
          )
        ]
  ]
