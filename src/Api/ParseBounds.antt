-- ===== src/Api/ParseBounds.antt =====
-- src/api_types.c: what `chat_request_parse` guarantees, whatever the client sent.
use professor_ai.Prelude.{
  ◌≤◌, ◌<◌, ◌≡◌, refl, sym, ◌∙◌, inl, inr, Bool, true, false, none, some, List, [], length, arith,
  Option-cases,
}
use professor_ai.Prelude.Bytes.{Bytes, codes, length-snprintf}
use professor_ai.Float.{Floats}
use professor_ai.Api.Cjson.{Cjson}
use professor_ai.Api.{ChatMessage, ChatRequest}
use professor_ai.Api.Parse.{
  string_or, parse_messages, chat_stops, chat_options, chat_body, chat_request_parse, fresh_chat,
}
use professor_ai.Api.WellFormed.{IsWellFormed, StopsOk}
use professor_ai.Api.FieldBounds.{
  AllFit-empty, string_or-lt, parse_messages-AllGood, fill_stops-AllFit, clamp_count-le,
}

module _ (fl : Floats) (cj : Cjson (fl.D)) where
  open fl use {F, D}
  open cj use {Item, string_value, array_items, get_object_item, parse_with_length}

  chat_stops-StopsOk :
      (root : Item) (req : ChatRequest F)
      → StopsOk req.stop req.stop_count
      → StopsOk (chat_stops fl cj root req).stop (chat_stops fl cj root req).stop_count
  unfolding chat_stops
  chat_stops-StopsOk root req h =
      elim (Option-cases (array_items (get_object_item (some root) (codes "stop")))) [
        | inr (items, e) ↦
            let f = fill_stops-AllFit fl cj 4 items in
            rw (e, chat_stops) (f.0, f.1, clamp_count-le fl cj (length items))
        | inl e ↦ elim (Option-cases (string_value (get_object_item (some root) (codes "stop")))) [
          | inr (t, e') ↦
              rw (e, e', chat_stops)
                (refl, (length-snprintf 64 t (omega arith), AllFit-empty 3), omega arith)
          | inl e' ↦ rw (e, e', chat_stops) h
        ]
      ]

  chat_stops-keeps :
      (root : Item) (req : ChatRequest F)
      → ((chat_stops fl cj root req).messages ≡ req.messages)
        × ((chat_stops fl cj root req).message_count ≡ req.message_count)
        × ((chat_stops fl cj root req).model ≡ req.model)
  unfolding chat_stops
  chat_stops-keeps root req = ground arith

  built-IsWellFormed :
      (root : Item) (items : List Item) (msgs : List ChatMessage) (req : ChatRequest F)
      → 0 < length items
      → length items ≤ 64
      → length req.model < 128
      → StopsOk req.stop req.stop_count
      → parse_messages fl cj items ≡ some msgs
      → req.messages ≡ some msgs
      → req.message_count ≡ length items
      → IsWellFormed (chat_stops fl cj root (chat_options fl cj root req))
  unfolding chat_options
  built-IsWellFormed root items msgs req h0 h64 hm hs e em ec =
      let options = chat_options fl cj root req in
      let keeps = chat_stops-keeps root options in
      let stops = chat_stops-StopsOk root options hs in
      let parsed = parse_messages-AllGood fl cj items msgs e in
      record {
        model_fits = rw keeps.2 hm;
        list = msgs;
        is_list = keeps.0 ∙ em;
        counted = keeps.1 ∙ ec ∙ sym parsed.1;
        not_empty = omega arith;
        not_many = omega arith;
        good = parsed.0;
        stop_slots = stops.0;
        stops_fit = stops.1;
        stop_counted = stops.2;
      }

  chat_body-IsWellFormed :
      (calloc : Bool) (root : Item) (items : List Item) (req : ChatRequest F) (out : ChatRequest F)
      → 0 < length items
      → length items ≤ 64
      → length req.model < 128
      → StopsOk req.stop req.stop_count
      → chat_body fl cj calloc root items req ≡ (out, true)
      → IsWellFormed out
  unfolding chat_body
  chat_body-IsWellFormed false root items req out h0 h64 hm hs h = ground arith
  chat_body-IsWellFormed true root items req out h0 h64 hm hs h =
      elim (Option-cases (parse_messages fl cj items)) [
        | inl e ↦ ground arith
        | inr (msgs, e) ↦
            let filled = record req { messages = some msgs; message_count = length items } in
            let eq : chat_stops fl cj root (chat_options fl cj root filled) ≡ out = ground arith in
            rw (← eq) (built-IsWellFormed root items msgs filled h0 h64 hm hs e refl refl)
      ]

  -- The request before its messages are read.
  abbrev named : Item → ChatRequest F
  unfolding fresh_chat
  named root = record (fresh_chat fl cj) {
    model = string_or fl cj 128 (get_object_item (some root) (codes "model")) [];
  }

  -- A request that `chat_request_parse` accepts has between 1 and 64 messages, which it counts, each
  -- with a known role and a content that fits, and at most 4 stop sequences that fit.
  pub chat_request_parse-IsWellFormed :
      (calloc : Bool) (json : Bytes) (req : ChatRequest F)
      → chat_request_parse fl cj calloc json ≡ (req, true)
      → IsWellFormed req
  unfolding chat_request_parse fresh_chat
  chat_request_parse-IsWellFormed calloc json req h = elim (Option-cases (parse_with_length json)) [
    | inl e ↦ ground arith
    | inr (root, e) ↦
        elim (Option-cases (array_items (get_object_item (some root) (codes "messages")))) [
          | inl e' ↦ ground arith
          | inr (items, e') ↦ ground (
            arith,
            chat_body-IsWellFormed calloc root items (named root) req,
            string_or-lt fl cj 128 (get_object_item (some root) (codes "model")) [],
            AllFit-empty 4,
          )
        ]
  ]

  -- A chat request that is refused owns no messages, and counts none.
  pub chat_request_parse_refused :
      (calloc : Bool) (json : Bytes) (req : ChatRequest F)
      → chat_request_parse fl cj calloc json ≡ (req, false)
      → (req.messages ≡ none) × (req.message_count ≡ 0)
  unfolding chat_request_parse fresh_chat chat_body
  chat_request_parse_refused calloc json req h = ground arith
