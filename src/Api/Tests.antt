-- ===== src/Api/Tests.antt =====
-- Parsing over a small JSON library that reads every body as one document.
use professor_ai.Prelude.{
  ℕ, ◌≡◌, refl, Bool, true, false, Option, none, some, List, [], ◌∷◌, if◌then◌else◌,
}
use professor_ai.Prelude.Int.{pos, negsuc}
use professor_ai.Prelude.Bytes.{Bytes, codes, streq}
use professor_ai.Float.Sample.{hundredths}
use professor_ai.Api.Cjson.{Cjson}
use professor_ai.Api.{ChatRequest, CompletionRequest}
use professor_ai.Api.Parse.{valid_role, chat_request_parse, completion_request_parse}
use professor_ai.Api.WellFormed.{IsWellFormed}
use professor_ai.Api.ParseBounds.{chat_request_parse-IsWellFormed}

mutual
  data Doc : Type 0 where
    text : Bytes → Doc
    number : ℕ → Doc
    flag : Bool → Doc
    array : Docs → Doc
    object : Fields → Doc

  data Docs : Type 0 where
    nil : Docs
    cons : Doc → Docs → Docs

  data Fields : Type 0 where
    end : Fields
    field : Bytes → Doc → Fields → Fields

abbrev to_list : Docs → List Doc
to_list nil = []
to_list (cons d ds) = d ∷ to_list ds

abbrev find : Bytes → Fields → Option Doc
unfolding streq
find k end = none
find k (field j d fs) = if streq k j then some d else find k fs

abbrev item_of : Option Doc → Bytes → Option Doc
unfolding streq
item_of (some (object fs)) k = find k fs
item_of _ k = none

abbrev text_of : Option Doc → Option Bytes
text_of (some (text s)) = some s
text_of _ = none

abbrev number_of : Option Doc → Option ℕ
number_of (some (number n)) = some n
number_of _ = none

abbrev flag_of : Option Doc → Option Bool
flag_of (some (flag b)) = some b
flag_of _ = none

abbrev array_of : Option Doc → Option (List Doc)
array_of (some (array ds)) = some (to_list ds)
array_of _ = none

-- A library that finds the document `d` in every body.
abbrev reading : Doc → Cjson ℕ
reading d = record {
  Item = Doc;
  parse_with_length = λ s. some d;
  get_object_item = item_of;
  string_value = text_of;
  number_value = number_of;
  bool_value = flag_of;
  array_items = array_of;
}

abbrev hello : Doc
hello =
    object
      (field (codes "role") (text (codes "user")) (field (codes "content") (text (codes "hi")) end))

abbrev chat_doc : Doc
chat_doc = object (
    field (codes "messages") (array (cons hello nil))
      (field (codes "max_tokens") (number 9) (field (codes "stop") (text (codes "END")) end)))

abbrev prompt_doc : Doc
prompt_doc = object (field (codes "prompt") (text (codes "once")) end)

abbrev bad_role_doc : Doc
bad_role_doc = object (
    field (codes "messages")
      (array (cons (object (field (codes "role") (text (codes "root")) end)) nil)) end)

abbrev chat : ChatRequest (Option ℕ)
chat = record {
  model = [];
  messages = some (record { role = codes "user"; content = codes "hi" } ∷ []);
  message_count = 1;
  temperature = none;
  top_p = none;
  max_tokens = pos 9;
  frequency_penalty = none;
  presence_penalty = none;
  repeat_penalty = none;
  stop = codes "END" ∷ [] ∷ [] ∷ [] ∷ [];
  stop_count = 1;
  stream = false;
}

abbrev refused_chat : ChatRequest (Option ℕ)
refused_chat = record chat {
  messages = none;
  message_count = 0;
  max_tokens = negsuc 0;
  stop = [] ∷ [] ∷ [] ∷ [] ∷ [];
  stop_count = 0;
}

abbrev completion : CompletionRequest (Option ℕ)
completion = record {
  model = [];
  prompt = codes "once";
  temperature = none;
  top_p = none;
  max_tokens = negsuc 0;
  repeat_penalty = none;
  stop = [] ∷ [] ∷ [] ∷ [] ∷ [];
  stop_count = 0;
  stream = false;
}

chat_runs : chat_request_parse hundredths (reading chat_doc) true [] ≡ (chat, true)
unfolding chat_request_parse valid_role streq
chat_runs = refl

bad_role_runs : chat_request_parse hundredths (reading bad_role_doc) true [] ≡ (refused_chat, false)
unfolding chat_request_parse valid_role streq
bad_role_runs = refl

completion_runs : completion_request_parse hundredths (reading prompt_doc) [] ≡ (completion, true)
unfolding completion_request_parse streq
completion_runs = refl

chat_request_parse-IsWellFormed_example : IsWellFormed chat
chat_request_parse-IsWellFormed_example =
    chat_request_parse-IsWellFormed hundredths (reading chat_doc) true [] chat chat_runs
