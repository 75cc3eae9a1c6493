-- ===== src/Api/RoundTrip.antt =====
-- What a client reads in the documents of src/api_types.c.
use professor_ai.Prelude.{
  ℕ, ◌+◌, ◌<◌, ◌≡◌, refl, ap, ◌∙◌, Bool, true, false, Option, none, some, List, [], ◌∷◌,
  if◌then◌else◌, arith, length, ◌^◌,
}
use mathlib.Core.Path.{subst}
use professor_ai.Prelude.Int.{ℤ, pos, ◌+ℤ◌}
use professor_ai.Prelude.Bytes.{Bytes, codes, streq, take_all}
use professor_ai.Config.Parse.{to_int32, to_int32-pos}
use professor_ai.Api.{id_max, model_max, content_max}
use professor_ai.Api.Builder.{Builder, Reader, Agrees}
use professor_ai.Api.Serialize.{
  Reply, Result, reply_of, job_to_json, chat_document, completion_document, object_of, print_root,
  usage_node, chat_response_to_json, completion_response_to_json,
}

-- One step into a document: a member of an object, or an item of an array.
pub data Step : Type 0 where
  key : Bytes → Step
  item : ℕ → Step

total_lem : (p c : ℕ) → p + c < 2 ^ 31 → to_int32 (pos p +ℤ pos c) ≡ pos (p + c)
unfolding ◌+ℤ◌
total_lem p c sum =
    let plus : pos p +ℤ pos c ≡ pos (p + c) = ground arith in
    ap to_int32 plus ∙ to_int32-pos (p + c) sum

reply_whole :
    (job : Result) (now : ℤ) (p c : ℕ)
    → length job.request_id < id_max
    → length job.model_id < model_max
    → length job.response < content_max
    → length job.finish_reason < 32
    → job.prompt_tokens ≡ pos p
    → job.completion_tokens ≡ pos c
    → p + c < 2 ^ 31
    → reply_of job now ≡ record {
      id = job.request_id;
      model = job.model_id;
      created = now;
      content = job.response;
      finish_reason = job.finish_reason;
      usage = record {
        prompt_tokens = pos p;
        completion_tokens = pos c;
        total_tokens = pos (p + c);
      };
    }
unfolding reply_of
reply_whole job now p c i m s f hp hc sum = simp (
  take_all 63 job.request_id (omega arith),
  take_all 127 job.model_id (omega arith),
  take_all 65535 job.response (omega arith),
  take_all 31 job.finish_reason (omega arith),
  hp,
  hc,
  total_lem p c sum,
)

module _ {D : Type 0} (b : Builder D) (r : Reader D b.Text) where
  abbrev pub step : Option r.Doc → Step → Option r.Doc
  step none s = none
  step (some d) (key k) = r.member d k
  step (some d) (item i) = r.element d i

  abbrev pub look : Option r.Doc → List Step → Option r.Doc
  look d [] = d
  look d (s ∷ ss) = look (step d s) ss

  abbrev pub as_text : Option r.Doc → Option Bytes
  as_text none = none
  as_text (some d) = r.text_of d

  abbrev pub as_number : Option r.Doc → Option D
  as_number none = none
  as_number (some d) = r.number_of d

  abbrev pub text_at : b.Text → List Step → Option Bytes
  text_at t ss = as_text (look (r.parse t) ss)

  abbrev pub number_at : b.Text → List Step → Option D
  number_at t ss = as_number (look (r.parse t) ss)

  -- A client reads the reply in a text.
  abbrev pub Reads : b.Text → List Step → Reply → Type 0
  Reads t content p =
      (text_at t (key (codes "id") ∷ []) ≡ some p.id)
      × (text_at t (key (codes "model") ∷ []) ≡ some p.model)
      × (number_at t (key (codes "created") ∷ []) ≡ some (b.of_int p.created))
      × (text_at t content ≡ some p.content)
      × (text_at t (key (codes "choices") ∷ item 0 ∷ key (codes "finish_reason") ∷ [])
          ≡ some p.finish_reason)
      × (number_at t (key (codes "usage") ∷ key (codes "prompt_tokens") ∷ [])
          ≡ some (b.of_int p.usage.prompt_tokens))
      × (number_at t (key (codes "usage") ∷ key (codes "completion_tokens") ∷ [])
          ≡ some (b.of_int p.usage.completion_tokens))
      × (number_at t (key (codes "usage") ∷ key (codes "total_tokens") ∷ [])
          ≡ some (b.of_int p.usage.total_tokens))

  abbrev pub chat_content : List Step
  chat_content = key (codes "choices") ∷ item 0 ∷ key (codes "message") ∷ key (codes "content") ∷ []

  abbrev pub completion_content : List Step
  completion_content = key (codes "choices") ∷ item 0 ∷ key (codes "text") ∷ []

  -- The text of a chat reply gives its fields back.
  pub chat_response-Reads :
      (g : Agrees b r) (p : Reply) (t : b.Text)
      → chat_response_to_json b true p ≡ some t
      → Reads t chat_content p
  unfolding chat_response_to_json print_root chat_document object_of usage_node streq
  chat_response-Reads g p t h =
      let e = g.parse_print (chat_document b p) t h in
      simp (e, g.member_add, g.member_object, g.element_array, g.text_string, g.number_number)
        (refl, refl, refl, refl, refl, refl, refl, refl)

  -- The text of a completion gives its fields back.
  pub completion_response-Reads :
      (g : Agrees b r) (p : Reply) (t : b.Text)
      → completion_response_to_json b true p ≡ some t
      → Reads t completion_content p
  unfolding completion_response_to_json print_root completion_document object_of usage_node streq
  completion_response-Reads g p t h =
      let e = g.parse_print (completion_document b p) t h in
      simp (e, g.member_add, g.member_object, g.element_array, g.text_string, g.number_number)
        (refl, refl, refl, refl, refl, refl, refl, refl)

  abbrev pub content_path : Bool → List Step
  content_path is_chat = if is_chat then chat_content else completion_content

  job-Reads :
      (g : Agrees b r) (is_chat : Bool) (job : Result) (now : ℤ) (t : b.Text)
      → job_to_json b true is_chat job now ≡ some t
      → Reads t (content_path is_chat) (reply_of job now)
  unfolding job_to_json
  job-Reads g true job now t h = chat_response-Reads g (reply_of job now) t h
  job-Reads g false job now t h = completion_response-Reads g (reply_of job now) t h

  -- For a finished job whose texts fit their arrays and whose token counts add up below 2^31, a client
  -- reads in the reply, of either kind, the id, the model, the whole response and the reason of the job,
  -- its two counts, and their sum.
  pub job_to_json-Reads :
      (g : Agrees b r) (is_chat : Bool) (job : Result) (now : ℤ) (t : b.Text) (p c : ℕ)
      → job_to_json b true is_chat job now ≡ some t
      → length job.request_id < id_max
      → length job.model_id < model_max
      → length job.response < content_max
      → length job.finish_reason < 32
      → job.prompt_tokens ≡ pos p
      → job.completion_tokens ≡ pos c
      → p + c < 2 ^ 31
      → Reads t (content_path is_chat) (record {
        id = job.request_id;
        model = job.model_id;
        created = now;
        content = job.response;
        finish_reason = job.finish_reason;
        usage = record {
          prompt_tokens = pos p;
          completion_tokens = pos c;
          total_tokens = pos (p + c);
        };
      })
  job_to_json-Reads g is_chat job now t p c h i m s f hp hc sum =
      subst (Reads t (content_path is_chat)) (reply_whole job now p c i m s f hp hc sum)
        (job-Reads g is_chat job now t h)
