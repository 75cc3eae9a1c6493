-- ===== src/Api/SerializeTests.antt =====
-- The round trips with documents that are their own text.
use professor_ai.Prelude.{◌≡◌, refl, true, none, some, [], ◌∷◌, arith}
use professor_ai.Prelude.Int.{pos}
use professor_ai.Prelude.Bytes.{codes}
use professor_ai.Api.{id_max}
use professor_ai.Api.Toy.{Tree, nil, builder, reader, agrees}
use professor_ai.Api.Serialize.{Result, job_to_json, chat_response_to_json, print_root}
use professor_ai.Api.RequestId.{generate_request_id, hex_of, hex_digit}
use professor_ai.Api.RoundTrip.{Reads, content_path, job_to_json-Reads}

abbrev job : Result
job = record {
  request_id = codes "chatcmpl-0a1b";
  model_id = codes "local-model";
  response = codes "Good news, everyone!";
  finish_reason = codes "stop";
  prompt_tokens = pos 12;
  completion_tokens = pos 5;
}

abbrev text : Tree
text = elim (job_to_json builder true true job (pos 1700000000)) [ none ↦ nil | some t ↦ t ]

job_to_json-Reads_example : Reads builder reader text (content_path builder reader true) (record {
  id = job.request_id;
  model = job.model_id;
  created = pos 1700000000;
  content = job.response;
  finish_reason = job.finish_reason;
  usage = record { prompt_tokens = pos 12; completion_tokens = pos 5; total_tokens = pos 17 };
})
unfolding job_to_json chat_response_to_json print_root
job_to_json-Reads_example =
    job_to_json-Reads builder reader agrees true job (pos 1700000000) text 12 5 refl (omega arith)
      (omega arith) (omega arith) (omega arith) refl refl (omega arith)

generate_request_id-chat :
    generate_request_id id_max
      (codes "chatcmpl")
      (0 ∷ 1 ∷ 15 ∷ 16 ∷ 127 ∷ 128 ∷ 255 ∷ 7 ∷ 8 ∷ 9 ∷ 10 ∷ 11 ∷ 1 ∷ 2 ∷ 3 ∷ 4 ∷ [])
    ≡ codes "chatcmpl-00010f107f80ff0708090a0b"
unfolding generate_request_id hex_of hex_digit
generate_request_id-chat = refl
