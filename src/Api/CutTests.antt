-- ===== src/Api/CutTests.antt =====
-- A completion request with a prompt of 70000 bytes.
use professor_ai.Prelude.{
  ℕ, ◌≡◌, ◌≢◌, refl, Bool, true, none, some, [], take, replicate, length-replicate, arith,
}
use professor_ai.Prelude.Bytes.{Bytes}
use professor_ai.Float.Sample.{hundredths}
use professor_ai.Api.Cjson.{Cjson}
use professor_ai.Api.Parse.{completion_request_parse}
use professor_ai.Api.Cut.{long_prompt_cut}

-- Shut, so that no check counts the bytes of the prompt one by one.
long : ℕ
long = 70000

long-eq : long ≡ 70000
unfolding long
long-eq = refl

abbrev long_prompt : Bytes
long_prompt = replicate long 97

-- A document whose every item is that string.
abbrev long_doc : Cjson ℕ
long_doc = record {
  Item = Bool;
  parse_with_length = λ s. some true;
  get_object_item = λ i k. some true;
  string_value = λ i. some long_prompt;
  number_value = λ i. none;
  bool_value = λ i. none;
  array_items = λ i. none;
}

long_prompt_cut_example :
    ((completion_request_parse hundredths long_doc []).1 ≡ true)
    × ((completion_request_parse hundredths long_doc []).0.prompt ≡ take 65535 long_prompt)
    × ((completion_request_parse hundredths long_doc []).0.prompt ≢ long_prompt)
long_prompt_cut_example =
    long_prompt_cut hundredths long_doc [] true long_prompt refl refl
      (omega (arith, length-replicate {A = ℕ} long 97, long-eq))
