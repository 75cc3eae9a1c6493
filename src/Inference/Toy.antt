-- ===== src/Inference/Toy.antt =====
-- A toy of llama.cpp, for the tests.
use professor_ai.Prelude.{ℕ, ◌+◌, Bool, true, false, Option, some, [], ◌∷◌, ◌++◌, ◌==◌, length}
use professor_ai.Prelude.Int.{pos}
use professor_ai.Prelude.Bytes.{Bytes}
use professor_ai.Inference.{SampleParams}
use professor_ai.Inference.Generate.{Model, Signals}
use professor_ai.Inference.Complete.{Backend, Engine}

-- A model that counts: token n is the letter of code 97 + n, and token 9 ends the text.
abbrev pub counting : Model
counting = record {
  Ctx = ℕ;
  Token = ℕ;
  sample = λ n. (n, n + 1);
  is_eos = λ t. t == 9;
  piece = λ t. some ((97 + t) ∷ []);
  decode = λ n t. (true, n);
}

abbrev pub collect : Bytes → Bytes → Bytes × Bool
collect seen p = (seen ++ p, true)

abbrev pub quiet : ℕ → Signals
quiet i = record { shutdown = false; cancel = false; timed_out = false }

-- One token for each byte of the prompt.
abbrev pub bytewise : Backend (Option ℕ)
bytewise = record {
  model = counting;
  clear = λ n. 0;
  count_tokens = λ p. pos (length p);
  tokenize = λ p n. some p;
  decode_batch = λ n ts. (pos 0, n);
  make_chain = λ n chain. some n;
}

abbrev pub engine : Engine
engine = record { n_ctx = 8; n_batch = 2 }

abbrev pub params : SampleParams (Option ℕ)
params = record {
  temperature = some 70;
  top_p = some 90;
  top_k = pos 40;
  repeat_penalty = some 110;
  frequency_penalty = some 0;
  presence_penalty = some 0;
  max_tokens = pos 100;
  max_inference_seconds = pos 300;
  stop = [] ∷ [] ∷ [] ∷ [] ∷ [];
  n_stop = 0;
}
