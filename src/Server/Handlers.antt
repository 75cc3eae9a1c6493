-- ===== src/Server/Handlers.antt =====
-- src/server.c: `handle_health`, `handle_stats`, `handle_models` and the reply of `send_error`; src/stats.c:
-- `stats_to_json`. What the serializers of src/api_types.c return is an argument; "%.*f" is a parameter.
use professor_ai.Prelude.Text.{decimal, length-decimal}
use professor_ai.Prelude.{
  ℕ, ◌+◌, ◌-◌, ◌*◌, ◌≤◌, ◌≡◌, refl, Bool, true, false, Option, none, some, List, [], ◌∷◌, ◌++◌,
  if◌then◌else◌, ◌==◌, length, ap, Bool-cases, inl, inr, arith, length-append,
}
use professor_ai.Prelude.Bytes.{Bytes, codes, snprintf_s, take_all}
use professor_ai.Server.Stats.{Stats, count_error}
use professor_ai.Server.Report.{Timing, second}

pub record HttpReply : Type 0 where
  pub status : ℕ
  pub body : Bytes

-- `send_error` with what `error_to_json` returns.
unfoldable pub error_reply : ℕ → Option Bytes → HttpReply
error_reply status none = record { status = 500; body = codes "Internal error" }
error_reply status (some json) = record { status = status; body = json }

-- With PROF_VERSION.
unfoldable pub handle_health : Bytes → Stats → Stats × HttpReply
handle_health version st = (
  record st { req_health = st.req_health + 1 },
  record {
    status = 200;
    body = codes "{\"status\":\"ok\",\"version\":\"" ++ version ++ codes "\"}";
  },
)

-- A handler that replies with a document, or with the error where memory ran out.
unfoldable pub reply_json : Option Bytes → Option Bytes → Stats → Stats × HttpReply
unfolding error_reply
reply_json none error_json st = (count_error 500 st, error_reply 500 error_json)
reply_json (some json) error_json st = (st, record { status = 200; body = json })

unfoldable pub handle_models : Option Bytes → Option Bytes → Stats → Stats × HttpReply
unfolding reply_json
handle_models json error_json st =
    reply_json json error_json (record st { req_models = st.req_models + 1 })

unfoldable pub joined : List Bytes → Bytes
joined [] = []
joined (s ∷ ss) = s ++ joined ss

-- `"name":%lld` and what follows the number.
unfoldable pub field : Bytes → ℕ → Bytes
unfolding decimal
field name n = 34 ∷ name ++ 34 ∷ 58 ∷ decimal 19 n

-- `"name":%.*f` of a quotient; 0 / 1 where the code has 0.0.
unfoldable pub fixed_field : (ℕ → ℕ → ℕ → Bytes) → Bytes → ℕ → ℕ → ℕ → Bytes
fixed_field fixed name digits n d =
    34 ∷ name ++ 34 ∷ 58 ∷ (if d == 0 then fixed digits 0 1 else fixed digits n d)

unfoldable pub stats_pieces : (ℕ → ℕ → ℕ → Bytes) → ℕ → Timing → Stats → List Bytes
stats_pieces fixed now t st =
    (123 ∷ fixed_field fixed (codes "uptime_seconds") 0 (now - t.start_time) second)
    ∷ (44 ∷ codes "\"connections\":{" ++ field (codes "total") st.connections_total)
    ∷ (44 ∷ field (codes "active") st.connections_active)
    ∷ (44 ∷ field (codes "rejected") st.connections_rejected)
    ∷ (codes "},\"requests\":{" ++ field (codes "chat") st.req_chat)
    ∷ (44 ∷ field (codes "completion") st.req_completion)
    ∷ (44 ∷ field (codes "stream") st.req_stream)
    ∷ (44 ∷ field (codes "health") st.req_health)
    ∷ (44 ∷ field (codes "models") st.req_models)
    ∷ (codes "},\"errors\":{" ++ field (codes "bad_request") st.err_400)
    ∷ (44 ∷ field (codes "unauthorized") st.err_401)
    ∷ (44 ∷ field (codes "method_not_allowed") st.err_405)
    ∷ (44 ∷ field (codes "server_busy") st.err_503)
    ∷ (44 ∷ field (codes "backend_error") st.err_500)
    ∷ (codes "},\"inference\":{" ++ field (codes "total") st.inferences_total)
    ∷ (44 ∷ field (codes "tokens_prompt") st.tokens_prompt_total)
    ∷ (44 ∷ field (codes "tokens_completion") st.tokens_completion_total)
    ∷ (44 ∷ fixed_field fixed (codes "avg_latency_ms") 0 st.inference_ms_total st.inferences_total)
    ∷ (44
        ∷ fixed_field fixed (codes "avg_tokens_per_second") 1 (st.tokens_completion_total * 1000)
            st.inference_ms_total)
    ∷ (codes ",\"generating\":" ++ codes (if st.generating then "true" else "false"))
    ∷ codes "}}"
    ∷ []

-- `stats_to_json`: none where `malloc` fails.
unfoldable pub stats_to_json : Bool → (ℕ → ℕ → ℕ → Bytes) → ℕ → Timing → Stats → Option Bytes
stats_to_json allocates fixed now t st =
    if allocates then some (snprintf_s 4096 (joined (stats_pieces fixed now t st))) else none

unfoldable pub handle_stats : Option Bytes → Option Bytes → Stats → Stats × HttpReply
unfolding reply_json
handle_stats json error_json st = reply_json json error_json st

abbrev lengths : List Bytes → ℕ
lengths [] = 0
lengths (s ∷ ss) = length s + lengths ss

length-joined : (ss : List Bytes) → length (joined ss) ≡ lengths ss
unfolding joined
length-joined [] = refl
length-joined (s ∷ ss) = omega (arith, length-append s (joined ss), length-joined ss)

length-field : (name : Bytes) (n : ℕ) → length (field name n) ≤ length name + 22
unfolding field
length-field name n =
    omega (arith, length-append name (34 ∷ 58 ∷ decimal 19 n), length-decimal 19 n)

length-fixed_field :
    (fixed : ℕ → ℕ → ℕ → Bytes) (name : Bytes) (digits n d : ℕ)
    → ((p a b : ℕ) → length (fixed p a b) ≤ 500)
    → length (fixed_field fixed name digits n d) ≤ length name + 503
unfolding fixed_field
length-fixed_field fixed name digits n d short = elim (Bool-cases (d == 0)) [
  | inl nought ↦
      rw nought (omega (arith, length-append name (34 ∷ 58 ∷ fixed digits 0 1), short digits 0 1))
  | inr some_left ↦
      rw some_left
        (omega (arith, length-append name (34 ∷ 58 ∷ fixed digits n d), short digits n d))
]

generating_short :
    (b : Bool) → length (codes ",\"generating\":" ++ codes (if b then "true" else "false")) ≤ 19
generating_short true = omega arith
generating_short false = omega arith

lengths-stats_pieces :
    (fixed : ℕ → ℕ → ℕ → Bytes) (now : ℕ) (t : Timing) (st : Stats)
    → ((p a b : ℕ) → length (fixed p a b) ≤ 500)
    → lengths (stats_pieces fixed now t st) ≤ 4095
unfolding stats_pieces
lengths-stats_pieces fixed now t st short = omega (
  arith,
  length-fixed_field fixed (codes "uptime_seconds") 0 (now - t.start_time) second short,
  length-fixed_field fixed (codes "avg_latency_ms") 0 st.inference_ms_total st.inferences_total
      short,
  length-fixed_field fixed (codes "avg_tokens_per_second") 1 (st.tokens_completion_total * 1000)
      st.inference_ms_total short,
  length-field (codes "total") st.connections_total,
  length-field (codes "active") st.connections_active,
  length-field (codes "rejected") st.connections_rejected,
  length-field (codes "chat") st.req_chat,
  length-field (codes "completion") st.req_completion,
  length-field (codes "stream") st.req_stream,
  length-field (codes "health") st.req_health,
  length-field (codes "models") st.req_models,
  length-field (codes "bad_request") st.err_400,
  length-field (codes "unauthorized") st.err_401,
  length-field (codes "method_not_allowed") st.err_405,
  length-field (codes "server_busy") st.err_503,
  length-field (codes "backend_error") st.err_500,
  length-field (codes "total") st.inferences_total,
  length-field (codes "tokens_prompt") st.tokens_prompt_total,
  length-field (codes "tokens_completion") st.tokens_completion_total,
  generating_short st.generating,
)

-- Where no number of floating point takes more than 500 characters, the 4096 bytes hold the whole text.
pub stats_to_json-whole :
    (fixed : ℕ → ℕ → ℕ → Bytes) (now : ℕ) (t : Timing) (st : Stats)
    → ((p a b : ℕ) → length (fixed p a b) ≤ 500)
    → stats_to_json true fixed now t st ≡ some (joined (stats_pieces fixed now t st))
unfolding stats_to_json
stats_to_json-whole fixed now t st short =
    let pieces = stats_pieces fixed now t st in
    ap some (
      take_all 4095 (joined pieces)
        (omega (arith, length-joined pieces, lengths-stats_pieces fixed now t st short)))
