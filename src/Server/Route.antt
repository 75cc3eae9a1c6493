-- ===== src/Server/Route.antt =====
-- src/server.c: the guards and the dispatch of `ev_handler` on MG_EV_HTTP_MSG.
use professor_ai.Prelude.{
  ℕ, ◌≤◌, ◌≡◌, ◌⊎◌, Bool, true, not, ◌&&◌, ◌||◌, Option, if◌then◌else◌, ltb, arith,
}
use professor_ai.Prelude.Bytes.{Bytes, codes}
use professor_ai.Api.{max_body_bytes}
use professor_ai.Server.Auth.{check_auth}

pub data JobType : Type 0 where
  chat completion : JobType

-- `struct mg_http_message`, as far as it is read.
pub record Request : Type 0 where
  pub uri : Bytes
  pub verb : Bytes
  pub authorization : Option Bytes
  pub body_len : ℕ

-- The calls of mongoose that read a request: `mg_match` against a pattern, and `mg_strcmp` with 0.
pub record Mongoose : Type 0 where
  pub matches : Bytes → Bytes → Bool
  pub same : Bytes → Bytes → Bool

-- What the handler does with a request. `fails` is `send_error`.
pub data Action : Type 0 where
  whatif health stats models : Action
  submit : JobType → Action
  fails : ℕ → Action

module _ (mg : Mongoose) where
  open mg use {matches, same}

  unfoldable pub is_health : Request → Bool
  is_health r = matches r.uri (codes "/health") || matches r.uri (codes "/v1/health")

  unfoldable pub is_whatif : Request → Bool
  is_whatif r = matches r.uri (codes "/whatif")

  -- The route dispatch.
  unfoldable pub dispatch : Request → Action
  dispatch r =
      if is_whatif r
      then whatif
      else if is_health r
      then health
      else if matches r.uri (codes "/v1/stats")
      then stats
      else if matches r.uri (codes "/v1/models")
      then (if same r.verb (codes "GET") then models else fails 405)
      else if matches r.uri (codes "/v1/chat/completions")
      then (if same r.verb (codes "POST") then submit chat else fails 405)
      else if matches r.uri (codes "/v1/completions")
      then (if same r.verb (codes "POST") then submit completion else fails 405)
      else fails 404

  -- The checks on the body's size and on the key come first.
  unfoldable pub route : Bytes → Request → Action
  route api_key r =
      if ltb max_body_bytes r.body_len
      then fails 400
      else if not (is_health r) && not (is_whatif r) && not (check_auth api_key r.authorization)
      then fails 401
      else dispatch r

  -- The actions that show something of the daemon or make it work.
  abbrev pub IsGuarded : Action → Type 0
  IsGuarded whatif = ⊥
  IsGuarded health = ⊥
  IsGuarded stats = Unit {0}
  IsGuarded models = Unit {0}
  IsGuarded (submit t) = Unit {0}
  IsGuarded (fails n) = ⊥

  health-dispatch :
      (r : Request)
      → (is_health r || is_whatif r) ≡ true
      → (dispatch r ≡ health) ⊎ (dispatch r ≡ whatif)
  unfolding dispatch
  health-dispatch r h = ground arith

  -- No request reaches the statistics, the models or a job without passing the key check and the
  -- limit on its body, whatever its path and method.
  pub route_guarded :
      (api_key : Bytes) (r : Request) (a : Action)
      → route api_key r ≡ a
      → IsGuarded a
      → (check_auth api_key r.authorization ≡ true) × (r.body_len ≤ 1048576)
  unfolding route
  route_guarded api_key r whatif e g = absurd g
  route_guarded api_key r health e g = absurd g
  route_guarded api_key r (fails n) e g = absurd g
  route_guarded api_key r stats e g = ground (arith, health-dispatch r)
  route_guarded api_key r models e g = ground (arith, health-dispatch r)
  route_guarded api_key r (submit t) e g = ground (arith, health-dispatch r)

  -- A request that routing itself answers with an error gets 400, 401, 405 or 404.
  pub route_errors :
      (api_key : Bytes) (r : Request) (n : ℕ)
      → route api_key r ≡ fails n
      → (n ≡ 400) ⊎ (n ≡ 401) ⊎ (n ≡ 405) ⊎ (n ≡ 404)
  unfolding route dispatch
  route_errors api_key r n e = ground arith
