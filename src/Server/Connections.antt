-- ===== src/Server/Connections.antt =====
-- src/server.c: the count of connections that `ev_handler` keeps on MG_EV_ACCEPT and MG_EV_CLOSE.
use professor_ai.Prelude.{
  ℕ, zero, suc, ◌+◌, ◌-◌, ◌≤◌, ◌≡◌, refl, Bool, true, false, not, Option, none, some, List, [], ◌∷◌,
  if◌then◌else◌, ltb, arith,
}
use professor_ai.Prelude.Bytes.{Bytes}
use professor_ai.Api.{max_connections}
use professor_ai.Server.Stats.{Stats}
use professor_ai.Server.Acl.{allows}

-- `active_connections` and `stats` of `server_ctx_t`; `none` is the null pointer.
pub record Ctx : Type 0 where
  pub active : ℕ
  pub stats : Option Stats

abbrev pub on_stats : (Stats → Stats) → Option Stats → Option Stats
on_stats f none = none
on_stats f (some st) = some (f st)

unfoldable pub count_rejected : Stats → Stats
count_rejected st = record st { connections_rejected = st.connections_rejected + 1 }

unfoldable pub count_accepted : ℕ → Stats → Stats
count_accepted active st = record st {
  connections_total = st.connections_total + 1;
  connections_active = active;
}

-- MG_EV_ACCEPT: the state after it, and whether the connection is marked `is_closing`.
unfoldable pub accept : List Bytes → Ctx → Bytes → Ctx × Bool
unfolding count_rejected count_accepted
accept acl c ip =
    let active = c.active + 1 in
    let stats = on_stats (count_accepted active) c.stats in
    if not (allows acl ip)
    then (record c { stats = on_stats count_rejected c.stats }, true)
    else if ltb max_connections active
    then (record { active = active; stats = on_stats count_rejected stats }, true)
    else (record { active = active; stats = stats }, false)

-- MG_EV_CLOSE, up to the connection's job.
unfoldable pub close : Ctx → Ctx
close c =
    let active = if ltb 0 c.active then c.active - 1 else c.active in
    record {
      active = active;
      stats = on_stats (λ st. record st { connections_active = active }) c.stats;
    }

-- The event loop's view: the state, how many connections are open and served, and how many are
-- marked for closing. Mongoose sends MG_EV_CLOSE once for each.
pub record Net : Type 0 where
  pub ctx : Ctx
  pub served : ℕ
  pub closing : ℕ

pub data Event : Type 0 where
  accepts : Bytes → Event
  closes_served closes_marked : Event

-- An event that cannot happen changes nothing.
unfoldable pub step : List Bytes → Net → Event → Net
step acl n (accepts ip) =
    let (ctx, marked) = accept acl n.ctx ip in
    if marked
    then record n { ctx = ctx; closing = n.closing + 1 }
    else record n { ctx = ctx; served = n.served + 1 }
step acl n closes_served =
    if ltb 0 n.served then record n { ctx = close n.ctx; served = n.served - 1 } else n
step acl n closes_marked =
    if ltb 0 n.closing then record n { ctx = close n.ctx; closing = n.closing - 1 } else n

unfoldable pub run : List Bytes → Net → List Event → Net
run acl n [] = n
run acl n (e ∷ es) = run acl (step acl n e) es

-- The count is that of the open connections, and no more are served than the limit.
pub record IsCounted (n : Net) : Type 0 where
  pub exact : n.ctx.active ≡ n.served + n.closing
  pub limited : n.served ≤ 32

allows_all : (ip : Bytes) → allows [] ip ≡ true
unfolding allows
allows_all ip = refl

step-IsCounted : (n : Net) (e : Event) → IsCounted n → IsCounted (step [] n e)
unfolding step accept close
step-IsCounted n (accepts ip) v = ground (arith, allows_all ip)
step-IsCounted n closes_served v = ground arith
step-IsCounted n closes_marked v = ground arith

-- Without an address list the count stays exact through every sequence of events, and at most 32
-- connections are served at a time.
pub run-IsCounted : (es : List Event) (n : Net) → IsCounted n → IsCounted (run [] n es)
unfolding run
run-IsCounted [] n v = v
run-IsCounted (e ∷ es) n v = run-IsCounted es (step [] n e) (step-IsCounted n e v)

-- `k` connections from an address that is not on the list, each dropped and closed.
unfoldable pub knocks : ℕ → Bytes → List Event
knocks zero ip = []
knocks (suc k) ip = accepts ip ∷ closes_marked ∷ knocks k ip

knock-lem :
    (acl : List Bytes) (ip : Bytes) (n : Net)
    → allows acl ip ≡ false
    → ((step acl (step acl n (accepts ip)) closes_marked).ctx.active ≡ n.ctx.active - 1)
      × ((step acl (step acl n (accepts ip)) closes_marked).served ≡ n.served)
unfolding step accept close
knock-lem acl ip n h = ground arith

-- A connection that the list refuses is not counted when it comes and is counted off when it goes:
-- `k` of them lower the count by `k`, while as many connections are served as before.
pub knocks_uncount :
    (acl : List Bytes) (ip : Bytes) (k : ℕ) (n : Net)
    → allows acl ip ≡ false
    → ((run acl n (knocks k ip)).ctx.active ≡ n.ctx.active - k)
      × ((run acl n (knocks k ip)).served ≡ n.served)
unfolding run knocks
knocks_uncount acl ip zero n h = (omega arith, refl)
knocks_uncount acl ip (suc k) n h =
    let once = knock-lem acl ip n h in
    let rest = knocks_uncount acl ip k (step acl (step acl n (accepts ip)) closes_marked) h in
    omega (arith, once, rest)
