-- ===== src/Server/EventRun.antt =====
-- src/server.c: whole runs of `ev_handler`.
use professor_ai.Prelude.{
  ℕ, ◌+◌, ◌≤◌, ◌≡◌, ◌≢◌, refl, inl, inr, true, false, Option, none, some, List, [], ◌∷◌, ◌==◌,
  arith, Bool-cases,
}
use professor_ai.Prelude.Bytes.{Bytes}
use professor_ai.Float.{Floats}
use professor_ai.Api.Cjson.{Cjson}
use professor_ai.Config.{Config}
use professor_ai.Worker.Protocol.{Sys, undefined, is_busy, start, new_job}
use professor_ai.Worker.Owned.{IsOwned}
use professor_ai.Worker.Frees.{start-IsSafe}
use professor_ai.Server.Events.{
  Hub, Event, Ending, Memory, http_msg, wakeup, accepts, closes, bump, put_data, attach, wake,
  hang_up,
}
use professor_ai.Server.EventLaws.{
  pending, IsLinked, IsSound, works-IsSound, wake-IsSound, hang_up-IsSound,
}
use professor_ai.Server.Attach.{owes, nobody, attach-IsSound}
use professor_ai.Server.Stats.{Stats}
use professor_ai.Server.Connections.{Ctx}
use professor_ai.Server.Route.{
  Request, Mongoose, Action, whatif, health, stats, models, submit, fails, JobType, route,
}
use professor_ai.Server.Submit.{
  Finds, Submitted, Prepared, attached, submit_inference_job, hand_over, prepare, send_error,
}
use professor_ai.Server.Submit
use professor_ai.Server.Events
use professor_ai.Server.Events.{
  with_stats, answer, settle, finds, handle, on_message, ev_handler, handle_all, boot, is_idle,
  is_orderly, all_orderly,
}

-- The invariant does not look at the counters.
ctx-IsSound :
    (owed : ℕ → ℕ) (ctx : Ctx) (d : Hub) → IsSound owed d → IsSound owed (record d { ctx = ctx })
ctx-IsSound owed ctx d v = record {
  owner = v.owner;
  counts = v.counts;
  safe = v.safe;
  linked = v.linked;
  unborn = v.unborn;
}

ask-IsSound :
    (c : ℕ) (d : Hub) → IsSound nobody d → IsSound (owes c) (record d { asked = bump c d.asked })
unfolding bump
ask-IsSound c d v = record {
  owner = v.owner;
  counts = λ k. elim (Bool-cases (k == c)) [
    | inl here ↦ rw here (omega (arith, v.counts k))
    | inr there ↦ rw there (v.counts k)
  ];
  safe = v.safe;
  linked = v.linked;
  unborn = v.unborn;
}

answer-IsSound : (c : ℕ) (d : Hub) → IsSound (owes c) d → IsSound nobody (answer c d)
unfolding bump
answer-IsSound c d v = record {
  owner = v.owner;
  counts = λ k.
      let h = v.counts k in
      elim (Bool-cases (k == c)) [
        | inl here ↦ rw here (omega (arith, rw here at h))
        | inr there ↦ rw there (omega (arith, rw there at h))
      ];
  safe = v.safe;
  linked = v.linked;
  unborn = v.unborn;
}

told-IsSound :
    (c : ℕ) (st : Option Stats) (d : Hub)
    → IsSound (owes c) d
    → IsSound nobody (answer c (with_stats st d))
told-IsSound c st d v =
    answer-IsSound c (with_stats st d)
      (ctx-IsSound (owes c) (record { active = d.ctx.active; stats = st }) d v)

module _ (fl : Floats) (cj : Cjson fl.D) (mg : Mongoose) (cfg : Config fl.F) where
  open fl use {F}

  attached_idle :
      (t : JobType) (f : Finds) (body : Bytes) (st : Option Stats) (p : Prepared F)
      → (submit_inference_job fl cj t cfg f body st).0 ≡ attached p
      → f.busy ≡ false
  unfolding submit_inference_job send_error
  attached_idle t f body st p e = ground (arith, e)

  settle-IsSound :
      (c : ℕ) (d : Hub) (r : Submitted F × Option Stats)
      → ((p : Prepared F) → r.0 ≡ attached p → is_busy d.sys ≡ false)
      → d.fn_data c ≡ none
      → IsSound (owes c) d
      → IsSound nobody (settle fl cj mg cfg c d r)
  unfolding settle
  settle-IsSound c d (Submit.fails n, st) idle free v = told-IsSound c st d v
  settle-IsSound c d (attached p, st) idle free v =
      attach-IsSound c p.stream (with_stats st d) (idle p refl) free
        (ctx-IsSound (owes c) (record { active = d.ctx.active; stats = st }) d v)

  handle-IsSound :
      (a : Action) (c : ℕ) (m : Memory) (body : Bytes) (d : Hub)
      → d.fn_data c ≡ none
      → IsSound (owes c) d
      → IsSound nobody (handle fl cj mg cfg a c m body d)
  unfolding handle finds
  handle-IsSound whatif c m body d free v = answer-IsSound c d v
  handle-IsSound health c m body d free v = told-IsSound c _ d v
  handle-IsSound stats c m body d free v = told-IsSound c _ d v
  handle-IsSound models c m body d free v = told-IsSound c _ d v
  handle-IsSound (fails n) c m body d free v = told-IsSound c _ d v
  handle-IsSound (submit t) c m body d free v =
      let f = finds fl cj mg cfg m d in
      settle-IsSound c d (submit_inference_job fl cj t cfg f body d.ctx.stats)
        (attached_idle t f body d.ctx.stats) free v

  is_idle-none : (o : Option ℕ) → is_idle o ≡ true → o ≡ none
  unfolding is_idle
  is_idle-none none h = refl
  is_idle-none (some j) h = cc

  on_message-IsSound :
      (c : ℕ) (r : Request) (m : Memory) (body : Bytes) (d : Hub)
      → is_idle (d.fn_data c) ≡ true
      → IsSound nobody d
      → IsSound nobody (on_message fl cj mg cfg c r m body d)
  unfolding on_message
  on_message-IsSound c r m body d idle v =
      handle-IsSound (route mg cfg.api_key r) c m body (record d { asked = bump c d.asked })
        (is_idle-none (d.fn_data c) idle) (ask-IsSound c d v)

  ev_handler-IsSound :
      (e : Event) (d : Hub)
      → is_orderly e d ≡ true
      → IsSound nobody d
      → IsSound nobody (ev_handler fl cj mg cfg e d)
  unfolding ev_handler is_orderly
  ev_handler-IsSound (http_msg c r m body) d t v = on_message-IsSound c r m body d t v
  ev_handler-IsSound (wakeup c e) d t v = wake-IsSound nobody (d.fn_data c) c e d refl t v
  ev_handler-IsSound (accepts c ip) d t v = ctx-IsSound nobody _ d v
  ev_handler-IsSound (closes c) d t v =
      hang_up-IsSound nobody (d.fn_data c) c _ refl (ctx-IsSound nobody _ d v)
  ev_handler-IsSound (Events.works ok) d t v = works-IsSound nobody ok d v

  handle_all-IsSound :
      (es : List Event) (d : Hub)
      → all_orderly fl cj mg cfg es d ≡ true
      → IsSound nobody d
      → IsSound nobody (handle_all fl cj mg cfg es d)
  unfolding handle_all all_orderly
  handle_all-IsSound [] d t v = v
  handle_all-IsSound (e ∷ es) d t v =
      let d' = ev_handler fl cj mg cfg e d in
      let (now, later) : (is_orderly e d ≡ true) × (all_orderly fl cj mg cfg es d' ≡ true) =
        ground arith in
      handle_all-IsSound es d' later (ev_handler-IsSound e d now v)

boot-IsSound : (st : Option Stats) → IsSound nobody (boot st)
unfolding boot start new_job
boot-IsSound st = record {
  owner = λ j. 0;
  counts = λ c. omega arith;
  safe = start-IsSafe (λ j. false);
  linked = λ c. tt;
  unborn = λ k later. refl;
}

-- The job that a connection leads to has not been freed.
abbrev pub IsAlive : Sys → Option ℕ → Type 0
IsAlive s none = Unit {0}
IsAlive s (some j) = (s.jobs j).frees ≡ 0

linked-IsAlive :
    (s : Sys) (next : ℕ) (owner : ℕ → ℕ) (c : ℕ) (o : Option ℕ)
    → ((k : ℕ) → IsOwned k s)
    → IsLinked s next owner c o
    → IsAlive s o
linked-IsAlive s next owner c none owned l = tt
linked-IsAlive s next owner c (some j) owned (up, below, own) = elim ((owned j).by_loop) [
  | inl down ↦ cc
  | inr (unfreed, kept, handed) ↦ unfreed
]

-- However the events of mongoose and the steps of the worker follow on each other from the start, if
-- mongoose hands on no request of a connection before the last one is answered, and no wake-up comes
-- while the worker is still at a job that has ended: a connection's requests are each answered once, but
-- for one that is pending and for those whose connection closed while they were; no job is freed twice;
-- a connection never leads to a freed job; and the worker never uses one.
pub handle_all_answers :
    (fl : Floats) (cj : Cjson fl.D) (mg : Mongoose) (cfg : Config fl.F) (st : Option Stats)
    (es : List Event) (c k : ℕ)
    → all_orderly fl cj mg cfg es (boot st) ≡ true
    → let d = handle_all fl cj mg cfg es (boot st) in
      (d.asked c ≡ d.answered c + d.dropped c + pending (d.fn_data c))
      × ((d.sys.jobs k).frees ≤ 1)
      × IsAlive d.sys (d.fn_data c)
      × (d.sys.place ≢ undefined)
handle_all_answers fl cj mg cfg st es c k orderly =
    let d = handle_all fl cj mg cfg es (boot st) in
    let v = handle_all-IsSound fl cj mg cfg es (boot st) orderly (boot-IsSound st) in
    (
      omega (arith, v.counts c),
      (v.safe.owned k).once,
      linked-IsAlive d.sys d.next_job v.owner c (d.fn_data c) v.safe.owned (v.linked c),
      v.safe.defined,
    )
