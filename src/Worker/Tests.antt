-- ===== src/Worker/Tests.antt =====
-- Runs of the token callbacks, and their theorems at concrete jobs.
use professor_ai.Prelude.{◌≡◌, refl, true, false, [], arith}
use professor_ai.Prelude.Bytes.{codes}
use professor_ai.Ring
use professor_ai.Ring.{TokenRing, is_empty}
use professor_ai.Worker.Accum.{
  Response, IsValid, IsAccumulated, new_cap, accum_token_cb, put_token,
  accum_token_cb-IsAccumulated,
}
use professor_ai.Worker.Stream.{Streaming, sent, after_write, stream_token_cb}

abbrev nearly_full : Response
nearly_full = record { buf = codes "Good news"; len = 9; cap = 12 }

nearly_full-IsValid : IsValid nearly_full
nearly_full-IsValid = record { counted = refl; room = omega arith; bounded = omega arith }

accum_runs :
    (accum_token_cb false false true nearly_full (codes ", everyone")).0
    ≡ record { buf = codes "Good news, everyone"; len = 19; cap = 24 }
unfolding accum_token_cb put_token new_cap
accum_runs = refl

accum_token_cb-IsAccumulated_example :
    IsAccumulated false true nearly_full
      (codes ", everyone")
      (accum_token_cb false false true nearly_full (codes ", everyone"))
accum_token_cb-IsAccumulated_example =
    accum_token_cb-IsAccumulated false false true nearly_full (codes ", everyone")
      nearly_full-IsValid (omega arith)

abbrev idle : Streaming
idle = record { ring = Ring.init; has_mgr = true; tokens_since_wake = 3; wakeups = 4 }

abbrev woken : Streaming
woken = record {
  ring = Ring.store Ring.init (codes "Fuff!");
  has_mgr = true;
  tokens_since_wake = 0;
  wakeups = 5;
}

idle_empty : is_empty Ring.init ≡ true
unfolding Ring.init is_empty
idle_empty = refl

idle_sends : stream_token_cb idle (codes "Fuff!") 0 false false [] ≡ sent woken
unfolding stream_token_cb after_write Ring.write Ring.init Ring.advance_by is_empty Ring.store
idle_sends = refl
