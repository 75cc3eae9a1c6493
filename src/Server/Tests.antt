-- ===== src/Server/Tests.antt =====
-- Runs of the server's checks, and their theorems at concrete requests.
use professor_ai.Prelude.{
  ◌≤◌, ◌≡◌, refl, ◌⊎◌, ◌↔◌, true, false, none, some, List, [], ◌∷◌, ◌++◌, arith,
}
use professor_ai.Prelude.Bytes.{Bytes, codes, streq, has_prefix}
use professor_ai.Server.Auth.{check_auth, header_diff, compare_bytes, pad_bytes, check_auth_iff}
use professor_ai.Server.Acl.{allows, listed, norm_ip, HasEntry, allows_iff}
use professor_ai.Server.Connections.{
  Net, accepts, closes_served, IsCounted, run, run-IsCounted, knocks, knocks_uncount,
}
use professor_ai.Server.Route.{
  Request, Mongoose, stats, fails, dispatch, is_health, is_whatif, route, route_guarded,
}

abbrev key : Bytes
key = codes "s3cret"

auth_runs :
    (check_auth key (some (codes "Bearer s3cret")) ≡ true)
    × (check_auth key (some (codes "Bearer s3cres")) ≡ false)
    × (check_auth key (some (codes "Bearer")) ≡ false)
    × (check_auth key none ≡ false)
unfolding check_auth header_diff compare_bytes pad_bytes
auth_runs = (refl, refl, refl, refl)

check_auth_iff_example :
    (check_auth key (some (codes "Bearer s3cret")) ≡ true)
    ↔ ((key ≡ []) ⊎ (some (codes "Bearer s3cret") ≡ some (codes "Bearer " ++ key)))
check_auth_iff_example = check_auth_iff key (some (codes "Bearer s3cret")) (omega arith)

abbrev acl : List Bytes
acl = codes "10.0.0.1" ∷ []

acl_runs : (allows acl (codes "::ffff:10.0.0.1") ≡ true) × (allows acl (codes "10.0.0.2") ≡ false)
unfolding allows listed norm_ip streq has_prefix
acl_runs = (refl, refl)

allows_iff_example :
    (allows acl (codes "10.0.0.1") ≡ true) ↔ ((acl ≡ []) ⊎ HasEntry acl (codes "10.0.0.1"))
allows_iff_example = allows_iff acl (codes "10.0.0.1")

abbrev quiet : Net
quiet = record { ctx = record { active = 2; stats = none }; served = 2; closing = 0 }

run-IsCounted_example :
    IsCounted (run [] quiet (accepts (codes "10.0.0.2") ∷ closes_served ∷ closes_served ∷ []))
run-IsCounted_example =
    run-IsCounted (accepts (codes "10.0.0.2") ∷ closes_served ∷ closes_served ∷ []) quiet
      (record { exact = refl; limited = omega arith })

stranger : allows acl (codes "10.0.0.2") ≡ false
unfolding allows listed norm_ip streq has_prefix
stranger = refl

knocks_uncount_example :
    ((run acl quiet (knocks 2 (codes "10.0.0.2"))).ctx.active ≡ 0)
    × ((run acl quiet (knocks 2 (codes "10.0.0.2"))).served ≡ 2)
knocks_uncount_example = knocks_uncount acl (codes "10.0.0.2") 2 quiet stranger

-- Patterns without wildcards match their own text.
abbrev literal : Mongoose
literal = record { matches = streq; same = streq }

abbrev ask : Request
ask = record {
  uri = codes "/v1/stats";
  verb = codes "GET";
  authorization = some (codes "Bearer s3cret");
  body_len = 0;
}

ask_runs : route literal key ask ≡ stats
unfolding route dispatch is_health is_whatif check_auth header_diff compare_bytes pad_bytes streq
ask_runs = refl

route_guarded_example : (check_auth key (some (codes "Bearer s3cret")) ≡ true) × (0 ≤ 1048576)
route_guarded_example = route_guarded literal key ask stats ask_runs tt

abbrev lost : Request
lost = record ask { uri = codes "/v2" }

lost_runs : route literal key lost ≡ fails 404
unfolding route dispatch is_health is_whatif check_auth header_diff compare_bytes pad_bytes streq
lost_runs = refl
