-- ===== src/Ring/Tests.antt =====
-- Runs of the ring's operations, and its theorems at concrete rings.
use professor_ai.Prelude.{◌≡◌, refl, ◌≢◌, inl, List, [], ◌∷◌, false, arith}
use professor_ai.Ring
use professor_ai.Ring.{TokenRing, Wake, blocked}
use professor_ai.Ring.Window.{contents, IsValid}
use professor_ai.Ring.Script.{Op, put, get, drain, put_ok, got, batch, run, queue_run, run_refines}
use professor_ai.Ring.Progress.{init-IsValid, write_returns}

abbrev script : List Op
script = put (7 ∷ []) false false [] ∷ put (8 ∷ 9 ∷ []) false false [] ∷ get 128 ∷ drain 32 ∷ []

abbrev one_taken : Wake
one_taken = record { taken = 1; cancel = false; shutdown = false }

run-script : run Ring.init script ≡ put_ok ∷ put_ok ∷ got (7 ∷ []) ∷ batch ((8 ∷ 9 ∷ []) ∷ []) ∷ []
unfolding run Ring.init
run-script = refl

run_refines_example : run Ring.init script ≡ queue_run (contents Ring.init) script
run_refines_example = run_refines script Ring.init init-IsValid

-- 255 tokens wait.
abbrev full_ring : TokenRing
full_ring = record Ring.init { head = 255 }

full_ring-IsValid : IsValid full_ring
full_ring-IsValid = record {
  slots_of = init-IsValid.slots_of;
  head_in = omega arith;
  tail_in = init-IsValid.tail_in;
  fits = init-IsValid.fits;
}

write_returns_example :
    Ring.write full_ring (7 ∷ []) false false (one_taken ∷ []) ≢ blocked full_ring
write_returns_example =
    write_returns full_ring (7 ∷ []) false false (one_taken ∷ []) full_ring full_ring-IsValid
      (inl (inl (omega arith)))
