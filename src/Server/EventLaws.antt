-- ===== src/Server/EventLaws.antt =====
-- src/server.c: over the events of `ev_handler`, what becomes of requests and jobs.
use professor_ai.Prelude.{
  ℕ, ◌+◌, ◌≤◌, ◌<◌, ◌≡◌, ◌≢◌, refl, ap, sym, ◌∙◌, inl, inr, Bool, true, false, Option, none, some,
  ◌==◌, arith, Bool-cases,
}
use mathlib.Core.Path.{subst}
use professor_ai.Worker.Protocol.{
  Sys, Place, waiting, taken, generating, ended, stored, cleared, stopped, undefined, uses_freed,
  update, put_job, is_busy, submit_job, submit, accept_job, worker_step, work_at, is_final, drain,
  new_job, works,
}
use professor_ai.Worker.Protocol
use professor_ai.Worker.Owned.{drain-IsOwned, close-IsOwned}
use professor_ai.Worker.Frees.{
  IsSafe, worker_step-IsOwned, worker_step-defined, drain-place, close-place,
}
use professor_ai.Server.Events.{Hub, Ending, bump, put_data, wake, wake_timely, hang_up}

-- What is still to be answered on a connection.
abbrev pub pending : Option ℕ → ℕ
pending none = 0
pending (some j) = 1

-- A job that a connection leads to is attached, was handed out before `next_job`, and belongs to it.
abbrev pub IsLinked : Sys → ℕ → (ℕ → ℕ) → ℕ → Option ℕ → Type 0
IsLinked s next owner c none = Unit {0}
IsLinked s next owner c (some j) = ((s.jobs j).attached ≡ true) × (j < next) × (owner j ≡ c)

-- The invariant of the hub, where a handler still owes answers; `owner` is the connection for which a
-- job was made.
pub record IsSound (owed : ℕ → ℕ) (d : Hub) : Type 0 where
  pub owner : ℕ → ℕ
  pub counts : (c : ℕ) → d.asked c ≡ d.answered c + d.dropped c + pending (d.fn_data c) + owed c
  pub safe : IsSafe d.sys
  pub linked : (c : ℕ) → IsLinked d.sys d.next_job owner c (d.fn_data c)
  pub unborn : (k : ℕ) → d.next_job ≤ k → (d.sys.jobs k).handed ≡ false

-- A step of the worker leaves these two alone.
work_at-attached :
    (p : Place) (ok : Bool) (s : Sys) (k : ℕ)
    → (((work_at p ok s).jobs k).attached ≡ (s.jobs k).attached)
      × (((work_at p ok s).jobs k).handed ≡ (s.jobs k).handed)
unfolding work_at update put_job
work_at-attached waiting ok s k = ground arith
work_at-attached (taken j) ok s k = ground arith
work_at-attached (generating j) ok s k = ground arith
work_at-attached (ended j) ok s k = ground arith
work_at-attached (stored j) ok s k = ground arith
work_at-attached (cleared j) ok s k = ground arith
work_at-attached stopped ok s k = ground arith
work_at-attached undefined ok s k = ground arith

worker_step-attached :
    (ok : Bool) (s : Sys) (k : ℕ)
    → (((worker_step ok s).jobs k).attached ≡ (s.jobs k).attached)
      × (((worker_step ok s).jobs k).handed ≡ (s.jobs k).handed)
unfolding worker_step
worker_step-attached ok s k = elim (Bool-cases (uses_freed s.place s)) [
  | inl h ↦ rw h (refl, refl)
  | inr h ↦ rw h (work_at-attached s.place ok s k)
]

-- Such steps keep the links.
same-IsLinked :
    (s s' : Sys) (next : ℕ) (owner : ℕ → ℕ) (c : ℕ) (o : Option ℕ)
    → ((k : ℕ) → (s'.jobs k).attached ≡ (s.jobs k).attached)
    → IsLinked s next owner c o
    → IsLinked s' next owner c o
same-IsLinked s s' next owner c none same l = tt
same-IsLinked s s' next owner c (some j) same (up, below, own) = (same j ∙ up, below, own)

pub works-IsSound :
    (owed : ℕ → ℕ) (ok : Bool) (d : Hub)
    → IsSound owed d
    → IsSound owed (record d { sys = worker_step ok d.sys })
works-IsSound owed ok d v = record {
  owner = v.owner;
  counts = v.counts;
  safe = record {
    owned = λ k. worker_step-IsOwned k ok d.sys v.safe.owned;
    defined = worker_step-defined ok d.sys v.safe;
  };
  linked = λ c.
      same-IsLinked d.sys (worker_step ok d.sys) d.next_job v.owner c (d.fn_data c)
        (λ k. (worker_step-attached ok d.sys k).0) (v.linked c);
  unborn = λ k new. (worker_step-attached ok d.sys k).1 ∙ v.unborn k new;
}

-- Another connection's link outlives the loss of a job that is not its own.
other-IsLinked :
    (s s' : Sys) (next : ℕ) (owner : ℕ → ℕ) (j c : ℕ) (o : Option ℕ)
    → c ≢ owner j
    → ((k : ℕ) → k ≢ j → (s'.jobs k).attached ≡ (s.jobs k).attached)
    → IsLinked s next owner c o
    → IsLinked s' next owner c o
other-IsLinked s s' next owner j c none apart same l = tt
other-IsLinked s s' next owner j c (some i) apart same (up, below, own) =
    (same i (λ e. apart (sym own ∙ ap owner e)) ∙ up, below, own)

-- A connection that gives up its job.
release-IsLinked :
    (s s' : Sys) (next : ℕ) (owner : ℕ → ℕ) (f : ℕ → Option ℕ) (j c c' : ℕ)
    → owner j ≡ c
    → ((k : ℕ) → k ≢ j → (s'.jobs k).attached ≡ (s.jobs k).attached)
    → IsLinked s next owner c' (f c')
    → IsLinked s' next owner c' (put_data c none f c')
unfolding put_data
release-IsLinked s s' next owner f j c c' own same l = elim (Bool-cases (c' == c)) [
  | inl here ↦ rw here tt
  | inr there ↦
      let apart : c' ≢ owner j = λ e. let at_c : c' ≡ c = e ∙ own in ground arith in
      rw there (other-IsLinked s s' next owner j c' (f c') apart same l)
]

-- One more answered, or dropped, and none pending.
release-counts :
    (f : ℕ → Option ℕ) (settled : ℕ → ℕ) (asked rest c c' j : ℕ)
    → f c ≡ some j
    → asked ≡ settled c' + rest + pending (f c')
    → asked ≡ bump c settled c' + rest + pending (put_data c none f c')
unfolding bump put_data
release-counts f settled asked rest c c' j e h = elim (Bool-cases (c' == c)) [
  | inl here ↦
      let same : c' ≡ c = ground arith in
      let one : f c' ≡ some j = rw same e in rw here (omega (arith, h, ap pending one))
  | inr there ↦ rw there h
]

drain-attached : (j k : ℕ) (s : Sys) → k ≢ j → ((drain j s).jobs k).attached ≡ (s.jobs k).attached
unfolding drain update put_job
drain-attached j k s apart = ground arith

drain-handed : (j k : ℕ) (s : Sys) → ((drain j s).jobs k).handed ≡ (s.jobs k).handed
unfolding drain update put_job
drain-handed j k s = ground arith

close-attached :
    (j k : ℕ) (s : Sys) → k ≢ j → ((Protocol.close j s).jobs k).attached ≡ (s.jobs k).attached
unfolding Protocol.close update put_job
close-attached j k s apart = ground arith

close-handed : (j k : ℕ) (s : Sys) → ((Protocol.close j s).jobs k).handed ≡ (s.jobs k).handed
unfolding Protocol.close update put_job
close-handed j k s = ground arith

pub wake-IsSound :
    (owed : ℕ → ℕ) (o : Option ℕ) (c : ℕ) (e : Ending) (d : Hub)
    → d.fn_data c ≡ o
    → wake_timely o d.sys ≡ true
    → IsSound owed d
    → IsSound owed (wake o c e d)
unfolding wake wake_timely
wake-IsSound owed none c e d at_c timely v = v
wake-IsSound owed (some j) c e d at_c timely v = elim (Bool-cases (is_final (d.sys.jobs j))) [
  | inr early ↦ rw early v
  | inl over ↦
      let (up, below, own) = subst (IsLinked d.sys d.next_job v.owner c) at_c (v.linked c) in
      rw over (record {
        owner = v.owner;
        counts = λ k.
            let h =
              release-counts d.fn_data d.answered (d.asked k) (d.dropped k + owed k) c k j at_c
                (omega (arith, v.counts k)) in
            omega (arith, h);
        safe = record {
          owned = λ k. drain-IsOwned k j d.sys timely (v.safe.owned k);
          defined = λ e. v.safe.defined (sym (drain-place j d.sys) ∙ e);
        };
        linked = λ k.
            release-IsLinked d.sys (drain j d.sys) d.next_job v.owner d.fn_data j c k own
              (λ i apart. drain-attached j i d.sys apart) (v.linked k);
        unborn = λ k new. drain-handed j k d.sys ∙ v.unborn k new;
      })
]

pub hang_up-IsSound :
    (owed : ℕ → ℕ) (o : Option ℕ) (c : ℕ) (d : Hub)
    → d.fn_data c ≡ o
    → IsSound owed d
    → IsSound owed (hang_up o c d)
unfolding hang_up
hang_up-IsSound owed none c d at_c v = v
hang_up-IsSound owed (some j) c d at_c v =
    let (up, below, own) = subst (IsLinked d.sys d.next_job v.owner c) at_c (v.linked c) in
    record {
      owner = v.owner;
      counts = λ k.
          let h =
            release-counts d.fn_data d.dropped (d.asked k) (d.answered k + owed k) c k j at_c
              (omega (arith, v.counts k)) in
          omega (arith, h);
      safe = record {
        owned = λ k. close-IsOwned k j d.sys (v.safe.owned k);
        defined = λ e. v.safe.defined (sym (close-place j d.sys) ∙ e);
      };
      linked = λ k.
          release-IsLinked d.sys (Protocol.close j d.sys) d.next_job v.owner d.fn_data j c k own
            (λ i apart. close-attached j i d.sys apart) (v.linked k);
      unborn = λ k new. close-handed j k d.sys ∙ v.unborn k new;
    }
