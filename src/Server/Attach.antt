-- ===== src/Server/Attach.antt =====
-- src/server.c: what a submission does to the jobs and to its connection.
use professor_ai.Prelude.{
  ℕ, ◌+◌, ◌≡◌, ◌≢◌, refl, sym, ap, ◌∙◌, inl, inr, Bool, true, false, Option, none, some,
  if◌then◌else◌, ◌==◌, arith, Bool-cases,
}
use professor_ai.Worker.Protocol.{Sys, update, put_job, is_busy, submit_job, submit, accept_job}
use professor_ai.Worker.Owned.{IsOwned, is_current, submit-IsOwned}
use professor_ai.Worker.Frees.{submit-place}
use professor_ai.Server.Events.{Hub, put_data, attach}
use professor_ai.Server.EventLaws.{pending, IsLinked, IsSound}

-- A job's kind is set before anybody works on it.
abbrev set_stream : ℕ → Bool → Sys → Sys
set_stream j stream s = update j (λ job. record job { stream = stream }) s

set_stream-IsOwned :
    (k j : ℕ) (stream : Bool) (s : Sys) → IsOwned k s → IsOwned k (set_stream j stream s)
unfolding update put_job is_current
set_stream-IsOwned k j stream s v = ground arith

set_stream-place : (j : ℕ) (stream : Bool) (s : Sys) → (set_stream j stream s).place ≡ s.place
unfolding update
set_stream-place j stream s = refl

set_stream-is_busy : (j : ℕ) (stream : Bool) (s : Sys) → is_busy (set_stream j stream s) ≡ is_busy s
unfolding is_busy update put_job
set_stream-is_busy j stream s = ground arith

-- What a submission to an idle worker does to the job, and to the others.
submit_job-own :
    (j : ℕ) (s : Sys)
    → (s.jobs j).handed ≡ false
    → is_busy s ≡ false
    → ((submit_job j s).jobs j).attached ≡ true
unfolding submit_job submit accept_job update put_job
submit_job-own j s new idle = let same : (j == j) ≡ true = ground arith in ground arith

submit_job-others :
    (j k : ℕ) (s : Sys)
    → k ≢ j
    → (((submit_job j s).jobs k).attached ≡ (s.jobs k).attached)
      × (((submit_job j s).jobs k).handed ≡ (s.jobs k).handed)
unfolding submit_job submit accept_job update put_job
submit_job-others j k s apart = ground arith

set_stream-same :
    (j k : ℕ) (stream : Bool) (s : Sys)
    → (((set_stream j stream s).jobs k).attached ≡ (s.jobs k).attached)
      × (((set_stream j stream s).jobs k).handed ≡ (s.jobs k).handed)
unfolding update put_job
set_stream-same j k stream s = ground arith

-- One answer is owed, on connection `c`; or none.
abbrev pub owes : ℕ → ℕ → ℕ
owes c k = if k == c then 1 else 0

abbrev pub nobody : ℕ → ℕ
nobody k = 0

abbrev owner_of : ℕ → ℕ → (ℕ → ℕ) → ℕ → ℕ
owner_of next c owner k = if k == next then c else owner k

older-IsLinked :
    (s s' : Sys) (next : ℕ) (owner : ℕ → ℕ) (c new : ℕ) (o : Option ℕ)
    → ((k : ℕ) → k ≢ next → (s'.jobs k).attached ≡ (s.jobs k).attached)
    → IsLinked s next owner c o
    → IsLinked s' (next + 1) (owner_of next new owner) c o
older-IsLinked s s' next owner c new none same l = tt
older-IsLinked s s' next owner c new (some i) same (up, below, own) =
    let apart : i ≢ next = λ e. absurd (omega (arith, e, below)) in
    let other : (i == next) ≡ false = ground arith in
    (same i apart ∙ up, omega (arith, below), rw other own)

attach-counts :
    (f : ℕ → Option ℕ) (c k j rest asked : ℕ)
    → f c ≡ none
    → asked ≡ rest + pending (f k) + owes c k
    → asked ≡ rest + pending (put_data c (some j) f k) + 0
unfolding put_data
attach-counts f c k j rest asked free h = elim (Bool-cases (k == c)) [
  | inl here ↦
      let same : k ≡ c = ground arith in
      let clear : f k ≡ none = rw same free in
      rw here (omega (arith, rw here at h, ap pending clear))
  | inr there ↦ rw there (omega (arith, rw there at h))
]

pub attach-IsSound :
    (c : ℕ) (stream : Bool) (d : Hub)
    → is_busy d.sys ≡ false
    → d.fn_data c ≡ none
    → IsSound (owes c) d
    → IsSound nobody (attach c stream d)
unfolding attach put_data
attach-IsSound c stream d idle free v =
    let j = d.next_job in
    let s = set_stream j stream d.sys in
    let new = (set_stream-same j j stream d.sys).1 ∙ v.unborn j (omega arith) in
    record {
      owner = owner_of j c v.owner;
      counts = λ k.
          attach-counts d.fn_data c k j (d.answered k + d.dropped k) (d.asked k) free (v.counts k);
      safe = record {
        owned = λ k. submit-IsOwned k j s (set_stream-IsOwned k j stream d.sys (v.safe.owned k));
        defined = λ e.
            v.safe.defined (sym (set_stream-place j stream d.sys) ∙ sym (submit-place j s) ∙ e);
      };
      linked = λ k. elim (Bool-cases (k == c)) [
        | inl here ↦
            let same : c ≡ k = ground arith in
            let first : (j == j) ≡ true = ground arith in
            rw here (
              submit_job-own j s new (set_stream-is_busy j stream d.sys ∙ idle),
              omega arith,
              rw first same,
            )
        | inr there ↦ rw there (
            older-IsLinked d.sys (submit_job j s) j v.owner k c (d.fn_data k)
              (λ i apart. (submit_job-others j i s apart).0 ∙ (set_stream-same j i stream d.sys).0)
              (v.linked k))
      ];
      unborn = λ k later.
          (submit_job-others j k s (λ e. absurd (omega (arith, e, later)))).1
          ∙ (set_stream-same j k stream d.sys).1
          ∙ v.unborn k (omega (arith, later));
    }
