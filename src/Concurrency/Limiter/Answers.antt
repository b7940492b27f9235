-- ===== src/Concurrency/Limiter/Answers.antt =====
-- The answers of the in-process limiter, counted against the requests
-- (packages/agent/src/concurrency-limiter.ts).
use runcell.Prelude.{
  ℕ, ◌+◌, ◌≡◌, refl, ap, ◌∙◌, String, Option, none, some, List, [], ◌∷◌, lookup, length,
  length-append, IsMap, insert-Lacks, insert-IsMap, Bool-cases, Option-cases, inl, inr, arith, leb,
  Result, ok, err,
}
use runcell.Js.{Value}
use runcell.Concurrency.Policy.{ResolvedWorkload, ConfigError, resolve_workload}
use runcell.Concurrency.Policy.Valid.{IsValid}
use runcell.Concurrency.Limiter.{
  Options, Entry, Limiter, Request, Rejection, Event, create, empty, arm_expiry_timer, schedule,
  give, give_all, purge_expired,
}
use runcell.Concurrency.Limiter.Operations.{
  over, min_defined, settle_in, drop_waiter, on_abort, on_wait_timeout, join, wait_for, acquire,
  resolved, on_expiry_timer, renew, release, Call, acquires, aborts, times_out, expires, renews,
  releases, handle, run, events,
}
use runcell.Concurrency.Limiter.Slots.Back.{length-insert}
use runcell.Concurrency.Limiter.Give.{delete-IsMap, length-delete}
use runcell.Concurrency.Limiter.Rounds.{IsUnique}
use runcell.Concurrency.Limiter.Schedule.{schedule_keeps}
use runcell.Concurrency.Limiter.Invariant.{Inv}
use runcell.Concurrency.Limiter.Preserve.{handle-Inv}
use runcell.Concurrency.Limiter.Safety.{create-IsValid, empty-Inv}

-- The number of requests that a history makes.
abbrev pub requests : List (ℕ × Call) → ℕ
requests [] = 0
requests ((now, acquires request) ∷ cs) = 1 + requests cs
requests ((now, c) ∷ cs) = requests cs

-- Every waiter that goes is answered, and `n` are new.
abbrev Balanced : Limiter → ℕ → Limiter × List Event → Type 0
Balanced st n r = length r.1 + length r.0.waiters ≡ length st.waiters + n

module _ (uuid : ℕ → String) (o : Options) where
  gives :
      (now : ℕ) (st : Limiter) (id : String)
      → IsMap st.waiters
      → Balanced st 0 (give uuid o now st id) × IsMap (give uuid o now st id).0.waiters
  unfolding give
  gives now st id d = elim (Option-cases (lookup id st.waiters)) [
    | inl gone ↦ rw (gone, give) (omega arith, d)
    | inr (e, found) ↦
        rw (found, give)
          (omega (arith, length-delete id e st.waiters d found), delete-IsMap id st.waiters d)
  ]

  gives_all :
      (now : ℕ) (st : Limiter) (ids : List String)
      → IsMap st.waiters
      → Balanced st 0 (give_all uuid o now st ids)
  unfolding give_all
  gives_all now st [] d = omega arith
  gives_all now st (id ∷ ids) d =
      let (b, d') = gives now st id d in
      let rest = gives_all now (give uuid o now st id).0 ids d' in
      omega (
        arith,
        b,
        rest,
        length-append (give uuid o now st id).1
            (give_all uuid o now (give uuid o now st id).0 ids).1,
      )

  scheduled : (now : ℕ) (st : Limiter) → IsMap st.waiters → Balanced st 0 (schedule uuid o now st)
  unfolding schedule arm_expiry_timer
  scheduled now st d = gives_all now (record st { slots = purge_expired now st.slots }) _ d

  dropped :
      (now : ℕ) (id : String) (e : Entry) (why : Rejection) (st : Limiter)
      → IsMap st.waiters
      → lookup id st.waiters ≡ some e
      → Balanced st 0 (drop_waiter now id why st)
  unfolding drop_waiter arm_expiry_timer
  dropped now id e why st d found = omega (arith, length-delete id e st.waiters d found)

  settled_in :
      (now : ℕ) (request : Request) (w : String) (settings : ResolvedWorkload) (id : String)
      (st : Limiter)
      → IsMap st.waiters
      → Balanced st 0 (settle_in o now request w settings id st)
  unfolding settle_in arm_expiry_timer
  settled_in now request w settings id st d = elim (Option-cases (lookup id st.waiters)) [
    | inl gone ↦ rw (gone, settle_in) (omega arith)
    | inr (e, found) ↦ elim (Bool-cases (over o.limits.max_queued (length st.waiters))) [
      | inl full ↦
          rw (found, full, settle_in) (omega (arith, length-delete id e st.waiters d found))
      | inr room ↦ elim (Option-cases (min_defined request.timeout_ms settings.max_wait_ms)) [
        | inl forever ↦ rw (found, room, forever, settle_in) (omega arith)
        | inr (wait, timed) ↦
            rw
              (
                found,
                room,
                timed,
                settle_in,
                length-insert id e (record e { enqueued_at = now; wait_until = some (now + wait) })
                    st.waiters found,
              )
              (omega arith)
      ]
    ]
  ]

  joined :
      (now : ℕ) (w : String) (st : Limiter)
      → Inv uuid o st
      → length (join uuid now w st).waiters ≡ length st.waiters + 1
  unfolding join
  joined now w st v =
      ap length (insert-Lacks (uuid st.drawn) entry st.waiters (v.unseen st.drawn (omega arith)))
      ∙ omega (arith, length-append st.waiters ((uuid st.drawn, entry) ∷ []))
    where
      entry : Entry
      entry = record {
        waiter = record { id = uuid st.drawn; workload = w; seq = st.seq + 1 };
        enqueued_at = now;
        wait_until = none;
      }

  joined-IsMap :
      (now : ℕ) (w : String) (st : Limiter) → IsMap st.waiters → IsMap (join uuid now w st).waiters
  unfolding join
  joined-IsMap now w st d = insert-IsMap (uuid st.drawn) _ st.waiters d

  waits :
      (now : ℕ) (request : Request) (w : String) (settings : ResolvedWorkload) (st : Limiter)
      → Inv uuid o st
      → Balanced st 1 (wait_for uuid o now request w settings st)
  unfolding wait_for
  waits now request w settings st v =
      let d = joined-IsMap now w st v.base.distinct in
      let d' =
        schedule_keeps uuid o now IsMap (λ k m l. delete-IsMap k m l) (join uuid now w st) d in
      omega (
        arith,
        joined now w st v,
        scheduled now (join uuid now w st) d,
        settled_in now request w settings (uuid st.drawn)
            (schedule uuid o now (join uuid now w st)).0 d',
        length-append (schedule uuid o now (join uuid now w st)).1
            (settle_in o now request w settings (uuid st.drawn)
              (schedule uuid o now (join uuid now w st)).0).1,
      )

  acquired :
      (now : ℕ) (request : Request) (st : Limiter)
      → Inv uuid o st
      → Balanced st 1 (acquire uuid o now request st)
  unfolding acquire
  acquired now request st v = go (resolve_workload o.limits request.workload) request.aborted
    where
      go :
          (r : Result ConfigError (String × ResolvedWorkload)) (a : Option Value)
          → Balanced st 1 (resolved uuid o now (record request { aborted = a }) st r)
      go (err e) a = omega arith
      go (ok (w, settings)) (some reason) = omega arith
      go (ok (w, settings)) none = waits now _ w settings st v

  renewed :
      (now : ℕ) (id : String) (st : Limiter)
      → IsMap st.waiters
      → Balanced st 0 ((renew uuid o now id st).1, (renew uuid o now id st).2)
  unfolding renew arm_expiry_timer
  renewed now id st d = elim (Option-cases (lookup id st.slots)) [
    | inl gone ↦ rw (gone, renew) (scheduled now st d)
    | inr (slot, found) ↦ elim (Bool-cases (leb slot.expires_at now)) [
      | inl old ↦ rw (found, old, renew) (scheduled now st d)
      | inr live ↦ rw (found, live, renew) (omega arith)
    ]
  ]

  handled :
      (st : Limiter) (c : ℕ × Call)
      → Inv uuid o st
      → Balanced st (requests (c ∷ [])) (handle uuid o st c)
  unfolding handle on_expiry_timer release on_abort on_wait_timeout
  handled st (now, acquires request) v = acquired now request st v
  handled st (now, aborts id reason) v = elim (Option-cases (lookup id st.waiters)) [
    | inl gone ↦ rw (gone, on_abort) (omega arith)
    | inr (e, found) ↦
        rw (found, on_abort) (dropped now id e (Rejection.aborted reason) st v.base.distinct found)
  ]
  handled st (now, times_out id) v = elim (Option-cases (lookup id st.waiters)) [
    | inl gone ↦ rw (gone, on_wait_timeout) (omega arith)
    | inr (e, found) ↦ rw (found, on_wait_timeout) (dropped now id e _ st v.base.distinct found)
  ]
  handled st (now, expires) v = scheduled now _ v.base.distinct
  handled st (now, renews id) v = renewed now id st v.base.distinct
  handled st (now, releases id) v = scheduled now _ v.base.distinct

  requests-cons :
      (c : ℕ × Call) (cs : List (ℕ × Call)) → requests (c ∷ cs) ≡ requests (c ∷ []) + requests cs
  requests-cons (now, acquires request) cs = refl
  requests-cons (now, aborts id reason) cs = omega arith
  requests-cons (now, times_out id) cs = omega arith
  requests-cons (now, expires) cs = omega arith
  requests-cons (now, renews id) cs = omega arith
  requests-cons (now, releases id) cs = omega arith

  answers :
      (unique : IsUnique uuid) (valid : IsValid o.limits) (st : Limiter) (cs : List (ℕ × Call))
      → Inv uuid o st
      → Balanced st (requests cs) (run uuid o st cs, events uuid o st cs)
  unfolding run events
  answers unique valid st [] v = omega arith
  answers unique valid st (c ∷ cs) v = omega (
    arith,
    handled st c v,
    answers unique valid (handle uuid o st c).0 cs (handle-Inv uuid unique o valid st c v),
    requests-cons c cs,
    length-append (handle uuid o st c).1 (events uuid o (handle uuid o st c).0 cs),
  )

-- Where `randomUUID` never repeats an id: after any history of calls, signals and timers on a
-- limiter whose settings pass validation, the requests made are as many as the answers given
-- (grants, rejections and refusals) and the requests that still wait.
pub length-events :
    (uuid : ℕ → String)
    → IsUnique uuid
    → (options : Value) (o : Options) → create options ≡ ok o
    → (cs : List (ℕ × Call))
    → length (events uuid o empty cs) + length (run uuid o empty cs).waiters ≡ requests cs
length-events uuid unique options o made cs =
    let valid = create-IsValid options o made in
    omega (arith, answers uuid o unique valid empty cs (empty-Inv uuid o valid))
