-- ===== src/Concurrency/Limiter/Queue.antt =====
-- The length of the queue of the in-process limiter
-- (packages/agent/src/concurrency-limiter.ts).
use runcell.Prelude.{
  ℕ, ◌+◌, ◌≤◌, ◌≡◌, sym, subst, ◌∙◌, String, Option, none, some, List, [], ◌∷◌, ltb, str_eq, eq_iff,
  eq_refl, lookup, delete, lookup-insert, length, length-append, is_some, IsMap, insert-Lacks,
  insert-IsMap, Bool-cases, Option-cases, inl, inr, arith, leb, Result, ok, err,
}
use runcell.Js.{Value}
use runcell.Concurrency.Policy.{ResolvedWorkload, ConfigError, resolve_workload}
use runcell.Concurrency.Policy.Valid.{IsValid}
use runcell.Concurrency.Limiter.{
  Options, Entry, Limiter, Request, Rejection, create, empty, arm_expiry_timer, schedule,
}
use runcell.Concurrency.Limiter.Operations.{
  min_defined, settle_in, drop_waiter, on_abort, on_wait_timeout, join, wait_for, acquire, resolved,
  on_expiry_timer, renew, release, Call, acquires, aborts, times_out, expires, renews, releases,
  handle, run,
}
use runcell.Concurrency.Limiter.Slots.Back.{length-insert}
use runcell.Concurrency.Limiter.Give.{
  Waiters, delete-IsMap, length-delete, length-delete_le, lookup-delete,
}
use runcell.Concurrency.Limiter.Rounds.{IsUnique}
use runcell.Concurrency.Limiter.Schedule.{schedule_keeps}
use runcell.Concurrency.Limiter.Invariant.{Inv}
use runcell.Concurrency.Limiter.Preserve.{handle-Inv}
use runcell.Concurrency.Limiter.Safety.{create-IsValid, empty-Inv}

-- At most one waiter more than allowed, and that one only while the newcomer is there.
record Room (most : ℕ) (id : String) (m : Waiters) : Type 0 where
  distinct : IsMap m
  nearly : length m ≤ most + 1
  without : lookup id m ≡ none → length m ≤ most

delete-Room : (most : ℕ) (id k : String) (m : Waiters) → Room most id m → Room most id (delete k m)
delete-Room most id k m r = elim (Bool-cases (str_eq k id)) [
  | inr other ↦ record {
    distinct = delete-IsMap k m r.distinct;
    nearly = omega (arith, length-delete_le k m, r.nearly);
    without = λ gone.
        omega (arith, length-delete_le k m, r.without (sym (lookup-delete k id m other) ∙ gone));
  }
  | inl same ↦
      let few =
        subst (λ (x : String). length (delete x m) ≤ most) (sym ((eq_iff k id).0 same)) fewer in
      record {
        distinct = delete-IsMap k m r.distinct;
        nearly = omega (arith, few);
        without = λ gone. few;
      }
]
  where
    fewer : length (delete id m) ≤ most
    fewer = elim (Option-cases (lookup id m)) [
      | inl gone ↦ omega (arith, length-delete_le id m, r.without gone)
      | inr (e, found) ↦ omega (arith, length-delete id e m r.distinct found, r.nearly)
    ]

module _ (uuid : ℕ → String) (o : Options) (most : ℕ)
    (limited : o.limits.max_queued ≡ some most) where
  abbrev Short : Limiter → Type 0
  Short st = length st.waiters ≤ most

  armed : (now : ℕ) (st : Limiter) → Short st → Short (arm_expiry_timer now st)
  unfolding arm_expiry_timer
  armed now st h = h

  scheduled : (now : ℕ) (st : Limiter) → Short st → Short (schedule uuid o now st).0
  scheduled now st h =
      schedule_keeps uuid o now (λ m. length m ≤ most)
        (λ k m l. omega (arith, l, length-delete_le k m)) st h

  dropped :
      (now : ℕ) (id : String) (why : Rejection) (st : Limiter)
      → Short st
      → Short (drop_waiter now id why st).0
  unfolding drop_waiter
  dropped now id why st h = armed now _ (omega (arith, h, length-delete_le id st.waiters))

  join-Room :
      (now : ℕ) (w : String) (st : Limiter)
      → Inv uuid o st
      → Short st
      → Room most (uuid st.drawn) (join uuid now w st).waiters
  unfolding join
  join-Room now w st v h = record {
    distinct = insert-IsMap (uuid st.drawn) entry st.waiters v.base.distinct;
    nearly =
        rw (insert-Lacks (uuid st.drawn) entry st.waiters (v.unseen st.drawn (omega arith)))
          (omega (arith, h, length-append st.waiters ((uuid st.drawn, entry) ∷ [])));
    without = λ gone. absurd (
        ground (
          arith,
          gone,
          lookup-insert (uuid st.drawn) (uuid st.drawn) entry st.waiters,
          eq_refl (uuid st.drawn),
        ));
  }
    where
      entry : Entry
      entry = record {
        waiter = record { id = uuid st.drawn; workload = w; seq = st.seq + 1 };
        enqueued_at = now;
        wait_until = none;
      }

  settled_in :
      (now : ℕ) (request : Request) (w : String) (settings : ResolvedWorkload) (id : String)
      (st : Limiter)
      → Room most id st.waiters
      → Short (settle_in o now request w settings id st).0
  unfolding settle_in
  settled_in now request w settings id st r = elim (Option-cases (lookup id st.waiters)) [
    | inl gone ↦ rw (gone, settle_in) (r.without gone)
    | inr (e, found) ↦ elim (Bool-cases (ltb most (length st.waiters))) [
      | inl full ↦
          rw (found, limited, full, settle_in)
            (armed now _ (omega (arith, length-delete id e st.waiters r.distinct found, r.nearly)))
      | inr room ↦ elim (Option-cases (min_defined request.timeout_ms settings.max_wait_ms)) [
        | inl forever ↦ rw (found, limited, room, forever, settle_in) (ground (arith, room))
        | inr (wait, timed) ↦
            rw
              (
                found,
                limited,
                room,
                timed,
                settle_in,
                length-insert id e (record e { enqueued_at = now; wait_until = some (now + wait) })
                    st.waiters found,
              )
              (ground (arith, room))
      ]
    ]
  ]

  acquired :
      (now : ℕ) (request : Request) (st : Limiter)
      → Inv uuid o st
      → Short st
      → Short (acquire uuid o now request st).0
  unfolding acquire wait_for
  acquired now request st v h = go (resolve_workload o.limits request.workload) request.aborted
    where
      go :
          (r : Result ConfigError (String × ResolvedWorkload)) (a : Option Value)
          → Short (resolved uuid o now (record request { aborted = a }) st r).0
      go (err e) a = h
      go (ok (w, settings)) (some reason) = h
      go (ok (w, settings)) none = settled_in now _ w settings (uuid st.drawn) _ (
          schedule_keeps uuid o now (Room most (uuid st.drawn))
            (λ k m r. delete-Room most (uuid st.drawn) k m r) (join uuid now w st)
            (join-Room now w st v h))

  renewed : (now : ℕ) (id : String) (st : Limiter) → Short st → Short (renew uuid o now id st).1
  unfolding renew
  renewed now id st h = elim (Option-cases (lookup id st.slots)) [
    | inl gone ↦ rw (gone, renew) (scheduled now st h)
    | inr (slot, found) ↦ elim (Bool-cases (leb slot.expires_at now)) [
      | inl old ↦ rw (found, old, renew) (scheduled now st h)
      | inr live ↦ rw (found, live, renew) (armed now _ h)
    ]
  ]

  handled : (st : Limiter) (c : ℕ × Call) → Inv uuid o st → Short st → Short (handle uuid o st c).0
  unfolding handle on_expiry_timer release on_abort on_wait_timeout
  handled st (now, acquires request) v h = acquired now request st v h
  handled st (now, aborts id reason) v h = elim (Bool-cases (is_some (lookup id st.waiters))) [
    | inl there ↦ rw there (dropped now id (Rejection.aborted reason) st h)
    | inr gone ↦ rw gone h
  ]
  handled st (now, times_out id) v h = elim (Option-cases (lookup id st.waiters)) [
    | inl gone ↦ rw (gone, on_wait_timeout) h
    | inr (e, found) ↦ rw (found, on_wait_timeout) (dropped now id _ st h)
  ]
  handled st (now, expires) v h = scheduled now _ h
  handled st (now, renews id) v h = renewed now id st h
  handled st (now, releases id) v h = scheduled now _ h

  runs :
      (unique : IsUnique uuid) (valid : IsValid o.limits) (st : Limiter) (cs : List (ℕ × Call))
      → Inv uuid o st
      → Short st
      → Short (run uuid o st cs)
  unfolding run
  runs unique valid st [] v h = h
  runs unique valid st (c ∷ cs) v h =
      runs unique valid (handle uuid o st c).0 cs (handle-Inv uuid unique o valid st c v)
        (handled st c v h)

-- Where `randomUUID` never repeats an id: after any history of calls, signals and timers on a
-- limiter whose settings pass validation with a `maxQueued`, no more than `maxQueued` requests wait.
pub length-run :
    (uuid : ℕ → String)
    → IsUnique uuid
    → (options : Value) (o : Options) → create options ≡ ok o
    → (most : ℕ) → o.limits.max_queued ≡ some most
    → (cs : List (ℕ × Call)) → length (run uuid o empty cs).waiters ≤ most
length-run uuid unique options o made most limited cs =
    let valid = create-IsValid options o made in
    runs uuid o most limited unique valid empty cs (empty-Inv uuid o valid) (omega arith)
