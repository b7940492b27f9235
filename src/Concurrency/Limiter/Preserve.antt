-- ===== src/Concurrency/Limiter/Preserve.antt =====
-- The invariant of the in-process limiter, operation by operation
-- (packages/agent/src/concurrency-limiter.ts).
use mathlib.Core.Path.{fun_ext}
use runcell.Prelude.{
  ℕ, ◌+◌, ◌≤◌, ◌<◌, ◌≡◌, refl, sym, ap, subst, ◌∙◌, String, Option, none, some, List, [], ◌∷◌, ◌++◌,
  eq_iff, lookup, insert, delete, length, is_some, Lacks, insert-Lacks, Lacks-insert, insert-IsMap,
  AllEntries, AllEntries-insert, All, All-append, All-map, Bool-cases, Option-cases, inl, inr,
  arith, leb, Result, ok, err,
}
use runcell.Js.{Value}
use runcell.Concurrency.Policy.{
  ResolvedWorkload, ResolvedLimits, ConfigError, resolve_workload, settings_of, or_default,
}
use runcell.Concurrency.Policy.Valid.{IsValid}
use runcell.Concurrency.Grants.{Waiter}
use runcell.Concurrency.Grants.Order.{IsConfigured}
use runcell.Concurrency.Limiter.{
  Options, Slot, Entry, Limiter, Request, Rejection, waiters_of, schedule,
}
use runcell.Concurrency.Limiter.Operations.{
  over, min_defined, settle_in, drop_waiter, on_abort, on_wait_timeout, join, wait_for, acquire,
  resolved, on_expiry_timer, renew, release, Call, acquires, aborts, times_out, expires, renews,
  releases, handle, run,
}
use runcell.Concurrency.Limiter.Slots.{Slots, held, unmet_by, Fits}
use runcell.Concurrency.Limiter.Slots.Back.{delete-Fits, held-insert, length-insert}
use runcell.Concurrency.Limiter.Give.{Waiters, IsKeyed, Lacks-delete}
use runcell.Concurrency.Limiter.Rounds.{IsUnique}
use runcell.Concurrency.Limiter.Schedule.{schedule-Base, schedule_keeps}
use runcell.Concurrency.Limiter.Invariant.{
  Inv, IsByAge, All-delete, IsByAge-delete, waiters_of-append, IsByAge-append, leave-Inv, arm-Inv,
}

-- A waiter's entry is rewritten with the same waiter.
pub waiters_of-insert :
    (id : String) (e e' : Entry) (m : Waiters)
    → lookup id m ≡ some e
    → e'.waiter ≡ e.waiter
    → waiters_of (insert id e' m) ≡ waiters_of m
unfolding lookup insert
waiters_of-insert id e e' [] h same = cc
waiters_of-insert id e e' ((k, u) ∷ m) h same = ground (arith, waiters_of-insert id e e' m)

Lacks-insert_old {ℓ} :
    {V : Type ℓ} (id k : String) (v u : V) (m : List (String × V))
    → lookup id m ≡ some u
    → Lacks k m
    → Lacks k (insert id v m)
unfolding lookup insert
Lacks-insert_old id k v u [] e h = cc
Lacks-insert_old id k v u ((j, w) ∷ m) e h = ground (arith, Lacks-insert_old id k v u m)

IsKeyed-lookup :
    (id : String) (m : Waiters) (e : Entry) → IsKeyed m → lookup id m ≡ some e → e.waiter.id ≡ id
unfolding lookup
IsKeyed-lookup id [] e k h = cc
IsKeyed-lookup id ((j, u) ∷ m) e k h = ground (arith, eq_iff j id, IsKeyed-lookup id m e k.1)

rewrite-Inv :
    (uuid : ℕ → String) (o : Options) (id : String) (e e' : Entry) (st : Limiter)
    → lookup id st.waiters ≡ some e
    → e'.waiter ≡ e.waiter
    → Inv uuid o st
    → Inv uuid o (record st { waiters = insert id e' st.waiters })
rewrite-Inv uuid o id e e' st found same v =
    let kept = waiters_of-insert id e e' st.waiters found same in
    record {
      base = record {
        fits = v.base.fits;
        keyed =
            AllEntries-insert (λ k x. x.waiter.id ≡ k) id e' st.waiters
              (ap (λ (w : Waiter). w.id) same ∙ IsKeyed-lookup id st.waiters e v.base.keyed found)
              v.base.keyed;
        distinct = insert-IsMap id e' st.waiters v.base.distinct;
        known = rw kept v.base.known;
        fresh = v.base.fresh;
      };
      unseen = λ i h. Lacks-insert_old id (uuid i) e' e st.waiters found (v.unseen i h);
      ages = rw kept v.ages;
      young = rw kept v.young;
    }

-- Slots that change, as long as the limits hold and no id to come is among them.
pub slots-Inv :
    (uuid : ℕ → String) (o : Options) (m : Slots) (st : Limiter)
    → Fits o.limits m
    → ((i : ℕ) → st.drawn ≤ i → Lacks (uuid i) m)
    → Inv uuid o st
    → Inv uuid o (record st { slots = m })
slots-Inv uuid o m st f fresh v = record {
  base = record {
    fits = f;
    keyed = v.base.keyed;
    distinct = v.base.distinct;
    known = v.base.known;
    fresh = fresh;
  };
  unseen = v.unseen;
  ages = v.ages;
  young = v.young;
}

settings_of-IsConfigured :
    (limits : ResolvedLimits) (name : Option String) (found : String × ResolvedWorkload)
    → settings_of limits name ≡ ok found
    → IsConfigured limits found.0
settings_of-IsConfigured limits none found e = cc
settings_of-IsConfigured limits (some name) found e =
    elim (Option-cases (lookup name limits.workloads)) [
      | inl gone ↦ ground arith
      | inr (w, h) ↦ ground (arith, h)
    ]

pub resolve_workload-IsConfigured :
    (limits : ResolvedLimits) (w : Option String) (found : String × ResolvedWorkload)
    → resolve_workload limits w ≡ ok found
    → IsConfigured limits found.0
unfolding resolve_workload
resolve_workload-IsConfigured limits w found e =
    settings_of-IsConfigured limits (or_default w limits.default_workload) found e

renewed-Fits :
    {limits : ResolvedLimits} (id : String) (s t : Slot) (m : Slots)
    → lookup id m ≡ some s
    → t.workload ≡ s.workload
    → Fits limits m
    → Fits limits (insert id t m)
renewed-Fits {limits} id s t m found same f =
    let counts =
      fun_ext {f = held (insert id t m)} {g = held m} (λ w. held-insert id s t m w found same) in
    record {
      ceilings =
          subst
            (λ (h : String → ℕ).
              AllEntries (λ k (w : ResolvedWorkload). h k ≤ w.max_concurrent) limits.workloads)
            (sym counts) f.ceilings;
      room = rw (length-insert id s t m found) (
          subst (λ (h : String → ℕ). length m + unmet_by limits.workloads h ≤ limits.max_concurrent)
            (sym counts) f.room);
    }

pub timer-Inv :
    (uuid : ℕ → String) (o : Options) (st : Limiter)
    → Inv uuid o st
    → Inv uuid o (record st { expiry_timer = none })
timer-Inv uuid o st v = record {
  base = record {
    fits = v.base.fits;
    keyed = v.base.keyed;
    distinct = v.base.distinct;
    known = v.base.known;
    fresh = v.base.fresh;
  };
  unseen = v.unseen;
  ages = v.ages;
  young = v.young;
}

module _ (uuid : ℕ → String) (unique : IsUnique uuid) (o : Options) (valid : IsValid o.limits) where
  schedule-Inv : (now : ℕ) (st : Limiter) → Inv uuid o st → Inv uuid o (schedule uuid o now st).0
  schedule-Inv now st v =
      let (base, _, seq, later) = schedule-Base uuid unique o valid now st v.base in
      record {
        base = base;
        unseen = λ i h.
            schedule_keeps uuid o now (λ m. Lacks (uuid i) m) (λ k m l. Lacks-delete k (uuid i) m l)
              st (v.unseen i (omega (arith, later)));
        ages = schedule_keeps uuid o now (λ m. IsByAge (waiters_of m)) IsByAge-delete st v.ages;
        young =
            schedule_keeps uuid o now
              (λ m. All (λ w. w.seq ≤ (schedule uuid o now st).0.seq) (waiters_of m))
              (All-delete (λ w. w.seq ≤ (schedule uuid o now st).0.seq)) st (rw seq v.young);
      }

  pub join-Inv :
      (now : ℕ) (w : String) (st : Limiter)
      → IsConfigured o.limits w
      → Inv uuid o st
      → Inv uuid o (join uuid now w st)
  unfolding join
  join-Inv now w st known v = record {
    base = record {
      fits = v.base.fits;
      keyed =
          AllEntries-insert (λ k e. e.waiter.id ≡ k) (uuid st.drawn) entry st.waiters refl
            v.base.keyed;
      distinct = insert-IsMap (uuid st.drawn) entry st.waiters v.base.distinct;
      known = rw joined (
          All-append (λ x. IsConfigured o.limits x.workload) (waiters_of st.waiters)
            (entry.waiter ∷ []) v.base.known (known, tt));
      fresh = λ i h. v.base.fresh i (omega arith);
    };
    unseen = λ i h.
        Lacks-insert (uuid st.drawn) (uuid i) entry st.waiters
          (λ same. omega (arith, unique st.drawn i same)) (v.unseen i (omega arith));
    ages = rw joined (IsByAge-append (waiters_of st.waiters) entry.waiter v.ages older);
    young = rw joined (
        All-append (λ x. x.seq ≤ st.seq + 1) (waiters_of st.waiters) (entry.waiter ∷ [])
          (All-map (λ x h. omega (arith, h)) (waiters_of st.waiters) v.young) (omega arith, tt));
  }
    where
      entry : Entry
      entry = record {
        waiter = record { id = uuid st.drawn; workload = w; seq = st.seq + 1 };
        enqueued_at = now;
        wait_until = none;
      }

      joined :
          waiters_of (insert (uuid st.drawn) entry st.waiters)
          ≡ waiters_of st.waiters ++ entry.waiter ∷ []
      joined =
          ap waiters_of
            (insert-Lacks (uuid st.drawn) entry st.waiters (v.unseen st.drawn (omega arith)))
          ∙ waiters_of-append st.waiters ((uuid st.drawn, entry) ∷ [])

      older : All (λ x. x.seq < entry.waiter.seq) (waiters_of st.waiters)
      older = All-map (λ x h. omega (arith, h)) (waiters_of st.waiters) v.young

  settle_in-Inv :
      (now : ℕ) (request : Request) (w : String) (settings : ResolvedWorkload) (id : String)
      (st : Limiter)
      → Inv uuid o st
      → Inv uuid o (settle_in o now request w settings id st).0
  unfolding settle_in
  settle_in-Inv now request w settings id st v = elim (Option-cases (lookup id st.waiters)) [
    | inl gone ↦ rw (gone, settle_in) v
    | inr (e, found) ↦ elim (Bool-cases (over o.limits.max_queued (length st.waiters))) [
      | inl full ↦ rw (found, full, settle_in) (arm-Inv uuid o now _ (leave-Inv uuid o id st v))
      | inr room ↦ elim (Option-cases (min_defined request.timeout_ms settings.max_wait_ms)) [
        | inl forever ↦ rw (found, room, forever, settle_in) v
        | inr (wait, limited) ↦
            rw (found, room, limited, settle_in) (rewrite-Inv uuid o id e _ st found refl v)
      ]
    ]
  ]

  drop_waiter-Inv :
      (now : ℕ) (id : String) (why : Rejection) (st : Limiter)
      → Inv uuid o st
      → Inv uuid o (drop_waiter now id why st).0
  unfolding drop_waiter
  drop_waiter-Inv now id why st v = arm-Inv uuid o now _ (leave-Inv uuid o id st v)

  on_abort-Inv :
      (now : ℕ) (id : String) (reason : Value) (st : Limiter)
      → Inv uuid o st
      → Inv uuid o (on_abort now id reason st).0
  unfolding on_abort
  on_abort-Inv now id reason st v = elim (Bool-cases (is_some (lookup id st.waiters))) [
    | inl there ↦ rw there (drop_waiter-Inv now id (Rejection.aborted reason) st v)
    | inr gone ↦ rw gone v
  ]

  on_wait_timeout-Inv :
      (now : ℕ) (id : String) (st : Limiter)
      → Inv uuid o st
      → Inv uuid o (on_wait_timeout now id st).0
  unfolding on_wait_timeout
  on_wait_timeout-Inv now id st v = elim (Option-cases (lookup id st.waiters)) [
    | inl gone ↦ rw (gone, on_wait_timeout) v
    | inr (e, found) ↦ rw (found, on_wait_timeout) (drop_waiter-Inv now id _ st v)
  ]

  wait_for-Inv :
      (now : ℕ) (request : Request) (w : String) (settings : ResolvedWorkload) (st : Limiter)
      → IsConfigured o.limits w
      → Inv uuid o st
      → Inv uuid o (wait_for uuid o now request w settings st).0
  unfolding wait_for
  wait_for-Inv now request w settings st known v =
      settle_in-Inv now request w settings (uuid st.drawn) _
        (schedule-Inv now (join uuid now w st) (join-Inv now w st known v))

  acquire-Inv :
      (now : ℕ) (request : Request) (st : Limiter)
      → Inv uuid o st
      → Inv uuid o (acquire uuid o now request st).0
  unfolding acquire
  acquire-Inv now request st v =
      go (resolve_workload o.limits request.workload) refl request.aborted
    where
      go :
          (r : Result ConfigError (String × ResolvedWorkload))
          → resolve_workload o.limits request.workload ≡ r
          → (a : Option Value)
          → Inv uuid o (resolved uuid o now (record request { aborted = a }) st r).0
      go (err e) h a = v
      go (ok (w, settings)) h (some reason) = v
      go (ok (w, settings)) h none =
          wait_for-Inv now _ w settings st
            (resolve_workload-IsConfigured o.limits request.workload (w, settings) h) v

  renew-Inv :
      (now : ℕ) (id : String) (st : Limiter) → Inv uuid o st → Inv uuid o (renew uuid o now id st).1
  unfolding renew
  renew-Inv now id st v = elim (Option-cases (lookup id st.slots)) [
    | inl gone ↦ rw (gone, renew) (schedule-Inv now st v)
    | inr (slot, found) ↦ elim (Bool-cases (leb slot.expires_at now)) [
      | inl old ↦ rw (found, old, renew) (schedule-Inv now st v)
      | inr live ↦
          rw (found, live, renew)
            (arm-Inv uuid o now _ (
              slots-Inv uuid o _ st (renewed-Fits id slot _ st.slots found refl v.base.fits)
                (λ i h. Lacks-insert_old id (uuid i) _ slot st.slots found (v.base.fresh i h)) v))
    ]
  ]

  pub released-Inv :
      (id : String) (st : Limiter)
      → Inv uuid o st
      → Inv uuid o (record st { slots = delete id st.slots })
  released-Inv id st v =
      slots-Inv uuid o _ st (delete-Fits o.limits valid.distinct id st.slots v.base.fits)
        (λ i h. Lacks-delete id (uuid i) st.slots (v.base.fresh i h)) v

  release-Inv :
      (now : ℕ) (id : String) (st : Limiter)
      → Inv uuid o st
      → Inv uuid o (release uuid o now id st).0
  unfolding release
  release-Inv now id st v = schedule-Inv now _ (
      slots-Inv uuid o (delete id st.slots) st
        (delete-Fits o.limits valid.distinct id st.slots v.base.fits)
        (λ i h. Lacks-delete id (uuid i) st.slots (v.base.fresh i h)) v)

  on_expiry_timer-Inv :
      (now : ℕ) (st : Limiter) → Inv uuid o st → Inv uuid o (on_expiry_timer uuid o now st).0
  unfolding on_expiry_timer
  on_expiry_timer-Inv now st v = schedule-Inv now _ (timer-Inv uuid o st v)

  -- Each run of the event loop keeps the invariant.
  pub handle-Inv : (st : Limiter) (c : ℕ × Call) → Inv uuid o st → Inv uuid o (handle uuid o st c).0
  unfolding handle
  handle-Inv st (now, acquires request) v = acquire-Inv now request st v
  handle-Inv st (now, aborts id reason) v = on_abort-Inv now id reason st v
  handle-Inv st (now, times_out id) v = on_wait_timeout-Inv now id st v
  handle-Inv st (now, expires) v = on_expiry_timer-Inv now st v
  handle-Inv st (now, renews id) v = renew-Inv now id st v
  handle-Inv st (now, releases id) v = release-Inv now id st v

  pub run-Inv :
      (st : Limiter) (cs : List (ℕ × Call)) → Inv uuid o st → Inv uuid o (run uuid o st cs)
  unfolding run
  run-Inv st [] v = v
  run-Inv st (c ∷ cs) v = run-Inv (handle uuid o st c).0 cs (handle-Inv st c v)
