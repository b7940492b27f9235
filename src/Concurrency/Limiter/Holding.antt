-- ===== src/Concurrency/Limiter/Holding.antt =====
-- The slots that are held while the in-process limiter handles calls, signals and timers
-- (packages/agent/src/concurrency-limiter.ts).
use runcell.Prelude.{
  ℕ, ◌+◌, ◌≤◌, ◌<◌, ◌≡◌, ◌≢◌, refl, ap, subst, ◌∙◌, String, false, Option, none, some, List, [],
  ◌∷◌, str_eq, eq_iff, lookup, insert, lookup-insert, lookup-Lacks, Lacks, is_some, Bool-cases,
  Option-cases, inl, inr, arith, leb, Result, ok, err,
}
use runcell.Js.{Value}
use runcell.Concurrency.Policy.{ResolvedWorkload, ConfigError, resolve_workload}
use runcell.Concurrency.Limiter.{
  Options, Slot, Limiter, Request, Rejection, create, empty, arm_expiry_timer, schedule, give,
  give_all, purge_expired,
}
use runcell.Concurrency.Limiter.Operations.{
  settle_in, drop_waiter, on_abort, on_wait_timeout, join, wait_for, acquire, resolved,
  on_expiry_timer, renew, release, Call, acquires, aborts, times_out, expires, renews, releases,
  handle, run,
}
use runcell.Concurrency.Limiter.Slots.{Slots}
use runcell.Concurrency.Limiter.Give.{lookup-delete}
use runcell.Concurrency.Limiter.Rounds.{IsUnique}
use runcell.Concurrency.Limiter.Safety.{create-ttl, history-Inv}

-- The slot is there, for its workload, and has not expired.
abbrev pub IsHeld : ℕ → String → String → Slots → Type 0
IsHeld now id w m = (s : Slot) × (lookup id m ≡ some s) × (s.workload ≡ w) × (now < s.expires_at)

lookup-purge_expired :
    (now : ℕ) (id : String) (s : Slot) (m : Slots)
    → lookup id m ≡ some s
    → now < s.expires_at
    → lookup id (purge_expired now m) ≡ some s
unfolding lookup purge_expired
lookup-purge_expired now id s [] found live = cc
lookup-purge_expired now id s ((k, u) ∷ m) found live =
    ground (arith, found, live, lookup-purge_expired now id s m)

module _ (uuid : ℕ → String) (o : Options) where
  -- The ids that are still to come differ from this one.
  abbrev IsOld : String → Limiter → Type 0
  IsOld id st = (i : ℕ) → st.drawn ≤ i → uuid i ≢ id

  lookup-give :
      (now : ℕ) (id : String) (x : String) (st : Limiter)
      → IsOld id st
      → (lookup id (give uuid o now st x).0.slots ≡ lookup id st.slots)
        × IsOld id (give uuid o now st x).0
  unfolding give
  lookup-give now id x st old = elim (Option-cases (lookup x st.waiters)) [
    | inl gone ↦ rw (gone, give) (refl, old)
    | inr (e, found) ↦
        let other = old st.drawn (omega arith) in
        rw (found, give)
          (
            ground (
              arith,
              other,
              eq_iff (uuid st.drawn) id,
              lookup-insert (uuid st.drawn) id
                  (record {
                    id = uuid st.drawn;
                    workload = e.waiter.workload;
                    expires_at = now + o.lease_ttl_ms;
                  })
                  st.slots,
            ),
            λ i h. old i (omega arith),
          )
  ]

  lookup-give_all :
      (now : ℕ) (id : String) (ids : List String) (st : Limiter)
      → IsOld id st
      → lookup id (give_all uuid o now st ids).0.slots ≡ lookup id st.slots
  unfolding give_all
  lookup-give_all now id [] st old = refl
  lookup-give_all now id (x ∷ ids) st old =
      let (same, next) = lookup-give now id x st old in
      lookup-give_all now id ids (give uuid o now st x).0 next ∙ same

  scheduled :
      (now : ℕ) (id w : String) (st : Limiter)
      → IsOld id st
      → IsHeld now id w st.slots
      → IsHeld now id w (schedule uuid o now st).0.slots
  unfolding schedule arm_expiry_timer
  scheduled now id w st old (s, found, same, live) = (
    s,
    lookup-give_all now id _ (record st { slots = purge_expired now st.slots }) old
        ∙ lookup-purge_expired now id s st.slots found live,
    same,
    live,
  )

  settled_in :
      (now : ℕ) (request : Request) (w : String) (settings : ResolvedWorkload) (id : String)
      (st : Limiter)
      → (settle_in o now request w settings id st).0.slots ≡ st.slots
  unfolding settle_in arm_expiry_timer
  settled_in now request w settings id st = ground arith

  dropped :
      (now : ℕ) (id : String) (why : Rejection) (st : Limiter)
      → (drop_waiter now id why st).0.slots ≡ st.slots
  unfolding drop_waiter arm_expiry_timer
  dropped now id why st = refl

  handed :
      (now : ℕ) (id w : String) (m m' : Slots) → m' ≡ m → IsHeld now id w m → IsHeld now id w m'
  handed now id w m m' same (s, found, ofs, live) =
      (s, ap (λ (x : Slots). lookup id x) same ∙ found, ofs, live)

  acquired :
      (now : ℕ) (id w : String) (request : Request) (st : Limiter)
      → IsOld id st
      → IsHeld now id w st.slots
      → IsHeld now id w (acquire uuid o now request st).0.slots
  unfolding acquire wait_for join
  acquired now id w request st old h =
      go (resolve_workload o.limits request.workload) request.aborted
    where
      go :
          (r : Result ConfigError (String × ResolvedWorkload)) (a : Option Value)
          → IsHeld now id w (resolved uuid o now (record request { aborted = a }) st r).0.slots
      go (err e) a = h
      go (ok (name, settings)) (some reason) = h
      go (ok (name, settings)) none =
          handed now id w (schedule uuid o now (join uuid now name st)).0.slots _
            (settled_in now _ name settings (uuid st.drawn)
              (schedule uuid o now (join uuid now name st)).0)
            (scheduled now id w (join uuid now name st) (λ i k. old i (omega arith)) h)

  lookup-renewed :
      (now : ℕ) (id k w : String) (slot : Slot) (st : Limiter)
      → 0 < o.lease_ttl_ms
      → lookup k st.slots ≡ some slot
      → IsHeld now id w st.slots
      → IsHeld now id w (insert k (record slot { expires_at = now + o.lease_ttl_ms }) st.slots)
  lookup-renewed now id k w slot st positive found (s, there, ofs, live) =
      elim (Bool-cases (str_eq k id)) [
        | inr other ↦ (s, lookup-insert k id slot' st.slots ∙ rw other there, ofs, live)
        | inl same ↦ (
          slot',
          lookup-insert k id slot' st.slots ∙ rw same refl,
          ground (arith, (eq_iff k id).0 same, found, there, ofs),
          omega (arith, positive),
        )
      ]
    where
      slot' : Slot
      slot' = record slot { expires_at = now + o.lease_ttl_ms }

  renewed :
      (now : ℕ) (id k w : String) (st : Limiter)
      → 0 < o.lease_ttl_ms
      → IsOld id st
      → IsHeld now id w st.slots
      → IsHeld now id w (renew uuid o now k st).1.slots
  unfolding renew arm_expiry_timer
  renewed now id k w st positive old h = elim (Option-cases (lookup k st.slots)) [
    | inl gone ↦ rw (gone, renew) (scheduled now id w st old h)
    | inr (slot, found) ↦ elim (Bool-cases (leb slot.expires_at now)) [
      | inl late ↦ rw (found, late, renew) (scheduled now id w st old h)
      | inr live ↦ rw (found, live, renew) (lookup-renewed now id k w slot st positive found h)
    ]
  ]

  handled :
      (now : ℕ) (id w : String) (c : Call) (st : Limiter)
      → 0 < o.lease_ttl_ms
      → IsOld id st
      → c ≢ releases id
      → IsHeld now id w st.slots
      → IsHeld now id w (handle uuid o st (now, c)).0.slots
  unfolding handle on_expiry_timer release on_abort on_wait_timeout
  handled now id w (acquires request) st positive old n h = acquired now id w request st old h
  handled now id w (aborts x reason) st positive old n h =
      elim (Bool-cases (is_some (lookup x st.waiters))) [
        | inl there ↦
            rw there (handed now id w st.slots _ (dropped now x (Rejection.aborted reason) st) h)
        | inr gone ↦ rw gone h
      ]
  handled now id w (times_out x) st positive old n h = elim (Option-cases (lookup x st.waiters)) [
    | inl gone ↦ rw (gone, on_wait_timeout) h
    | inr (e, found) ↦
        rw (found, on_wait_timeout) (handed now id w st.slots _ (dropped now x _ st) h)
  ]
  handled now id w expires st positive old n h = scheduled now id w _ old h
  handled now id w (renews x) st positive old n h = renewed now id x w st positive old h
  handled now id w (releases x) st positive old n (s, found, ofs, live) =
      scheduled now id w _ old (s, lookup-delete x id st.slots other ∙ found, ofs, live)
    where
      other : str_eq x id ≡ false
      other = elim (Bool-cases (str_eq x id)) [
        | inl same ↦ absurd (n (ap releases ((eq_iff x id).0 same)))
        | inr differ ↦ differ
      ]

-- Where `randomUUID` never repeats an id, for a limiter whose settings pass validation, after any
-- history: a slot that has not expired is still held, for the same workload and not expired, after
-- any further call, signal or timer but the release of that slot itself.
pub handle-IsHeld :
    (uuid : ℕ → String)
    → IsUnique uuid
    → (options : Value) (o : Options) → create options ≡ ok o
    → (cs : List (ℕ × Call)) (now : ℕ) (id w : String) (c : Call) → c ≢ releases id
    → IsHeld now id w (run uuid o empty cs).slots
    → IsHeld now id w (handle uuid o (run uuid o empty cs) (now, c)).0.slots
handle-IsHeld uuid unique options o made cs now id w c other held =
    handled uuid o now id w c (run uuid o empty cs) (create-ttl options o made) old other held
  where
    old : (i : ℕ) → (run uuid o empty cs).drawn ≤ i → uuid i ≢ id
    old i h same =
        let lacks = (history-Inv uuid unique options o made cs).base.fresh i h in
        cc (
          held.1,
          lookup-Lacks id (run uuid o empty cs).slots
              (subst (λ (x : String). Lacks x (run uuid o empty cs).slots) same lacks),
        )
