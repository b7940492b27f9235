-- ===== src/Concurrency/Limiter/Stats.antt =====
-- `stats` of the in-process limiter (packages/agent/src/concurrency-limiter.ts).
pub mod Counts
pub mod Inherited
pub mod Reported
use runcell.Prelude.{
  ℕ, suc, ◌+◌, ◌≡◌, refl, sym, ap, subst, All, ◌∙◌, String, Bool, true, false, Option, none, some,
  List, [], ◌∷◌, ◌||◌, if◌then◌else◌, str_eq, eq_iff, eq_refl, lookup, insert, lookup-insert,
  or_else, is_some, length, count_if, Bool-cases, Option-cases, inl, inr, values, arith,
}
use runcell.Concurrency.Policy.{ResolvedWorkload, ResolvedLimits}
use runcell.Concurrency.Limiter.{Options, Slot, Entry, Limiter, purge_expired}

pub record Tally : Type 0 where
  pub active : ℕ
  pub queued : ℕ

pub record Stats : Type 0 where
  pub active : ℕ
  pub queued : ℕ
  pub workloads : List (String × Tally)

abbrev pub Tallies : Type 0
Tallies = List (String × Tally)

-- The names that a plain object inherits from `Object.prototype`: `object[name] ??= …` finds them
-- there and stores no field.
unfoldable pub is_inherited : String → Bool
is_inherited k =
    str_eq k "constructor"
    || str_eq k "toString"
    || str_eq k "valueOf"
    || str_eq k "hasOwnProperty"
    || str_eq k "isPrototypeOf"
    || str_eq k "propertyIsEnumerable"
    || str_eq k "toLocaleString"
    || str_eq k "__proto__"
    || str_eq k "__defineGetter__"
    || str_eq k "__defineSetter__"
    || str_eq k "__lookupGetter__"
    || str_eq k "__lookupSetter__"

abbrev pub zero_tally : Tally
zero_tally = record { active = 0; queued = 0 }

-- `entry`: the workload's own field, made when it is missing.
unfoldable pub entry : String → Tallies → Tallies
entry w m = if is_inherited w || is_some (lookup w m) then m else insert w zero_tally m

-- `entry(workload).active += 1`, and so for `queued`: an inherited name leaves the object as it is.
unfoldable pub change : (Tally → Tally) → String → Tallies → Tallies
unfolding entry
change f w m = elim (lookup w (entry w m)) [
  | none ↦ entry w m
  | some t ↦ insert w (f t) (entry w m)
]

abbrev pub one_active : Tally → Tally
one_active t = record t { active = t.active + 1 }

abbrev pub one_queued : Tally → Tally
one_queued t = record t { queued = t.queued + 1 }

unfoldable pub entries_of : List (String × ResolvedWorkload) → Tallies → Tallies
entries_of [] m = m
entries_of ((w, settings) ∷ ws) m = entries_of ws (entry w m)

unfoldable pub tally_slots : List Slot → Tallies → Tallies
unfolding change
tally_slots [] m = m
tally_slots (slot ∷ slots) m = tally_slots slots (change one_active slot.workload m)

unfoldable pub tally_waiters : List Entry → Tallies → Tallies
unfolding change
tally_waiters [] m = m
tally_waiters (e ∷ es) m = tally_waiters es (change one_queued e.waiter.workload m)

-- `stats`, and the limiter that it leaves behind.
unfoldable pub stats : Options → ℕ → Limiter → Stats × Limiter
unfolding purge_expired entries_of tally_slots tally_waiters
stats o now st =
    let live = purge_expired now st.slots in
    (
      record {
        active = length live;
        queued = length st.waiters;
        workloads =
            tally_waiters (values st.waiters)
              (tally_slots (values live) (entries_of o.limits.workloads []));
      },
      record st { slots = live },
    )

-- The tally of a workload that the object has, or zero.
abbrev pub tally_of : String → Tallies → Tally
tally_of w m = or_else (lookup w m) zero_tally
