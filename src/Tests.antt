-- ===== src/Tests.antt =====
-- Concrete data for the tests, and the modules that run the models on them.
pub mod Policies
pub mod Allocations
pub mod Limiters
pub mod Files
pub mod Permits
pub mod Streams
pub mod Chats
pub mod Events
pub mod Contents
pub mod Gates
use Prim.Native.String.{count, ◌++◌ as append}
use text.Mathlib.TextLemmas.{length-append}
use runcell.Prelude.{
  ℕ, zero, suc, ◌+◌, ◌≡◌, ◌<◌, ◌≤◌, refl, sym, ap, ◌∙◌, String, false, ◌≢◌, str_eq, eq_iff, none,
  some, [], ◌∷◌, ok, pos, arith,
}
use runcell.Js.{Value, object, field, end, number, string}
use runcell.Concurrency.Policy.{ResolvedWorkload, ResolvedLimits}
use runcell.Concurrency.Limiter.{Options}
use runcell.Concurrency.Limiter.Rounds.{IsUnique}

-- Two slots, one of them reserved for `fg`; `bg` may hold one, and one request may wait.
abbrev pub raw : Value
raw = object (
    field "maxConcurrent" (number (pos 2)) (
      field "maxQueued" (number (pos 1)) (
        field "workloads"
          (object (
            field "fg" (object (field "reserved" (number (pos 1)) end))
              (field "bg" (object (field "maxConcurrent" (number (pos 1)) end)) end)))
          (field "defaultWorkload" (string "fg") (field "leaseTtlMs" (number (pos 100)) end)))))

abbrev pub fg : ResolvedWorkload
fg = record { max_concurrent = 2; reserved = 1; priority = pos 0; max_wait_ms = none }

abbrev pub bg : ResolvedWorkload
bg = record { max_concurrent = 1; reserved = 0; priority = pos 0; max_wait_ms = none }

abbrev pub limits : ResolvedLimits
limits = record {
  max_concurrent = 2;
  max_queued = some 1;
  default_workload = some "fg";
  workloads = ("fg", fg) ∷ ("bg", bg) ∷ [];
}

abbrev pub options : Options
options = record { limits = limits; name = "default"; lease_ttl_ms = 100 }

-- Ids of growing length, none twice.
unfoldable pub ids : ℕ → String
ids zero = ""
ids (suc n) = append "u" (ids n)

count-ids : (n : ℕ) → count (ids n) ≡ n
unfolding ids
count-ids zero = refl
count-ids (suc n) = length-append "u" (ids n) ∙ omega (arith, count-ids n)

pub ids-IsUnique : IsUnique ids
ids-IsUnique i j same = sym (count-ids i) ∙ ap count same ∙ count-ids j

pub apart : (a b : String) → str_eq a b ≡ false → a ≢ b
apart a b differ same = cc (differ, (eq_iff a b).1 same)
