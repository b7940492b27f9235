-- ===== src/Tests/Gates.antt =====
-- Tests of forwarding streams.
use runcell.Prelude.{ℕ, ◌≡◌, refl, none, some, List, [], ◌∷◌}
use runcell.Gate.{Call, pushes, finishes, reads, push, finish, next, step, run, fresh}
use runcell.Gate.Refine.{log, nothing, pair, run-pair}

-- Two turns wait for the first event; the end comes with one more event, and later pushes are dropped.
abbrev calls : List (Call ℕ ℕ)
calls = reads 7 ∷ reads 8 ∷ pushes 1 ∷ finishes (some 2) 0 ∷ pushes 3 ∷ reads 7 ∷ []

run-calls : (run ℕ ℕ calls (fresh ℕ ℕ)).1 ≡ (7, some 1) ∷ (8, some 2) ∷ (7, none) ∷ []
unfolding run step push finish next
run-calls = refl

run-pair_example :
    (run ℕ ℕ calls (fresh ℕ ℕ)).1
    ≡ pair ℕ ℕ
        (log ℕ ℕ calls (nothing ℕ ℕ)).events
        (log ℕ ℕ calls (nothing ℕ ℕ)).readers
        (log ℕ ℕ calls (nothing ℕ ℕ)).ended
run-pair_example = run-pair ℕ ℕ calls
