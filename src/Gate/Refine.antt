-- ===== src/Gate/Refine.antt =====
-- What readers get from a forwarding stream (ForwardingStream in
-- packages/harness-pi-raw/src/pi-provider-gate.ts), against a specification without queues: the events
-- that were accepted and the turns of the readers, paired in their order.
use runcell.Prelude.{
  ℕ, ◌≡◌, refl, sym, ap, ◌∙◌, subst, Bool, true, false, Option, none, some, List, [], ◌∷◌, ◌++◌,
  map, append_assoc, append-nil,
}
use runcell.Gate.{
  Stream, fresh, Output, push, at_end, finish, next, Call, pushes, finishes, reads, step, run,
}

module _ (E R : Type 0) where
  -- What was asked of a stream: the events that came before its end, the turns of its readers, whether
  -- it has ended.
  pub record Log : Type 0 where
    pub events : List E
    pub readers : List ℕ
    pub ended : Bool

  abbrev pub nothing : Log
  nothing = record { events = []; readers = []; ended = false }

  abbrev pub with_last : Option E → List E → List E
  with_last none events = events
  with_last (some event) events = events ++ event ∷ []

  abbrev pub log_open : Call E R → Log → Log
  log_open (pushes event) l = record l { events = l.events ++ event ∷ [] }
  log_open (finishes last result) l = record l { events = with_last last l.events; ended = true }
  log_open (reads reader) l = record l { readers = l.readers ++ reader ∷ [] }

  abbrev pub log_ended : Call E R → Log → Log
  log_ended (reads reader) l = record l { readers = l.readers ++ reader ∷ [] }
  log_ended call l = l

  abbrev pub log_call : Bool → Call E R → Log → Log
  log_call false call l = log_open call l
  log_call true call l = log_ended call l

  abbrev pub log : List (Call E R) → Log → Log
  log [] l = l
  log (call ∷ calls) l = log calls (log_call l.ended call l)

  -- The first reader gets the first event, and so on; past the events a reader gets the end, once there
  -- is one.
  abbrev pub pair : List E → List ℕ → Bool → List (Output E R)
  pair events [] ended = []
  pair [] (c ∷ cs) true = (c, none) ∷ pair [] cs true
  pair [] (c ∷ cs) false = []
  pair (e ∷ es) (c ∷ cs) ended = (c, some e) ∷ pair es cs ended

  -- The events and the readers that are left over.
  abbrev over : List E → List ℕ → List E × List ℕ
  over events [] = (events, [])
  over [] (c ∷ cs) = ([], c ∷ cs)
  over (e ∷ es) (c ∷ cs) = over es cs

  abbrev settle_event : List E × List ℕ → E → (List E × List ℕ) × List (Output E R)
  settle_event (q, []) e = ((q ++ e ∷ [], []), [])
  settle_event (q, w ∷ ws) e = ((q, ws), (w, some e) ∷ [])

  pair-event :
      (es : List E) (cs : List ℕ) (e : E)
      → (over (es ++ e ∷ []) cs ≡ (settle_event (over es cs) e).0)
        × (pair (es ++ e ∷ []) cs false ≡ pair es cs false ++ (settle_event (over es cs) e).1)
  pair-event [] [] e = (refl, refl)
  pair-event (f ∷ es) [] e = (refl, refl)
  pair-event [] (c ∷ []) e = (refl, refl)
  pair-event [] (c ∷ d ∷ cs) e = (refl, refl)
  pair-event (f ∷ es) (c ∷ cs) e =
      let (left, said) = pair-event es cs e in
      (left, ap (λ (r : List (Output E R)). (c, some f) ∷ r) said)

  abbrev settle_reader : List E × List ℕ → Bool → ℕ → (List E × List ℕ) × List (Output E R)
  settle_reader (e ∷ q, ws) ended c = ((q, ws), (c, some e) ∷ [])
  settle_reader ([], ws) false c = (([], ws ++ c ∷ []), [])
  settle_reader ([], ws) true c = (([], ws ++ c ∷ []), (c, none) ∷ [])

  pair-reader :
      (es : List E) (cs : List ℕ) (ended : Bool) (c : ℕ)
      → (over es (cs ++ c ∷ []) ≡ (settle_reader (over es cs) ended c).0)
        × (pair es (cs ++ c ∷ []) ended
            ≡ pair es cs ended ++ (settle_reader (over es cs) ended c).1)
  pair-reader [] [] true c = (refl, refl)
  pair-reader [] [] false c = (refl, refl)
  pair-reader (e ∷ []) [] ended c = (refl, refl)
  pair-reader (e ∷ f ∷ es) [] ended c = (refl, refl)
  pair-reader [] (d ∷ cs) true c = (refl, ap (λ (r : List (Output E R)). (d, none) ∷ r) (past cs))
    where
      past : (cs : List ℕ) → pair [] (cs ++ c ∷ []) true ≡ pair [] cs true ++ (c, none) ∷ []
      past [] = refl
      past (d ∷ cs) = ap (λ (r : List (Output E R)). (d, none) ∷ r) (past cs)
  pair-reader [] (d ∷ cs) false c = (refl, refl)
  pair-reader (e ∷ es) (d ∷ cs) ended c =
      let (left, said) = pair-reader es cs ended c in
      (left, ap (λ (r : List (Output E R)). (d, some e) ∷ r) said)

  pair-ended :
      (es : List E) (cs : List ℕ)
      → pair es cs true ≡ pair es cs false ++ map (at_end E R) (over es cs).1
  pair-ended es [] = refl
  pair-ended [] (c ∷ cs) = ap (λ (r : List (Output E R)). (c, none) ∷ r) (past cs)
    where
      past : (cs : List ℕ) → pair [] cs true ≡ map (at_end E R) cs
      past [] = refl
      past (d ∷ cs) = ap (λ (r : List (Output E R)). (d, none) ∷ r) (past cs)
  pair-ended (e ∷ es) (c ∷ cs) = ap (λ (r : List (Output E R)). (c, some e) ∷ r) (pair-ended es cs)

  -- A stream with given events and readers left over.
  abbrev shaped : Bool → List E × List ℕ → Option R → Stream E R
  shaped false (q, ws) r = record { queue = q; waiters = ws; done = false; result = r }
  shaped true (q, ws) r = record { queue = q; waiters = []; done = true; result = r }

  abbrev Matches : Stream E R → Log → Type 0
  Matches s l = (r : Option R) × (s ≡ shaped l.ended (over l.events l.readers) r)

  -- A step that answers what the log then has more of.
  abbrev Refines : Log → Log → Stream E R × List (Output E R) → Type 0
  Refines l l' (s, out) =
      Matches s l' × (pair l'.events l'.readers l'.ended ≡ pair l.events l.readers l.ended ++ out)

  push-shaped :
      (o : List E × List ℕ) (e : E) (r : Option R)
      → push E R e (shaped false o r) ≡ (shaped false (settle_event o e).0 r, (settle_event o e).1)
  unfolding push
  push-shaped (q, []) e r = refl
  push-shaped (q, w ∷ ws) e r = refl

  push-Refines :
      (es : List E) (cs : List ℕ) (e : E) (r : Option R)
      → Refines
          (record { events = es; readers = cs; ended = false })
          (record { events = es ++ e ∷ []; readers = cs; ended = false })
          (push E R e (shaped false (over es cs) r))
  push-Refines es cs e r =
      let (left, said) = pair-event es cs e in
      rw (push-shaped (over es cs) e r)
        ((r, ap (λ (o : List E × List ℕ). shaped false o r) (sym left)), said)

  finish-none :
      (o : List E × List ℕ) (result : R) (r : Option R)
      → finish E R none result (shaped false o r)
        ≡ (shaped true o (some result), map (at_end E R) o.1)
  unfolding finish
  finish-none (q, ws) result r = refl

  finish-some :
      (o : List E × List ℕ) (e : E) (result : R) (r : Option R)
      → finish E R (some e) result (shaped false o r) ≡ (
        shaped true (settle_event o e).0 (some result),
        (settle_event o e).1 ++ map (at_end E R) (settle_event o e).0.1,
      )
  unfolding finish push
  finish-some (q, []) e result r = refl
  finish-some (q, w ∷ ws) e result r = refl

  finish-Refines :
      (es : List E) (cs : List ℕ) (last : Option E) (result : R) (r : Option R)
      → Refines
          (record { events = es; readers = cs; ended = false })
          (record { events = with_last last es; readers = cs; ended = true })
          (finish E R last result (shaped false (over es cs) r))
  finish-Refines es cs none result r =
      rw (finish-none (over es cs) result r) ((some result, refl), pair-ended es cs)
  finish-Refines es cs (some e) result r =
      let (left, said) = pair-event es cs e in
      let o = settle_event (over es cs) e in
      rw (finish-some (over es cs) e result r) (
        (some result, ap (λ (o : List E × List ℕ). shaped true o (some result)) (sym left)),
        pair-ended (es ++ e ∷ []) cs
            ∙ ap (λ (x : List (Output E R)). x ++ map (at_end E R) (over (es ++ e ∷ []) cs).1) said
            ∙ ap (λ (p : List E × List ℕ). (pair es cs false ++ o.1) ++ map (at_end E R) p.1) left
            ∙ append_assoc (pair es cs false) o.1 (map (at_end E R) o.0.1),
      )

  next-shaped :
      (o : List E × List ℕ) (ended : Bool) (c : ℕ) (r : Option R)
      → next E R c (shaped ended o r)
        ≡ (shaped ended (settle_reader o ended c).0 r, (settle_reader o ended c).1)
  unfolding next
  next-shaped ([], ws) false c r = refl
  next-shaped ([], ws) true c r = refl
  next-shaped (e ∷ q, ws) false c r = refl
  next-shaped (e ∷ q, ws) true c r = refl

  next-Refines :
      (es : List E) (cs : List ℕ) (ended : Bool) (c : ℕ) (r : Option R)
      → Refines
          (record { events = es; readers = cs; ended = ended })
          (record { events = es; readers = cs ++ c ∷ []; ended = ended })
          (next E R c (shaped ended (over es cs) r))
  next-Refines es cs ended c r =
      let (left, said) = pair-reader es cs ended c in
      rw (next-shaped (over es cs) ended c r)
        ((r, ap (λ (o : List E × List ℕ). shaped ended o r) (sym left)), said)

  step-Refines :
      (call : Call E R) (ended : Bool) (es : List E) (cs : List ℕ) (r : Option R)
      → Refines
          (record { events = es; readers = cs; ended = ended })
          (log_call ended call (record { events = es; readers = cs; ended = ended }))
          (step E R call (shaped ended (over es cs) r))
  unfolding step push finish
  step-Refines (pushes e) false es cs r = push-Refines es cs e r
  step-Refines (pushes e) true es cs r = ((r, refl), sym (append-nil (pair es cs true)))
  step-Refines (finishes last result) false es cs r = finish-Refines es cs last result r
  step-Refines (finishes last result) true es cs r = ((r, refl), sym (append-nil (pair es cs true)))
  step-Refines (reads c) false es cs r = next-Refines es cs false c r
  step-Refines (reads c) true es cs r = next-Refines es cs true c r

  run-Refines :
      (calls : List (Call E R)) (s : Stream E R) (l : Log)
      → Matches s l
      → pair (log calls l).events (log calls l).readers (log calls l).ended
        ≡ pair l.events l.readers l.ended ++ (run E R calls s).1
  unfolding run
  run-Refines [] s l h = sym (append-nil (pair l.events l.readers l.ended))
  run-Refines (call ∷ calls) s l (r, shape) =
      let (view, said) =
        subst (λ (x : Stream E R). Refines l (log_call l.ended call l) (step E R call x))
          (sym shape) (step-Refines call l.ended l.events l.readers r) in
      let next_step = step E R call s in
      run-Refines calls next_step.0 (log_call l.ended call l) view
      ∙ ap (λ (x : List (Output E R)). x ++ (run E R calls next_step.0).1) said
      ∙ append_assoc (pair l.events l.readers l.ended) next_step.1 (run E R calls next_step.0).1

  -- Whatever is pushed, finished and read, and in whatever order, the first reader's turn gets the first
  -- event that came before the end, the second the second, and so on; turns past them get the end when
  -- there is one, and nothing before.
  pub run-pair :
      (calls : List (Call E R))
      → (run E R calls (fresh E R)).1
        ≡ pair (log calls nothing).events (log calls nothing).readers (log calls nothing).ended
  run-pair calls = sym (run-Refines calls (fresh E R) nothing (none, refl))
