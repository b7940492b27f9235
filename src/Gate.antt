-- ===== src/Gate.antt =====
-- packages/harness-pi-raw/src/pi-provider-gate.ts: the stream that forwards a provider's events to its
-- readers (ForwardingStream). A reader is a number, and a promise is the output that settles it.
pub mod Refine
use runcell.Prelude.{ℕ, Bool, true, false, Option, none, some, List, [], ◌∷◌, ◌++◌, map}

module _ (E R : Type 0) where
  -- The variables of the class, with `result` for what `resolveResult` was first called with.
  pub record Stream : Type 0 where
    pub queue : List E
    pub waiters : List ℕ
    pub done : Bool
    pub result : Option R

  abbrev pub fresh : Stream
  fresh = record { queue = []; waiters = []; done = false; result = none }

  -- A reader gets an event, or the end.
  abbrev pub Output : Type 0
  Output = ℕ × Option E

  abbrev pub hand_over : List ℕ → E → Stream → Stream × List Output
  hand_over [] event s = (record s { queue = s.queue ++ event ∷ [] }, [])
  hand_over (w ∷ ws) event s = (record s { waiters = ws }, (w, some event) ∷ [])

  abbrev pub unless_done : Bool → Stream → Stream × List Output → Stream × List Output
  unless_done true s step = (s, [])
  unless_done false s step = step

  -- `push`.
  unfoldable pub push : E → Stream → Stream × List Output
  push event s = unless_done s.done s (hand_over s.waiters event s)

  abbrev pub push_last : Option E → Stream → Stream × List Output
  push_last none s = (s, [])
  push_last (some event) s = push event s

  abbrev pub at_end : ℕ → Output
  at_end w = (w, none)

  abbrev pub close : R → Stream → Stream × List Output
  close result s =
      (record s { waiters = []; done = true; result = some result }, map at_end s.waiters)

  -- `finish`.
  unfoldable pub finish : Option E → R → Stream → Stream × List Output
  unfolding push
  finish last result s =
      let (s', handed) = push_last last s in
      let (s'', ended) = close result s' in unless_done s.done s (s'', handed ++ ended)

  abbrev pub wait : Bool → ℕ → Stream → Stream × List Output
  wait true reader s = (s, at_end reader ∷ [])
  wait false reader s = (record s { waiters = s.waiters ++ reader ∷ [] }, [])

  abbrev pub take_next : List E → ℕ → Stream → Stream × List Output
  take_next [] reader s = wait s.done reader s
  take_next (event ∷ events) reader s = (record s { queue = events }, (reader, some event) ∷ [])

  -- A reader's turn in the loop of the iterator.
  unfoldable pub next : ℕ → Stream → Stream × List Output
  next reader s = take_next s.queue reader s

  pub data Call : Type 0 where
    pushes : E → Call
    finishes : Option E → R → Call
    reads : ℕ → Call

  unfoldable pub step : Call → Stream → Stream × List Output
  unfolding push finish next
  step (pushes event) s = push event s
  step (finishes last result) s = finish last result s
  step (reads reader) s = next reader s

  -- The calls of a stream, one after the other.
  unfoldable pub run : List Call → Stream → Stream × List Output
  unfolding step
  run [] s = (s, [])
  run (call ∷ calls) s =
      let (s', first) = step call s in let (s'', rest) = run calls s' in (s'', first ++ rest)
