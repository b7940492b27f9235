-- ===== src/UiStream/Protocol.antt =====
-- The order in which a UI message stream may give its chunks, as a reader of it would check it, and
-- the streams of the converter (packages/agent/src/ui-message-stream.ts).
use runcell.Prelude.{
  ◌+◌, ◌≡◌, refl, ap, ◌∙◌, String, Bool, true, false, not, ◌&&◌, ◌||◌, Option, none, some, List, [],
  ◌∷◌, ◌++◌, if◌then◌else◌, str_eq, eq_refl, or_else, is_some, arith, Bool-cases, Option-cases, inl,
  inr,
}
use runcell.UiStream.{
  ToolPolicy, full, names_only, hidden, Chunk, start, start_step, finish_step, text_start, text_end,
  reasoning_start, reasoning_end, text_delta, reasoning_delta, tool_input, tool_output, finish,
  message_metadata, error, Kind, starts_text, adds_text, ends_text, starts_reasoning,
  adds_reasoning, ends_reasoning, calls_tool, gives_result, finishes, other, kind_of, Part, Options,
  Converter, fresh, read_id, read_delta, read_tool_name, opening, opened, end_text, end_reasoning,
  closing, closed, text_chunks, reasoning_chunks, call_tool, give_result, is_plumbing,
  resolve_tool_policy, handle_kind, handle_part, Ending, succeeds, fails, settle, end, convert,
}
use runcell.UiStream.Ends.{
  starts_over, count_over, blocks_begun, blocks_ended, blocks_begun-convert,
}

-- What a reader has seen of a message: whether it has begun, whether a step is open, the open
-- blocks, and whether it has ended.
pub record Reader : Type 0 where
  pub begun : Bool
  pub in_step : Bool
  pub text : Option String
  pub reasoning : Option String
  pub ended : Bool

abbrev pub at_start : Reader
at_start = record { begun = false; in_step = false; text = none; reasoning = none; ended = false }

abbrev pub is_at : Option String → String → Bool
is_at none id = false
is_at (some open_id) id = str_eq open_id id

abbrev when : Bool → Reader → Option Reader
when true r = some r
when false r = none

abbrev pub is_idle : Reader → Bool
is_idle r = not (is_some r.text) && not (is_some r.reasoning)

-- One chunk. A message begins once, its steps do not nest, blocks stand inside a step, a delta and
-- an end name the block of their kind that started last, which has not ended yet, a tool's input
-- and the end of a step come when that block has ended, and nothing follows the end of the message.
-- A block that starts before the last of its kind has ended takes its place, and the reader does
-- not ask for the end of the other. A strict reader does not let a block start so.
abbrev pub read : Bool → Reader → Chunk → Option Reader
read strict r start = when (not r.ended && not r.begun) (record r { begun = true })
read strict r start_step =
    when (not r.ended && r.begun && not r.in_step) (record r { in_step = true })
read strict r finish_step =
    when (not r.ended && r.in_step && is_idle r) (record r { in_step = false })
read strict r (text_start id) =
    when (not r.ended && r.in_step && not (strict && is_some r.text)) (record r { text = some id })
read strict r (text_end id) =
    when (not r.ended && r.in_step && is_at r.text id) (record r { text = none })
read strict r (reasoning_start id) =
    when (not r.ended && r.in_step && not (strict && is_some r.reasoning))
      (record r { reasoning = some id })
read strict r (reasoning_end id) =
    when (not r.ended && r.in_step && is_at r.reasoning id) (record r { reasoning = none })
read strict r (text_delta id delta) = when (not r.ended && r.in_step && is_at r.text id) r
read strict r (reasoning_delta id delta) = when (not r.ended && r.in_step && is_at r.reasoning id) r
read strict r (tool_input call name input) = when (not r.ended && r.in_step && is_idle r) r
read strict r (tool_output call output) = when (not r.ended && r.in_step) r
read strict r (message_metadata data_value) = when (not r.ended && r.begun && not r.in_step) r
read strict r (finish usage session) =
    when (not r.ended && r.begun && not r.in_step && is_idle r) (record r { ended = true })
read strict r (error text) =
    when (not r.ended && r.begun && not r.in_step && is_idle r) (record r { ended = true })

abbrev pub then_read : Bool → Option Reader → Chunk → Option Reader
then_read strict none chunk = none
then_read strict (some r) chunk = read strict r chunk

-- All chunks of a list.
abbrev pub read_all : Bool → Option Reader → List Chunk → Option Reader
read_all strict r [] = r
read_all strict r (chunk ∷ chunks) = read_all strict (then_read strict r chunk) chunks

-- A stream that the reader accepts to its end.
abbrev pub IsAccepted : Bool → List Chunk → Type 0
IsAccepted strict chunks =
    (r : Reader) × (read_all strict (some at_start) chunks ≡ some r) × (r.ended ≡ true)

-- The reader that knows what the converter knows.
abbrev view : Converter → Reader
view c = record {
  begun = c.message_started;
  in_step = c.step_open;
  text = c.open_text;
  reasoning = c.open_reasoning;
  ended = false;
}

-- What holds of the converter between parts: blocks stand in a step, and steps in the message.
abbrev is_sound : Converter → Bool
is_sound c =
    (not c.step_open || c.message_started)
    && (c.step_open || (not (is_some c.open_text) && not (is_some c.open_reasoning)))

read_all-append :
    (strict : Bool) (r : Option Reader) (xs ys : List Chunk)
    → read_all strict r (xs ++ ys) ≡ read_all strict (read_all strict r xs) ys
read_all-append strict r [] ys = refl
read_all-append strict r (x ∷ xs) ys = read_all-append strict (then_read strict r x) xs ys

read_opening :
    (strict : Bool) (c : Converter)
    → is_sound c ≡ true
    → read_all strict (some (view c)) (opening c) ≡ some (view (opened c))
unfolding opening
read_opening strict c s = ground arith

read_closing :
    (strict : Bool) (c : Converter)
    → c.step_open ≡ true
    → read_all strict (some (view c)) (closing c) ≡ some (view (closed c))
unfolding closing
read_closing strict c h = go c.open_text c.open_reasoning c h
  where
    go :
        (t u : Option String) (c : Converter)
        → c.step_open ≡ true
        → read_all strict
            (some (record (view c) { text = t; reasoning = u }))
            (end_text t ++ end_reasoning u)
          ≡ some (view (closed c))
    go none none c h = refl
    go none (some id) c h = ground (arith, eq_refl id)
    go (some id) none c h = ground (arith, eq_refl id)
    go (some id) (some jd) c h = ground (arith, eq_refl id, eq_refl jd)

-- The reader follows the converter, which stays sound.
abbrev Follows : Bool → Converter → Converter × List Chunk → Type 0
Follows strict c r = (read_all strict (some (view c)) r.1 ≡ some (view r.0)) × (is_sound r.0 ≡ true)

-- After the opening of the message and a step.
after_opening :
    (strict : Bool) (c c' : Converter) (chunks : List Chunk)
    → is_sound c ≡ true
    → read_all strict (some (view (opened c))) chunks ≡ some (view c')
    → read_all strict (some (view c)) (opening c ++ chunks) ≡ some (view c')
after_opening strict c c' chunks s e =
    read_all-append strict (some (view c)) (opening c) chunks
    ∙ (ap (λ (r : Option Reader). read_all strict r chunks) (read_opening strict c s) ∙ e)

after_closing :
    (strict : Bool) (c c' : Converter) (chunks : List Chunk)
    → c.step_open ≡ true
    → read_all strict (some (view (closed c))) chunks ≡ some (view c')
    → read_all strict (some (view c)) (closing c ++ chunks) ≡ some (view c')
after_closing strict c c' chunks h e =
    read_all-append strict (some (view c)) (closing c) chunks
    ∙ (ap (λ (r : Option Reader). read_all strict r chunks) (read_closing strict c h) ∙ e)

module _ (o : Options) (strict : Bool) (c : Converter) (part : Part) (s : is_sound c ≡ true) where
  Follows-starts_text :
      (strict && is_some c.open_text) ≡ false → Follows strict c (handle_kind o c part starts_text)
  unfolding handle_kind
  Follows-starts_text e = (
    after_opening strict c (record (opened c) { open_text = some (read_id part) })
        (text_start (read_id part) ∷ []) s (ground (arith, e)),
    refl,
  )

  Follows-adds_text : Follows strict c (handle_kind o c part adds_text)
  unfolding handle_kind
  Follows-adds_text = (
    after_opening strict c
        (record (opened c) { open_text = some (or_else c.open_text (read_id part)) })
        (text_chunks c.open_text (read_id part) (read_delta part)) s (go c.open_text),
    refl,
  )
    where
      go :
          (t : Option String)
          → read_all strict
              (some (record (view (opened c)) { text = t }))
              (text_chunks t (read_id part) (read_delta part))
            ≡ some (record (view (opened c)) { text = some (or_else t (read_id part)) })
      go none = ground (arith, eq_refl (read_id part))
      go (some id) = ground (arith, eq_refl id)

  Follows-ends_text : Follows strict c (handle_kind o c part ends_text)
  unfolding handle_kind
  Follows-ends_text = elim (Option-cases c.open_text) [
    | inl off ↦ rw (off, handle_kind) (ground (arith, off), ground (arith, s))
    | inr (id, on) ↦ (ground (arith, on, s, eq_refl id), ground (arith, s))
  ]

  Follows-starts_reasoning :
      (strict && (o.send_reasoning && is_some c.open_reasoning)) ≡ false
      → Follows strict c (handle_kind o c part starts_reasoning)
  unfolding handle_kind
  Follows-starts_reasoning e = elim (Bool-cases o.send_reasoning) [
    | inr off ↦ rw (off, handle_kind) (refl, s)
    | inl on ↦
        rw (on, handle_kind)
          (
            after_opening strict c (record (opened c) { open_reasoning = some (read_id part) })
                (reasoning_start (read_id part) ∷ []) s (ground (arith, e, on)),
            refl,
          )
  ]

  Follows-adds_reasoning : Follows strict c (handle_kind o c part adds_reasoning)
  unfolding handle_kind
  Follows-adds_reasoning = elim (Bool-cases o.send_reasoning) [
    | inr off ↦ rw (off, handle_kind) (refl, s)
    | inl on ↦
        rw (on, handle_kind)
          (
            after_opening strict c
                (record (opened c) {
                  open_reasoning = some (or_else c.open_reasoning (read_id part));
                })
                (reasoning_chunks c.open_reasoning (read_id part) (read_delta part)) s
                (go c.open_reasoning),
            refl,
          )
  ]
    where
      go :
          (t : Option String)
          → read_all strict
              (some (record (view (opened c)) { reasoning = t }))
              (reasoning_chunks t (read_id part) (read_delta part))
            ≡ some (record (view (opened c)) { reasoning = some (or_else t (read_id part)) })
      go none = ground (arith, eq_refl (read_id part))
      go (some id) = ground (arith, eq_refl id)

  Follows-ends_reasoning : Follows strict c (handle_kind o c part ends_reasoning)
  unfolding handle_kind
  Follows-ends_reasoning = elim (Option-cases c.open_reasoning) [
    | inl off ↦ rw (off, handle_kind) (ground (arith, off), ground (arith, s))
    | inr (id, on) ↦ (ground (arith, on, s, eq_refl id), ground (arith, s))
  ]

  Follows-call_tool : (policy : ToolPolicy) → Follows strict c (call_tool policy c part)
  unfolding closing
  Follows-call_tool hidden = (refl, s)
  Follows-call_tool full = (
    after_opening strict c (closed (opened c)) _ s
        (after_closing strict (opened c) (closed (opened c)) _ refl refl),
    refl,
  )
  Follows-call_tool names_only = (
    after_opening strict c (closed (opened c)) _ s
        (after_closing strict (opened c) (closed (opened c)) _ refl refl),
    refl,
  )

  Follows-give_result : (policy : ToolPolicy) → Follows strict c (give_result policy c part)
  Follows-give_result hidden = (refl, s)
  Follows-give_result full = (after_opening strict c (opened c) _ s refl, refl)
  Follows-give_result names_only = (after_opening strict c (opened c) _ s refl, refl)

  Follows-calls_tool : Follows strict c (handle_kind o c part calls_tool)
  unfolding handle_kind
  Follows-calls_tool = elim (Bool-cases (is_plumbing (read_tool_name part))) [
    | inl inner ↦ rw (inner, handle_kind) (refl, s)
    | inr mine ↦
        rw (mine, handle_kind)
          (Follows-call_tool (resolve_tool_policy o.send_tools (read_tool_name part)))
  ]

  Follows-gives_result : Follows strict c (handle_kind o c part gives_result)
  unfolding handle_kind
  Follows-gives_result = elim (Bool-cases (is_plumbing (read_tool_name part))) [
    | inl inner ↦ rw (inner, handle_kind) (refl, s)
    | inr mine ↦
        rw (mine, handle_kind)
          (Follows-give_result (resolve_tool_policy o.send_tools (read_tool_name part)))
  ]

  Follows-finishes : Follows strict c (handle_kind o c part finishes)
  unfolding handle_kind
  Follows-finishes = pick c.step_open refl
    where
      pick :
          (b : Bool)
          → c.step_open ≡ b
          → Follows strict c (
              if b
              then (record (closed c) { step_open = false }, closing c ++ finish_step ∷ [])
              else (c, []))
      pick false off = (refl, s)
      pick true on = (
        after_closing strict c (record (closed c) { step_open = false }) (finish_step ∷ []) on
            (ground (arith, on)),
        ground (arith, s),
      )

  Follows-other : Follows strict c (handle_kind o c part other)
  unfolding handle_kind
  Follows-other = (refl, s)

  Follows-handle_kind :
      (kind : Kind)
      → (strict && starts_over o c kind) ≡ false
      → Follows strict c (handle_kind o c part kind)
  Follows-handle_kind starts_text e = Follows-starts_text e
  Follows-handle_kind adds_text e = Follows-adds_text
  Follows-handle_kind ends_text e = Follows-ends_text
  Follows-handle_kind starts_reasoning e = Follows-starts_reasoning e
  Follows-handle_kind adds_reasoning e = Follows-adds_reasoning
  Follows-handle_kind ends_reasoning e = Follows-ends_reasoning
  Follows-handle_kind calls_tool e = Follows-calls_tool
  Follows-handle_kind gives_result e = Follows-gives_result
  Follows-handle_kind finishes e = Follows-finishes
  Follows-handle_kind other e = Follows-other

-- What `settle` leaves to the reader: a message with no step and no block open.
abbrev done : Reader
done = record { begun = true; in_step = false; text = none; reasoning = none; ended = false }

read-settle :
    (strict : Bool) (c : Converter)
    → is_sound c ≡ true
    → read_all strict (some (view c)) (settle c) ≡ some done
unfolding settle
read-settle strict c s = pick c.step_open c.message_started refl refl
  where
    pick :
        (b m : Bool)
        → c.step_open ≡ b
        → c.message_started ≡ m
        → read_all strict
            (some (view c))
            ((if m then [] else start ∷ []) ++ (closing c ++ (if b then finish_step ∷ [] else [])))
          ≡ some done
    pick true true on begun =
        after_closing strict c (record (closed c) { step_open = false }) (finish_step ∷ []) on
          (ground (arith, on))
        ∙ ground (arith, begun)
    pick true false on begun = absurd (ground (arith, s, on, begun))
    pick false m off begun = ground (arith, s, off, begun)

read-end :
    (strict : Bool) (c : Converter) (ending : Ending)
    → is_sound c ≡ true
    → (r : Reader) × (read_all strict (some (view c)) (end c ending) ≡ some r) × (r.ended ≡ true)
unfolding end
read-end strict c (succeeds usage session) s = (
  record done { ended = true },
  read_all-append strict (some (view c)) (settle c) (finish usage session ∷ [])
      ∙ ap (λ (r : Option Reader). read_all strict r (finish usage session ∷ []))
          (read-settle strict c s),
  refl,
)
read-end strict c (fails none text) s = (
  record done { ended = true },
  read_all-append strict (some (view c)) (settle c) (error (or_else text "An error occurred.") ∷ [])
      ∙ ap
          (λ (r : Option Reader).
            read_all strict r (error (or_else text "An error occurred.") ∷ []))
          (read-settle strict c s),
  refl,
)
read-end strict c (fails (some usage) text) s = (
  record done { ended = true },
  read_all-append strict (some (view c)) (settle c)
        (message_metadata usage ∷ error (or_else text "An error occurred.") ∷ [])
      ∙ ap
          (λ (r : Option Reader).
            read_all strict r
              (message_metadata usage ∷ error (or_else text "An error occurred.") ∷ []))
          (read-settle strict c s),
  refl,
)

-- No part starts a block of a kind of which one is open.
abbrev pub AreSeparate : Options → Converter → List Part → Type 0
AreSeparate o c [] = Unit
AreSeparate o c (part ∷ parts) =
    (starts_over o c (kind_of part.type) ≡ false) × AreSeparate o (handle_part o c part).0 parts

convert_lem :
    (o : Options) (strict : Bool) (c : Converter) (parts : List Part) (ending : Ending)
    → is_sound c ≡ true
    → (strict ≡ true → AreSeparate o c parts)
    → (r : Reader) × (read_all strict (some (view c)) (convert o c parts ending) ≡ some r)
      × (r.ended ≡ true)
unfolding convert
convert_lem o strict c [] ending s sep = read-end strict c ending s
convert_lem o strict c (part ∷ parts) ending s sep =
    let (here, s') = step in
    let (r, rest, ended) =
      convert_lem o strict (handle_part o c part).0 parts ending s' (λ e. (sep e).1) in
    (
      r,
      read_all-append strict (some (view c)) (handle_part o c part).1
            (convert o (handle_part o c part).0 parts ending)
          ∙ (ap
                (λ (x : Option Reader).
                  read_all strict x (convert o (handle_part o c part).0 parts ending))
                here
              ∙ rest),
      ended,
    )
  where
    apart :
        (b : Bool)
        → (b ≡ true → starts_over o c (kind_of part.type) ≡ false)
        → (b && starts_over o c (kind_of part.type)) ≡ false
    apart true h = h refl
    apart false h = refl

    step : Follows strict c (handle_part o c part)
    step = Follows-handle_kind o strict c part s (kind_of part.type) (apart strict (λ e. (sep e).0))

-- Whatever parts a run streams, and however it ends, the chunks are one message in good order: it
-- begins once and ends once, its steps do not nest, blocks and tool chunks stand in a step, a delta
-- or an end names the block of its kind that started last, which has not ended yet, and a tool's
-- call and the end of a step come when the last block of each kind has ended. A block that starts
-- before the last of its kind has ended takes its place, and the other is not ended: the blocks that
-- begin are as many as those that end and the parts that start one while another of its kind is open.
pub convert-IsAccepted :
    (o : Options) (parts : List Part) (ending : Ending)
    → IsAccepted false (convert o fresh parts ending)
      × (blocks_begun (convert o fresh parts ending)
          ≡ blocks_ended (convert o fresh parts ending) + count_over o fresh parts)
convert-IsAccepted o parts ending =
    let balance = blocks_begun-convert o fresh parts ending in
    (convert_lem o false fresh parts ending refl (λ e. cc e), omega (arith, balance))

-- Where no part starts a block while one of its kind is open, moreover every block that starts is
-- ended before the next of its kind starts.
pub convert-IsAccepted_strict :
    (o : Options) (parts : List Part) (ending : Ending)
    → AreSeparate o fresh parts
    → IsAccepted true (convert o fresh parts ending)
convert-IsAccepted_strict o parts ending sep = convert_lem o true fresh parts ending refl (λ e. sep)
