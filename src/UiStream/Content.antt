-- ===== src/UiStream/Content.antt =====
-- What a UI message stream carries, against the parts that it was made from
-- (packages/agent/src/ui-message-stream.ts).
use runcell.Prelude.{
  ◌≡◌, refl, sym, ap, ◌∙◌, String, Bool, true, false, Option, none, some, List, [], ◌∷◌, ◌++◌,
  append_assoc, if◌then◌else◌, or_else, arith, Bool-cases, inl, inr,
}
use runcell.Js.{Value, get}
use runcell.UiStream.{
  ToolPolicy, full, names_only, hidden, Chunk, start, start_step, finish_step, text_start, text_end,
  reasoning_start, reasoning_end, text_delta, reasoning_delta, tool_input, tool_output, finish,
  message_metadata, error, starts_text, adds_text, ends_text, starts_reasoning, adds_reasoning,
  ends_reasoning, calls_tool, gives_result, finishes, other, Part, Options, Converter, read_id,
  read_delta, read_tool_name, read_tool_call_id, opening, end_text, end_reasoning, closing, closed,
  text_chunks, reasoning_chunks, payload, call_tool, give_result, is_plumbing, resolve_tool_policy,
  handle_kind, handle_part, Ending, succeeds, fails, settle, end, convert,
}

-- What a reader of one sort of chunk finds in a list of chunks.
abbrev pub collect {ℓ} : {A : Type ℓ} → (Chunk → List A) → List Chunk → List A
collect f [] = []
collect f (chunk ∷ chunks) = f chunk ++ collect f chunks

abbrev pub collect_parts {ℓ} : {A : Type ℓ} → (Part → List A) → List Part → List A
collect_parts g [] = []
collect_parts g (part ∷ parts) = g part ++ collect_parts g parts

module _ {ℓ} {A : Type ℓ} (f : Chunk → List A) where
  collect-append : (xs ys : List Chunk) → collect f (xs ++ ys) ≡ collect f xs ++ collect f ys
  collect-append [] ys = refl
  collect-append (x ∷ xs) ys =
      ap (λ (r : List A). f x ++ r) (collect-append xs ys)
      ∙ sym (append_assoc (f x) (collect f xs) (collect f ys))

  -- Chunks that no reader of content looks at.
  pub record IsQuiet : Type ℓ where
    pub starts : f start ≡ []
    pub starts_step : f start_step ≡ []
    pub finishes_step : f finish_step ≡ []
    pub text_starts : (id : String) → f (text_start id) ≡ []
    pub text_ends : (id : String) → f (text_end id) ≡ []
    pub reasoning_starts : (id : String) → f (reasoning_start id) ≡ []
    pub reasoning_ends : (id : String) → f (reasoning_end id) ≡ []
    pub metadata : (usage : Value) → f (message_metadata usage) ≡ []
    pub errs : (text : String) → f (error text) ≡ []
    pub finished : (usage session : Value) → f (finish usage session) ≡ []

  module _ (q : IsQuiet) where
    collect-opening : (c : Converter) → collect f (opening c) ≡ []
    unfolding opening
    collect-opening c = ground (arith, q.starts, q.starts_step)

    collect-closing : (c : Converter) → collect f (closing c) ≡ []
    unfolding closing
    collect-closing c = go c.open_text c.open_reasoning
      where
        go : (t u : Option String) → collect f (end_text t ++ end_reasoning u) ≡ []
        go none none = refl
        go none (some id) = rw (q.reasoning_ends id) refl
        go (some id) none = rw (q.text_ends id) refl
        go (some id) (some jd) = rw (q.text_ends id, q.reasoning_ends jd) refl

    collect-end_text : (t : Option String) → collect f (end_text t) ≡ []
    collect-end_text none = refl
    collect-end_text (some id) = rw (q.text_ends id) refl

    collect-end_reasoning : (t : Option String) → collect f (end_reasoning t) ≡ []
    collect-end_reasoning none = refl
    collect-end_reasoning (some id) = rw (q.reasoning_ends id) refl

    collect-settle : (c : Converter) → collect f (settle c) ≡ []
    unfolding settle
    collect-settle c =
        collect-append (if c.message_started then [] else start ∷ [])
          (closing c ++ (if c.step_open then finish_step ∷ [] else []))
        ∙ rw
            (
              collect-append (closing c) (if c.step_open then finish_step ∷ [] else []),
              collect-closing c,
            )
            (ground (arith, q.starts, q.finishes_step))

    collect-end : (c : Converter) (ending : Ending) → collect f (end c ending) ≡ []
    unfolding end
    collect-end c (succeeds usage session) =
        collect-append (settle c) (finish usage session ∷ [])
        ∙ rw (collect-settle c, q.finished usage session) refl
    collect-end c (fails none text) =
        collect-append (settle c) (error (or_else text "An error occurred.") ∷ [])
        ∙ rw (collect-settle c, q.errs (or_else text "An error occurred.")) refl
    collect-end c (fails (some usage) text) =
        collect-append (settle c)
          (message_metadata usage ∷ error (or_else text "An error occurred.") ∷ [])
        ∙ rw (collect-settle c, q.metadata usage, q.errs (or_else text "An error occurred.")) refl

    -- Part by part.
    pub collect-convert :
        (o : Options) (g : Part → List A)
        → ((c : Converter) (part : Part) → collect f (handle_part o c part).1 ≡ g part)
        → (c : Converter) (parts : List Part) (ending : Ending)
        → collect f (convert o c parts ending) ≡ collect_parts g parts
    unfolding convert
    collect-convert o g h c [] ending = collect-end c ending
    collect-convert o g h c (part ∷ parts) ending =
        collect-append (handle_part o c part).1 (convert o (handle_part o c part).0 parts ending)
        ∙ rw (h c part, collect-convert o g h (handle_part o c part).0 parts ending) refl

module _ {ℓ} {A : Type ℓ} (f : Chunk → List A) (q : IsQuiet f) (o : Options) (c : Converter)
    (part : Part) where
  after_opening : (chunks : List Chunk) → collect f (opening c ++ chunks) ≡ collect f chunks
  after_opening chunks = collect-append f (opening c) chunks ∙ rw (collect-opening f q c) refl

  -- The kinds that only open and close.
  pub quiet_starts_text : collect f (handle_kind o c part starts_text).1 ≡ []
  unfolding handle_kind
  quiet_starts_text =
      after_opening (text_start (read_id part) ∷ []) ∙ rw (q.text_starts (read_id part)) refl

  pub quiet_ends_text : collect f (handle_kind o c part ends_text).1 ≡ []
  unfolding handle_kind
  quiet_ends_text = collect-end_text f q c.open_text

  pub quiet_starts_reasoning : collect f (handle_kind o c part starts_reasoning).1 ≡ []
  unfolding handle_kind
  quiet_starts_reasoning = elim (Bool-cases o.send_reasoning) [
    | inr off ↦ rw (off, handle_kind) refl
    | inl on ↦
        rw (on, handle_kind)
          (after_opening (reasoning_start (read_id part) ∷ [])
            ∙ rw (q.reasoning_starts (read_id part)) refl)
  ]

  pub quiet_ends_reasoning : collect f (handle_kind o c part ends_reasoning).1 ≡ []
  unfolding handle_kind
  quiet_ends_reasoning = collect-end_reasoning f q c.open_reasoning

  pub quiet_finishes : collect f (handle_kind o c part finishes).1 ≡ []
  unfolding handle_kind
  quiet_finishes = pick c.step_open
    where
      chunks : Converter × List Chunk → List A
      chunks r = collect f r.1

      pick :
          (b : Bool)
          → chunks (
              if b
              then (record (closed c) { step_open = false }, closing c ++ finish_step ∷ [])
              else (c, []))
            ≡ []
      pick false = refl
      pick true =
          collect-append f (closing c) (finish_step ∷ [])
          ∙ rw (collect-closing f q c, q.finishes_step) refl

  -- The kinds that carry content.
  pub told_text :
      collect f (handle_kind o c part adds_text).1
      ≡ collect f (text_delta (or_else c.open_text (read_id part)) (read_delta part) ∷ [])
  unfolding handle_kind
  told_text =
      after_opening (text_chunks c.open_text (read_id part) (read_delta part)) ∙ go c.open_text
    where
      go :
          (t : Option String)
          → collect f (text_chunks t (read_id part) (read_delta part))
            ≡ collect f (text_delta (or_else t (read_id part)) (read_delta part) ∷ [])
      go none = rw (q.text_starts (read_id part)) refl
      go (some id) = refl

  pub told_reasoning : collect f (handle_kind o c part adds_reasoning).1 ≡ (
      if o.send_reasoning
      then collect f
          (reasoning_delta (or_else c.open_reasoning (read_id part)) (read_delta part) ∷ [])
      else [])
  unfolding handle_kind
  told_reasoning = elim (Bool-cases o.send_reasoning) [
    | inr off ↦ rw (off, handle_kind) refl
    | inl on ↦
        rw (on, handle_kind)
          (after_opening (reasoning_chunks c.open_reasoning (read_id part) (read_delta part))
            ∙ go c.open_reasoning)
  ]
    where
      go :
          (t : Option String)
          → collect f (reasoning_chunks t (read_id part) (read_delta part))
            ≡ collect f (reasoning_delta (or_else t (read_id part)) (read_delta part) ∷ [])
      go none = rw (q.reasoning_starts (read_id part)) refl
      go (some id) = refl

  -- What the reader makes of the chunk of a tool, for its policy.
  abbrev pub input_told : ToolPolicy → List A
  input_told hidden = []
  input_told policy = collect f (
      tool_input (read_tool_call_id part) (read_tool_name part)
        (payload policy (get part.fields "input"))
      ∷ [])

  abbrev pub output_told : ToolPolicy → List A
  output_told hidden = []
  output_told policy =
      collect f
        (tool_output (read_tool_call_id part) (payload policy (get part.fields "output")) ∷ [])

  told_input : (policy : ToolPolicy) → collect f (call_tool policy c part).1 ≡ input_told policy
  told_input hidden = refl
  told_input full =
      after_opening _ ∙ (collect-append f (closing c) _ ∙ rw (collect-closing f q c) refl)
  told_input names_only =
      after_opening _ ∙ (collect-append f (closing c) _ ∙ rw (collect-closing f q c) refl)

  told_output : (policy : ToolPolicy) → collect f (give_result policy c part).1 ≡ output_told policy
  told_output hidden = refl
  told_output full = after_opening _
  told_output names_only = after_opening _

  pub told_call : collect f (handle_kind o c part calls_tool).1 ≡ (
      if is_plumbing (read_tool_name part)
      then []
      else input_told (resolve_tool_policy o.send_tools (read_tool_name part)))
  unfolding handle_kind
  told_call = elim (Bool-cases (is_plumbing (read_tool_name part))) [
    | inl inner ↦ rw (inner, handle_kind) refl
    | inr mine ↦
        rw (mine, handle_kind) (told_input (resolve_tool_policy o.send_tools (read_tool_name part)))
  ]

  pub told_result : collect f (handle_kind o c part gives_result).1 ≡ (
      if is_plumbing (read_tool_name part)
      then []
      else output_told (resolve_tool_policy o.send_tools (read_tool_name part)))
  unfolding handle_kind
  told_result = elim (Bool-cases (is_plumbing (read_tool_name part))) [
    | inl inner ↦ rw (inner, handle_kind) refl
    | inr mine ↦
        rw (mine, handle_kind)
          (told_output (resolve_tool_policy o.send_tools (read_tool_name part)))
  ]

  pub told_other : collect f (handle_kind o c part other).1 ≡ []
  unfolding handle_kind
  told_other = refl
