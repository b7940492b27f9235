-- ===== src/UiStream/Ends.antt =====
-- The blocks of a UI message stream that begin, and those that end, by their number
-- (packages/agent/src/ui-message-stream.ts).
use runcell.Prelude.{
  ℕ, ◌+◌, ◌≡◌, refl, ◌∙◌, String, Bool, true, false, ◌&&◌, Option, none, some, List, [], ◌∷◌, ◌++◌,
  if◌then◌else◌, is_some, or_else, count_if, count_if-append, arith,
}
use runcell.UiStream.{
  ToolPolicy, full, names_only, hidden, Chunk, text_start, text_end, reasoning_start, reasoning_end,
  start, start_step, finish_step, finish, error, message_metadata, Kind, starts_text, adds_text,
  ends_text, starts_reasoning, adds_reasoning, ends_reasoning, calls_tool, gives_result, finishes,
  other, kind_of, Part, Options, Converter, read_id, read_delta, read_tool_name, opening, opened,
  end_text, end_reasoning, closing, closed, text_chunks, reasoning_chunks, call_tool, give_result,
  is_plumbing, resolve_tool_policy, handle_kind, handle_part, Ending, succeeds, fails, settle, end,
  convert,
}

-- A part that starts a block while one of its kind is open.
abbrev pub starts_over : Options → Converter → Kind → Bool
starts_over o c starts_text = is_some c.open_text
starts_over o c starts_reasoning = o.send_reasoning && is_some c.open_reasoning
starts_over o c kind = false

abbrev pub one_if : Bool → ℕ
one_if true = 1
one_if false = 0

-- How many parts do.
unfoldable pub count_over : Options → Converter → List Part → ℕ
count_over o c [] = 0
count_over o c (part ∷ parts) =
    one_if (starts_over o c (kind_of part.type)) + count_over o (handle_part o c part).0 parts

abbrev pub begins : Chunk → Bool
begins (text_start id) = true
begins (reasoning_start id) = true
begins chunk = false

abbrev pub ends : Chunk → Bool
ends (text_end id) = true
ends (reasoning_end id) = true
ends chunk = false

abbrev pub blocks_begun : List Chunk → ℕ
blocks_begun chunks = count_if begins chunks

abbrev pub blocks_ended : List Chunk → ℕ
blocks_ended chunks = count_if ends chunks

abbrev pub open_blocks : Converter → ℕ
open_blocks c = one_if (is_some c.open_text) + one_if (is_some c.open_reasoning)

-- The blocks that are open before, and those that begin, are ended, open afterwards, or left without
-- an end.
abbrev Balances : Converter → Converter × List Chunk → ℕ → Type 0
Balances c r left = blocks_begun r.1 + open_blocks c ≡ blocks_ended r.1 + (open_blocks r.0 + left)

opening-append :
    (p : Chunk → Bool) (c : Converter) (xs : List Chunk)
    → p start ≡ false
    → p start_step ≡ false
    → count_if p (opening c ++ xs) ≡ count_if p xs
unfolding opening
opening-append p c xs h k = go c.message_started c.step_open
  where
    go :
        (m s : Bool)
        → count_if p (((if m then [] else start ∷ []) ++ (if s then [] else start_step ∷ [])) ++ xs)
          ≡ count_if p xs
    go true true = refl
    go true false = rw k refl
    go false true = rw h refl
    go false false = rw (h, k) refl

blocks_begun-closing : (c : Converter) → blocks_begun (closing c) ≡ 0
unfolding closing
blocks_begun-closing c = go c.open_text c.open_reasoning
  where
    go : (t u : Option String) → blocks_begun (end_text t ++ end_reasoning u) ≡ 0
    go none none = refl
    go none (some jd) = refl
    go (some id) none = refl
    go (some id) (some jd) = refl

blocks_ended-closing : (c : Converter) → blocks_ended (closing c) ≡ open_blocks c
unfolding closing
blocks_ended-closing c = go c.open_text c.open_reasoning
  where
    go :
        (t u : Option String)
        → blocks_ended (end_text t ++ end_reasoning u) ≡ one_if (is_some t) + one_if (is_some u)
    go none none = refl
    go none (some jd) = refl
    go (some id) none = refl
    go (some id) (some jd) = refl

Balances-opening :
    (c c' : Converter) (xs : List Chunk) (left : ℕ)
    → Balances c (c', xs) left
    → Balances c (c', opening c ++ xs) left
Balances-opening c c' xs left h =
    rw (opening-append begins c xs refl refl, opening-append ends c xs refl refl) h

-- Chunks that end all blocks, and then some that are about none.
Balances-closing :
    (c c' : Converter) (xs : List Chunk)
    → open_blocks c' ≡ 0
    → blocks_begun xs ≡ 0
    → blocks_ended xs ≡ 0
    → Balances c (c', closing c ++ xs) 0
Balances-closing c c' xs shut h k =
    rw
      (
        count_if-append begins (closing c) xs,
        count_if-append ends (closing c) xs,
        blocks_begun-closing c,
        blocks_ended-closing c,
        h,
        k,
        shut,
      )
      (omega arith)

module _ (o : Options) (c : Converter) (part : Part) where
  Balances-call_tool : (policy : ToolPolicy) → Balances c (call_tool policy c part) 0
  Balances-call_tool hidden = omega arith
  Balances-call_tool full =
      Balances-opening c (closed (opened c)) _ 0
        (Balances-closing c (closed (opened c)) _ refl refl refl)
  Balances-call_tool names_only =
      Balances-opening c (closed (opened c)) _ 0
        (Balances-closing c (closed (opened c)) _ refl refl refl)

  Balances-give_result : (policy : ToolPolicy) → Balances c (give_result policy c part) 0
  Balances-give_result hidden = omega arith
  Balances-give_result full = Balances-opening c (opened c) _ 0 (omega arith)
  Balances-give_result names_only = Balances-opening c (opened c) _ 0 (omega arith)

  Balances-handle_kind :
      (kind : Kind) → Balances c (handle_kind o c part kind) (one_if (starts_over o c kind))
  unfolding handle_kind
  Balances-handle_kind starts_text =
      Balances-opening c (record (opened c) { open_text = some (read_id part) })
        (text_start (read_id part) ∷ []) (one_if (is_some c.open_text)) (omega arith)
  Balances-handle_kind adds_text =
      Balances-opening c
        (record (opened c) { open_text = some (or_else c.open_text (read_id part)) })
        (text_chunks c.open_text (read_id part) (read_delta part)) 0 (go c.open_text)
    where
      go :
          (t : Option String)
          → blocks_begun (text_chunks t (read_id part) (read_delta part))
              + (one_if (is_some t) + one_if (is_some c.open_reasoning))
            ≡ blocks_ended (text_chunks t (read_id part) (read_delta part))
              + ((1 + one_if (is_some c.open_reasoning)) + 0)
      go none = omega arith
      go (some id) = omega arith
  Balances-handle_kind ends_text = go c.open_text
    where
      go :
          (t : Option String)
          → blocks_begun (end_text t) + (one_if (is_some t) + one_if (is_some c.open_reasoning))
            ≡ blocks_ended (end_text t) + ((0 + one_if (is_some c.open_reasoning)) + 0)
      go none = omega arith
      go (some id) = omega arith
  Balances-handle_kind starts_reasoning = go o.send_reasoning
    where
      go :
          (b : Bool)
          → Balances c
              (if b
                then (
                  record (opened c) { open_reasoning = some (read_id part) },
                  opening c ++ reasoning_start (read_id part) ∷ [],
                )
                else (c, []))
              (one_if (b && is_some c.open_reasoning))
      go true =
          Balances-opening c (record (opened c) { open_reasoning = some (read_id part) })
            (reasoning_start (read_id part) ∷ []) (one_if (is_some c.open_reasoning)) (omega arith)
      go false = omega arith
  Balances-handle_kind adds_reasoning = go o.send_reasoning
    where
      add :
          (t : Option String)
          → blocks_begun (reasoning_chunks t (read_id part) (read_delta part))
              + (one_if (is_some c.open_text) + one_if (is_some t))
            ≡ blocks_ended (reasoning_chunks t (read_id part) (read_delta part))
              + ((one_if (is_some c.open_text) + 1) + 0)
      add none = omega arith
      add (some id) = omega arith

      go :
          (b : Bool)
          → Balances c
              (if b
                then (
                  record (opened c) {
                    open_reasoning = some (or_else c.open_reasoning (read_id part));
                  },
                  opening c ++ reasoning_chunks c.open_reasoning (read_id part) (read_delta part),
                )
                else (c, []))
              0
      go true =
          Balances-opening c
            (record (opened c) { open_reasoning = some (or_else c.open_reasoning (read_id part)) })
            (reasoning_chunks c.open_reasoning (read_id part) (read_delta part)) 0
            (add c.open_reasoning)
      go false = omega arith
  Balances-handle_kind ends_reasoning = go c.open_reasoning
    where
      go :
          (t : Option String)
          → blocks_begun (end_reasoning t) + (one_if (is_some c.open_text) + one_if (is_some t))
            ≡ blocks_ended (end_reasoning t) + ((one_if (is_some c.open_text) + 0) + 0)
      go none = omega arith
      go (some id) = omega arith
  Balances-handle_kind calls_tool = go (is_plumbing (read_tool_name part))
    where
      go :
          (b : Bool)
          → Balances c
              (if b
                then (c, [])
                else call_tool (resolve_tool_policy o.send_tools (read_tool_name part)) c part)
              0
      go true = omega arith
      go false = Balances-call_tool (resolve_tool_policy o.send_tools (read_tool_name part))
  Balances-handle_kind gives_result = go (is_plumbing (read_tool_name part))
    where
      go :
          (b : Bool)
          → Balances c
              (if b
                then (c, [])
                else give_result (resolve_tool_policy o.send_tools (read_tool_name part)) c part)
              0
      go true = omega arith
      go false = Balances-give_result (resolve_tool_policy o.send_tools (read_tool_name part))
  Balances-handle_kind finishes = go c.step_open
    where
      go :
          (b : Bool)
          → Balances c
              (if b
                then (record (closed c) { step_open = false }, closing c ++ finish_step ∷ [])
                else (c, []))
              0
      go true =
          Balances-closing c (record (closed c) { step_open = false }) (finish_step ∷ []) refl refl
            refl
      go false = omega arith
  Balances-handle_kind other = omega arith

count_if-settle :
    (p : Chunk → Bool) (c : Converter) (xs : List Chunk)
    → p start ≡ false
    → p finish_step ≡ false
    → count_if p (settle c ++ xs) ≡ count_if p (closing c) + count_if p xs
unfolding settle
count_if-settle p c xs h k = go c.message_started c.step_open
  where
    first : (m : Bool) → count_if p (if m then [] else start ∷ []) ≡ 0
    first true = refl
    first false = rw h refl

    last : (s : Bool) → count_if p (if s then finish_step ∷ [] else []) ≡ 0
    last true = rw k refl
    last false = refl

    go :
        (m s : Bool)
        → count_if p (
            ((if m then [] else start ∷ []) ++ (closing c ++ (if s then finish_step ∷ [] else [])))
            ++ xs)
          ≡ count_if p (closing c) + count_if p xs
    go m s =
        let tail = if s then finish_step ∷ [] else [] in
        let head = if m then [] else start ∷ [] in
        let outer = count_if-append p (head ++ (closing c ++ tail)) xs in
        let inner = count_if-append p head (closing c ++ tail) in
        let middle = count_if-append p (closing c) tail in
        omega (arith, outer, inner, middle, first m, last s)

-- The end of a run ends the blocks that are open.
settle-blocks_ended :
    (c : Converter) (xs : List Chunk)
    → blocks_begun xs ≡ 0
    → blocks_ended xs ≡ 0
    → blocks_begun (settle c ++ xs) + open_blocks c ≡ blocks_ended (settle c ++ xs)
settle-blocks_ended c xs h k =
    rw
      (
        count_if-settle begins c xs refl refl,
        count_if-settle ends c xs refl refl,
        blocks_begun-closing c,
        blocks_ended-closing c,
        h,
        k,
      )
      (omega arith)

end-blocks_ended :
    (c : Converter) (ending : Ending)
    → blocks_begun (end c ending) + open_blocks c ≡ blocks_ended (end c ending)
unfolding end
end-blocks_ended c (succeeds usage session) =
    settle-blocks_ended c (finish usage session ∷ []) refl refl
end-blocks_ended c (fails none text) =
    settle-blocks_ended c (error (or_else text "An error occurred.") ∷ []) refl refl
end-blocks_ended c (fails (some usage) text) =
    settle-blocks_ended c (message_metadata usage ∷ error (or_else text "An error occurred.") ∷ [])
      refl refl

-- All the blocks that begin are ended, but for one for each part that starts a block while one of its
-- kind is open.
pub blocks_begun-convert :
    (o : Options) (c : Converter) (parts : List Part) (ending : Ending)
    → blocks_begun (convert o c parts ending) + open_blocks c
      ≡ blocks_ended (convert o c parts ending) + count_over o c parts
unfolding convert count_over handle_part
blocks_begun-convert o c [] ending = end-blocks_ended c ending ∙ omega arith
blocks_begun-convert o c (part ∷ parts) ending =
    let (c', chunks) = handle_part o c part in
    let here = Balances-handle_kind o c part (kind_of part.type) in
    let rest = blocks_begun-convert o c' parts ending in
    rw
      (
        count_if-append begins chunks (convert o c' parts ending),
        count_if-append ends chunks (convert o c' parts ending),
      )
      (omega (arith, here, rest))
