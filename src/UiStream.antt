-- ===== src/UiStream.antt =====
-- packages/agent/src/ui-message-stream.ts: the converter of a run's stream parts to the chunks of a
-- UI message stream (createUIMessageChunkConverter). A part is an object with a `type`; `usage` and
-- `sessionId` of a result, and what `getRunUsage` and `onError` make of an error, are values that
-- the converter passes on.
pub mod Ends
pub mod Protocol
pub mod Content
pub mod Faithful
use runcell.Prelude.{
  String, Bool, true, false, not, ◌&&◌, ◌||◌, Option, none, some, List, [], ◌∷◌, ◌++◌,
  if◌then◌else◌, str_eq, lookup, or_else, is_some,
}
use runcell.Js.{Value, undefined, null, string, Fields, get}

-- What may stand for `true`, `false` and 'names-only' in `sendTools`.
pub data Flag : Type 0 where
  shown withheld named : Flag

-- `sendTools`: one flag for all tools, or a flag for each that is listed.
pub data SendTools : Type 0 where
  for_all : Option Flag → SendTools
  per_tool : List (String × Flag) → SendTools

pub data ToolPolicy : Type 0 where
  full names_only hidden : ToolPolicy

-- `asPolicy`.
abbrev pub as_policy : Option Flag → ToolPolicy
as_policy none = full
as_policy (some shown) = full
as_policy (some withheld) = hidden
as_policy (some named) = names_only

-- `resolveToolPolicy`.
unfoldable pub resolve_tool_policy : SendTools → String → ToolPolicy
resolve_tool_policy (for_all flag) tool = as_policy flag
resolve_tool_policy (per_tool flags) tool = as_policy (lookup tool flags)

-- `INTERNAL_TOOL_NAMES.has(name)`.
abbrev pub is_internal : String → Bool
is_internal name = str_eq name "submitResult" || str_eq name "fileChange"

-- `UIMessageChunk`, as far as the converter makes them.
pub data Chunk : Type 0 where
  start start_step finish_step : Chunk
  text_start text_end reasoning_start reasoning_end : String → Chunk
  text_delta reasoning_delta : String → String → Chunk
  tool_input : String → String → Value → Chunk
  tool_output : String → Value → Chunk
  finish : Value → Value → Chunk
  message_metadata : Value → Chunk
  error : String → Chunk

pub data Kind : Type 0 where
  starts_text adds_text ends_text starts_reasoning adds_reasoning ends_reasoning : Kind
  calls_tool gives_result finishes other : Kind

-- The `switch` on the type of a part.
abbrev pub kind_of : String → Kind
kind_of t =
    if str_eq t "text-start"
    then starts_text
    else if str_eq t "text-delta"
    then adds_text
    else if str_eq t "text-end"
    then ends_text
    else if str_eq t "reasoning-start"
    then starts_reasoning
    else if str_eq t "reasoning-delta"
    then adds_reasoning
    else if str_eq t "reasoning-end"
    then ends_reasoning
    else if str_eq t "tool-call"
    then calls_tool
    else if str_eq t "tool-result"
    then gives_result
    else if str_eq t "finish"
    then finishes
    else other

pub record Part : Type 0 where
  pub type : String
  pub fields : Fields

pub record Options : Type 0 where
  pub send_reasoning : Bool
  pub send_tools : SendTools

-- The variables of the converter's closure.
pub record Converter : Type 0 where
  pub message_started : Bool
  pub step_open : Bool
  pub open_text : Option String
  pub open_reasoning : Option String

abbrev pub fresh : Converter
fresh = record {
  message_started = false;
  step_open = false;
  open_text = none;
  open_reasoning = none;
}

abbrev pub text_or : Value → String → String
text_or (string s) d = s
text_or value d = d

-- `readId`, `readToolName` and `readToolCallId`.
abbrev pub read_id : Part → String
read_id part = text_or (get part.fields "id") "block"

abbrev pub read_tool_name : Part → String
read_tool_name part = text_or (get part.fields "toolName") ""

abbrev pub read_tool_call_id : Part → String
read_tool_call_id part = text_or (get part.fields "toolCallId") ""

abbrev pub nullish : Value → Value → Value
nullish undefined d = d
nullish null d = d
nullish value d = value

-- `readDelta`.
abbrev pub read_delta : Part → String
read_delta part = text_or (nullish (get part.fields "text") (get part.fields "delta")) ""

-- The chunks of `openMessageAndStep`, which leaves the message and a step open.
unfoldable pub opening : Converter → List Chunk
opening c =
    (if c.message_started then [] else start ∷ []) ++ (if c.step_open then [] else start_step ∷ [])

abbrev pub opened : Converter → Converter
opened c = record c { message_started = true; step_open = true }

abbrev pub end_text : Option String → List Chunk
end_text none = []
end_text (some id) = text_end id ∷ []

abbrev pub end_reasoning : Option String → List Chunk
end_reasoning none = []
end_reasoning (some id) = reasoning_end id ∷ []

-- The chunks of `closeOpenBlocks`, which leaves no block open.
unfoldable pub closing : Converter → List Chunk
closing c = end_text c.open_text ++ end_reasoning c.open_reasoning

abbrev pub closed : Converter → Converter
closed c = record c { open_text = none; open_reasoning = none }

-- A text delta: to the block that is open, or to one that is opened for it.
abbrev pub text_chunks : Option String → String → String → List Chunk
text_chunks none id delta = text_start id ∷ text_delta id delta ∷ []
text_chunks (some open_id) id delta = text_delta open_id delta ∷ []

abbrev pub reasoning_chunks : Option String → String → String → List Chunk
reasoning_chunks none id delta = reasoning_start id ∷ reasoning_delta id delta ∷ []
reasoning_chunks (some open_id) id delta = reasoning_delta open_id delta ∷ []

abbrev pub payload : ToolPolicy → Value → Value
payload names_only value = null
payload full value = value
payload hidden value = value

-- A tool call and a tool result, for the tool's policy.
abbrev pub call_tool : ToolPolicy → Converter → Part → Converter × List Chunk
call_tool hidden c part = (c, [])
call_tool policy c part = (
  closed (opened c),
  opening c
      ++ (closing c
          ++ tool_input (read_tool_call_id part) (read_tool_name part)
              (payload policy (get part.fields "input"))
            ∷ []),
)

abbrev pub give_result : ToolPolicy → Converter → Part → Converter × List Chunk
give_result hidden c part = (c, [])
give_result policy c part = (
  opened c,
  opening c
      ++ tool_output (read_tool_call_id part) (payload policy (get part.fields "output")) ∷ [],
)

abbrev pub is_plumbing : String → Bool
is_plumbing name = str_eq name "" || is_internal name

unfoldable pub handle_kind : Options → Converter → Part → Kind → Converter × List Chunk
unfolding opening closing resolve_tool_policy
handle_kind o c part starts_text = (
  record (opened c) { open_text = some (read_id part) },
  opening c ++ text_start (read_id part) ∷ [],
)
handle_kind o c part adds_text = (
  record (opened c) { open_text = some (or_else c.open_text (read_id part)) },
  opening c ++ text_chunks c.open_text (read_id part) (read_delta part),
)
handle_kind o c part ends_text = (record c { open_text = none }, end_text c.open_text)
handle_kind o c part starts_reasoning =
    if o.send_reasoning
    then (
      record (opened c) { open_reasoning = some (read_id part) },
      opening c ++ reasoning_start (read_id part) ∷ [],
    )
    else (c, [])
handle_kind o c part adds_reasoning =
    if o.send_reasoning
    then (
      record (opened c) { open_reasoning = some (or_else c.open_reasoning (read_id part)) },
      opening c ++ reasoning_chunks c.open_reasoning (read_id part) (read_delta part),
    )
    else (c, [])
handle_kind o c part ends_reasoning =
    (record c { open_reasoning = none }, end_reasoning c.open_reasoning)
handle_kind o c part calls_tool =
    if is_plumbing (read_tool_name part)
    then (c, [])
    else call_tool (resolve_tool_policy o.send_tools (read_tool_name part)) c part
handle_kind o c part gives_result =
    if is_plumbing (read_tool_name part)
    then (c, [])
    else give_result (resolve_tool_policy o.send_tools (read_tool_name part)) c part
handle_kind o c part finishes =
    if c.step_open
    then (record (closed c) { step_open = false }, closing c ++ finish_step ∷ [])
    else (c, [])
handle_kind o c part other = (c, [])

-- `handlePart`.
unfoldable pub handle_part : Options → Converter → Part → Converter × List Chunk
handle_part o c part = handle_kind o c part (kind_of part.type)

-- How a run ends: its result's usage and session, or its error's usage and what `onError` returns
-- for it, if it does not throw.
pub data Ending : Type 0 where
  succeeds : Value → Value → Ending
  fails : Option Value → Option String → Ending

abbrev pub usage_chunks : Option Value → List Chunk
usage_chunks none = []
usage_chunks (some usage) = message_metadata usage ∷ []

-- What `finish` and `fail` have in common: the message is opened, its blocks and its step closed.
unfoldable pub settle : Converter → List Chunk
unfolding closing
settle c =
    (if c.message_started then [] else start ∷ [])
    ++ (closing c ++ (if c.step_open then finish_step ∷ [] else []))

-- `finish` and `fail`.
unfoldable pub end : Converter → Ending → List Chunk
unfolding settle
end c (succeeds usage session) = settle c ++ finish usage session ∷ []
end c (fails usage text) =
    settle c ++ (usage_chunks usage ++ error (or_else text "An error occurred.") ∷ [])

-- `uiMessageStreamFromRun`, from a converter.
unfoldable pub convert : Options → Converter → List Part → Ending → List Chunk
unfolding handle_part handle_kind end
convert o c [] ending = end c ending
convert o c (part ∷ parts) ending =
    let (c', chunks) = handle_part o c part in chunks ++ convert o c' parts ending
