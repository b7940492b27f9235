-- ===== src/Translate/Tools.antt =====
-- packages/harness-pi-raw/src/pi-translate.ts: the calls and results of tools, and compaction.
use Prim.Native.String.{String}
use runcell.Prelude.{
  Bool, false, ◌||◌, Option, none, some, List, [], ◌∷◌, if◌then◌else◌, Text, str_eq, lookup, insert,
  delete, or_else,
}
use runcell.Js.{Value, undefined, null, string, number, fraction, object, array, Fields, get}
use runcell.Translate.ToolContent.{is_tool_content}
use runcell.Translate.Session.{
  Event, StreamPart, tool_call, tool_result, compaction, State, truthy, join_texts,
}

abbrev pub otherwise : Value → Value → Value
otherwise undefined d = d
otherwise null d = d
otherwise value d = value

abbrev pub array_text : Value → Option String
array_text (array parts) = truthy (some (join_texts parts))
array_text value = none

abbrev pub inner_content : Value → Value
inner_content (object fields) = get fields "content"
inner_content value = undefined

abbrev pub as_text : Value → Option String
as_text (string t) = some t
as_text value = none

abbrev pub first_text : List (Option String) → Value → Value
first_text [] d = d
first_text (none ∷ ts) d = first_text ts d
first_text (some t ∷ ts) d = string t

-- `unwrapPiToolResult`.
unfoldable pub unwrap_result : Event → Value
unwrap_result event =
    first_text
      (array_text (inner_content event.result)
        ∷ array_text event.content
        ∷ as_text event.result
        ∷ as_text event.content
        ∷ [])
      (otherwise event.result (otherwise event.content null))

-- `resolveToolName`.
abbrev pub wire_name : State → String → String
wire_name s native = or_else (lookup native s.common_names) native

abbrev pub has_name : String → List String → Bool
has_name name [] = false
has_name name (n ∷ ns) = str_eq n name || has_name name ns

abbrev pub native_name : String → String → Option String
native_name wire native = if str_eq wire native then none else some native

module _ (stringify : Value → Option String) where
  -- `serializeToolOutput` (pi-utils.ts).
  abbrev pub serialize_output : Value → String
  serialize_output (string t) = t
  serialize_output value = or_else (stringify value) "null"

  abbrev pub call_tool : Event → String → String → State → State × List StreamPart
  call_tool event id native s =
      let wire = wire_name s native in
      (
        record s { observed_names = insert id wire s.observed_names },
        tool_call id wire
              (serialize_output (otherwise event.args (otherwise event.input (object Fields.end))))
              (native_name wire native) (has_name native s.builtin_names)
            ∷ [],
      )

  -- `tool_execution_start`.
  abbrev pub on_tool_start : Option String → Option String → Event → State → State × List StreamPart
  on_tool_start none name event s = (s, [])
  on_tool_start (some id) none event s = (s, [])
  on_tool_start (some id) (some native) event s = call_tool event id native s

abbrev pub native_wire : Option String → State → Option String
native_wire none s = none
native_wire (some native) s = some (wire_name s native)

-- `recordedName ?? …`, where an empty name counts as absent in the end.
abbrev pub result_name : Option String → Event → State → Option String
result_name (some recorded) event s = truthy (some recorded)
result_name none event s = truthy (native_wire (truthy event.tool_name) s)

abbrev pub content_of : Value → Value
content_of (object fields) = get fields "content"
content_of value = undefined

module _ (reencode : Text → Text) where
  -- The result of a tool: what the host submitted, without the envelope of tool content, or else what
  -- the event carries.
  abbrev pub result_value : Option Value → Event → Value
  result_value none event = unwrap_result event
  result_value (some stored) event =
      let submitted = otherwise stored null in
      if is_tool_content reencode submitted then content_of submitted else submitted

  abbrev pub give_result : String → Option String → Event → State → State × List StreamPart
  give_result id none event s = (s, [])
  give_result id (some wire) event s = (
    record s { host_results = delete id s.host_results },
    tool_result id wire (result_value (lookup id s.host_results) event) event.is_error ∷ [],
  )

  -- `tool_execution_end` and `tool_result`.
  abbrev pub on_tool_end : Option String → Event → State → State × List StreamPart
  on_tool_end none event s = (s, [])
  on_tool_end (some id) event s =
      give_result id (result_name (lookup id s.observed_names) event s) event s

abbrev pub summary_of : Value → String
summary_of (string t) = t
summary_of value = "(no summary provided)"

abbrev pub numeric : Value → Option Value
numeric (number n) = some (number n)
numeric (fraction t) = some (fraction t)
numeric value = none

abbrev pub compacted : Option String → Value → List StreamPart
compacted reason (object fields) =
    compaction (str_eq (or_else reason "") "manual") (summary_of (get fields "summary"))
      (numeric (get fields "tokensBefore"))
    ∷ []
compacted reason (array vs) =
    compaction (str_eq (or_else reason "") "manual") "(no summary provided)" none ∷ []
compacted reason value = []
