-- ===== src/Translate.antt =====
-- packages/harness-pi-raw/src/pi-translate.ts and pi-events.ts: how the events of a Pi session become
-- the stream parts of a run (translatePiEvent, extractAssistantText). An event has the fields that
-- `piSessionEventSchema` leaves it, with `undefined` for a value that is not there. `random` gives the
-- ids of `newId` by the number of the draw, and `stringify` stands for `JSON.stringify`. Texts are
-- compared and cut by characters.
pub mod Session
pub mod Turn
pub mod Tools
pub mod ToolContent
pub mod Blocks
pub mod Streamed
pub mod Told
unfoldable pub use Session.*
unfoldable pub use Turn.*
unfoldable pub use Tools.*
use Prim.Native.Char.{code}
use Prim.Native.String.{String, [] as no_string, ◌∷◌ as string_cons, ◌++◌ as append}
use runcell.Prelude.{
  ℕ, suc, ◌==◌, Bool, true, false, not, ◌&&◌, ◌||◌, Option, none, some, List, [], ◌∷◌, ◌++◌,
  if◌then◌else◌, Text, str_eq, lookup, insert, delete, or_else, is_some,
}
use runcell.Js.{
  Value, undefined, null, string, number, fraction, object, array, Values, nil, cons, Fields, get,
}

pub data Kind : Type 0 where
  begins_turn begins_message updates ends starts_tool ends_tool compacts other : Kind

-- The `switch` on the type of an event.
abbrev pub kind_of : String → Kind
kind_of t =
    if str_eq t "turn_start"
    then begins_turn
    else if str_eq t "message_start"
    then begins_message
    else if str_eq t "message_update"
    then updates
    else if str_eq t "message_end" || str_eq t "turn_end"
    then ends
    else if str_eq t "tool_execution_start"
    then starts_tool
    else if str_eq t "tool_execution_end" || str_eq t "tool_result"
    then ends_tool
    else if str_eq t "compaction_end"
    then compacts
    else other

module _ (random : ℕ → String) (stringify : Value → Option String) (reencode : Text → Text) where
  unfoldable pub translate_kind : Kind → Event → State → State × List StreamPart
  unfolding on_end unwrap_result
  translate_kind begins_turn event s = (begin s, [])
  translate_kind begins_message event s =
      if is_assistant event.message then (begin s, []) else (s, [])
  translate_kind updates event s =
      let updated = on_update random event.update s in if s.prompt_started then updated else (s, [])
  translate_kind ends event s =
      let ended = on_end event.message s in if s.prompt_started then ended else (s, [])
  translate_kind starts_tool event s =
      on_tool_start stringify (truthy event.tool_call_id) (truthy event.tool_name) event s
  translate_kind ends_tool event s = on_tool_end reencode (truthy event.tool_call_id) event s
  translate_kind compacts event s =
      (s, if event.aborted then [] else compacted event.reason event.result)
  translate_kind other event s = (s, [])

  -- `translatePiEvent`.
  unfoldable pub translate_event : Event → State → State × List StreamPart
  translate_event event s = translate_kind (kind_of event.type) event s

  -- A session's events, one after the other.
  unfoldable pub translate : List Event → State → State × List StreamPart
  unfolding translate_event translate_kind
  translate [] s = (s, [])
  translate (event ∷ events) s =
      let (s', parts) = translate_event event s in
      let (s'', more) = translate events s' in (s'', parts ++ more)
