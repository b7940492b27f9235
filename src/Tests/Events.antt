-- ===== src/Tests/Events.antt =====
-- Tests of the translation of Pi events.
use Prim.Native.String.{◌++◌ as append}
use runcell.Prelude.{ℕ, ◌≡◌, refl, String, true, false, none, some, List, [], ◌∷◌, Text}
use runcell.Js.{Value, undefined, string, number, object, array, cons, nil, field, Fields}
use runcell.Prelude.{pos, Option, insert, lookup, delete}
use runcell.Translate.ToolContent.{is_tool_content}
use runcell.Translate.{
  Event, create_state, begin, translate, translate_event, translate_kind, on_end, unwrap_result,
  extract_assistant_text, reasoning_start, reasoning_delta, reasoning_end, text_start, text_delta,
  text_end, tool_call, tool_result,
}
use runcell.Translate.Blocks.{IsTidy, IsOrdered, translate-IsOrdered}
use runcell.Translate.Streamed.{texts_of}
use runcell.Translate.Told.{translate-streamed, translate-final}

abbrev event : String → Event
event type = record {
  type = type;
  update = none;
  tool_call_id = none;
  tool_name = none;
  args = undefined;
  input = undefined;
  result = undefined;
  content = undefined;
  is_error = false;
  reason = none;
  aborted = false;
  message = none;
}

abbrev delta : String → String → Event
delta type text = record (event "message_update") {
  update = some (record { type = some type; delta = some text });
}

abbrev tool : Event
tool = record (event "tool_execution_start") {
  tool_call_id = some "1";
  tool_name = some "find";
  args = string "x";
}

abbrev told : Event
told = record (event "tool_result") { tool_call_id = some "1"; content = string "y" }

-- The final message has more text than was streamed.
abbrev finished : Event
finished = record (event "message_end") {
  message = some (record {
    role = some "assistant";
    content =
        array (
          cons (object (field "type" (string "text") (field "text" (string "hi!") Fields.end)))
            nil);
  });
}

abbrev deltas : List Event
deltas = delta "thinking_delta" "hm" ∷ delta "text_delta" "hi" ∷ tool ∷ told ∷ []

abbrev events : List Event
events =
    event "turn_start"
    ∷ delta "thinking_delta" "hm"
    ∷ delta "text_delta" "hi"
    ∷ tool
    ∷ told
    ∷ finished
    ∷ []

abbrev name : ℕ → String
name n = "id"

abbrev no_json : Value → Option String
no_json value = none

abbrev same : Text → Text
same t = t

abbrev common : List (String × String)
common = ("find", "glob") ∷ []

translate-events :
    (translate name no_json same events (create_state ("find" ∷ []) common)).1
    ≡ reasoning_start "id"
      ∷ reasoning_delta "id" "hm"
      ∷ reasoning_end "id"
      ∷ text_start "id"
      ∷ text_delta "id" "hi"
      ∷ tool_call "1" "glob" "x" (some "find") true
      ∷ tool_result "1" "glob" (string "y") false
      ∷ text_delta "id" "!"
      ∷ text_end "id"
      ∷ []
unfolding translate translate_event translate_kind on_end unwrap_result extract_assistant_text
    insert lookup delete
translate-events = refl

events-IsTidy : IsTidy name no_json same events (create_state ("find" ∷ []) common)
unfolding translate translate_event translate_kind on_end unwrap_result extract_assistant_text
    insert lookup delete
events-IsTidy = (refl, (refl, (refl, (refl, (refl, (refl, tt))))))

translate-IsOrdered_example :
    IsOrdered (translate name no_json same events (create_state ("find" ∷ []) common)).1
translate-IsOrdered_example =
    translate-IsOrdered name (λ n. refl) no_json same ("find" ∷ []) common events events-IsTidy

translate-streamed_example :
    ((translate name no_json same deltas (begin (create_state [] common))).0.streamed_text
      ≡ append ""
          (texts_of (translate name no_json same deltas (begin (create_state [] common))).1))
    × ((translate name no_json same deltas (begin (create_state [] common))).0.prompt_started
        ≡ true)
translate-streamed_example =
    translate-streamed name no_json same deltas (begin (create_state [] common))
      (refl, (refl, (refl, (refl, tt))))

translate-final_example :
    append (texts_of (translate name no_json same deltas (begin (create_state [] common))).1) (
      texts_of
        (translate_event name no_json same finished
          (translate name no_json same deltas (begin (create_state [] common))).0).1)
    ≡ extract_assistant_text finished.message
unfolding translate translate_event translate_kind on_end unwrap_result extract_assistant_text
    insert lookup delete
translate-final_example =
    translate-final name no_json same (create_state [] common) deltas finished "!"
      (refl, (refl, (refl, (refl, tt)))) refl refl refl

-- One image of three bytes.
image_content :
    is_tool_content same (
      object (
        field "type" (string "runcell.tool-content") (
          field "version" (number (pos 1)) (
            field "content"
              (array (
                cons
                  (object (
                    field "type" (string "image") (
                      field "data"
                        (string "AAAA")
                        (field "mediaType" (string "image/png") Fields.end))))
                  nil))
              Fields.end))))
    ≡ true
unfolding is_tool_content
image_content = refl
