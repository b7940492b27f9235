-- ===== src/Translate/Session.antt =====
-- The events, the parts and the state of the translator (packages/harness-pi-raw/src/pi-translate.ts),
-- and the texts of messages (pi-events.ts).
use Prim.Native.Char.{code}
use Prim.Native.String.{String, [] as no_string, ◌∷◌ as string_cons, ◌++◌ as append}
use runcell.Prelude.{
  ℕ, ◌==◌, Bool, false, Option, none, some, List, [], if◌then◌else◌, str_eq, or_else,
}
use runcell.Js.{Value, string, object, array, Values, nil, cons, get}

pub record Message : Type 0 where
  pub role : Option String
  pub content : Value

pub record Update : Type 0 where
  pub type : Option String
  pub delta : Option String

-- `PiSessionEvent`.
pub record Event : Type 0 where
  pub type : String
  pub update : Option Update
  pub tool_call_id : Option String
  pub tool_name : Option String
  pub args : Value
  pub input : Value
  pub result : Value
  pub content : Value
  pub is_error : Bool
  pub reason : Option String
  pub aborted : Bool
  pub message : Option Message

-- The parts that the translator gives.
pub data StreamPart : Type 0 where
  text_start text_end reasoning_start reasoning_end : String → StreamPart
  text_delta reasoning_delta : String → String → StreamPart
  tool_call : String → String → String → Option String → Bool → StreamPart
  tool_result : String → String → Value → Bool → StreamPart
  compaction : Bool → String → Option Value → StreamPart

-- `PiTranslatorState`, with the number of ids drawn.
pub record State : Type 0 where
  pub prompt_started : Bool
  pub streamed_text : String
  pub text_id : Option String
  pub reasoning_id : Option String
  pub reasoning_started : Bool
  pub observed_names : List (String × String)
  pub host_results : List (String × Value)
  pub builtin_names : List String
  pub common_names : List (String × String)
  pub drawn : ℕ

-- `createPiTranslatorState`.
abbrev pub create_state : List String → List (String × String) → State
create_state builtin common = record {
  prompt_started = false;
  streamed_text = "";
  text_id = none;
  reasoning_id = none;
  reasoning_started = false;
  observed_names = [];
  host_results = [];
  builtin_names = builtin;
  common_names = common;
  drawn = 0;
}

-- An optional text as a condition: the empty one counts as absent.
abbrev pub truthy : Option String → Option String
truthy none = none
truthy (some t) = if str_eq t "" then none else some t

abbrev pub text_with : Value → Value → Option String
text_with (string type) (string t) = if str_eq type "text" then some t else none
text_with type t = none

-- The text of a part of some content.
abbrev pub part_text : Value → Option String
part_text (object fields) = text_with (get fields "type") (get fields "text")
part_text value = none

abbrev pub join_texts : Values → String
join_texts nil = ""
join_texts (cons v vs) = append (or_else (part_text v) "") (join_texts vs)

abbrev pub content_text : Value → String
content_text (string t) = t
content_text (array parts) = join_texts parts
content_text value = ""

abbrev pub is_assistant : Option Message → Bool
is_assistant none = false
is_assistant (some message) = str_eq (or_else message.role "") "assistant"

abbrev pub message_text : Option Message → String
message_text none = ""
message_text (some message) = content_text message.content

-- `extractAssistantText`.
unfoldable pub extract_assistant_text : Option Message → String
extract_assistant_text message = if is_assistant message then message_text message else ""

-- What follows a prefix, where the text starts with it.
abbrev pub after_text : String → String → Option String
after_text no_string t = some t
after_text (string_cons c s) no_string = none
after_text (string_cons c s) (string_cons d t) =
    let rest = after_text s t in if code c == code d then rest else none
