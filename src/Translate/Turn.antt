-- ===== src/Translate/Turn.antt =====
-- packages/harness-pi-raw/src/pi-translate.ts: the text and the reasoning of a turn.
use Prim.Native.String.{String, ◌++◌ as append}
use runcell.Prelude.{
  ℕ, suc, Bool, true, false, ◌&&◌, Option, none, some, List, [], ◌∷◌, ◌++◌, if◌then◌else◌, str_eq,
  or_else, is_some,
}
use runcell.Translate.Session.{
  Message, Update, StreamPart, text_start, text_end, reasoning_start, reasoning_end, text_delta,
  reasoning_delta, State, truthy, extract_assistant_text, after_text,
}

-- `turn_start` and `message_start`.
abbrev pub begin : State → State
begin s = record s {
  prompt_started = true;
  streamed_text = "";
  text_id = none;
  reasoning_id = none;
  reasoning_started = false;
}

abbrev pub end_reasoning : Option String → List StreamPart
end_reasoning none = []
end_reasoning (some id) = reasoning_end id ∷ []

-- The end of the reasoning block, where one was started.
abbrev pub reasoning_ends : State → List StreamPart
reasoning_ends s = if s.reasoning_started then end_reasoning (truthy s.reasoning_id) else []

abbrev pub without_reasoning : State → State
without_reasoning s =
    if s.reasoning_started && is_some (truthy s.reasoning_id)
    then record s { reasoning_started = false; reasoning_id = none }
    else s

abbrev pub text_ends : Option String → List StreamPart
text_ends none = []
text_ends (some id) = text_end id ∷ []

abbrev pub without_text : State → State
without_text s = if is_some (truthy s.text_id) then record s { text_id = none } else s

module _ (random : ℕ → String) where
  -- A text delta, to a block that is open or to a new one.
  abbrev pub add_text : Option String → String → State → State × List StreamPart
  add_text (some id) delta s =
      (record s { streamed_text = append s.streamed_text delta }, text_delta id delta ∷ [])
  add_text none delta s = (
    record s {
      streamed_text = append s.streamed_text delta;
      text_id = some (random s.drawn);
      drawn = suc s.drawn;
    },
    text_start (random s.drawn) ∷ text_delta (random s.drawn) delta ∷ [],
  )

  abbrev pub on_text : String → State → State × List StreamPart
  on_text delta s =
      let ended = without_reasoning s in
      let (s', parts) = add_text (truthy ended.text_id) delta ended in
      (s', reasoning_ends s ++ parts)

  abbrev pub with_reasoning_id : Option String → State → State
  with_reasoning_id (some id) s = s
  with_reasoning_id none s = record s { reasoning_id = some (random s.drawn); drawn = suc s.drawn }

  abbrev pub reasoning_begins : Bool → String → List StreamPart
  reasoning_begins true id = []
  reasoning_begins false id = reasoning_start id ∷ []

  abbrev pub on_thinking : String → State → State × List StreamPart
  on_thinking delta s =
      let ended = without_text s in
      let named = with_reasoning_id (truthy ended.reasoning_id) ended in
      let id = or_else named.reasoning_id "" in
      (
        record named { reasoning_started = true },
        text_ends (truthy s.text_id)
            ++ (reasoning_begins named.reasoning_started id ++ reasoning_delta id delta ∷ []),
      )

  abbrev pub on_update : Option Update → State → State × List StreamPart
  on_update none s = (s, [])
  on_update (some update) s =
      let text = on_text (or_else update.delta "") s in
      let thinking = on_thinking (or_else update.delta "") s in
      if str_eq (or_else update.type "") "text_delta" && is_some update.delta
      then text
      else if str_eq (or_else update.type "") "thinking_delta" && is_some update.delta
      then thinking
      else (s, [])

-- The rest of the final text, where a text block is open and the text that was streamed begins it.
abbrev pub missing_text : Option String → Option String → Option String
missing_text none rest = none
missing_text (some id) rest = truthy rest

abbrev pub missing_part : Option String → Option String → List StreamPart
missing_part none id = []
missing_part (some missing) id = text_delta (or_else id "") missing ∷ []

abbrev pub with_final : Option String → String → State → State
with_final none final s = s
with_final (some missing) final s = record s { streamed_text = final }

-- A turn ends: its text is completed, and the blocks that are open are ended.
abbrev pub finish_turn : String → Option String → State → State × List StreamPart
finish_turn final missing s = (
  without_reasoning (without_text (with_final missing final s)),
  missing_part missing s.text_id ++ (text_ends (truthy s.text_id) ++ reasoning_ends s),
)

-- `message_end` and `turn_end`.
unfoldable pub on_end : Option Message → State → State × List StreamPart
unfolding extract_assistant_text
on_end message s =
    let final = extract_assistant_text message in
    finish_turn final (missing_text (truthy s.text_id) (after_text s.streamed_text final)) s
