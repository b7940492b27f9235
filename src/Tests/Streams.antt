-- ===== src/Tests/Streams.antt =====
-- Tests of UI message streams.
use runcell.Prelude.{◌+◌, ◌≡◌, refl, String, true, false, List, [], ◌∷◌}
use runcell.Js.{string, number, field, Fields, null}
use runcell.Prelude.{pos, lookup}
use runcell.UiStream.{
  Options, Part, Ending, named, withheld, per_tool, fresh, kind_of, succeeds, convert, handle_part,
  handle_kind, opening, closing, settle, end, resolve_tool_policy, start, start_step, finish_step,
  text_start, text_delta, text_end, reasoning_start, reasoning_delta, reasoning_end, tool_input,
  tool_output, finish,
}
use runcell.UiStream.Protocol.{
  IsAccepted, AreSeparate, convert-IsAccepted, convert-IsAccepted_strict,
}
use runcell.UiStream.Ends.{count_over, blocks_begun, blocks_ended}
use runcell.UiStream.Content.{collect, collect_parts}
use runcell.UiStream.Faithful.{
  text_of, text_in, reasoning_of, reasoning_in, tools_of, tools_in, convert-text, convert-reasoning,
  convert-tools,
}

-- Only the names of calls of `read` are sent, and nothing of `write`.
abbrev options : Options
options = record {
  send_reasoning = true;
  send_tools = per_tool (("read", named) ∷ ("write", withheld) ∷ []);
}

abbrev named_part : String → Fields → Part
named_part type fields = record { type = type; fields = fields }

abbrev parts : List Part
parts =
    named_part "reasoning-delta" (field "id" (string "r") (field "text" (string "hm") end_of))
    ∷ named_part "text-delta" (field "id" (string "t") (field "delta" (string "hi") end_of))
    ∷ named_part "tool-call" (
        field "toolName" (string "read")
          (field "toolCallId" (string "1") (field "input" (number (pos 7)) end_of)))
    ∷ named_part "tool-call"
        (field "toolName" (string "write") (field "toolCallId" (string "2") end_of))
    ∷ named_part "tool-result" (
        field "toolName" (string "read")
          (field "toolCallId" (string "1") (field "output" (number (pos 8)) end_of)))
    ∷ named_part "finish" end_of
    ∷ []
  where
    end_of : Fields
    end_of = Fields.end

abbrev ending : Ending
ending = succeeds (number (pos 3)) (string "s")

convert_parts :
    convert options fresh parts ending
    ≡ start
      ∷ start_step
      ∷ reasoning_start "r"
      ∷ reasoning_delta "r" "hm"
      ∷ text_start "t"
      ∷ text_delta "t" "hi"
      ∷ text_end "t"
      ∷ reasoning_end "r"
      ∷ tool_input "1" "read" null
      ∷ tool_output "1" null
      ∷ finish_step
      ∷ finish (number (pos 3)) (string "s")
      ∷ []
unfolding convert handle_part handle_kind opening closing settle end resolve_tool_policy lookup
convert_parts = refl

-- A block that starts while another of its kind is open: the other is never ended.
abbrev overlapping : List Part
overlapping =
    named_part "text-start" (field "id" (string "a") Fields.end)
    ∷ named_part "text-start" (field "id" (string "b") Fields.end)
    ∷ named_part "finish" Fields.end
    ∷ []

convert-overlapping :
    convert options fresh overlapping ending
    ≡ start
      ∷ start_step
      ∷ text_start "a"
      ∷ text_start "b"
      ∷ text_end "b"
      ∷ finish_step
      ∷ finish (number (pos 3)) (string "s")
      ∷ []
unfolding convert handle_part handle_kind opening closing settle end resolve_tool_policy lookup
convert-overlapping = refl

count_over-overlapping : count_over options fresh overlapping ≡ 1
unfolding count_over handle_part handle_kind opening
count_over-overlapping = refl

convert-IsAccepted_example :
    IsAccepted false (convert options fresh parts ending)
    × (blocks_begun (convert options fresh parts ending)
        ≡ blocks_ended (convert options fresh parts ending) + count_over options fresh parts)
convert-IsAccepted_example = convert-IsAccepted options parts ending

parts_AreSeparate : AreSeparate options fresh parts
unfolding convert handle_part handle_kind opening closing settle end resolve_tool_policy lookup
parts_AreSeparate = (refl, (refl, (refl, (refl, (refl, (refl, tt))))))

convert-IsAccepted_strict_example : IsAccepted true (convert options fresh parts ending)
convert-IsAccepted_strict_example = convert-IsAccepted_strict options parts ending parts_AreSeparate

convert-text_example :
    collect text_of (convert options fresh parts ending)
    ≡ collect_parts (λ part. text_in part (kind_of part.type)) parts
convert-text_example = convert-text options parts ending

convert-reasoning_example :
    collect reasoning_of (convert options fresh parts ending)
    ≡ collect_parts (λ part. reasoning_in options part (kind_of part.type)) parts
convert-reasoning_example = convert-reasoning options parts ending

convert-tools_example :
    collect tools_of (convert options fresh parts ending)
    ≡ collect_parts (λ part. tools_in options part (kind_of part.type)) parts
convert-tools_example = convert-tools options parts ending
