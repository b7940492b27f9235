-- ===== src/UiStream/Faithful.antt =====
-- The text, reasoning and tool chunks of a UI message stream (packages/agent/src/ui-message-stream.ts): text,
-- reasoning where it is sent, and tools as their policy has it.
use runcell.Prelude.{
  ◌≡◌, refl, ◌∙◌, String, Bool, true, false, Option, none, some, List, [], ◌∷◌, if◌then◌else◌,
}
use runcell.Js.{Value, null, get}
use runcell.UiStream.{
  ToolPolicy, full, names_only, hidden, Chunk, text_delta, reasoning_delta, tool_input, tool_output,
  Kind, starts_text, adds_text, ends_text, starts_reasoning, adds_reasoning, ends_reasoning,
  calls_tool, gives_result, finishes, other, kind_of, Part, Options, Converter, fresh, read_delta,
  read_tool_name, read_tool_call_id, is_plumbing, resolve_tool_policy, handle_kind, handle_part,
  Ending, convert,
}
use runcell.UiStream.Content.{
  collect, collect_parts, IsQuiet, collect-convert, quiet_starts_text, quiet_ends_text,
  quiet_starts_reasoning, quiet_ends_reasoning, quiet_finishes, told_text, told_reasoning,
  told_call, told_result, told_other, input_told, output_told,
}

abbrev pub text_of : Chunk → List String
text_of (text_delta id delta) = delta ∷ []
text_of chunk = []

abbrev pub reasoning_of : Chunk → List String
reasoning_of (reasoning_delta id delta) = delta ∷ []
reasoning_of chunk = []

-- A tool chunk by its call, its tool where the chunk names it, and its payload.
abbrev pub tools_of : Chunk → List (String × Option String × Value)
tools_of (tool_input call name input) = (call, some name, input) ∷ []
tools_of (tool_output call output) = (call, none, output) ∷ []
tools_of chunk = []

-- What parts have to say, by their kind.
abbrev pub text_in : Part → Kind → List String
text_in part adds_text = read_delta part ∷ []
text_in part kind = []

abbrev pub reasoning_in : Options → Part → Kind → List String
reasoning_in o part adds_reasoning = if o.send_reasoning then read_delta part ∷ [] else []
reasoning_in o part kind = []

-- A tool's call or result, as its policy lets it through.
abbrev pub shown_input : ToolPolicy → Part → List (String × Option String × Value)
shown_input full part =
    (read_tool_call_id part, some (read_tool_name part), get part.fields "input") ∷ []
shown_input names_only part = (read_tool_call_id part, some (read_tool_name part), null) ∷ []
shown_input hidden part = []

abbrev pub shown_output : ToolPolicy → Part → List (String × Option String × Value)
shown_output full part = (read_tool_call_id part, none, get part.fields "output") ∷ []
shown_output names_only part = (read_tool_call_id part, none, null) ∷ []
shown_output hidden part = []

abbrev pub tools_in : Options → Part → Kind → List (String × Option String × Value)
tools_in o part calls_tool =
    if is_plumbing (read_tool_name part)
    then []
    else shown_input (resolve_tool_policy o.send_tools (read_tool_name part)) part
tools_in o part gives_result =
    if is_plumbing (read_tool_name part)
    then []
    else shown_output (resolve_tool_policy o.send_tools (read_tool_name part)) part
tools_in o part kind = []

text_IsQuiet : IsQuiet text_of
text_IsQuiet = record {
  starts = refl;
  starts_step = refl;
  finishes_step = refl;
  text_starts = λ id. refl;
  text_ends = λ id. refl;
  reasoning_starts = λ id. refl;
  reasoning_ends = λ id. refl;
  metadata = λ usage. refl;
  errs = λ text. refl;
  finished = λ usage session. refl;
}

reasoning_IsQuiet : IsQuiet reasoning_of
reasoning_IsQuiet = record {
  starts = refl;
  starts_step = refl;
  finishes_step = refl;
  text_starts = λ id. refl;
  text_ends = λ id. refl;
  reasoning_starts = λ id. refl;
  reasoning_ends = λ id. refl;
  metadata = λ usage. refl;
  errs = λ text. refl;
  finished = λ usage session. refl;
}

tools_IsQuiet : IsQuiet tools_of
tools_IsQuiet = record {
  starts = refl;
  starts_step = refl;
  finishes_step = refl;
  text_starts = λ id. refl;
  text_ends = λ id. refl;
  reasoning_starts = λ id. refl;
  reasoning_ends = λ id. refl;
  metadata = λ usage. refl;
  errs = λ text. refl;
  finished = λ usage session. refl;
}

none_either_way {ℓ} :
    {A : Type ℓ} (b : Bool) (xs : List A) → xs ≡ [] → ◌≡◌ {A = List A} (if b then [] else xs) []
none_either_way true xs h = refl
none_either_way false xs h = h

none_either_way_else {ℓ} : {A : Type ℓ} (b : Bool) → ◌≡◌ {A = List A} (if b then [] else []) []
none_either_way_else true = refl
none_either_way_else false = refl

module _ (o : Options) (c : Converter) (part : Part) where
  text_input : (policy : ToolPolicy) → input_told text_of text_IsQuiet o c part policy ≡ []
  text_input full = refl
  text_input names_only = refl
  text_input hidden = refl

  text_output : (policy : ToolPolicy) → output_told text_of text_IsQuiet o c part policy ≡ []
  text_output full = refl
  text_output names_only = refl
  text_output hidden = refl

  reasoning_input :
      (policy : ToolPolicy) → input_told reasoning_of reasoning_IsQuiet o c part policy ≡ []
  reasoning_input full = refl
  reasoning_input names_only = refl
  reasoning_input hidden = refl

  reasoning_output :
      (policy : ToolPolicy) → output_told reasoning_of reasoning_IsQuiet o c part policy ≡ []
  reasoning_output full = refl
  reasoning_output names_only = refl
  reasoning_output hidden = refl

  tools_input :
      (policy : ToolPolicy)
      → input_told tools_of tools_IsQuiet o c part policy ≡ shown_input policy part
  tools_input full = refl
  tools_input names_only = refl
  tools_input hidden = refl

  tools_output :
      (policy : ToolPolicy)
      → output_told tools_of tools_IsQuiet o c part policy ≡ shown_output policy part
  tools_output full = refl
  tools_output names_only = refl
  tools_output hidden = refl

  text_kind : (kind : Kind) → collect text_of (handle_kind o c part kind).1 ≡ text_in part kind
  text_kind starts_text = quiet_starts_text text_of text_IsQuiet o c part
  text_kind adds_text = told_text text_of text_IsQuiet o c part
  text_kind ends_text = quiet_ends_text text_of text_IsQuiet o c part
  text_kind starts_reasoning = quiet_starts_reasoning text_of text_IsQuiet o c part
  text_kind adds_reasoning =
      told_reasoning text_of text_IsQuiet o c part ∙ none_either_way_else o.send_reasoning
  text_kind ends_reasoning = quiet_ends_reasoning text_of text_IsQuiet o c part
  text_kind calls_tool =
      told_call text_of text_IsQuiet o c part
      ∙ none_either_way (is_plumbing (read_tool_name part)) _
          (text_input (resolve_tool_policy o.send_tools (read_tool_name part)))
  text_kind gives_result =
      told_result text_of text_IsQuiet o c part
      ∙ none_either_way (is_plumbing (read_tool_name part)) _
          (text_output (resolve_tool_policy o.send_tools (read_tool_name part)))
  text_kind finishes = quiet_finishes text_of text_IsQuiet o c part
  text_kind other = told_other text_of text_IsQuiet o c part

  reasoning_kind :
      (kind : Kind) → collect reasoning_of (handle_kind o c part kind).1 ≡ reasoning_in o part kind
  reasoning_kind starts_text = quiet_starts_text reasoning_of reasoning_IsQuiet o c part
  reasoning_kind adds_text = told_text reasoning_of reasoning_IsQuiet o c part
  reasoning_kind ends_text = quiet_ends_text reasoning_of reasoning_IsQuiet o c part
  reasoning_kind starts_reasoning = quiet_starts_reasoning reasoning_of reasoning_IsQuiet o c part
  reasoning_kind adds_reasoning = told_reasoning reasoning_of reasoning_IsQuiet o c part
  reasoning_kind ends_reasoning = quiet_ends_reasoning reasoning_of reasoning_IsQuiet o c part
  reasoning_kind calls_tool =
      told_call reasoning_of reasoning_IsQuiet o c part
      ∙ none_either_way (is_plumbing (read_tool_name part)) _
          (reasoning_input (resolve_tool_policy o.send_tools (read_tool_name part)))
  reasoning_kind gives_result =
      told_result reasoning_of reasoning_IsQuiet o c part
      ∙ none_either_way (is_plumbing (read_tool_name part)) _
          (reasoning_output (resolve_tool_policy o.send_tools (read_tool_name part)))
  reasoning_kind finishes = quiet_finishes reasoning_of reasoning_IsQuiet o c part
  reasoning_kind other = told_other reasoning_of reasoning_IsQuiet o c part

  tools_kind : (kind : Kind) → collect tools_of (handle_kind o c part kind).1 ≡ tools_in o part kind
  tools_kind starts_text = quiet_starts_text tools_of tools_IsQuiet o c part
  tools_kind adds_text = told_text tools_of tools_IsQuiet o c part
  tools_kind ends_text = quiet_ends_text tools_of tools_IsQuiet o c part
  tools_kind starts_reasoning = quiet_starts_reasoning tools_of tools_IsQuiet o c part
  tools_kind adds_reasoning =
      told_reasoning tools_of tools_IsQuiet o c part ∙ none_either_way_else o.send_reasoning
  tools_kind ends_reasoning = quiet_ends_reasoning tools_of tools_IsQuiet o c part
  tools_kind calls_tool =
      told_call tools_of tools_IsQuiet o c part
      ∙ rw (tools_input (resolve_tool_policy o.send_tools (read_tool_name part))) refl
  tools_kind gives_result =
      told_result tools_of tools_IsQuiet o c part
      ∙ rw (tools_output (resolve_tool_policy o.send_tools (read_tool_name part))) refl
  tools_kind finishes = quiet_finishes tools_of tools_IsQuiet o c part
  tools_kind other = told_other tools_of tools_IsQuiet o c part

-- Whatever a run streams, and however it ends, the text deltas of its UI stream are the deltas of
-- its text parts, each once and in their order.
pub convert-text :
    (o : Options) (parts : List Part) (ending : Ending)
    → collect text_of (convert o fresh parts ending)
      ≡ collect_parts (λ part. text_in part (kind_of part.type)) parts
unfolding handle_part
convert-text o parts ending =
    collect-convert text_of text_IsQuiet o (λ part. text_in part (kind_of part.type))
      (λ c part. text_kind o c part (kind_of part.type)) fresh parts ending

-- So are its reasoning deltas those of its reasoning parts where reasoning is sent, and there are
-- none where it is not.
pub convert-reasoning :
    (o : Options) (parts : List Part) (ending : Ending)
    → collect reasoning_of (convert o fresh parts ending)
      ≡ collect_parts (λ part. reasoning_in o part (kind_of part.type)) parts
unfolding handle_part
convert-reasoning o parts ending =
    collect-convert reasoning_of reasoning_IsQuiet o
      (λ part. reasoning_in o part (kind_of part.type))
      (λ c part. reasoning_kind o c part (kind_of part.type)) fresh parts ending

-- The tool chunks of the stream are the calls and results of its parts as the policy of their tool
-- lets them through: whole, with null for the payload, or not at all; and never those of a tool
-- without a name or of the two that are internal.
pub convert-tools :
    (o : Options) (parts : List Part) (ending : Ending)
    → collect tools_of (convert o fresh parts ending)
      ≡ collect_parts (λ part. tools_in o part (kind_of part.type)) parts
unfolding handle_part
convert-tools o parts ending =
    collect-convert tools_of tools_IsQuiet o (λ part. tools_in o part (kind_of part.type))
      (λ c part. tools_kind o c part (kind_of part.type)) fresh parts ending
