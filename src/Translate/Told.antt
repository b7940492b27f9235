-- ===== src/Translate/Told.antt =====
-- The text of a turn (packages/harness-pi-raw/src/pi-translate.ts): what its deltas come to.
use Prim.Native.String.{String, ◌++◌ as append}
use text.Mathlib.TextLemmas.{
  append-nil as text_append-nil, append_assoc as text_append_assoc, nil-append,
}
use runcell.Prelude.{
  ℕ, ◌≡◌, refl, sym, ap, ◌∙◌, Bool, true, false, Option, none, some, List, [], ◌∷◌, ◌++◌,
  if◌then◌else◌, str_eq, Bool-cases, inl, inr, Text, or_else, is_some, lookup, All, eq_iff,
}
use runcell.Js.{Value, array, object}
use runcell.Translate.{
  Message, Event, StreamPart, State, truthy, begin, reasoning_ends, text_ends, on_update,
  missing_text, missing_part, on_end, after_text, extract_assistant_text, on_tool_start,
  give_result, result_name, on_tool_end, compacted, Kind, begins_turn, begins_message, updates,
  ends, starts_tool, ends_tool, compacts, other, kind_of, translate_kind, translate_event,
  translate,
}
use runcell.Translate.Blocks.{is_beginning}
use runcell.Translate.Streamed.{
  texts_of, texts_of-append, texts_of-after, texts_of-text_ends, texts_of-reasoning_ends,
  after_text_lem, Streams, quiet-Streams, if-Streams, on_end-Streams, on_update-Streams,
}

texts_of-missing_part :
    (missing id : Option String) → texts_of (missing_part missing id) ≡ or_else missing ""
texts_of-missing_part none id = refl
texts_of-missing_part (some m) id = text_append-nil m

or_else-truthy : (rest : String) → or_else (truthy (some rest)) "" ≡ rest
or_else-truthy rest = elim (Bool-cases (str_eq rest "")) [
  | inl empty ↦ rw empty (sym ((eq_iff rest "").0 empty))
  | inr full ↦ rw full refl
]

missing_text-some :
    (id : Option String) (rest : String)
    → is_some id ≡ true
    → or_else (missing_text id (some rest)) "" ≡ rest
missing_text-some none rest h = cc
missing_text-some (some id) rest h = or_else-truthy rest

-- The end of a turn says what is missing.
texts_of-on_end :
    (message : Option Message) (s : State) (rest : String)
    → is_some (truthy s.text_id) ≡ true
    → after_text s.streamed_text (extract_assistant_text message) ≡ some rest
    → texts_of (on_end message s).1 ≡ rest
unfolding on_end
texts_of-on_end message s rest held begins =
    let final = extract_assistant_text message in
    let missing = missing_text (truthy s.text_id) (after_text s.streamed_text final) in
    let silent =
      texts_of-after (text_ends (truthy s.text_id)) (reasoning_ends s)
        (texts_of-text_ends (truthy s.text_id))
      ∙ texts_of-reasoning_ends s in
    texts_of-append (missing_part missing s.text_id)
      (text_ends (truthy s.text_id) ++ reasoning_ends s)
    ∙ ap (λ (r : String). append (texts_of (missing_part missing s.text_id)) r) silent
    ∙ text_append-nil (texts_of (missing_part missing s.text_id))
    ∙ texts_of-missing_part missing s.text_id
    ∙ ap (λ (r : Option String). or_else (missing_text (truthy s.text_id) r) "") begins
    ∙ missing_text-some (truthy s.text_id) rest held

module _ (random : ℕ → String) (stringify : Value → Option String) (reencode : Text → Text) where
  on_tool_start-Streams :
      (id name : Option String) (event : Event) (s : State)
      → Streams s (on_tool_start stringify id name event s)
  on_tool_start-Streams none name event s = quiet-Streams s s [] refl refl refl
  on_tool_start-Streams (some id) none event s = quiet-Streams s s [] refl refl refl
  on_tool_start-Streams (some id) (some native) event s =
      (sym (text_append-nil s.streamed_text), refl)

  give_result-Streams :
      (id : String) (wire : Option String) (event : Event) (s : State)
      → Streams s (give_result reencode id wire event s)
  give_result-Streams id none event s = quiet-Streams s s [] refl refl refl
  give_result-Streams id (some wire) event s = (sym (text_append-nil s.streamed_text), refl)

  on_tool_end-Streams :
      (id : Option String) (event : Event) (s : State) → Streams s (on_tool_end reencode id event s)
  on_tool_end-Streams none event s = quiet-Streams s s [] refl refl refl
  on_tool_end-Streams (some id) event s =
      give_result-Streams id (result_name (lookup id s.observed_names) event s) event s

  texts_of-compacted :
      (aborted : Bool) (reason : Option String) (result : Value)
      → texts_of (if aborted then [] else compacted reason result) ≡ ""
  texts_of-compacted true reason result = refl
  texts_of-compacted false reason (object fields) = refl
  texts_of-compacted false reason (array vs) = refl
  texts_of-compacted false reason result = refl

  translate_kind-Streams :
      (k : Kind) (event : Event) (s : State)
      → is_beginning k event ≡ false
      → Streams s (translate_kind random stringify reencode k event s)
  unfolding translate_kind
  translate_kind-Streams begins_turn event s h = cc
  translate_kind-Streams begins_message event s h = rw h (quiet-Streams s s [] refl refl refl)
  translate_kind-Streams updates event s h =
      if-Streams s s.prompt_started (on_update random event.update s) (s, [])
        (on_update-Streams random event.update s) (quiet-Streams s s [] refl refl refl)
  translate_kind-Streams ends event s h =
      if-Streams s s.prompt_started (on_end event.message s) (s, [])
        (on_end-Streams event.message s) (quiet-Streams s s [] refl refl refl)
  translate_kind-Streams starts_tool event s h =
      on_tool_start-Streams (truthy event.tool_call_id) (truthy event.tool_name) event s
  translate_kind-Streams ends_tool event s h =
      on_tool_end-Streams (truthy event.tool_call_id) event s
  translate_kind-Streams compacts event s h =
      quiet-Streams s s (if event.aborted then [] else compacted event.reason event.result) refl
        refl (texts_of-compacted event.aborted event.reason event.result)
  translate_kind-Streams other event s h = quiet-Streams s s [] refl refl refl

  abbrev pub IsWithin : Event → Type 0
  IsWithin event = is_beginning (kind_of event.type) event ≡ false

  -- Between two beginnings, the text that the translator holds as streamed is what it held, followed
  -- by the text deltas that it gave.
  pub translate-streamed :
      (events : List Event) (s : State)
      → All IsWithin events
      → Streams s (translate random stringify reencode events s)
  unfolding translate translate_event
  translate-streamed [] s h = quiet-Streams s s [] refl refl refl
  translate-streamed (event ∷ events) s (within, h) =
      let next = translate_event random stringify reencode event s in
      let (adds, started) = translate_kind-Streams (kind_of event.type) event s within in
      let (adds', started') = translate-streamed events next.0 h in
      let more = (translate random stringify reencode events next.0).1 in
      (
        adds'
            ∙ ap (λ (r : String). append r (texts_of more)) adds
            ∙ text_append_assoc s.streamed_text (texts_of next.1) (texts_of more)
            ∙ ap (λ (r : String). append s.streamed_text r) (sym (texts_of-append next.1 more)),
        started' ∙ started,
      )

  -- When a turn ends with a text block open, and the final text of its message begins with what was
  -- streamed, then the text deltas that it gave come to the final text.
  pub translate-final :
      (s : State) (events : List Event) (event : Event) (rest : String)
      → All IsWithin events
      → kind_of event.type ≡ ends
      → is_some (truthy (translate random stringify reencode events (begin s)).0.text_id) ≡ true
      → after_text
          (translate random stringify reencode events (begin s)).0.streamed_text
          (extract_assistant_text event.message)
        ≡ some rest
      → append (texts_of (translate random stringify reencode events (begin s)).1) (
          texts_of
            (translate_event random stringify reencode event
              (translate random stringify reencode events (begin s)).0).1)
        ≡ extract_assistant_text event.message
  unfolding translate_event translate_kind
  translate-final s events event rest within kind held begins =
      let turn = translate random stringify reencode events (begin s) in
      let (adds, started) = translate-streamed events (begin s) within in
      let ended : translate_event random stringify reencode event turn.0
          ≡ on_end event.message turn.0 =
        ap (λ (k : Kind). translate_kind random stringify reencode k event turn.0) kind
        ∙ ap (λ (c : Bool). if c then on_end event.message turn.0 else (turn.0, [])) started in
      ap (λ (r : State × List StreamPart). append (texts_of turn.1) (texts_of r.1)) ended
      ∙ ap (λ (r : String). append (texts_of turn.1) r)
          (texts_of-on_end event.message turn.0 rest held begins)
      ∙ ap (λ (r : String). append r rest) (sym (adds ∙ nil-append (texts_of turn.1)))
      ∙ sym (after_text_lem turn.0.streamed_text (extract_assistant_text event.message) rest begins)
