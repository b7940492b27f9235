-- ===== src/Translate/Blocks.antt =====
-- The blocks of text and reasoning that the translator of Pi events opens and ends
-- (packages/harness-pi-raw/src/pi-translate.ts).
use Prim.Native.String.{String}
use runcell.Prelude.{
  ℕ, ◌≡◌, refl, sym, ap, ◌∙◌, subst, Bool, true, false, ◌&&◌, ◌||◌, Option, none, some, List, [],
  ◌∷◌, ◌++◌, if◌then◌else◌, str_eq, eq_refl, arith, Text, or_else, is_some, lookup,
}
use runcell.Js.{Value, array, object}
use runcell.Translate.{
  Message, Update, Event, StreamPart, State, create_state, truthy, text_start, text_end, text_delta,
  reasoning_start, reasoning_end, reasoning_delta, tool_call, tool_result, compaction, begin,
  on_text, on_thinking, on_update, missing_text, finish_turn, on_end, after_text,
  extract_assistant_text, is_assistant, give_result, result_name, compacted, on_tool_start,
  on_tool_end, Kind, begins_turn, begins_message, updates, ends, starts_tool, ends_tool, compacts,
  other, kind_of, translate_kind, translate_event, translate,
}

pub data Block : Type 0 where
  text reasoning : String → Block

-- What a part makes of the block that is open: a block starts where none is open, deltas and ends
-- name the one that is, and the other parts leave it.
abbrev pub read : Option Block → StreamPart → Option (Option Block)
read none (text_start id) = some (some (text id))
read none (reasoning_start id) = some (some (reasoning id))
read (some (text now)) (text_delta id delta) =
    if str_eq now id then some (some (text now)) else none
read (some (text now)) (text_end id) = if str_eq now id then some none else none
read (some (reasoning now)) (reasoning_delta id delta) =
    if str_eq now id then some (some (reasoning now)) else none
read (some (reasoning now)) (reasoning_end id) = if str_eq now id then some none else none
read b (tool_call id name input native provided) = some b
read b (tool_result id name result failed) = some b
read b (compaction manual summary tokens) = some b
read b part = none

abbrev pub read_all : Option (Option Block) → List StreamPart → Option (Option Block)
read_all none parts = none
read_all (some b) [] = some b
read_all (some b) (part ∷ parts) = read_all (read b part) parts

-- The parts of a session that gives its blocks in good order.
abbrev pub IsOrdered : List StreamPart → Type 0
IsOrdered parts = (b : Option Block) × (read_all (some none) parts ≡ some b)

read_all-none : (parts : List StreamPart) → read_all none parts ≡ none
read_all-none [] = refl
read_all-none (p ∷ ps) = refl

read_all-append :
    (b : Option (Option Block)) (ps qs : List StreamPart)
    → read_all b (ps ++ qs) ≡ read_all (read_all b ps) qs
read_all-append none ps qs = sym (read_all-none qs)
read_all-append (some b) [] qs = refl
read_all-append (some b) (p ∷ ps) qs = read_all-append (read b p) ps qs

-- A state with a given block open.
abbrev shaped : Option Block → State → State
shaped none s = record s { text_id = none; reasoning_id = none; reasoning_started = false }
shaped (some (text id)) s = record s {
  text_id = some id;
  reasoning_id = none;
  reasoning_started = false;
}
shaped (some (reasoning id)) s = record s {
  text_id = none;
  reasoning_id = some id;
  reasoning_started = true;
}

abbrev IsNamed : Option Block → Type 0
IsNamed none = Unit
IsNamed (some (text id)) = str_eq id "" ≡ false
IsNamed (some (reasoning id)) = str_eq id "" ≡ false

abbrev pub IsView : Option Block → State → Type 0
IsView b s = (s ≡ shaped b s) × IsNamed b

-- A step that reads its parts from the open block to the one that is open after it.
abbrev pub Reads : Option Block → State × List StreamPart → Type 0
Reads b (s, parts) =
    (after : Option Block) × (read_all (some b) parts ≡ some after) × IsView after s

-- What leaves the blocks alone.
others_Reads :
    (b : Option Block) (s : State) (names : List (String × String))
    → IsNamed b
    → Reads b (record (shaped b s) { observed_names = names }, [])
others_Reads none s names h = (none, refl, (refl, h))
others_Reads (some (text id)) s names h = (some (text id), refl, (refl, h))
others_Reads (some (reasoning id)) s names h = (some (reasoning id), refl, (refl, h))

nothing-Reads : (b : Option Block) (s : State) → IsNamed b → Reads b (shaped b s, [])
nothing-Reads none s h = (none, refl, (refl, h))
nothing-Reads (some (text id)) s h = (some (text id), refl, (refl, h))
nothing-Reads (some (reasoning id)) s h = (some (reasoning id), refl, (refl, h))

compaction-Reads :
    (b : Option Block) (s : State) (manual : Bool) (summary : String) (tokens : Option Value)
    → IsNamed b
    → Reads b (shaped b s, compaction manual summary tokens ∷ [])
compaction-Reads none s manual summary tokens h = (none, refl, (refl, h))
compaction-Reads (some (text id)) s manual summary tokens h = (some (text id), refl, (refl, h))
compaction-Reads (some (reasoning id)) s manual summary tokens h =
    (some (reasoning id), refl, (refl, h))

finish_turn-Reads :
    (id final : String) (missing : Option String) (s : State)
    → str_eq id "" ≡ false
    → Reads (some (text id)) (finish_turn final missing (shaped (some (text id)) s))
finish_turn-Reads id final none s h = rw h (none, ground (arith, eq_refl id), (refl, tt))
finish_turn-Reads id final (some missing) s h = rw h (none, ground (arith, eq_refl id), (refl, tt))

on_end-Reads :
    (b : Option Block) (message : Option Message) (s : State)
    → IsNamed b
    → Reads b (on_end message (shaped b s))
unfolding on_end
on_end-Reads none message s h = (none, refl, (refl, tt))
on_end-Reads (some (reasoning id)) message s h = rw h (none, ground (arith, eq_refl id), (refl, tt))
on_end-Reads (some (text id)) message s h =
    finish_turn-Reads id (extract_assistant_text message)
      (missing_text (truthy (some id))
        (after_text s.streamed_text (extract_assistant_text message)))
      s h

-- Whether an event begins a turn or a message, and whether a block is open.
abbrev pub is_beginning : Kind → Event → Bool
is_beginning begins_turn event = true
is_beginning begins_message event = is_assistant event.message
is_beginning kind event = false

abbrev pub is_open : State → Bool
is_open s = is_some s.text_id || s.reasoning_started

begin-Reads :
    (b : Option Block) (s : State) → is_open (shaped b s) ≡ false → Reads b (begin (shaped b s), [])
begin-Reads none s closed = (none, refl, (refl, tt))
begin-Reads (some (text id)) s closed = cc
begin-Reads (some (reasoning id)) s closed = cc

if-Reads :
    (b : Option Block) (c : Bool) (x y : State × List StreamPart)
    → (c ≡ true → Reads b x)
    → (c ≡ false → Reads b y)
    → Reads b (if c then x else y)
if-Reads b true x y hx hy = hx refl
if-Reads b false x y hx hy = hy refl

module _ (random : ℕ → String) (stringify : Value → Option String) (reencode : Text → Text) where
  -- Nothing begins while a block is open.
  abbrev pub IsTidy : List Event → State → Type 0
  IsTidy [] s = Unit
  IsTidy (event ∷ events) s =
      ((is_beginning (kind_of event.type) event && is_open s) ≡ false)
      × IsTidy events (translate_event random stringify reencode event s).0

module _ (random : ℕ → String) (names : (n : ℕ) → str_eq (random n) "" ≡ false) where
  on_text-Reads :
      (b : Option Block) (delta : String) (s : State)
      → IsNamed b
      → Reads b (on_text random delta (shaped b s))
  on_text-Reads none delta s h = (
    some (text (random s.drawn)),
    ground (arith, eq_refl (random s.drawn)),
    (refl, names s.drawn),
  )
  on_text-Reads (some (text id)) delta s h =
      rw h (some (text id), ground (arith, eq_refl id), (refl, h))
  on_text-Reads (some (reasoning id)) delta s h = rw h (
    some (text (random s.drawn)),
    ground (arith, eq_refl id, eq_refl (random s.drawn)),
    (refl, names s.drawn),
  )

  on_thinking-Reads :
      (b : Option Block) (delta : String) (s : State)
      → IsNamed b
      → Reads b (on_thinking random delta (shaped b s))
  on_thinking-Reads none delta s h = (
    some (reasoning (random s.drawn)),
    ground (arith, eq_refl (random s.drawn)),
    (refl, names s.drawn),
  )
  on_thinking-Reads (some (text id)) delta s h = rw h (
    some (reasoning (random s.drawn)),
    ground (arith, eq_refl id, eq_refl (random s.drawn)),
    (refl, names s.drawn),
  )
  on_thinking-Reads (some (reasoning id)) delta s h =
      rw h (some (reasoning id), ground (arith, eq_refl id), (refl, h))

  on_update-Reads :
      (b : Option Block) (update : Option Update) (s : State)
      → IsNamed b
      → Reads b (on_update random update (shaped b s))
  on_update-Reads b none s h = nothing-Reads b s h
  on_update-Reads b (some update) s h =
      let delta = or_else update.delta "" in
      let thinks = str_eq (or_else update.type "") "thinking_delta" && is_some update.delta in
      let thought = on_thinking random delta (shaped b s) in
      if-Reads b (str_eq (or_else update.type "") "text_delta" && is_some update.delta)
        (on_text random delta (shaped b s)) (if thinks then thought else (shaped b s, []))
        (λ e. on_text-Reads b delta s h)
        (λ e.
          if-Reads b thinks thought (shaped b s, []) (λ e. on_thinking-Reads b delta s h)
            (λ e. nothing-Reads b s h))

  module _ (stringify : Value → Option String) (reencode : Text → Text) where
    on_tool_start-Reads :
        (b : Option Block) (id name : Option String) (event : Event) (s : State)
        → IsNamed b
        → Reads b (on_tool_start stringify id name event (shaped b s))
    on_tool_start-Reads b none name event s h = nothing-Reads b s h
    on_tool_start-Reads b (some id) none event s h = nothing-Reads b s h
    on_tool_start-Reads none (some id) (some name) event s h = (none, refl, (refl, h))
    on_tool_start-Reads (some (text t)) (some id) (some name) event s h =
        (some (text t), refl, (refl, h))
    on_tool_start-Reads (some (reasoning t)) (some id) (some name) event s h =
        (some (reasoning t), refl, (refl, h))

    give_result-Reads :
        (b : Option Block) (id : String) (wire : Option String) (event : Event) (s : State)
        → IsNamed b
        → Reads b (give_result reencode id wire event (shaped b s))
    give_result-Reads b id none event s h = nothing-Reads b s h
    give_result-Reads none id (some wire) event s h = (none, refl, (refl, h))
    give_result-Reads (some (text t)) id (some wire) event s h = (some (text t), refl, (refl, h))
    give_result-Reads (some (reasoning t)) id (some wire) event s h =
        (some (reasoning t), refl, (refl, h))

    on_tool_end-Reads :
        (b : Option Block) (id : Option String) (event : Event) (s : State)
        → IsNamed b
        → Reads b (on_tool_end reencode id event (shaped b s))
    on_tool_end-Reads b none event s h = nothing-Reads b s h
    on_tool_end-Reads b (some id) event s h =
        give_result-Reads b id
          (result_name (lookup id (shaped b s).observed_names) event (shaped b s)) event s h

    compacted-Reads :
        (b : Option Block) (aborted : Bool) (reason : Option String) (result : Value) (s : State)
        → IsNamed b
        → Reads b (shaped b s, if aborted then [] else compacted reason result)
    compacted-Reads b true reason result s h = nothing-Reads b s h
    compacted-Reads b false reason (array vs) s h = compaction-Reads b s _ _ _ h
    compacted-Reads b false reason (object fields) s h = compaction-Reads b s _ _ _ h
    compacted-Reads b false reason result s h = nothing-Reads b s h

    translate_kind-Reads :
        (k : Kind) (b : Option Block) (event : Event) (s : State)
        → IsNamed b
        → (is_beginning k event && is_open (shaped b s)) ≡ false
        → Reads b (translate_kind random stringify reencode k event (shaped b s))
    unfolding translate_kind
    translate_kind-Reads begins_turn b event s h tidy = begin-Reads b s tidy
    translate_kind-Reads begins_message b event s h tidy =
        if-Reads b (is_assistant event.message) (begin (shaped b s), []) (shaped b s, [])
          (λ e. begin-Reads b s (ground (arith, e, tidy))) (λ e. nothing-Reads b s h)
    translate_kind-Reads updates b event s h tidy =
        if-Reads b (shaped b s).prompt_started (on_update random event.update (shaped b s))
          (shaped b s, []) (λ e. on_update-Reads b event.update s h) (λ e. nothing-Reads b s h)
    translate_kind-Reads ends b event s h tidy =
        if-Reads b (shaped b s).prompt_started (on_end event.message (shaped b s)) (shaped b s, [])
          (λ e. on_end-Reads b event.message s h) (λ e. nothing-Reads b s h)
    translate_kind-Reads starts_tool b event s h tidy =
        on_tool_start-Reads b (truthy event.tool_call_id) (truthy event.tool_name) event s h
    translate_kind-Reads ends_tool b event s h tidy =
        on_tool_end-Reads b (truthy event.tool_call_id) event s h
    translate_kind-Reads compacts b event s h tidy =
        compacted-Reads b event.aborted event.reason event.result s h
    translate_kind-Reads other b event s h tidy = nothing-Reads b s h

    translate-Reads :
        (b : Option Block) (events : List Event) (s : State)
        → IsView b s
        → IsTidy random stringify reencode events s
        → Reads b (translate random stringify reencode events s)
    unfolding translate translate_event
    translate-Reads b [] s h tidy = (b, refl, h)
    translate-Reads b (event ∷ events) s (shape, named) (calm, tidy) =
        let (c, here, view) =
          subst (λ (x : State). Reads b (translate_event random stringify reencode event x))
            (sym shape)
            (translate_kind-Reads (kind_of event.type) b event s named (
              subst (λ (x : State). (is_beginning (kind_of event.type) event && is_open x) ≡ false)
                shape calm)) in
        let next = translate_event random stringify reencode event s in
        let (d, later, last) = translate-Reads c events next.0 view tidy in
        (
          d,
          read_all-append (some b) next.1 (translate random stringify reencode events next.0).1
              ∙ (ap
                    (λ (x : Option (Option Block)).
                      read_all x (translate random stringify reencode events next.0).1)
                    here
                  ∙ later),
          last,
        )

    -- Where nothing begins while a block is open, the parts of a session give its blocks in good order:
    -- one of text or reasoning is open at a time, and deltas and ends name the one that is.
    pub translate-IsOrdered :
        (builtin : List String) (common : List (String × String)) (events : List Event)
        → IsTidy random stringify reencode events (create_state builtin common)
        → IsOrdered (translate random stringify reencode events (create_state builtin common)).1
    translate-IsOrdered builtin common events tidy =
        let (b, reads, view) =
          translate-Reads none events (create_state builtin common) (refl, tt) tidy in
        (b, reads)
