-- ===== src/Translate/Streamed.antt =====
-- The text that the translator of Pi events streams (packages/harness-pi-raw/src/pi-translate.ts).
use Prim.Native.Char.{Char, code}
use Prim.Native.String.{String, [] as no_string, ◌∷◌ as string_cons, ◌++◌ as append}
use text.Mathlib.TextLemmas.{
  append-nil as text_append-nil, append_assoc as text_append_assoc, nil-append, cons-append,
}
use text.Mathlib.TextEquality.{Char-path}
use runcell.Prelude.{
  ℕ, ◌==◌, ==_iff, ◌≡◌, refl, sym, ap, ◌∙◌, Bool, true, false, ◌&&◌, Option, none, some, List, [],
  ◌∷◌, ◌++◌, if◌then◌else◌, str_eq, Bool-cases, inl, inr, or_else, is_some,
}
use runcell.Translate.{
  Message, Update, StreamPart, State, truthy, text_delta, reasoning_ends, end_reasoning,
  reasoning_delta, text_ends, without_reasoning, without_text, add_text, on_text, on_thinking,
  on_update, with_reasoning_id, reasoning_begins, missing_text, missing_part, with_final,
  finish_turn, on_end, after_text, extract_assistant_text,
}

-- The deltas of text among some parts, one after the other.
abbrev pub texts_of : List StreamPart → String
texts_of [] = ""
texts_of (text_delta id delta ∷ parts) = append delta (texts_of parts)
texts_of (part ∷ parts) = texts_of parts

pub texts_of-append :
    (ps qs : List StreamPart) → texts_of (ps ++ qs) ≡ append (texts_of ps) (texts_of qs)
texts_of-append [] qs = sym (nil-append (texts_of qs))
texts_of-append (text_delta id delta ∷ ps) qs =
    ap (λ (r : String). append delta r) (texts_of-append ps qs)
    ∙ sym (text_append_assoc delta (texts_of ps) (texts_of qs))
texts_of-append (p ∷ ps) qs = texts_of-append ps qs

pub after_text_lem : (s t rest : String) → after_text s t ≡ some rest → t ≡ append s rest
after_text_lem no_string t rest e = cc (e, nil-append rest)
after_text_lem (string_cons c s) no_string rest e = cc
after_text_lem (string_cons c s) (string_cons d t) rest e = elim (Bool-cases (code c == code d)) [
  | inr differ ↦
      let shut : after_text (string_cons c s) (string_cons d t) ≡ none =
        ap (λ (b : Bool). if b then after_text s t else none) differ in
      absurd (cc (shut, e))
  | inl same ↦
      let passed : after_text (string_cons c s) (string_cons d t) ≡ after_text s t =
        ap (λ (b : Bool). if b then after_text s t else none) same in
      let ih = after_text_lem s t rest (sym passed ∙ e) in
      ap (λ (x : Char). string_cons x t) (sym (Char-path c d ((==_iff (code c) (code d)).0 same)))
      ∙ ap (λ (r : String). string_cons c r) ih
      ∙ sym (cons-append c s rest)
]

-- What a step adds to the text that was streamed is what its parts say.
abbrev pub Streams : State → State × List StreamPart → Type 0
Streams s (s', parts) =
    (s'.streamed_text ≡ append s.streamed_text (texts_of parts))
    × (s'.prompt_started ≡ s.prompt_started)

pub quiet-Streams :
    (s s' : State) (parts : List StreamPart)
    → s'.streamed_text ≡ s.streamed_text
    → s'.prompt_started ≡ s.prompt_started
    → texts_of parts ≡ ""
    → Streams s (s', parts)
quiet-Streams s s' parts same started silent = (
  same
      ∙ sym
          (ap (λ (r : String). append s.streamed_text r) silent ∙ text_append-nil s.streamed_text),
  started,
)

pub if-Streams :
    (s : State) (c : Bool) (x y : State × List StreamPart)
    → Streams s x
    → Streams s y
    → Streams s (if c then x else y)
if-Streams s true x y hx hy = hx
if-Streams s false x y hx hy = hy

pub texts_of-text_ends : (id : Option String) → texts_of (text_ends id) ≡ ""
texts_of-text_ends none = refl
texts_of-text_ends (some id) = refl

pub texts_of-reasoning_ends : (s : State) → texts_of (reasoning_ends s) ≡ ""
texts_of-reasoning_ends s = go s.reasoning_started (truthy s.reasoning_id)
  where
    go : (c : Bool) (id : Option String) → texts_of (if c then end_reasoning id else []) ≡ ""
    go false id = refl
    go true none = refl
    go true (some id) = refl

-- A state with the same text.
abbrev Keeps : State → State → Type 0
Keeps s s' = (s'.streamed_text ≡ s.streamed_text) × (s'.prompt_started ≡ s.prompt_started)

if-Keeps : (s x : State) (c : Bool) → Keeps s x → Keeps s (if c then x else s)
if-Keeps s x true h = h
if-Keeps s x false h = (refl, refl)

without_reasoning-Keeps : (s : State) → Keeps s (without_reasoning s)
without_reasoning-Keeps s =
    if-Keeps s (record s { reasoning_started = false; reasoning_id = none })
      (s.reasoning_started && is_some (truthy s.reasoning_id)) (refl, refl)

without_text-Keeps : (s : State) → Keeps s (without_text s)
without_text-Keeps s =
    if-Keeps s (record s { text_id = none }) (is_some (truthy s.text_id)) (refl, refl)

-- Silent parts before others.
pub texts_of-after :
    (ps qs : List StreamPart) → texts_of ps ≡ "" → texts_of (ps ++ qs) ≡ texts_of qs
texts_of-after ps qs silent =
    texts_of-append ps qs
    ∙ ap (λ (r : String). append r (texts_of qs)) silent
    ∙ nil-append (texts_of qs)

truthy_inv : (rest : Option String) (m : String) → truthy rest ≡ some m → rest ≡ some m
truthy_inv none m e = cc
truthy_inv (some t) m e = elim (Bool-cases (str_eq t "")) [
  | inl empty ↦
      let shut : truthy (some t) ≡ none = ap (λ (b : Bool). if b then none else some t) empty in
      absurd (cc (shut, e))
  | inr full ↦
      let passed : truthy (some t) ≡ some t = ap (λ (b : Bool). if b then none else some t) full in
      sym passed ∙ e
]

missing_text_inv :
    (id rest : Option String) (m : String) → missing_text id rest ≡ some m → rest ≡ some m
missing_text_inv none rest m e = cc
missing_text_inv (some id) rest m e = truthy_inv rest m e

finish_turn-Streams :
    (final : String) (missing : Option String) (s : State)
    → ((m : String) → missing ≡ some m → final ≡ append s.streamed_text m)
    → Streams s (finish_turn final missing s)
finish_turn-Streams final missing s completes =
    let named = with_final missing final s in
    let (same, started) = without_text-Keeps named in
    let (same', started') = without_reasoning-Keeps (without_text named) in
    let ending = text_ends (truthy s.text_id) ++ reasoning_ends s in
    let silent : texts_of ending ≡ "" =
      texts_of-after (text_ends (truthy s.text_id)) (reasoning_ends s)
        (texts_of-text_ends (truthy s.text_id))
      ∙ texts_of-reasoning_ends s in
    let said =
      texts_of-append (missing_part missing s.text_id) ending
      ∙ ap (λ (r : String). append (texts_of (missing_part missing s.text_id)) r) silent
      ∙ text_append-nil (texts_of (missing_part missing s.text_id)) in
    let (adds, kept) = go missing completes in
    (
      same' ∙ same ∙ adds ∙ sym (ap (λ (r : String). append s.streamed_text r) said),
      started' ∙ started ∙ kept,
    )
  where
    go :
        (missing : Option String)
        → ((m : String) → missing ≡ some m → final ≡ append s.streamed_text m)
        → Streams s (with_final missing final s, missing_part missing s.text_id)
    go none completes = quiet-Streams s s [] refl refl refl
    go (some m) completes = (
      completes m refl ∙ ap (λ (r : String). append s.streamed_text r) (sym (text_append-nil m)),
      refl,
    )

pub on_end-Streams : (message : Option Message) (s : State) → Streams s (on_end message s)
unfolding on_end
on_end-Streams message s =
    let final = extract_assistant_text message in
    finish_turn-Streams final (missing_text (truthy s.text_id) (after_text s.streamed_text final)) s
      (λ m e.
        after_text_lem s.streamed_text final m
          (missing_text_inv (truthy s.text_id) (after_text s.streamed_text final) m e))

module _ (random : ℕ → String) where
  add_text-Streams :
      (id : Option String) (delta : String) (s : State) → Streams s (add_text random id delta s)
  add_text-Streams none delta s =
      (ap (λ (r : String). append s.streamed_text r) (sym (text_append-nil delta)), refl)
  add_text-Streams (some id) delta s =
      (ap (λ (r : String). append s.streamed_text r) (sym (text_append-nil delta)), refl)

  on_text-Streams : (delta : String) (s : State) → Streams s (on_text random delta s)
  on_text-Streams delta s =
      let ended = without_reasoning s in
      let (same, started) = without_reasoning-Keeps s in
      let (adds, kept) = add_text-Streams (truthy ended.text_id) delta ended in
      (
        adds
            ∙ ap
                (λ (r : String).
                  append r (texts_of (add_text random (truthy ended.text_id) delta ended).1))
                same
            ∙ ap (λ (r : String). append s.streamed_text r)
                (sym (
                  texts_of-after (reasoning_ends s)
                    (add_text random (truthy ended.text_id) delta ended).1
                    (texts_of-reasoning_ends s))),
        kept ∙ started,
      )

  with_reasoning_id-Keeps :
      (id : Option String) (s : State) → Keeps s (with_reasoning_id random id s)
  with_reasoning_id-Keeps none s = (refl, refl)
  with_reasoning_id-Keeps (some id) s = (refl, refl)

  texts_of-thinking :
      (begun : Bool) (id delta : String)
      → texts_of (reasoning_begins random begun id ++ reasoning_delta id delta ∷ []) ≡ ""
  texts_of-thinking true id delta = refl
  texts_of-thinking false id delta = refl

  on_thinking-Streams : (delta : String) (s : State) → Streams s (on_thinking random delta s)
  on_thinking-Streams delta s =
      let ended = without_text s in
      let named = with_reasoning_id random (truthy ended.reasoning_id) ended in
      let id = or_else named.reasoning_id "" in
      let (same, started) = without_text-Keeps s in
      let (same', started') = with_reasoning_id-Keeps (truthy ended.reasoning_id) ended in
      quiet-Streams s (record named { reasoning_started = true })
        (text_ends (truthy s.text_id)
          ++ (reasoning_begins random named.reasoning_started id ++ reasoning_delta id delta ∷ []))
        (same' ∙ same) (started' ∙ started)
        (texts_of-after (text_ends (truthy s.text_id))
            (reasoning_begins random named.reasoning_started id ++ reasoning_delta id delta ∷ [])
            (texts_of-text_ends (truthy s.text_id))
          ∙ texts_of-thinking named.reasoning_started id delta)

  pub on_update-Streams :
      (update : Option Update) (s : State) → Streams s (on_update random update s)
  on_update-Streams none s = quiet-Streams s s [] refl refl refl
  on_update-Streams (some update) s =
      let delta = or_else update.delta "" in
      let thinks = str_eq (or_else update.type "") "thinking_delta" && is_some update.delta in
      if-Streams s (str_eq (or_else update.type "") "text_delta" && is_some update.delta)
        (on_text random delta s) (if thinks then on_thinking random delta s else (s, []))
        (on_text-Streams delta s)
        (if-Streams s thinks (on_thinking random delta s) (s, []) (on_thinking-Streams delta s)
          (quiet-Streams s s [] refl refl refl))
