-- ===== src/Attachments/RunInput/Named.antt =====
-- What the prompt of a run says of the attachments (uiChatMessagesToRunInput in
-- packages/agent/src/ui-message-stream.ts).
use runcell.Prelude.{
  ℕ, zero, suc, ◌+◌, ◌-◌, ◌≤◌, ◌<◌, leb, ◌≡◌, refl, sym, ap, subst, Bool, true, false, not, ◌==◌,
  ◌&&◌, ◌||◌, Option, none, some, List, [], ◌∷◌, ◌++◌, map, filter, length, or_else, Text, units,
  ok, >>=-eq-ok, ok_injective, Bool-cases, inl, inr, arith, ==_iff, All, All-append, Memᴰ, IsInfix,
  IsInfix-refl, IsInfix-left, IsInfix-right, IsInfix-trans, filter-Mem, map-Mem,
}
use runcell.Attachments.{File}
use runcell.Attachments.Messages.{Role, ChatMessage, decode_data_url, message_text}
use runcell.Attachments.Collected.{
  Attachment, Collection, nothing, add_attachment, collect_attachments, seeded_files,
  default_max_bytes,
}
use runcell.Attachments.Unique.{path_of, indexed, user_files, attach_all, collect-inv}
use runcell.Attachments.RunInput.{
  SeededFile, RunInput, seeded_file, get_paths, paths_by_message, is_empty, join_with, attached,
  describe, attachment_note, files_word, listed, all_but_last, last_of, is_said, described, line_of,
  speaker, prior_of, transcript_of, sections, prompt_of, input_of, with_last, to_run_input,
}
use runcell.Attachments.RunInput.Kept.{of_message, paths_by_message_lem}

-- A text with a unit that is no space.
abbrev pub has_visible : Text → Bool
has_visible [] = false
has_visible (c ∷ cs) = (leb 33 c && leb c 126) || has_visible cs

has_visible-append : (s t : Text) → has_visible t ≡ true → has_visible (s ++ t) ≡ true
has_visible-append [] t h = h
has_visible-append (c ∷ cs) t h = ground (arith, has_visible-append cs t h)

has_visible-append_right : (s t : Text) → has_visible s ≡ true → has_visible (s ++ t) ≡ true
has_visible-append_right [] t h = cc
has_visible-append_right (c ∷ cs) t h = ground (arith, h, has_visible-append_right cs t)

IsInfix-has_visible : (s t : Text) → IsInfix s t → has_visible s ≡ true → has_visible t ≡ true
IsInfix-has_visible s t (a, b, e) h =
    rw e (has_visible-append a (s ++ b) (has_visible-append_right s b h))

join_with-IsInfix :
    (separator t : Text) (ts : List Text) → Memᴰ t ts → IsInfix t (join_with separator ts)
join_with-IsInfix separator t [] h = elim h [ ]
join_with-IsInfix separator t (u ∷ []) (Memᴰ.head same) = rw (← same) (IsInfix-refl t)
join_with-IsInfix separator t (u ∷ []) (Memᴰ.tail later) = elim later [ ]
join_with-IsInfix separator t (u ∷ v ∷ ts) (Memᴰ.head same) =
    rw (← same) (IsInfix-right t t (separator ++ join_with separator (v ∷ ts)) (IsInfix-refl t))
join_with-IsInfix separator t (u ∷ v ∷ ts) (Memᴰ.tail later) =
    IsInfix-left t (separator ++ join_with separator (v ∷ ts)) u (
      IsInfix-left t (join_with separator (v ∷ ts)) separator
        (join_with-IsInfix separator t (v ∷ ts) later))

attached-IsInfix :
    (p : Text) (ps : List Text)
    → Memᴰ p ps
    → IsInfix p (attached ps)
      × IsInfix (units "[attached: ") (attached ps)
      × (is_empty (attached ps) ≡ false)
attached-IsInfix p [] h = elim h [ ]
attached-IsInfix p (q ∷ qs) h =
    let body = join_with (units ", ") (q ∷ qs) in
    (
      IsInfix-left p (body ++ units "]") (units "[attached: ")
          (IsInfix-right p body (units "]") (join_with-IsInfix (units ", ") p (q ∷ qs) h)),
      IsInfix-right (units "[attached: ") (units "[attached: ") (body ++ units "]")
          (IsInfix-refl (units "[attached: ")),
      refl,
    )

-- A message with attachments is described with the path of each.
describe-IsInfix :
    (m : List (ℕ × List Text)) (message : ChatMessage) (i : ℕ) (p : Text)
    → Memᴰ p (or_else (get_paths i m) [])
    → IsInfix p (describe m message i) × (has_visible (describe m message i) ≡ true)
describe-IsInfix m message i p h =
    let note = attached (or_else (get_paths i m) []) in
    let (named, begins, full) = attached-IsInfix p (or_else (get_paths i m) []) h in
    let kept =
      filter-Mem (λ t. not (is_empty t)) note (message_text message ∷ note ∷ []) (ap not full)
        (Memᴰ.tail (Memᴰ.head refl)) in
    let inside =
      join_with-IsInfix (units " ") note
        (filter (λ t. not (is_empty t)) (message_text message ∷ note ∷ [])) kept in
    (
      IsInfix-trans p note (describe m message i) named inside,
      IsInfix-has_visible (units "[attached: ") (describe m message i)
          (IsInfix-trans (units "[attached: ") note (describe m message i) begins inside)
          (ground arith),
    )

-- A text for the prompt, which says something.
abbrev IsNote : Text → Option Text → Type 0
IsNote p none = ⊥
IsNote p (some t) = IsInfix p t × (has_visible t ≡ true)

attachment_note-IsNote : (p : Text) (ps : List Text) → Memᴰ p ps → IsNote p (attachment_note ps)
attachment_note-IsNote p [] h = elim h [ ]
attachment_note-IsNote p (q ∷ qs) h =
    let lines = join_with (10 ∷ []) (map listed (q ∷ qs)) in
    let line =
      join_with-IsInfix (10 ∷ []) (listed p) (map listed (q ∷ qs)) (map-Mem listed p (q ∷ qs) h) in
    let inside =
      IsInfix-trans p (listed p) lines (IsInfix-left p p (units "- ") (IsInfix-refl p)) line in
    let tail = units " to the message:" ++ 10 ∷ lines in
    (
      IsInfix-left p (files_word (length (q ∷ qs)) ++ tail) (units "The user attached ") (
          IsInfix-left p tail (files_word (length (q ∷ qs)))
            (IsInfix-left p lines (units " to the message:" ++ 10 ∷ []) inside)),
      has_visible-append_right (units "The user attached ") (files_word (length (q ∷ qs)) ++ tail)
          (ground arith),
    )

transcript_of-IsNote :
    (p : Text) (entry : Role × Text) (ps : List (Role × Text))
    → Memᴰ entry ps
    → IsInfix p entry.1
    → IsNote p (transcript_of ps)
transcript_of-IsNote p entry [] h k = elim h [ ]
transcript_of-IsNote p entry (q ∷ qs) h k =
    let lines = join_with (10 ∷ []) (map line_of (q ∷ qs)) in
    let line =
      join_with-IsInfix (10 ∷ []) (line_of entry) (map line_of (q ∷ qs))
        (map-Mem line_of entry (q ∷ qs) h) in
    let said =
      IsInfix-left p (units ": " ++ entry.1) (speaker entry.0)
        (IsInfix-left p entry.1 (units ": ") k) in
    (
      IsInfix-left p lines (units "Conversation so far:" ++ 10 ∷ [])
          (IsInfix-trans p (line_of entry) lines said line),
      has_visible-append_right (units "Conversation so far:") (10 ∷ lines) (ground arith),
    )

-- Below a bound.
abbrev IsBelow : ℕ → ℕ × File → Type 0
IsBelow k e = e.0 < k

abbrev IsOfBelow : ℕ → Attachment → Type 0
IsOfBelow k a = a.message_index < k

indexed-IsBelow : (k i : ℕ) (files : List File) → i < k → All (IsBelow k) (indexed i files)
indexed-IsBelow k i [] h = tt
indexed-IsBelow k i (f ∷ fs) h = (h, indexed-IsBelow k i fs h)

user_files-IsBelow :
    (k i : ℕ) (messages : List ChatMessage)
    → i + length messages ≤ k
    → All (IsBelow k) (user_files i messages)
user_files-IsBelow k i [] h = tt
user_files-IsBelow k i (m ∷ ms) h =
    All-append (IsBelow k) (indexed i (seeded_files m.role m)) (user_files (suc i) ms)
      (indexed-IsBelow k i (seeded_files m.role m) (omega (arith, h)))
      (user_files-IsBelow k (suc i) ms (omega (arith, h)))

-- The message with an index other than the last.
all_but_last-Mem :
    (k i : ℕ) (messages : List ChatMessage)
    → i + 1 < length messages
    → (message : ChatMessage) × Memᴰ (k + i, message) (all_but_last k messages)
all_but_last-Mem k i [] h = absurd (omega (arith, h))
all_but_last-Mem k i (m ∷ []) h = absurd (omega (arith, h))
all_but_last-Mem k zero (m ∷ n ∷ ms) h = (m, Memᴰ.head (ap (λ (j : ℕ). (j, m)) (omega arith)))
all_but_last-Mem k (suc i) (m ∷ n ∷ ms) h =
    let (message, at) = all_but_last-Mem (suc k) i (n ∷ ms) (omega (arith, h)) in
    (
      message,
      Memᴰ.tail
          (subst (λ (j : ℕ). Memᴰ (j, message) (all_but_last (suc k) (n ∷ ms))) (omega arith) at),
    )

-- `trim` leaves something of a text with a unit that is no space.
abbrev pub Trims : (Text → Text) → Type 0
Trims trim = (s : Text) → has_visible s ≡ true → is_empty (trim s) ≡ false

module _ (trim : Text → Text) (trims : Trims trim) where
  sections-IsInfix :
      (p : Text) (section : Option Text) (notes : List (Option Text))
      → Memᴰ section notes
      → IsNote p section
      → (t : Text) × Memᴰ t (sections trim notes) × IsInfix p t
  sections-IsInfix p section [] h k = elim h [ ]
  sections-IsInfix p none (o ∷ notes) h k = absurd k
  sections-IsInfix p (some t) (o ∷ notes) (Memᴰ.head same) k =
      rw (← same, trims t k.1) (t, Memᴰ.head refl, k.0)
  sections-IsInfix p (some t) (none ∷ notes) (Memᴰ.tail later) k =
      sections-IsInfix p (some t) notes later k
  sections-IsInfix p (some t) (some u ∷ notes) (Memᴰ.tail later) k =
      let (v, at, inside) = sections-IsInfix p (some t) notes later k in
      elim (Bool-cases (is_said trim u)) [
        | inl said ↦ rw said (v, Memᴰ.tail at, inside)
        | inr silent ↦ rw silent (v, at, inside)
      ]

  prompt_of-IsInfix :
      (m : List (ℕ × List Text)) (messages : List ChatMessage) (last : ChatMessage) (i : ℕ)
      (p : Text)
      → i < length messages
      → Memᴰ p (or_else (get_paths i m) [])
      → IsInfix p (prompt_of trim m messages last)
  prompt_of-IsInfix m messages last i p h k =
      let note = attachment_note (or_else (get_paths (length messages - 1) m) []) in
      let prior = prior_of trim m messages in
      let notes = transcript_of prior ∷ some (message_text last) ∷ note ∷ [] in
      let by_note : (o : Option Text)
          → Memᴰ o notes
          → IsNote p o
          → IsInfix p (prompt_of trim m messages last) =
        λ o at is_note.
          let (t, here, inside) = sections-IsInfix p o notes at is_note in
          IsInfix-trans p t (prompt_of trim m messages last) inside
            (join_with-IsInfix (10 ∷ 10 ∷ []) t (sections trim notes) here) in
      elim (Bool-cases (i == length messages - 1)) [
        | inl final ↦ by_note note (Memᴰ.tail (Memᴰ.tail (Memᴰ.head refl))) (
            attachment_note-IsNote p (or_else (get_paths (length messages - 1) m) []) (
              subst (λ (j : ℕ). Memᴰ p (or_else (get_paths j m) []))
                ((==_iff i (length messages - 1)).0 final) k))
        | inr earlier ↦
            let (message, at) = all_but_last-Mem 0 i messages (ground (arith, h, earlier)) in
            let (inside, visible) = describe-IsInfix m message i p k in
            by_note (transcript_of prior) (Memᴰ.head refl) (
              transcript_of-IsNote p (described m (i, message)) prior
                (filter-Mem (λ q. is_said trim q.1) (described m (i, message))
                  (map (described m) (all_but_last 0 messages))
                  (ap not (trims (describe m message i) visible))
                  (map-Mem (described m) (i, message) (all_but_last 0 messages)
                    (subst (λ (j : ℕ). Memᴰ (j, message) (all_but_last 0 messages)) (omega arith)
                      at)))
                inside)
      ]

module _ (trim lower : Text → Text) (base64 : Text → List ℕ) (percent : Text → Option (List ℕ))
    (trims : Trims trim) where
  attach_all-IsOfBelow :
      (n k : ℕ) (files : List (ℕ × File)) (c d : Collection)
      → All (IsBelow k) files
      → All (IsOfBelow k) c.attachments
      → attach_all lower base64 percent n files c ≡ ok d
      → All (IsOfBelow k) d.attachments
  unfolding attach_all
  attach_all-IsOfBelow n k [] c d h below e =
      subst (λ (x : Collection). All (IsOfBelow k) x.attachments) (ok_injective c d e) below
  attach_all-IsOfBelow n k ((i, file) ∷ files) c d h below e =
      let (got, decoded, after) =
        >>=-eq-ok (decode_data_url base64 percent file.url n)
          (λ x.
            attach_all lower base64 percent n files
              (add_attachment lower base64 percent i file x c))
          e in
      attach_all-IsOfBelow n k files (add_attachment lower base64 percent i file got c) d h.1
        (All-append (IsOfBelow k) c.attachments (_ ∷ []) below (h.0, tt)) after

  abbrev IsNamed : Text → SeededFile → Type 0
  IsNamed prompt file = IsInfix file.path prompt

  input_of-IsNamed :
      (messages : List ChatMessage) (last : ChatMessage) (found rest : List Attachment)
      → ((a : Attachment) → Memᴰ a rest → Memᴰ a found)
      → All (IsOfBelow (length messages)) rest
      → All
          (IsNamed (prompt_of trim (paths_by_message found []) messages last))
          (map seeded_file rest)
  input_of-IsNamed messages last found [] within below = tt
  input_of-IsNamed messages last found (a ∷ rest) within below =
      let listed_here = map-Mem path_of a (of_message a.message_index found) (
        filter-Mem (λ b. b.message_index == a.message_index) a found
          ((==_iff a.message_index a.message_index).1 refl) (within a (Memᴰ.head refl))) in
      (
        prompt_of-IsInfix trim trims (paths_by_message found []) messages last a.message_index
            a.path below.0
            (subst (λ (ps : List Text). Memᴰ a.path ps)
              (sym (paths_by_message_lem a.message_index found)) listed_here),
        input_of-IsNamed messages last found rest (λ b at. within b (Memᴰ.tail at)) below.1,
      )

  -- Where a run's input is made, its prompt names the path of every file that is seeded, when `trim`
  -- leaves something of each text with a unit that is no space.
  pub to_run_input-IsNamed :
      (messages : List ChatMessage) (max_bytes : Option ℕ) (input : RunInput)
      → to_run_input trim lower base64 percent messages max_bytes ≡ ok input
      → All (IsNamed input.prompt) input.files
  unfolding to_run_input
  to_run_input-IsNamed messages max_bytes input e = go (last_of messages) e
    where
      go :
          (o : Option ChatMessage)
          → with_last trim lower base64 percent messages max_bytes o ≡ ok input
          → All (IsNamed input.prompt) input.files
      go none e =
          subst (λ (x : RunInput). All (IsNamed x.prompt) x.files)
            (ok_injective (record { prompt = []; files = [] }) input e) tt
      go (some last) e =
          let n = or_else max_bytes default_max_bytes in
          let (found, got, same) =
            >>=-eq-ok (collect_attachments lower base64 percent messages n)
              (λ x. ok (input_of trim lower base64 percent messages last x)) e in
          let (c, all_got, at) = collect-inv lower base64 percent n messages found got in
          let below =
            attach_all-IsOfBelow n (length messages) (user_files 0 messages) nothing c
              (user_files-IsBelow (length messages) 0 messages (omega arith)) tt all_got in
          subst (λ (x : RunInput). All (IsNamed x.prompt) x.files)
            (ok_injective (input_of trim lower base64 percent messages last found) input same)
            (input_of-IsNamed messages last found found (λ a m. m)
              (subst (All (IsOfBelow (length messages))) at below))
