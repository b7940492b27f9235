-- ===== src/Attachments/RunInput.antt =====
-- packages/agent/src/ui-message-stream.ts: a chat as the prompt and the files of a run
-- (uiChatMessageAttachments, uiChatMessagesToRunInput). `trim` stands for `trim`.
pub mod Kept
pub mod Named
use runcell.Prelude.{
  ℕ, zero, suc, ◌+◌, ◌-◌, Bool, true, false, not, ◌||◌, ◌==◌, Option, none, some, List, [], ◌∷◌,
  ◌++◌, map, filter, length, or_else, Text, units, Result, ok, err, ◌>>=◌, if◌then◌else◌,
}
use runcell.Attachments.Messages.{
  Role, system, user, assistant, ChatMessage, UrlError, message_text,
}
use runcell.Attachments.Collected.{Attachment, collect_attachments, default_max_bytes}

-- `UIChatAttachment`, and the entry of `files` for it.
pub record ChatAttachment : Type 0 where
  pub path : Text
  pub filename : Option Text
  pub media_type : Option Text
  pub bytes : List ℕ

pub record SeededFile : Type 0 where
  pub path : Text
  pub bytes : List ℕ
  pub media_type : Option Text

-- `UIChatRunInput`.
pub record RunInput : Type 0 where
  pub prompt : Text
  pub files : List SeededFile

abbrev pub without_index : Attachment → ChatAttachment
without_index a = record {
  path = a.path;
  filename = a.filename;
  media_type = a.media_type;
  bytes = a.bytes;
}

abbrev pub seeded_file : Attachment → SeededFile
seeded_file a = record { path = a.path; bytes = a.bytes; media_type = a.media_type }

-- A `Map` with numbers for its keys.
abbrev pub get_paths : ℕ → List (ℕ × List Text) → Option (List Text)
get_paths i [] = none
get_paths i ((j, paths) ∷ m) = let rest = get_paths i m in if j == i then some paths else rest

abbrev pub set_paths : ℕ → List Text → List (ℕ × List Text) → List (ℕ × List Text)
set_paths i new [] = (i, new) ∷ []
set_paths i new ((j, paths) ∷ m) =
    let rest = set_paths i new m in if j == i then (j, new) ∷ m else (j, paths) ∷ rest

-- The loop that fills `pathsByMessage`.
unfoldable pub paths_by_message : List Attachment → List (ℕ × List Text) → List (ℕ × List Text)
paths_by_message [] m = m
paths_by_message (a ∷ found) m =
    paths_by_message found
      (set_paths a.message_index (or_else (get_paths a.message_index m) [] ++ a.path ∷ []) m)

abbrev pub is_empty : Text → Bool
is_empty [] = true
is_empty (c ∷ cs) = false

-- `texts.join(separator)`.
abbrev pub join_with : Text → List Text → Text
join_with separator [] = []
join_with separator (t ∷ []) = t
join_with separator (t ∷ u ∷ ts) = t ++ (separator ++ join_with separator (u ∷ ts))

abbrev pub attached : List Text → Text
attached [] = []
attached (p ∷ ps) = units "[attached: " ++ (join_with (units ", ") (p ∷ ps) ++ units "]")

-- `describe`.
abbrev pub describe : List (ℕ × List Text) → ChatMessage → ℕ → Text
describe m message i = join_with (units " ") (
    filter (λ t. not (is_empty t))
      (message_text message ∷ attached (or_else (get_paths i m) []) ∷ []))

abbrev pub listed : Text → Text
listed path = units "- " ++ path

abbrev pub files_word : ℕ → Text
files_word n = if n == 1 then units "this file" else units "these files"

-- `attachmentNote`.
abbrev pub attachment_note : List Text → Option Text
attachment_note [] = none
attachment_note (p ∷ ps) = some (
    units "The user attached "
    ++ (files_word (length (p ∷ ps))
        ++ (units " to the message:" ++ 10 ∷ join_with (10 ∷ []) (map listed (p ∷ ps)))))

abbrev pub speaker : Role → Text
speaker system = units "System"
speaker user = units "User"
speaker assistant = units "Assistant"

-- `messages.slice(0, -1)`, each message with its index, and `messages.at(-1)`.
abbrev pub all_but_last : ℕ → List ChatMessage → List (ℕ × ChatMessage)
all_but_last i [] = []
all_but_last i (m ∷ []) = []
all_but_last i (m ∷ n ∷ ms) = (i, m) ∷ all_but_last (suc i) (n ∷ ms)

abbrev pub last_of : List ChatMessage → Option ChatMessage
last_of [] = none
last_of (m ∷ []) = some m
last_of (m ∷ n ∷ ms) = last_of (n ∷ ms)

module _ (lower : Text → Text) (base64 : Text → List ℕ) (percent : Text → Option (List ℕ)) where
  -- `uiChatMessageAttachments`.
  unfoldable pub chat_attachments :
      List ChatMessage → Option ℕ → Result UrlError (List ChatAttachment)
  chat_attachments messages max_bytes = do
    found ← collect_attachments lower base64 percent messages (or_else max_bytes default_max_bytes)
    ok (map without_index found)

abbrev pub described : List (ℕ × List Text) → ℕ × ChatMessage → Role × Text
described m (i, message) = (message.role, describe m message i)

abbrev pub line_of : Role × Text → Text
line_of (role, t) = speaker role ++ (units ": " ++ t)

-- `transcript`.
abbrev pub transcript_of : List (Role × Text) → Option Text
transcript_of [] = none
transcript_of (p ∷ ps) =
    some (units "Conversation so far:" ++ 10 ∷ join_with (10 ∷ []) (map line_of (p ∷ ps)))

module _ (trim : Text → Text) where
  abbrev pub is_said : Text → Bool
  is_said t = not (is_empty (trim t))

  -- `prior`.
  abbrev pub prior_of : List (ℕ × List Text) → List ChatMessage → List (Role × Text)
  prior_of m messages = filter (λ p. is_said p.1) (map (described m) (all_but_last 0 messages))

  -- The sections that say something.
  abbrev pub sections : List (Option Text) → List Text
  sections [] = []
  sections (none ∷ ts) = sections ts
  sections (some t ∷ ts) = let rest = sections ts in if is_said t then t ∷ rest else rest

  abbrev pub prompt_of : List (ℕ × List Text) → List ChatMessage → ChatMessage → Text
  prompt_of m messages last = join_with (10 ∷ 10 ∷ []) (
      sections (
        transcript_of (prior_of m messages)
        ∷ some (message_text last)
        ∷ attachment_note (or_else (get_paths (length messages - 1) m) [])
        ∷ []))

  module _ (lower : Text → Text) (base64 : Text → List ℕ) (percent : Text → Option (List ℕ)) where
    abbrev pub input_of : List ChatMessage → ChatMessage → List Attachment → RunInput
    input_of messages last found = record {
      prompt = prompt_of (paths_by_message found []) messages last;
      files = map seeded_file found;
    }

    abbrev pub with_last :
        List ChatMessage → Option ℕ → Option ChatMessage → Result UrlError RunInput
    with_last messages max_bytes none = ok (record { prompt = []; files = [] })
    with_last messages max_bytes (some last) = do
      found ←
          collect_attachments lower base64 percent messages (or_else max_bytes default_max_bytes)
      ok (input_of messages last found)

    -- `uiChatMessagesToRunInput`.
    unfoldable pub to_run_input : List ChatMessage → Option ℕ → Result UrlError RunInput
    unfolding paths_by_message
    to_run_input messages max_bytes = with_last messages max_bytes (last_of messages)
