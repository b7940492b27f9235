-- ===== src/Tests/Chats.antt =====
-- Tests of the attachments of chats. `lower` and `trim` keep the text, `base64` gives its units, and
-- `percent` too.
use runcell.Prelude.{
  ℕ, ◌≡◌, ◌≤◌, refl, false, Option, none, some, List, [], ◌∷◌, ◌++◌, map, length, Text, String,
  units, ok, err, ◌>>=◌, All, IsInfix, digits,
}
use runcell.Attachments.{attachment_path, first_free, in_folder, is_used}
use runcell.Attachments.Fresh.{first_free-is_used}
use runcell.Attachments.Names.{IsInFolder, attachment_path-IsInFolder, safe_path-attachment_path}
use runcell.Attachments.Messages.{
  ChatPart, ChatMessage, user, assistant, match_url, decode_data_url, too_large, message_text,
  texts_of, files_in,
}
use runcell.Attachments.Collected.{Attachment, attach_files, attach_messages, collect_attachments}
use runcell.Attachments.Unique.{IsDistinct, path_of, collect_attachments-IsDistinct}
use runcell.Attachments.Turns.{collect_attachments-append}
use runcell.Attachments.Sources.{sources, IsFrom, collect_attachments-IsFrom}
use runcell.Attachments.RunInput.{RunInput, chat_attachments, paths_by_message, to_run_input}
use runcell.Attachments.RunInput.Kept.{file_of, files-to_run_input}
use runcell.Attachments.RunInput.Named.{Trims, to_run_input-IsNamed}
use runcell.Paths.{safe_path}

abbrev same : Text → Text
same t = t

abbrev bytes_of : Text → Option (List ℕ)
bytes_of t = some t

abbrev file_part : Text → Option Text → ChatPart
file_part url filename = record {
  type = units "file";
  text = none;
  url = some url;
  media_type = none;
  filename = filename;
}

abbrev text_part : Text → ChatPart
text_part t = record {
  type = units "text";
  text = some t;
  url = none;
  media_type = none;
  filename = none;
}

abbrev said : ChatMessage
said = record {
  role = user;
  parts = some (
      text_part (units "see")
      ∷ file_part (units "data:text/plain;base64,abc") (some (units "../a.txt"))
      ∷ []);
  content = none;
}

abbrev answered : ChatMessage
answered = record {
  role = assistant;
  parts = some (file_part (units "https://x") none ∷ []);
  content = some (units "seen");
}

abbrev chat : List ChatMessage
chat = said ∷ answered ∷ []

abbrev attachment : ℕ → String → Attachment
attachment i path = record {
  message_index = i;
  path = units path;
  filename = some (units "../a.txt");
  media_type = some (units "text/plain");
  bytes = units "abc";
}

collect_chat :
    collect_attachments same (λ t. t) bytes_of (chat ++ said ∷ []) 3
    ≡ ok (attachment 0 "attachments/a.txt" ∷ attachment 2 "attachments/a-2.txt" ∷ [])
unfolding collect_attachments attach_messages attach_files decode_data_url match_url files_in
    attachment_path first_free digits
collect_chat = refl

collect_large : collect_attachments same (λ t. t) bytes_of chat 2 ≡ err too_large
unfolding collect_attachments attach_messages attach_files decode_data_url match_url files_in
collect_large = refl

-- A parameter of the media type.
with_charset : match_url (units "data:text/plain;charset=utf-8;base64,abc") ≡ none
unfolding match_url
with_charset = refl

-- A name that is found by inheritance.
with_inherited :
    attachment_path same (some (units "constructor")) none 0 []
    ≡ units "attachments/attachment-1.function Object() { [native code] }"
unfolding attachment_path first_free digits
with_inherited = refl

first_free-is_used_example :
    is_used
      (first_free 2 (units "a") 2 (in_folder (units "a")) (in_folder (units "a") ∷ []))
      (in_folder (units "a") ∷ [])
    ≡ false
first_free-is_used_example = first_free-is_used (units "a") (in_folder (units "a") ∷ [])

attachment_path-IsInFolder_example : IsInFolder (attachment_path same none none 4 [])
attachment_path-IsInFolder_example = attachment_path-IsInFolder same none none 4 [] (λ e. tt)

safe_path-attachment_path_example :
    safe_path (attachment_path same (some (units "image/png")) none 4 [])
    ≡ ok (attachment_path same (some (units "image/png")) none 4 [])
safe_path-attachment_path_example =
    safe_path-attachment_path same (some (units "image/png")) none 4 [] (λ e. (refl, refl))

collect_attachments-IsDistinct_example :
    IsDistinct
      (map path_of (attachment 0 "attachments/a.txt" ∷ attachment 2 "attachments/a-2.txt" ∷ []))
    × All
        (λ a. length a.bytes ≤ 3)
        (attachment 0 "attachments/a.txt" ∷ attachment 2 "attachments/a-2.txt" ∷ [])
collect_attachments-IsDistinct_example =
    collect_attachments-IsDistinct same (λ t. t) bytes_of 3 (chat ++ said ∷ [])
      (attachment 0 "attachments/a.txt" ∷ attachment 2 "attachments/a-2.txt" ∷ []) collect_chat

-- The files of the user's messages, with their indices.
sources_of_chat :
    sources (chat ++ said ∷ [])
    ≡ (0, file_part (units "data:text/plain;base64,abc") (some (units "../a.txt")))
      ∷ (2, file_part (units "data:text/plain;base64,abc") (some (units "../a.txt")))
      ∷ []
sources_of_chat = refl

collect_attachments-IsFrom_example :
    IsFrom
      (λ t. t)
      bytes_of
      3
      (sources (chat ++ said ∷ []))
      (collect_attachments same (λ t. t) bytes_of (chat ++ said ∷ []) 3)
collect_attachments-IsFrom_example =
    collect_attachments-IsFrom same (λ t. t) bytes_of 3 (chat ++ said ∷ [])

collect_attachments-append_example :
    (found : List Attachment) × (rest : List Attachment) × (collect_attachments same
        (λ t. t)
        bytes_of
        chat
        3
      ≡ ok found)
    × (attachment 0 "attachments/a.txt" ∷ attachment 2 "attachments/a-2.txt" ∷ [] ≡ found ++ rest)
collect_attachments-append_example =
    collect_attachments-append same (λ t. t) bytes_of 3 chat (said ∷ [])
      (attachment 0 "attachments/a.txt" ∷ attachment 2 "attachments/a-2.txt" ∷ []) collect_chat

files-to_run_input_example :
    (to_run_input same same (λ t. t) bytes_of chat none >>= λ input. ok input.files)
    ≡ (chat_attachments same (λ t. t) bytes_of chat none >>= λ found. ok (map file_of found))
files-to_run_input_example = files-to_run_input same same (λ t. t) bytes_of chat none

same-Trims : Trims same
same-Trims [] h = cc
same-Trims (c ∷ cs) h = refl

abbrev input : RunInput
input = record {
  prompt =
      units "Conversation so far:"
      ++ 10 ∷ units "User: see [attached: attachments/a.txt]"
      ++ 10 ∷ 10 ∷ units "seen";
  files =
      record {
        path = units "attachments/a.txt";
        bytes = units "abc";
        media_type = some (units "text/plain");
      }
      ∷ [];
}

run_chat : to_run_input same same (λ t. t) bytes_of chat none ≡ ok input
unfolding to_run_input paths_by_message message_text texts_of collect_attachments attach_messages
    attach_files decode_data_url match_url files_in attachment_path first_free digits
run_chat = refl

to_run_input-IsNamed_example : All (λ file. IsInfix file.path input.prompt) input.files
to_run_input-IsNamed_example =
    to_run_input-IsNamed same same (λ t. t) bytes_of same-Trims chat none input run_chat
