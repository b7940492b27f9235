-- ===== src/Attachments/Collected.antt =====
-- packages/agent/src/ui-message-stream.ts: the attachments of a chat's user messages
-- (collectAttachments, uiChatMessageAttachments).
use runcell.Prelude.{
  ℕ, suc, ◌*◌, Option, none, some, List, [], ◌∷◌, ◌++◌, length, Text, Result, ok, ◌>>=◌,
}
use runcell.Attachments.{File, attachment_path}
use runcell.Attachments.Messages.{
  Role, user, system, assistant, ChatMessage, file_parts, UrlError, Decoded, decode_data_url,
}

-- `DEFAULT_MAX_ATTACHMENT_BYTES`.
abbrev pub default_max_bytes : ℕ
default_max_bytes = 20 * 1024 * 1024

pub record Attachment : Type 0 where
  pub message_index : ℕ
  pub path : Text
  pub filename : Option Text
  pub media_type : Option Text
  pub bytes : List ℕ

-- The variables of the loop: `usedPaths`, in the order of insertion, and `attachments`.
pub record Collection : Type 0 where
  pub used : List Text
  pub attachments : List Attachment

abbrev pub nothing : Collection
nothing = record { used = []; attachments = [] }

-- `a ?? b`.
abbrev pub first_of : Option Text → Option Text → Option Text
first_of none other = other
first_of (some t) other = some t

-- The files that the loop over the messages looks at.
abbrev pub seeded_files : Role → ChatMessage → List File
seeded_files user message = file_parts message
seeded_files system message = []
seeded_files assistant message = []

module _ (lower : Text → Text) (base64 : Text → List ℕ) (percent : Text → Option (List ℕ)) where
  abbrev pub add_attachment : ℕ → File → Decoded → Collection → Collection
  add_attachment message_index file decoded c =
      let media_type = first_of file.media_type decoded.media_type in
      let path = attachment_path lower media_type file.filename (length c.attachments) c.used in
      record {
        used = c.used ++ path ∷ [];
        attachments =
            c.attachments
            ++ (record {
              message_index = message_index;
              path = path;
              filename = file.filename;
              media_type = media_type;
              bytes = decoded.bytes;
            })
              ∷ [];
      }

  -- The loop over the files of a message.
  unfoldable pub attach_files : ℕ → ℕ → List File → Collection → Result UrlError Collection
  attach_files max_bytes i [] c = ok c
  attach_files max_bytes i (file ∷ files) c = do
    decoded ← decode_data_url base64 percent file.url max_bytes
    attach_files max_bytes i files (add_attachment i file decoded c)

  unfoldable pub attach_messages :
      ℕ → ℕ → List ChatMessage → Collection → Result UrlError Collection
  unfolding attach_files
  attach_messages max_bytes i [] c = ok c
  attach_messages max_bytes i (message ∷ messages) c = do
    seen ← attach_files max_bytes i (seeded_files message.role message) c
    attach_messages max_bytes (suc i) messages seen

  -- `collectAttachments`.
  unfoldable pub collect_attachments : List ChatMessage → ℕ → Result UrlError (List Attachment)
  unfolding attach_messages
  collect_attachments messages max_bytes = do
    c ← attach_messages max_bytes 0 messages nothing
    ok c.attachments
