-- ===== src/Attachments/RunInput/Kept.antt =====
-- The files of a run's input and the map from messages to paths (uiChatMessagesToRunInput in
-- packages/agent/src/ui-message-stream.ts).
use runcell.Prelude.{
  ℕ, ◌≡◌, refl, sym, ap, ◌∙◌, ◌==◌, Option, some, List, [], ◌∷◌, ◌++◌, map, filter, or_else, Text,
  Result, ok, err, ◌>>=◌, append_assoc, append-nil, if◌then◌else◌, Bool-cases, inl, inr, arith,
  ==_iff,
}
use runcell.Attachments.Messages.{ChatMessage, UrlError}
use runcell.Attachments.Collected.{Attachment, collect_attachments, default_max_bytes}
use runcell.Attachments.Unique.{path_of}
use runcell.Attachments.RunInput.{
  ChatAttachment, SeededFile, without_index, seeded_file, get_paths, set_paths, paths_by_message,
  last_of, chat_attachments, input_of, with_last, to_run_input,
}

abbrev pub file_of : ChatAttachment → SeededFile
file_of a = record { path = a.path; bytes = a.bytes; media_type = a.media_type }

-- The attachments of one message.
abbrev pub of_message : ℕ → List Attachment → List Attachment
of_message i found = filter (λ a. a.message_index == i) found

get-set_paths :
    (i j : ℕ) (new : List Text) (m : List (ℕ × List Text))
    → get_paths i (set_paths j new m) ≡ (if j == i then some new else get_paths i m)
get-set_paths i j new [] = refl
get-set_paths i j new ((k, paths) ∷ m) = ground (arith, get-set_paths i j new m)

paths_by_message_from :
    (i : ℕ) (found : List Attachment) (m : List (ℕ × List Text))
    → or_else (get_paths i (paths_by_message found m)) []
      ≡ or_else (get_paths i m) [] ++ map path_of (of_message i found)
unfolding paths_by_message
paths_by_message_from i [] m = sym (append-nil (or_else (get_paths i m) []))
paths_by_message_from i (a ∷ found) m =
    let next =
      set_paths a.message_index (or_else (get_paths a.message_index m) [] ++ a.path ∷ []) m in
    let later = paths_by_message_from i found next in
    let here =
      get-set_paths i a.message_index (or_else (get_paths a.message_index m) [] ++ a.path ∷ []) m in
    elim (Bool-cases (a.message_index == i)) [
      | inr other ↦
          let kept : get_paths i next ≡ get_paths i m = ground (arith, here, other) in
          later ∙ rw (other, kept) refl
      | inl same ↦
          let index = (==_iff a.message_index i).0 same in
          let set : get_paths i next ≡ some (or_else (get_paths i m) [] ++ a.path ∷ []) =
            here ∙ rw (same, index) refl in
          later
          ∙ rw (same, set)
              (append_assoc (or_else (get_paths i m) []) (a.path ∷ [])
                (map path_of (of_message i found)))
    ]

-- The map holds, for each message, the paths of its attachments in their order.
pub paths_by_message_lem :
    (i : ℕ) (found : List Attachment)
    → or_else (get_paths i (paths_by_message found [])) [] ≡ map path_of (of_message i found)
paths_by_message_lem i found = paths_by_message_from i found []

last_of-some :
    (m : ChatMessage) (ms : List ChatMessage)
    → (last : ChatMessage) × (last_of (m ∷ ms) ≡ some last)
last_of-some m [] = (m, refl)
last_of-some m (n ∷ ms) = last_of-some n ms

files-map :
    (found : List Attachment) → map seeded_file found ≡ map file_of (map without_index found)
files-map [] = refl
files-map (a ∷ found) = ap (λ (r : List SeededFile). seeded_file a ∷ r) (files-map found)

module _ (trim lower : Text → Text) (base64 : Text → List ℕ)
    (percent : Text → Option (List ℕ)) where
  -- A run's input has the files that `uiChatMessageAttachments` gives, under the same paths and in
  -- the same order, and fails with the same error.
  pub files-to_run_input :
      (messages : List ChatMessage) (max_bytes : Option ℕ)
      → (to_run_input trim lower base64 percent messages max_bytes >>= λ input. ok input.files) ≡ (
          chat_attachments lower base64 percent messages max_bytes >>= λ found.
          ok (map file_of found))
  unfolding to_run_input chat_attachments collect_attachments
  files-to_run_input [] max_bytes = refl
  files-to_run_input (m ∷ ms) max_bytes =
      let (last, at) = last_of-some m ms in
      let limit = or_else max_bytes default_max_bytes in
      ap
        (λ (o : Option ChatMessage).
          with_last trim lower base64 percent (m ∷ ms) max_bytes o >>= λ input. ok input.files)
        at
      ∙ go last (collect_attachments lower base64 percent (m ∷ ms) limit)
    where
      go :
          (last : ChatMessage) (r : Result UrlError (List Attachment))
          → ((r >>= λ found. ok (input_of trim lower base64 percent (m ∷ ms) last found))
              >>= λ input. ok input.files)
            ≡ ((r >>= λ found. ok (map without_index found)) >>= λ found. ok (map file_of found))
      go last (ok found) = ap ok (files-map found)
      go last (err e) = refl
