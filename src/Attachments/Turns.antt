-- ===== src/Attachments/Turns.antt =====
-- The attachments of a chat and of the chat that goes on (collectAttachments in
-- packages/agent/src/ui-message-stream.ts).
use runcell.Prelude.{
  ℕ, suc, ◌+◌, ◌≡◌, refl, sym, ap, ◌∙◌, Option, List, [], ◌∷◌, ◌++◌, length, append_assoc,
  append-nil, Text, Result, ok, ◌>>=◌, >>=-eq-ok, ok_injective, arith,
}
use runcell.Attachments.{File}
use runcell.Attachments.Messages.{ChatMessage, UrlError, decode_data_url}
use runcell.Attachments.Collected.{
  Attachment, Collection, nothing, add_attachment, collect_attachments, seeded_files,
}
use runcell.Attachments.Unique.{
  indexed, user_files, attach_all, attach_all-append, attach_messages-attach_all, collect-inv,
}

indexed-append : (i : ℕ) (fs gs : List File) → indexed i (fs ++ gs) ≡ indexed i fs ++ indexed i gs
indexed-append i [] gs = refl
indexed-append i (f ∷ fs) gs = ap (λ (r : List (ℕ × File)). (i, f) ∷ r) (indexed-append i fs gs)

module _ (lower : Text → Text) (base64 : Text → List ℕ) (percent : Text → Option (List ℕ)) where
  attach_all-append_inv :
      (n : ℕ) (files : List (ℕ × File)) (c d : Collection)
      → attach_all lower base64 percent n files c ≡ ok d
      → (rest : List Attachment) × (d.attachments ≡ c.attachments ++ rest)
  unfolding attach_all
  attach_all-append_inv n [] c d e = (
    [],
    sym (append-nil c.attachments ∙ ap (λ (x : Collection). x.attachments) (ok_injective c d e)),
  )
  attach_all-append_inv n ((i, file) ∷ files) c d e =
      let (got, decoded, after) =
        >>=-eq-ok (decode_data_url base64 percent file.url n)
          (λ x.
            attach_all lower base64 percent n files
              (add_attachment lower base64 percent i file x c))
          e in
      let (rest, same) =
        attach_all-append_inv n files (add_attachment lower base64 percent i file got c) d after in
      (_ ∷ rest, same ∙ append_assoc c.attachments (_ ∷ []) rest)

  user_files-append :
      (i : ℕ) (messages more : List ChatMessage)
      → user_files i (messages ++ more)
        ≡ user_files i messages ++ user_files (length messages + i) more
  user_files-append i [] more = ap (λ (k : ℕ). user_files k more) (omega arith)
  user_files-append i (m ∷ ms) more =
      let here = indexed i (seeded_files m.role m) in
      ap (λ (r : List (ℕ × File)). here ++ r)
        (user_files-append (suc i) ms more
          ∙ ap (λ (k : ℕ). user_files (suc i) ms ++ user_files k more) (omega arith))
      ∙ sym (append_assoc here (user_files (suc i) ms) (user_files (suc (length ms) + i) more))

  -- When a chat goes on, the attachments that it had are the same as before, with their paths, and
  -- the new ones come after them.
  pub collect_attachments-append :
      (n : ℕ) (messages more : List ChatMessage) (all_found : List Attachment)
      → collect_attachments lower base64 percent (messages ++ more) n ≡ ok all_found
      → (found : List Attachment) × (rest : List Attachment) × (collect_attachments lower base64
            percent messages n
          ≡ ok found)
        × (all_found ≡ found ++ rest)
  unfolding collect_attachments
  collect_attachments-append n messages more all_found e =
      let (d, got, same) = collect-inv lower base64 percent n (messages ++ more) all_found e in
      let files = user_files 0 messages in
      let later = user_files (length messages + 0) more in
      let split =
        sym (attach_all-append lower base64 percent n files later nothing)
        ∙ ap (λ (fs : List (ℕ × File)). attach_all lower base64 percent n fs nothing)
            (sym (user_files-append 0 messages more))
        ∙ got in
      let (c, first, after) =
        >>=-eq-ok (attach_all lower base64 percent n files nothing)
          (attach_all lower base64 percent n later) split in
      let (rest, extended) = attach_all-append_inv n later c d after in
      (
        c.attachments,
        rest,
        ap (λ (r : Result UrlError Collection). r >>= λ c. ok c.attachments)
            (attach_messages-attach_all lower base64 percent n 0 messages nothing ∙ first),
        sym same ∙ extended,
      )
