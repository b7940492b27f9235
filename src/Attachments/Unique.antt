-- ===== src/Attachments/Unique.antt =====
-- The collection of a chat's attachments (collectAttachments in
-- packages/agent/src/ui-message-stream.ts), file after file.
use runcell.Prelude.{
  ℕ, suc, ◌≤◌, ◌≡◌, refl, sym, ap, ◌∙◌, false, Option, none, some, List, [], ◌∷◌, ◌++◌, map, length,
  or_else, Text, text_eq, Result, ok, ◌>>=◌, >>=-eq-ok, >>=-cong, >>=-assoc, ok_injective,
  throw_if-ltb, throw_if, ltb, All, All-append, arith, subst, if◌then◌else◌,
}
use runcell.Attachments.{File, attachment_path, is_used, attachment_name, base_name, lower_type}
use runcell.Attachments.Fresh.{first_free-is_used, apart_sym}
use runcell.Attachments.Messages.{
  ChatMessage, UrlError, Decoded, Match, match_url, decode_data_url, decode_match, or_malformed,
  some_text, too_large,
}
use runcell.Attachments.Collected.{
  Attachment, Collection, nothing, first_of, add_attachment, attach_files, attach_messages,
  seeded_files, collect_attachments,
}

-- No path twice.
abbrev pub IsDistinct : List Text → Type 0
IsDistinct [] = Unit
IsDistinct (t ∷ ts) = (is_used t ts ≡ false) × IsDistinct ts

is_used-append :
    (d t : Text) (ts : List Text)
    → is_used d ts ≡ false
    → text_eq d t ≡ false
    → is_used d (ts ++ t ∷ []) ≡ false
is_used-append d t [] h k = rw k refl
is_used-append d t (u ∷ us) h k = ground (arith, h, is_used-append d t us, k)

IsDistinct-append :
    (t : Text) (ts : List Text) → IsDistinct ts → is_used t ts ≡ false → IsDistinct (ts ++ t ∷ [])
IsDistinct-append t [] h k = (refl, tt)
IsDistinct-append t (u ∷ us) h k = (
  is_used-append u t us h.0 (apart_sym t u (ground (arith, k))),
  IsDistinct-append t us h.1 (ground (arith, k)),
)

pub append-map {ℓ κ} :
    {A : Type ℓ} {B : Type κ} (f : A → B) (xs ys : List A) → map f (xs ++ ys) ≡ map f xs ++ map f ys
append-map f [] ys = refl
append-map f (x ∷ xs) ys = ap (λ (r : List _). f x ∷ r) (append-map f xs ys)

abbrev pub path_of : Attachment → Text
path_of a = a.path

-- The files that are seeded, each with the index of its message.
abbrev pub indexed : ℕ → List File → List (ℕ × File)
indexed i [] = []
indexed i (file ∷ files) = (i, file) ∷ indexed i files

abbrev pub user_files : ℕ → List ChatMessage → List (ℕ × File)
user_files i [] = []
user_files i (message ∷ messages) =
    indexed i (seeded_files message.role message) ++ user_files (suc i) messages

module _ (lower : Text → Text) (base64 : Text → List ℕ) (percent : Text → Option (List ℕ)) where
  unfoldable pub attach_all : ℕ → List (ℕ × File) → Collection → Result UrlError Collection
  attach_all max_bytes [] c = ok c
  attach_all max_bytes ((i, file) ∷ files) c = do
    decoded ← decode_data_url base64 percent file.url max_bytes
    attach_all max_bytes files (add_attachment lower base64 percent i file decoded c)

  attach_all-indexed :
      (n i : ℕ) (files : List File) (c : Collection)
      → attach_files lower base64 percent n i files c ≡ attach_all n (indexed i files) c
  unfolding attach_all attach_files
  attach_all-indexed n i [] c = refl
  attach_all-indexed n i (file ∷ files) c =
      >>=-cong (decode_data_url base64 percent file.url n)
        (λ d. attach_all-indexed n i files (add_attachment lower base64 percent i file d c))

  pub attach_all-append :
      (n : ℕ) (fs gs : List (ℕ × File)) (c : Collection)
      → attach_all n (fs ++ gs) c ≡ (attach_all n fs c >>= attach_all n gs)
  unfolding attach_all
  attach_all-append n [] gs c = refl
  attach_all-append n ((i, file) ∷ fs) gs c =
      >>=-cong (decode_data_url base64 percent file.url n)
        (λ d. attach_all-append n fs gs (add_attachment lower base64 percent i file d c))
      ∙ sym (
          >>=-assoc (decode_data_url base64 percent file.url n)
            (λ d. attach_all n fs (add_attachment lower base64 percent i file d c))
            (attach_all n gs))

  pub attach_messages-attach_all :
      (n i : ℕ) (messages : List ChatMessage) (c : Collection)
      → attach_messages lower base64 percent n i messages c ≡ attach_all n (user_files i messages) c
  unfolding attach_messages attach_all
  attach_messages-attach_all n i [] c = refl
  attach_messages-attach_all n i (m ∷ ms) c =
      let files = seeded_files m.role m in
      >>=-cong (attach_files lower base64 percent n i files c)
        (attach_messages-attach_all n (suc i) ms)
      ∙ ap (λ (r : Result UrlError Collection). r >>= attach_all n (user_files (suc i) ms))
          (attach_all-indexed n i files c)
      ∙ sym (attach_all-append n (indexed i files) (user_files (suc i) ms) c)

  decode-bytes_le :
      (url : Text) (n : ℕ) (d : Decoded)
      → decode_data_url base64 percent url n ≡ ok d
      → length d.bytes ≤ n
  unfolding decode_data_url
  decode-bytes_le url n d e = go (match_url url) e
    where
      sized :
          (bytes : List ℕ) (media : Text)
          → (throw_if (ltb n (length bytes)) too_large >>= λ _.
              ok (record { bytes = bytes; media_type = some_text media }))
            ≡ ok d
          → length d.bytes ≤ n
      sized bytes media e =
          let (u, small, same) =
            >>=-eq-ok (throw_if (ltb n (length bytes)) too_large)
              (λ _. ok (record { bytes = bytes; media_type = some_text media })) e in
          subst (λ (x : Decoded). length x.bytes ≤ n)
            (ok_injective (record { bytes = bytes; media_type = some_text media }) d same)
            (throw_if-ltb n (length bytes) too_large small)

      go : (m : Option Match) → decode_match base64 percent m n ≡ ok d → length d.bytes ≤ n
      go none e = cc
      go (some found) e =
          let (bytes, got, rest) =
            >>=-eq-ok
              (if found.base64
                then ok (base64 found.data_text)
                else or_malformed (percent found.data_text))
              (λ bytes. throw_if (ltb n (length bytes)) too_large >>= λ _.
                ok (record { bytes = bytes; media_type = some_text found.media }))
              e in
          sized bytes found.media rest

  abbrev IsSmall : ℕ → Attachment → Type 0
  IsSmall n a = length a.bytes ≤ n

  -- The paths in use are the attachments', none twice, and no attachment is too large.
  abbrev pub IsCollection : ℕ → Collection → Type 0
  IsCollection n c =
      (map path_of c.attachments ≡ c.used) × IsDistinct c.used × All (IsSmall n) c.attachments

  add_attachment-IsCollection :
      (n i : ℕ) (file : File) (d : Decoded) (c : Collection)
      → length d.bytes ≤ n
      → IsCollection n c
      → IsCollection n (add_attachment lower base64 percent i file d c)
  unfolding attachment_path
  add_attachment-IsCollection n i file d c small (same, distinct, sizes) =
      let added = add_attachment lower base64 percent i file d c in
      let media_type = first_of file.media_type d.media_type in
      let path = attachment_path lower media_type file.filename (length c.attachments) c.used in
      let a : Attachment = record {
        message_index = i;
        path = path;
        filename = file.filename;
        media_type = media_type;
        bytes = d.bytes;
      } in
      (
        append-map path_of c.attachments (a ∷ []) ∙ ap (λ (r : List Text). r ++ path ∷ []) same,
        IsDistinct-append path c.used distinct (
            first_free-is_used
              (attachment_name (base_name (or_else file.filename [])) (lower_type lower media_type)
                (length c.attachments))
              c.used),
        All-append (IsSmall n) c.attachments (a ∷ []) sizes (small, tt),
      )

  attach_all-IsCollection :
      (n : ℕ) (files : List (ℕ × File)) (c d : Collection)
      → IsCollection n c
      → attach_all n files c ≡ ok d
      → IsCollection n d
  unfolding attach_all
  attach_all-IsCollection n [] c d h e = subst (IsCollection n) (ok_injective c d e) h
  attach_all-IsCollection n ((i, file) ∷ files) c d h e =
      let (got, decoded, rest) =
        >>=-eq-ok (decode_data_url base64 percent file.url n)
          (λ x. attach_all n files (add_attachment lower base64 percent i file x c)) e in
      attach_all-IsCollection n files (add_attachment lower base64 percent i file got c) d
        (add_attachment-IsCollection n i file got c (decode-bytes_le file.url n got decoded) h) rest

  pub collect-inv :
      (n : ℕ) (messages : List ChatMessage) (found : List Attachment)
      → collect_attachments lower base64 percent messages n ≡ ok found
      → (c : Collection) × (attach_all n (user_files 0 messages) nothing ≡ ok c)
        × (c.attachments ≡ found)
  unfolding collect_attachments
  collect-inv n messages found e =
      let (c, got, same) =
        >>=-eq-ok (attach_messages lower base64 percent n 0 messages nothing)
          (λ c. ok c.attachments) e in
      (
        c,
        sym (attach_messages-attach_all n 0 messages nothing) ∙ got,
        ok_injective c.attachments found same,
      )

  -- No two attachments of a chat have the same path, and each has at most as many bytes as the limit
  -- says.
  pub collect_attachments-IsDistinct :
      (n : ℕ) (messages : List ChatMessage) (found : List Attachment)
      → collect_attachments lower base64 percent messages n ≡ ok found
      → IsDistinct (map path_of found) × All (IsSmall n) found
  collect_attachments-IsDistinct n messages found e =
      let (c, got, same) = collect-inv n messages found e in
      let (paths, distinct, sizes) =
        attach_all-IsCollection n (user_files 0 messages) nothing c (refl, tt, tt) got in
      rw (← same) (subst IsDistinct (sym paths) distinct, sizes)
