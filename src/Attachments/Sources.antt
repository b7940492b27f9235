-- ===== src/Attachments/Sources.antt =====
-- Where the attachments of a chat come from (collectAttachments in
-- packages/agent/src/ui-message-stream.ts): the file parts of its user messages.
use runcell.Prelude.{
  ℕ, suc, ◌≤◌, ◌≡◌, refl, sym, ap, ◌∙◌, Bool, true, false, ◌&&◌, Option, none, some, List, [], ◌∷◌,
  ◌++◌, map, filter, length, append_assoc, append-nil, or_else, is_some, if◌then◌else◌, Text, units,
  text_eq, Result, ok, err, ◌>>=◌, All, subst,
}
use runcell.Attachments.{File}
use runcell.Attachments.Messages.{
  Role, user, system, assistant, ChatPart, ChatMessage, UrlError, Decoded, some_text, prepend,
  file_with, files_in, decode_data_url,
}
use runcell.Attachments.Collected.{
  Attachment, Collection, nothing, first_of, add_attachment, collect_attachments, attach_messages,
  seeded_files,
}
use runcell.Attachments.Unique.{
  append-map, indexed, user_files, attach_all, attach_messages-attach_all,
}
use runcell.Attachments.Urls.{IsRead, IsRefused, IsDecoded, decode_data_url-IsDecoded}

-- A part with the index of its message.
abbrev pub Place : Type 0
Place = ℕ × ChatPart

abbrev placed : ℕ → List ChatPart → List Place
placed i [] = []
placed i (part ∷ parts) = (i, part) ∷ placed i parts

abbrev is_user : Role → Bool
is_user user = true
is_user system = false
is_user assistant = false

-- The parts of the user messages.
abbrev pub user_parts : ℕ → List ChatMessage → List Place
user_parts i [] = []
user_parts i (m ∷ ms) =
    let rest = user_parts (suc i) ms in
    if is_user m.role then placed i (or_else m.parts []) ++ rest else rest

-- A file part with a URL.
abbrev pub is_file : Place → Bool
is_file (i, part) = text_eq part.type (units "file") && is_some part.url

-- The file parts of the user messages, in their order.
abbrev pub sources : List ChatMessage → List Place
sources messages = filter is_file (user_parts 0 messages)

abbrev pub url_of : Place → Text
url_of (i, part) = or_else part.url []

-- The type of an attachment: that of its part, or else that of its URL, or else none.
abbrev pub IsType : Option Text → Text → Option Text → Type 0
IsType (some t) media type = type ≡ some t
IsType none [] type = type ≡ none
IsType none (c ∷ cs) type = type ≡ some (c ∷ cs)

abbrev pub Each : {A : Type 0} {B : Type 0} → (A → B → Type 0) → List A → List B → Type 0
Each R [] [] = Unit
Each R [] (y ∷ ys) = ⊥
Each R (x ∷ xs) [] = ⊥
Each R (x ∷ xs) (y ∷ ys) = R x y × Each R xs ys

first_of-IsType :
    (t : Option Text) (media : Text) (got : Option Text)
    → got ≡ some_text media
    → IsType t media (first_of t got)
first_of-IsType (some t) media got e = refl
first_of-IsType none [] got e = e
first_of-IsType none (c ∷ cs) got e = e

abbrev as_file : Place → ℕ × File
as_file (i, part) = (
  i,
  record { url = or_else part.url []; media_type = part.media_type; filename = part.filename },
)

files_in-filter :
    (i : ℕ) (parts : List ChatPart)
    → indexed i (files_in parts) ≡ map as_file (filter is_file (placed i parts))
unfolding files_in
files_in-filter i [] = refl
files_in-filter i (part ∷ parts) =
    go (text_eq part.type (units "file")) part.url refl (files_in-filter i parts)
  where
    go :
        (b : Bool) (url : Option Text)
        → part.url ≡ url
        → indexed i (files_in parts) ≡ map as_file (filter is_file (placed i parts))
        → indexed i (prepend (if b then file_with part url else none) (files_in parts))
          ≡ map as_file (
              if b && is_some url
              then (i, part) ∷ filter is_file (placed i parts)
              else filter is_file (placed i parts))
    go true none e h = h
    go false none e h = h
    go false (some url) e h = h
    go true (some url) e h =
        ap
          (λ (r : List (ℕ × File)).
            (i, record { url = url; media_type = part.media_type; filename = part.filename }) ∷ r)
          h
        ∙ ap
            (λ (u : Option Text).
              (
                i,
                record {
                  url = or_else u [];
                  media_type = part.media_type;
                  filename = part.filename;
                },
              )
              ∷ map as_file (filter is_file (placed i parts)))
            (sym e)

filter-append :
    (p : Place → Bool) (xs ys : List Place) → filter p (xs ++ ys) ≡ filter p xs ++ filter p ys
filter-append p [] ys = refl
filter-append p (x ∷ xs) ys = go (p x) (filter-append p xs ys)
  where
    go :
        (b : Bool)
        → filter p (xs ++ ys) ≡ filter p xs ++ filter p ys
        → (if b then x ∷ filter p (xs ++ ys) else filter p (xs ++ ys))
          ≡ (if b then x ∷ filter p xs else filter p xs) ++ filter p ys
    go true h = ap (λ (r : List Place). x ∷ r) h
    go false h = h

user_files-sources :
    (i : ℕ) (messages : List ChatMessage)
    → user_files i messages ≡ map as_file (filter is_file (user_parts i messages))
user_files-sources i [] = refl
user_files-sources i (m ∷ ms) = go m.role (user_files-sources (suc i) ms)
  where
    parts : List ChatPart
    parts = or_else m.parts []

    go :
        (role : Role)
        → user_files (suc i) ms ≡ map as_file (filter is_file (user_parts (suc i) ms))
        → indexed i (seeded_files role m) ++ user_files (suc i) ms
          ≡ map as_file (
              filter is_file (
                if is_user role
                then placed i parts ++ user_parts (suc i) ms
                else user_parts (suc i) ms))
    go user h =
        ap (λ (r : List (ℕ × File)). r ++ user_files (suc i) ms) (files_in-filter i parts)
        ∙ ap (λ (r : List (ℕ × File)). map as_file (filter is_file (placed i parts)) ++ r) h
        ∙ sym (
            append-map as_file (filter is_file (placed i parts))
              (filter is_file (user_parts (suc i) ms)))
        ∙ ap (λ (r : List Place). map as_file r)
            (sym (filter-append is_file (placed i parts) (user_parts (suc i) ms)))
    go system h = h
    go assistant h = h

module _ (base64 : Text → List ℕ) (percent : Text → Option (List ℕ)) where
  -- An attachment that a part gives: what its URL stands for, within the limit, under the index of
  -- its message and its name.
  abbrev pub Gives : ℕ → Place → Attachment → Type 0
  Gives n (i, part) a =
      (a.message_index ≡ i)
      × (a.filename ≡ part.filename)
      × (length a.bytes ≤ n)
      × (media : Text) × IsRead base64 percent (url_of (i, part)) media a.bytes
      × IsType part.media_type media a.media_type

  abbrev pub IsGood : ℕ → Place → Type 0
  IsGood n place = (a : Attachment) × Gives n place a

  -- The first part that gives no attachment, and why.
  abbrev pub Stops : ℕ → List Place → UrlError → Type 0
  Stops n places e =
      (before : List Place) × (place : Place) × (after : List Place) × (places
        ≡ before ++ place ∷ after)
      × All (IsGood n) before
      × IsRefused base64 percent n e (url_of place)

  -- What a collection from some parts comes to.
  abbrev pub IsFrom : ℕ → List Place → Result UrlError (List Attachment) → Type 0
  IsFrom n places (ok found) = Each (Gives n) places found
  IsFrom n places (err e) = Stops n places e

  abbrev Grows : ℕ → List Place → Collection → Result UrlError Collection → Type 0
  Grows n places c (ok d) =
      (rest : List Attachment) × (d.attachments ≡ c.attachments ++ rest)
      × Each (Gives n) places rest
  Grows n places c (err e) = Stops n places e

  Grows-IsFrom :
      (n : ℕ) (places : List Place) (r : Result UrlError Collection)
      → Grows n places nothing r
      → IsFrom n places (r >>= λ c. ok c.attachments)
  Grows-IsFrom n places (ok d) (rest, same, each) = subst (Each (Gives n) places) (sym same) each
  Grows-IsFrom n places (err e) h = h

module _ (lower : Text → Text) (base64 : Text → List ℕ) (percent : Text → Option (List ℕ)) where
  Grows-next :
      (n : ℕ) (place : Place) (places : List Place) (d : Decoded) (c : Collection)
      (r : Result UrlError Collection)
      → IsDecoded base64 percent n (url_of place) (ok d)
      → Grows base64 percent n places
          (add_attachment lower base64 percent place.0 (as_file place).1 d c)
          r
      → Grows base64 percent n (place ∷ places) c r
  Grows-next n (i, part) places d c (ok end) (media, read, small, type) (rest, same, each) = (
    _ ∷ rest,
    same ∙ append_assoc c.attachments (_ ∷ []) rest,
    (
      (refl, refl, small, media, read, first_of-IsType part.media_type media d.media_type type),
      each,
    ),
  )
  Grows-next n (i, part) places d c (err e) (media, read, small, type)
        (before, place, after, same, good, refused) =
      let a : Attachment = record {
        message_index = i;
        path = [];
        filename = part.filename;
        media_type = first_of part.media_type d.media_type;
        bytes = d.bytes;
      } in
      (
        (i, part) ∷ before,
        place,
        after,
        ap (λ (r : List Place). (i, part) ∷ r) same,
        (
          (
            a,
            (
              refl,
              refl,
              small,
              media,
              read,
              first_of-IsType part.media_type media d.media_type type,
            ),
          ),
          good,
        ),
        refused,
      )

  attach_all-Grows :
      (n : ℕ) (places : List Place) (c : Collection)
      → Grows base64 percent n places c (attach_all lower base64 percent n (map as_file places) c)
  unfolding attach_all
  attach_all-Grows n [] c = ([], sym (append-nil c.attachments), tt)
  attach_all-Grows n ((i, part) ∷ places) c =
      go (decode_data_url base64 percent (url_of (i, part)) n)
        (decode_data_url-IsDecoded base64 percent n (url_of (i, part)))
        (λ d.
          attach_all-Grows n places
            (add_attachment lower base64 percent i (as_file (i, part)).1 d c))
    where
      go :
          (r : Result UrlError Decoded)
          → IsDecoded base64 percent n (url_of (i, part)) r
          → ((d : Decoded)
              → Grows base64 percent n places
                  (add_attachment lower base64 percent i (as_file (i, part)).1 d c)
                  (attach_all lower base64 percent n
                    (map as_file places)
                    (add_attachment lower base64 percent i (as_file (i, part)).1 d c)))
          → Grows base64 percent n ((i, part) ∷ places) c (
              r >>= λ d.
              attach_all lower base64 percent n
                (map as_file places)
                (add_attachment lower base64 percent i (as_file (i, part)).1 d c))
      go (ok d) h k = Grows-next n (i, part) places d c _ h (k d)
      go (err e) h k = ([], (i, part), places, refl, tt, h)

  -- The attachments of a chat are those of the file parts with a URL of its user messages, one of
  -- each, in their order: with the index of its message, its name, the bytes that its data URL stands
  -- for, which are within the limit, and the type that the part gives or else the URL. Where there
  -- is an error instead, it is that of the first of these parts whose URL has not the form of a data
  -- URL, stands for more bytes than the limit, or is not well encoded.
  pub collect_attachments-IsFrom :
      (n : ℕ) (messages : List ChatMessage)
      → IsFrom base64 percent n
          (sources messages)
          (collect_attachments lower base64 percent messages n)
  unfolding collect_attachments
  collect_attachments-IsFrom n messages =
      let files = user_files-sources 0 messages in
      Grows-IsFrom base64 percent n (sources messages)
        (attach_messages lower base64 percent n 0 messages nothing)
        (subst (Grows base64 percent n (sources messages) nothing)
          (ap (λ (fs : List (ℕ × File)). attach_all lower base64 percent n fs nothing) (sym files)
            ∙ sym (attach_messages-attach_all lower base64 percent n 0 messages nothing))
          (attach_all-Grows n (sources messages) nothing))
