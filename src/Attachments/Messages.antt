-- ===== src/Attachments/Messages.antt =====
-- packages/agent/src/ui-message-stream.ts: the messages of a chat, and the bytes of their files
-- (uiChatMessageText, uiChatMessageFileParts, decodeDataUrl). A field of a part is what it holds as a
-- text, and none where it holds anything else.
use runcell.Prelude.{
  ℕ, Bool, true, false, Option, none, some, List, [], ◌∷◌, ◌++◌, length, ◌==◌, ◌||◌, ltb,
  if◌then◌else◌, or_else, Text, units, text_eq, Result, ok, err, ◌>>=◌, ◌>>◌, throw_if,
}
use runcell.Attachments.{File}

pub data Role : Type 0 where
  system user assistant : Role

pub record ChatPart : Type 0 where
  pub type : Text
  pub text : Option Text
  pub url : Option Text
  pub media_type : Option Text
  pub filename : Option Text

pub record ChatMessage : Type 0 where
  pub role : Role
  pub parts : Option (List ChatPart)
  pub content : Option Text

abbrev pub prepend {ℓ} : {A : Type ℓ} → Option A → List A → List A
prepend none xs = xs
prepend (some x) xs = x ∷ xs

-- What a part adds to the texts, and to the files, of its message.
abbrev pub text_in : ChatPart → Option Text
text_in part = if text_eq part.type (units "text") then part.text else none

abbrev pub file_with : ChatPart → Option Text → Option File
file_with part none = none
file_with part (some url) =
    some (record { url = url; media_type = part.media_type; filename = part.filename })

abbrev pub file_in : ChatPart → Option File
file_in part = if text_eq part.type (units "file") then file_with part part.url else none

unfoldable pub texts_of : List ChatPart → List Text
texts_of [] = []
texts_of (part ∷ parts) = prepend (text_in part) (texts_of parts)

abbrev pub concat : List Text → Text
concat [] = []
concat (t ∷ ts) = t ++ concat ts

abbrev pub text_of : List Text → Option Text → Text
text_of [] content = or_else content []
text_of (t ∷ ts) content = concat (t ∷ ts)

-- `uiChatMessageText`.
unfoldable pub message_text : ChatMessage → Text
unfolding texts_of
message_text message = text_of (texts_of (or_else message.parts [])) message.content

unfoldable pub files_in : List ChatPart → List File
files_in [] = []
files_in (part ∷ parts) = prepend (file_in part) (files_in parts)

-- `uiChatMessageFileParts`.
abbrev pub file_parts : ChatMessage → List File
file_parts message = files_in (or_else message.parts [])

-- `InvalidOptionError`, by its message, and the `URIError` of `decodeURIComponent`.
pub data UrlError : Type 0 where
  not_data_url too_large malformed : UrlError

-- What follows a prefix, where the text starts with it.
abbrev pub after_prefix : Text → Text → Option Text
after_prefix [] t = some t
after_prefix (p ∷ ps) [] = none
after_prefix (p ∷ ps) (c ∷ cs) = let rest = after_prefix ps cs in if p == c then rest else none

-- The longest run of `[^;,]`, and what follows it.
abbrev pub media_run : Text → Text × Text
media_run [] = ([], [])
media_run (c ∷ cs) =
    let (run, rest) = media_run cs in if c == 59 || c == 44 then ([], c ∷ cs) else (c ∷ run, rest)

-- The groups of a match.
pub record Match : Type 0 where
  pub media : Text
  pub base64 : Bool
  pub data_text : Text

abbrev pub after_comma : Text → Bool → Text → Option Match
after_comma media base64 [] = none
after_comma media base64 (c ∷ cs) =
    if c == 44 then some (record { media = media; base64 = base64; data_text = cs }) else none

abbrev pub after_media : Text → Text → Option Text → Option Match
after_media media rest none = after_comma media false rest
after_media media rest (some data_text) = after_comma media true data_text

abbrev pub after_scheme : Option Text → Option Match
after_scheme none = none
after_scheme (some t) =
    let (media, rest) = media_run t in after_media media rest (after_prefix (units ";base64") rest)

-- `/^data:([^;,]*)?(;base64)?,(.*)$/s.exec(url)`. A shorter run is followed by neither `;` nor `,`,
-- so the expression matches in one way at most.
unfoldable pub match_url : Text → Option Match
match_url url = after_scheme (after_prefix (units "data:") url)

pub record Decoded : Type 0 where
  pub bytes : List ℕ
  pub media_type : Option Text

abbrev pub some_text : Text → Option Text
some_text [] = none
some_text (c ∷ cs) = some (c ∷ cs)

abbrev pub or_malformed : Option (List ℕ) → Result UrlError (List ℕ)
or_malformed none = err malformed
or_malformed (some bytes) = ok bytes

module _ (base64 : Text → List ℕ) (percent : Text → Option (List ℕ)) where
  abbrev pub decode_match : Option Match → ℕ → Result UrlError Decoded
  decode_match none max_bytes = err not_data_url
  decode_match (some found) max_bytes = do
    bytes ←
        if found.base64 then ok (base64 found.data_text) else or_malformed (percent found.data_text)
    throw_if (ltb max_bytes (length bytes)) too_large
    ok (record { bytes = bytes; media_type = some_text found.media })

  -- `decodeDataUrl`.
  unfoldable pub decode_data_url : Text → ℕ → Result UrlError Decoded
  unfolding match_url
  decode_data_url url max_bytes = decode_match (match_url url) max_bytes
