-- ===== src/Attachments.antt =====
-- packages/agent/src/ui-message-stream.ts: the files that are attached to the messages of a chat
-- (uiChatMessageFileParts, attachmentPath, decodeDataUrl, collectAttachments). `lower` stands for
-- `toLowerCase`, `base64` for the decoding of `Buffer`, and `percent` for the UTF-8 bytes of what
-- `decodeURIComponent` returns, none where it throws. The loop of `attachmentPath` runs on fuel, one
-- round more than there are paths in use.
pub mod Fresh
pub mod Names
pub mod Messages
pub mod Urls
pub mod Collected
pub mod Unique
pub mod Turns
pub mod Sources
pub mod RunInput
use runcell.Prelude.{
  ℕ, zero, suc, ◌+◌, ◌-◌, ◌≤◌, ltb, leb, ◌==◌, Bool, true, false, not, ◌&&◌, ◌||◌, Option, none,
  some, List, [], ◌∷◌, ◌++◌, map, length, if◌then◌else◌, or_else, Text, units, text_eq, digits,
  Result, ok, err, ◌>>=◌, ◌>>◌, throw_if,
}

-- `used.has(path)`.
abbrev pub is_used : Text → List Text → Bool
is_used t [] = false
is_used t (u ∷ us) = text_eq t u || is_used t us

abbrev pub is_separator : ℕ → Bool
is_separator c = c == 47 || c == 92

-- `.split(/[/\\]/).at(-1)`: what follows the last separator, or all.
abbrev pub has_separator : Text → Bool
has_separator [] = false
has_separator (c ∷ cs) = is_separator c || has_separator cs

abbrev pub after_separator : Text → Text
after_separator [] = []
after_separator (c ∷ cs) =
    let rest = after_separator cs in
    if has_separator cs then rest else if is_separator c then cs else c ∷ cs

-- `[A-Za-z0-9._-]`.
abbrev pub is_name_unit : ℕ → Bool
is_name_unit c =
    (leb 65 c && leb c 90)
    || (leb 97 c && leb c 122)
    || (leb 48 c && leb c 57)
    || c == 46
    || c == 95
    || c == 45

abbrev pub clean_unit : ℕ → ℕ
clean_unit c = if is_name_unit c then c else 95

-- `.replace(/^\.+/, '')`.
abbrev pub drop_dots : Text → Text
drop_dots [] = []
drop_dots (c ∷ cs) = let rest = drop_dots cs in if c == 46 then rest else c ∷ cs

abbrev pub base_name : Text → Text
base_name filename = drop_dots (map clean_unit (after_separator filename))

-- `MEDIA_TYPE_EXTENSIONS[type]`, with what a plain object inherits under names in lower case, as a
-- template prints it.
abbrev pub extension_of : Text → Option Text
extension_of t =
    if text_eq t (units "image/png")
    then some (units "png")
    else if text_eq t (units "image/jpeg")
    then some (units "jpg")
    else if text_eq t (units "image/gif")
    then some (units "gif")
    else if text_eq t (units "image/webp")
    then some (units "webp")
    else if text_eq t (units "application/pdf")
    then some (units "pdf")
    else if text_eq t (units "text/plain")
    then some (units "txt")
    else if text_eq t (units "text/markdown")
    then some (units "md")
    else if text_eq t (units "application/json")
    then some (units "json")
    else if text_eq t (units "text/csv")
    then some (units "csv")
    else if text_eq t (units "constructor")
    then some (units "function Object() { [native code] }")
    else if text_eq t (units "__proto__")
    then some (units "[object Object]")
    else none

abbrev pub extension_part : Option Text → Text
extension_part none = []
extension_part (some ext) = 46 ∷ ext

abbrev pub bind_extension : Option Text → Option Text
bind_extension none = none
bind_extension (some t) = extension_of t

abbrev pub attachment_name : Text → Option Text → ℕ → Text
attachment_name [] media_type index =
    units "attachment-" ++ (digits (index + 1) ++ extension_part (bind_extension media_type))
attachment_name (c ∷ cs) media_type index = c ∷ cs

-- `lastIndexOf('.')`.
abbrev pub last_dot : Text → Option ℕ
last_dot [] = none
last_dot (c ∷ cs) = elim (last_dot cs) [
  | some i ↦ some (suc i)
  | none ↦ if c == 46 then some 0 else none
]

-- `slice(0, n)` and `slice(n)`.
abbrev pub take : ℕ → Text → Text
take zero cs = []
take (suc n) [] = []
take (suc n) (c ∷ cs) = c ∷ take n cs

abbrev pub drop : ℕ → Text → Text
drop zero cs = cs
drop (suc n) [] = []
drop (suc n) (c ∷ cs) = drop n cs

-- `stem` and `ext`: a dot counts after the first place only.
abbrev pub stem_and_ext : Option ℕ → Text → Text × Text
stem_and_ext none name = (name, [])
stem_and_ext (some zero) name = (name, [])
stem_and_ext (some (suc i)) name = (take (suc i) name, drop (suc i) name)

abbrev pub numbered : Text → ℕ → Text
numbered name suffix =
    let (stem, ext) = stem_and_ext (last_dot name) name in stem ++ (45 ∷ digits suffix ++ ext)

abbrev pub in_folder : Text → Text
in_folder name = units "attachments/" ++ name

-- The `while` loop.
unfoldable pub first_free : ℕ → Text → ℕ → Text → List Text → Text
first_free zero name suffix candidate used = candidate
first_free (suc fuel) name suffix candidate used = elim (is_used candidate used) [
  | false ↦ candidate
  | true ↦ first_free fuel name (suffix + 1) (in_folder (numbered name suffix)) used
]

-- A file part, with the fields that are texts.
pub record File : Type 0 where
  pub url : Text
  pub media_type : Option Text
  pub filename : Option Text

module _ (lower : Text → Text) where
  abbrev pub lower_type : Option Text → Option Text
  lower_type none = none
  lower_type (some t) = some (lower t)

  -- `attachmentPath`, without the entry in `used`.
  unfoldable pub attachment_path : Option Text → Option Text → ℕ → List Text → Text
  unfolding first_free
  attachment_path media_type filename index used =
      let name = attachment_name (base_name (or_else filename [])) (lower_type media_type) index in
      first_free (suc (length used)) name 2 (in_folder name) used
