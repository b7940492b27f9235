-- ===== src/Translate/ToolContent.antt =====
-- packages/harness-pi-raw/src/tool-content.ts: the guard of tool content (isToolContent). `reencode`
-- stands for the decoding and encoding again of base64 by `Buffer`.
pub mod Make
pub mod Made
use runcell.Prelude.{
  ℕ, pos, ◌-◌, ◌*◌, ◌/◌, ◌%◌, ltb, leb, ◌==◌, Bool, true, false, ◌&&◌, ◌||◌, [], ◌∷◌, length,
  if◌then◌else◌, str_eq, String, Text, units, text_eq,
}
use runcell.Js.{Value, string, number, object, array, Values, nil, cons, Fields, get}

abbrev pub max_image_bytes : ℕ
max_image_bytes = 5 * 1024 * 1024

-- `[A-Za-z0-9+/]`.
abbrev pub is_base64_unit : ℕ → Bool
is_base64_unit c =
    (leb 65 c && leb c 90)
    || (leb 97 c && leb c 122)
    || (leb 48 c && leb c 57)
    || c == 43
    || c == 47

-- `={0,2}$`.
abbrev pub is_padding : Text → Bool
is_padding [] = true
is_padding (c ∷ []) = c == 61
is_padding (c ∷ d ∷ []) = c == 61 && d == 61
is_padding (c ∷ d ∷ e ∷ cs) = false

-- What is left of `[A-Za-z0-9+/]*={0,2}$` at a place.
abbrev pub is_base64_tail : Text → Bool
is_base64_tail [] = true
is_base64_tail (c ∷ cs) =
    let rest = is_base64_tail cs in if is_base64_unit c then rest else is_padding (c ∷ cs)

abbrev pub is_base64 : Text → Bool
is_base64 [] = false
is_base64 (c ∷ cs) = is_base64_unit c && is_base64_tail cs

-- `isStructuralBase64`.
abbrev pub is_structural : Text → Bool
is_structural t = ltb 0 (length t) && length t % 4 == 0 && is_base64 t

abbrev pub ends_padded : Text → ℕ
ends_padded [] = 0
ends_padded (c ∷ []) = if c == 61 then 1 else 0
ends_padded (c ∷ d ∷ []) = if d == 61 then if c == 61 then 2 else 1 else 0
ends_padded (c ∷ d ∷ e ∷ cs) = ends_padded (d ∷ e ∷ cs)

-- `decodedBase64Size`, of a text whose length four divides.
abbrev pub decoded_size : Text → ℕ
decoded_size t = length t / 4 * 3 - ends_padded t

abbrev pub is_image_type : String → Bool
is_image_type t =
    str_eq t "image/png" || str_eq t "image/jpeg" || str_eq t "image/gif" || str_eq t "image/webp"

module _ (reencode : Text → Text) where
  -- `isCanonicalBase64`.
  abbrev pub is_canonical : Text → Bool
  is_canonical t = is_structural t && text_eq (reencode t) t

  abbrev pub is_image : Value → Value → Bool
  is_image (string encoded) (string media_type) =
      is_image_type media_type
      && is_structural (units encoded)
      && leb (decoded_size (units encoded)) max_image_bytes
      && is_canonical (units encoded)
  is_image encoded media_type = false

  abbrev pub is_text : Value → Bool
  is_text (string t) = true
  is_text value = false

  abbrev pub is_content_part : Value → Fields → Bool
  is_content_part (string type) fields =
      if str_eq type "text"
      then is_text (get fields "text")
      else if str_eq type "image"
      then is_image (get fields "data") (get fields "mediaType")
      else false
  is_content_part type fields = false

  abbrev pub is_part : Value → Bool
  is_part (object fields) = is_content_part (get fields "type") fields
  is_part value = false

  abbrev pub are_parts : Values → Bool
  are_parts nil = true
  are_parts (cons v vs) = is_part v && are_parts vs

  abbrev pub is_content : Value → Bool
  is_content (array nil) = false
  is_content (array (cons v vs)) = are_parts (cons v vs)
  is_content value = false

  abbrev pub is_version : Value → Bool
  is_version (number (pos n)) = n == 1
  is_version value = false

  abbrev pub is_brand : Value → Bool
  is_brand (string type) = str_eq type "runcell.tool-content"
  is_brand value = false

  -- `isToolContent`.
  unfoldable pub is_tool_content : Value → Bool
  is_tool_content (object fields) =
      is_brand (get fields "type")
      && is_version (get fields "version")
      && is_content (get fields "content")
  is_tool_content value = false
