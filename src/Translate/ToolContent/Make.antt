-- ===== src/Translate/ToolContent/Make.antt =====
-- packages/harness-pi-raw/src/tool-content.ts: how tool content is made (toolContent). A part is none
-- where it is no object, and has `undefined` for a field that is not there. `lower` stands for
-- `toLowerCase`, and `encode` for the encoding of bytes in base64 by `Buffer`.
use runcell.Prelude.{
  ℕ, suc, pos, ltb, Bool, true, false, not, Option, none, some, List, [], ◌∷◌, length,
  if◌then◌else◌, str_eq, String, Text, units, Result, ok, err, ◌>>=◌, ◌>>◌, throw_if,
}
use runcell.Js.{Value, string, number, object, array, Values, nil, cons, Fields, field}
use runcell.Translate.ToolContent.{
  max_image_bytes, is_structural, decoded_size, is_image_type, is_canonical,
}

-- `data` of an image.
pub data Image : Type 0 where
  raw : List ℕ → Image
  encoded : String → Image
  neither : Image

pub record Input : Type 0 where
  pub type : Value
  pub text : Value
  pub media_type : Value
  pub image : Image

-- The errors, with the index of the part.
pub data ContentError : Type 0 where
  no_parts : ContentError
  not_an_object no_text no_media_type unknown_type unsupported_type no_bytes not_base64 no_data :
      ℕ → ContentError
  too_many_bytes : ℕ → ℕ → ContentError

abbrev pub as_jpeg : String → String
as_jpeg t = if str_eq t "image/jpg" then "image/jpeg" else t

-- `assertWithinImageLimit`.
abbrev pub within_limit : ℕ → ℕ → Result ContentError (Unit {0})
within_limit size index = throw_if (ltb max_image_bytes size) (too_many_bytes index size)

abbrev pub is_nil : List ℕ → Bool
is_nil [] = true
is_nil (b ∷ bs) = false

abbrev pub image_object : String → String → Value
image_object text media_type = object (
    field "type" (string "image")
      (field "data" (string text) (field "mediaType" (string media_type) Fields.end)))

abbrev pub text_object : String → Value
text_object text = object (field "type" (string "text") (field "text" (string text) Fields.end))

module _ (lower : String → String) (encode : List ℕ → String) (reencode : Text → Text) where
  -- `normalizeMediaType`.
  abbrev pub normalize_media_type : String → ℕ → Result ContentError String
  normalize_media_type given index = do
    throw_if (not (is_image_type (as_jpeg (lower given)))) (unsupported_type index)
    ok (as_jpeg (lower given))

  -- The data of an image as a text in base64.
  unfoldable pub normalize_data : Image → ℕ → Result ContentError String
  normalize_data (raw bytes) index = do
    throw_if (is_nil bytes) (no_bytes index)
    within_limit (length bytes) index
    ok (encode bytes)
  normalize_data (encoded text) index = do
    throw_if (not (is_structural (units text))) (not_base64 index)
    within_limit (decoded_size (units text)) index
    throw_if (not (is_canonical reencode (units text))) (not_base64 index)
    ok text
  normalize_data neither index = err (no_data index)

  -- `normalizeImagePart`.
  abbrev pub normalize_image : String → Image → ℕ → Result ContentError Value
  normalize_image given image index = do
    media_type ← normalize_media_type given index
    text ← normalize_data image index
    ok (image_object text media_type)

  abbrev pub text_part : Value → ℕ → Result ContentError Value
  text_part (string text) index = ok (text_object text)
  text_part value index = err (no_text index)

  abbrev pub image_part : Value → Image → ℕ → Result ContentError Value
  image_part (string media_type) image index = normalize_image media_type image index
  image_part value image index = err (no_media_type index)

  abbrev pub typed_part : Value → Input → ℕ → Result ContentError Value
  typed_part (string type) input index =
      if str_eq type "text"
      then text_part input.text index
      else if str_eq type "image"
      then image_part input.media_type input.image index
      else err (unknown_type index)
  typed_part type input index = err (unknown_type index)

  -- `normalizePart`.
  unfoldable pub normalize_part : Option Input → ℕ → Result ContentError Value
  unfolding normalize_data
  normalize_part none index = err (not_an_object index)
  normalize_part (some input) index = typed_part input.type input index

  unfoldable pub normalize_parts : List (Option Input) → ℕ → Result ContentError Values
  unfolding normalize_part
  normalize_parts [] index = ok nil
  normalize_parts (part ∷ parts) index = do
    value ← normalize_part part index
    values ← normalize_parts parts (suc index)
    ok (cons value values)

  abbrev pub envelope : Values → Value
  envelope values = object (
      field "type" (string "runcell.tool-content")
        (field "version" (number (pos 1)) (field "content" (array values) Fields.end)))

  -- `toolContent`.
  unfoldable pub tool_content : List (Option Input) → Result ContentError Value
  unfolding normalize_parts
  tool_content [] = err no_parts
  tool_content (part ∷ parts) = do values ← normalize_parts (part ∷ parts) 0; ok (envelope values)
