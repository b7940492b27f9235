-- ===== src/Tests/Contents.antt =====
-- Tests of tool content. `encode` gives one group for any bytes, and `lower` and `reencode` keep the
-- text.
use runcell.Prelude.{ℕ, ◌≡◌, refl, String, true, some, List, [], ◌∷◌, Text, ok, err, Option}
use runcell.Js.{Value, undefined, string, cons, nil}
use runcell.Translate.ToolContent.{is_tool_content}
use runcell.Translate.ToolContent.Make.{
  Input, Image, raw, encoded, neither, text_object, image_object, envelope, normalize_data,
  normalize_part, normalize_parts, tool_content, unsupported_type, not_base64,
}
use runcell.Translate.ToolContent.Made.{is_tool_content-tool_content}

abbrev lower : String → String
lower t = t

abbrev encode : List ℕ → String
encode bytes = "AAAA"

abbrev reencode : Text → Text
reencode t = t

abbrev text : Option Input
text =
    some (record {
      type = string "text";
      text = string "look";
      media_type = undefined;
      image = neither;
    })

abbrev image : String → Image → Option Input
image media_type data_of = some (record {
  type = string "image";
  text = undefined;
  media_type = string media_type;
  image = data_of;
})

abbrev parts : List (Option Input)
parts = text ∷ image "image/jpg" (raw (0 ∷ 0 ∷ 0 ∷ [])) ∷ []

abbrev made : Value
made =
    envelope lower encode reencode
      (cons (text_object "look") (cons (image_object "AAAA" "image/jpeg") nil))

make-parts : tool_content lower encode reencode parts ≡ ok made
unfolding tool_content normalize_parts normalize_part normalize_data
make-parts = refl

make_svg :
    tool_content lower encode reencode (image "image/svg" (encoded "AAAA") ∷ [])
    ≡ err (unsupported_type 0)
unfolding tool_content normalize_parts normalize_part normalize_data
make_svg = refl

make_url :
    tool_content lower encode reencode (text ∷ image "image/png" (encoded "http://x") ∷ [])
    ≡ err (not_base64 1)
unfolding tool_content normalize_parts normalize_part normalize_data
make_url = refl

is_tool_content-tool_content_example : is_tool_content reencode made ≡ true
is_tool_content-tool_content_example =
    is_tool_content-tool_content lower encode reencode parts made (tt, ((refl, refl, refl), tt))
      make-parts
