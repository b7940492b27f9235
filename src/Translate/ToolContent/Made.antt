-- ===== src/Translate/ToolContent/Made.antt =====
-- What the guard of tool content says of tool content that was made
-- (packages/harness-pi-raw/src/tool-content.ts).
use runcell.Prelude.{
  ℕ, suc, ◌≡◌, ◌≤◌, refl, sym, ap, ◌∙◌, subst, Bool, true, false, not, Option, none, some, List, [],
  ◌∷◌, length, if◌then◌else◌, str_eq, String, Text, units, text_eq, Result, ok, err, ◌>>=◌, ◌>>◌,
  throw_if, throw_if-eq-ok, throw_if-ltb, >>=-eq-ok, ok_injective, Bool-cases, inl, inr, arith,
}
use runcell.Js.{Value, string, Values, nil, cons}
use runcell.Translate.ToolContent.{
  max_image_bytes, is_structural, decoded_size, is_image_type, is_canonical, is_part, are_parts,
  is_tool_content,
}
use runcell.Translate.ToolContent.Make.{
  Image, raw, encoded, neither, Input, ContentError, too_many_bytes, unsupported_type, not_base64,
  unknown_type, as_jpeg, within_limit, image_object, text_object, normalize_media_type,
  normalize_data, normalize_image, text_part, image_part, typed_part, normalize_part,
  normalize_parts, envelope, tool_content,
}

not-false : (b : Bool) → not b ≡ false → b ≡ true
not-false true h = refl
not-false false h = cc

module _ (lower : String → String) (encode : List ℕ → String) (reencode : Text → Text) where
  -- What base64 gives for some bytes: a text of whole groups, of their number, that stands for itself.
  abbrev pub IsEncoded : List ℕ → Type 0
  IsEncoded bytes =
      (is_structural (units (encode bytes)) ≡ true)
      × (decoded_size (units (encode bytes)) ≡ length bytes)
      × (text_eq (reencode (units (encode bytes))) (units (encode bytes)) ≡ true)

  abbrev pub IsEncodedImage : Image → Type 0
  IsEncodedImage (raw []) = Unit
  IsEncodedImage (raw (b ∷ bs)) = IsEncoded (b ∷ bs)
  IsEncodedImage (encoded text) = Unit
  IsEncodedImage neither = Unit

  abbrev pub AreEncoded : List (Option Input) → Type 0
  AreEncoded [] = Unit
  AreEncoded (none ∷ parts) = AreEncoded parts
  AreEncoded (some input ∷ parts) = IsEncodedImage input.image × AreEncoded parts

  -- A text that an image may have.
  abbrev IsData : String → Type 0
  IsData text =
      (is_structural (units text) ≡ true)
      × (decoded_size (units text) ≤ max_image_bytes)
      × (is_canonical reencode (units text) ≡ true)

  normalize_data-IsData :
      (image : Image) (index : ℕ) (text : String)
      → IsEncodedImage image
      → normalize_data lower encode reencode image index ≡ ok text
      → IsData text
  unfolding normalize_data
  normalize_data-IsData (raw []) index text h e = cc
  normalize_data-IsData (raw (b ∷ bs)) index text h e =
      let (u, small, same) =
        >>=-eq-ok (within_limit (length (b ∷ bs)) index) (λ _. ok (encode (b ∷ bs))) e in
      let few =
        throw_if-ltb max_image_bytes (length (b ∷ bs)) (too_many_bytes index (length (b ∷ bs)))
          small in
      subst IsData (ok_injective (encode (b ∷ bs)) text same)
        (h.0, omega (arith, h.1, few), rw (h.0, h.2) refl)
  normalize_data-IsData (encoded t) index text h e =
      let (u, shaped, rest) =
        >>=-eq-ok (throw_if (not (is_structural (units t))) (not_base64 index))
          (λ _.
            within_limit (decoded_size (units t)) index
            >> (throw_if (not (is_canonical reencode (units t))) (not_base64 index) >> ok t))
          e in
      let (v, small, rest') =
        >>=-eq-ok (within_limit (decoded_size (units t)) index)
          (λ _. throw_if (not (is_canonical reencode (units t))) (not_base64 index) >> ok t) rest in
      let (w, canonical, same) =
        >>=-eq-ok (throw_if (not (is_canonical reencode (units t))) (not_base64 index)) (λ _. ok t)
          rest' in
      let shape = throw_if-eq-ok (not (is_structural (units t))) (not_base64 index) shaped in
      let canon =
        throw_if-eq-ok (not (is_canonical reencode (units t))) (not_base64 index) canonical in
      subst IsData (ok_injective t text same) (
        not-false (is_structural (units t)) shape,
        throw_if-ltb max_image_bytes (decoded_size (units t))
            (too_many_bytes index (decoded_size (units t))) small,
        not-false (is_canonical reencode (units t)) canon,
      )
  normalize_data-IsData neither index text h e = cc

  image_object-is_part :
      (text media_type : String)
      → is_image_type media_type ≡ true
      → IsData text
      → is_part reencode (image_object text media_type) ≡ true
  image_object-is_part text media_type typed (shape, small, canonical) =
      ground (arith, typed, shape, small, canonical)

  normalize_image-is_part :
      (given : String) (image : Image) (index : ℕ) (value : Value)
      → IsEncodedImage image
      → normalize_image lower encode reencode given image index ≡ ok value
      → is_part reencode value ≡ true
  normalize_image-is_part given image index value h e =
      let (media_type, typed, rest) =
        >>=-eq-ok (normalize_media_type lower encode reencode given index)
          (λ media_type. normalize_data lower encode reencode image index >>= λ text.
            ok (image_object text media_type))
          e in
      let (text, made, same) =
        >>=-eq-ok (normalize_data lower encode reencode image index)
          (λ text. ok (image_object text media_type)) rest in
      let (u, supported, same') =
        >>=-eq-ok (throw_if (not (is_image_type (as_jpeg (lower given)))) (unsupported_type index))
          (λ _. ok (as_jpeg (lower given))) typed in
      let known = not-false (is_image_type (as_jpeg (lower given))) (
        throw_if-eq-ok (not (is_image_type (as_jpeg (lower given)))) (unsupported_type index)
          supported) in
      subst (λ (v : Value). is_part reencode v ≡ true)
        (ok_injective (image_object text media_type) value same)
        (image_object-is_part text media_type
          (subst (λ (t : String). is_image_type t ≡ true)
            (ok_injective (as_jpeg (lower given)) media_type same') known)
          (normalize_data-IsData image index text h made))

  image_part-is_part :
      (media_type : Value) (image : Image) (index : ℕ) (value : Value)
      → IsEncodedImage image
      → image_part lower encode reencode media_type image index ≡ ok value
      → is_part reencode value ≡ true
  image_part-is_part (string t) image index value h e =
      normalize_image-is_part t image index value h e
  image_part-is_part media_type image index value h e = cc

  text_part-is_part :
      (text : Value) (index : ℕ) (value : Value)
      → text_part lower encode reencode text index ≡ ok value
      → is_part reencode value ≡ true
  text_part-is_part (string t) index value e =
      subst (λ (v : Value). is_part reencode v ≡ true) (ok_injective (text_object t) value e) refl
  text_part-is_part text index value e = cc

  typed_part-is_part :
      (type : Value) (input : Input) (index : ℕ) (value : Value)
      → IsEncodedImage input.image
      → typed_part lower encode reencode type input index ≡ ok value
      → is_part reencode value ≡ true
  typed_part-is_part (string t) input index value h e = elim (Bool-cases (str_eq t "text")) [
    | inl text ↦ text_part-is_part input.text index value (
        sym (
          ap
            (λ (c : Bool). if c then text_part lower encode reencode input.text index else by_image)
            text)
        ∙ e)
    | inr other ↦ go (str_eq t "image") (
        sym (
          ap
            (λ (c : Bool). if c then text_part lower encode reencode input.text index else by_image)
            other)
        ∙ e)
  ]
    where
      by_image : Result ContentError Value
      by_image =
          if str_eq t "image"
          then image_part lower encode reencode input.media_type input.image index
          else err (unknown_type index)

      go :
          (c : Bool)
          → (if c
              then image_part lower encode reencode input.media_type input.image index
              else err (unknown_type index))
            ≡ ok value
          → is_part reencode value ≡ true
      go true e = image_part-is_part input.media_type input.image index value h e
      go false e = cc
  typed_part-is_part type input index value h e = cc

  normalize_parts-are_parts :
      (parts : List (Option Input)) (index : ℕ) (values : Values)
      → AreEncoded parts
      → normalize_parts lower encode reencode parts index ≡ ok values
      → are_parts reencode values ≡ true
  unfolding normalize_parts normalize_part
  normalize_parts-are_parts [] index values h e =
      subst (λ (vs : Values). are_parts reencode vs ≡ true) (ok_injective nil values e) refl
  normalize_parts-are_parts (none ∷ parts) index values h e = cc
  normalize_parts-are_parts (some input ∷ parts) index values (well, h) e =
      let (value, made, rest) =
        >>=-eq-ok (typed_part lower encode reencode input.type input index)
          (λ value. normalize_parts lower encode reencode parts (suc index) >>= λ values.
            ok (cons value values))
          e in
      let (values', made', same) =
        >>=-eq-ok (normalize_parts lower encode reencode parts (suc index))
          (λ values. ok (cons value values)) rest in
      subst (λ (vs : Values). are_parts reencode vs ≡ true)
        (ok_injective (cons value values') values same)
        (rw
          (
            typed_part-is_part input.type input index value well made,
            normalize_parts-are_parts parts (suc index) values' h made',
          )
          refl)

  normalize_parts-cons :
      (part : Option Input) (parts : List (Option Input)) (index : ℕ) (values : Values)
      → normalize_parts lower encode reencode (part ∷ parts) index ≡ ok values
      → (first : Value) × (rest : Values) × (values ≡ cons first rest)
  unfolding normalize_parts
  normalize_parts-cons part parts index values e =
      let (value, made, later) =
        >>=-eq-ok (normalize_part lower encode reencode part index)
          (λ value. normalize_parts lower encode reencode parts (suc index) >>= λ values.
            ok (cons value values))
          e in
      let (values', made', same) =
        >>=-eq-ok (normalize_parts lower encode reencode parts (suc index))
          (λ values. ok (cons value values)) later in
      (value, values', sym (ok_injective (cons value values') values same))

  -- Whatever parts it is made from, tool content passes the guard, where base64 gives for the bytes of
  -- each image a text of whole groups, of their number, that stands for itself.
  pub is_tool_content-tool_content :
      (parts : List (Option Input)) (value : Value)
      → AreEncoded parts
      → tool_content lower encode reencode parts ≡ ok value
      → is_tool_content reencode value ≡ true
  unfolding tool_content is_tool_content
  is_tool_content-tool_content [] value h e = cc
  is_tool_content-tool_content (part ∷ parts) value h e =
      let (values, made, same) =
        >>=-eq-ok (normalize_parts lower encode reencode (part ∷ parts) 0)
          (λ values. ok (envelope lower encode reencode values)) e in
      let good = normalize_parts-are_parts (part ∷ parts) 0 values h made in
      let (first, rest, full) = normalize_parts-cons part parts 0 values made in
      subst (λ (v : Value). is_tool_content reencode v ≡ true)
        (ok_injective (envelope lower encode reencode values) value same)
        (rw full (subst (λ (vs : Values). are_parts reencode vs ≡ true) full good))
