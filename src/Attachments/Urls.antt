-- ===== src/Attachments/Urls.antt =====
-- The form of a data URL, and what decodeDataUrl (packages/agent/src/ui-message-stream.ts) makes of one.
use runcell.Prelude.{
  ℕ, ◌≤◌, ◌<◌, ◌≡◌, refl, sym, ap, ◌∙◌, subst, Bool, true, false, ◌||◌, ◌==◌, ==_iff, ltb, Option,
  none, some, List, [], ◌∷◌, ◌++◌, length, if◌then◌else◌, Text, units, Result, ok, err, ◌>>=◌, ◌>>◌,
  throw_if, All, Bool-cases, inl, inr, arith,
}
use runcell.Attachments.Messages.{
  UrlError, not_data_url, too_large, malformed, after_prefix, media_run, Match, after_comma,
  after_media, after_scheme, match_url, Decoded, some_text, or_malformed, decode_match,
  decode_data_url,
}

-- A media type without `;` and `,`.
abbrev pub IsFree : Text → Type 0
IsFree = All (λ c. (c == 59 || c == 44) ≡ false)

abbrev pub marker : Bool → Text
marker true = units ";base64"
marker false = []

-- `data:`, a media type, the mark of base64 or not, a comma, and the data.
abbrev pub IsDataUrl : Text → Text → Bool → Text → Type 0
IsDataUrl url media coded rest =
    (url ≡ units "data:" ++ (media ++ (marker coded ++ 44 ∷ rest))) × IsFree media

after_prefix-append : (p r : Text) → after_prefix p (p ++ r) ≡ some r
after_prefix-append [] r = refl
after_prefix-append (c ∷ p) r = ground (arith, after_prefix-append p r)

after_prefix-some : (p t r : Text) → after_prefix p t ≡ some r → t ≡ p ++ r
after_prefix-some [] t r e = cc
after_prefix-some (c ∷ p) [] r e = cc
after_prefix-some (c ∷ p) (d ∷ t) r e = elim (Bool-cases (c == d)) [
  | inr differ ↦
      let shut : after_prefix (c ∷ p) (d ∷ t) ≡ none =
        ap (λ (b : Bool). if b then after_prefix p t else none) differ in
      absurd (cc (shut, e))
  | inl same ↦
      let passed : after_prefix (c ∷ p) (d ∷ t) ≡ after_prefix p t =
        ap (λ (b : Bool). if b then after_prefix p t else none) same in
      ap (λ (x : ℕ). x ∷ t) (sym ((==_iff c d).0 same))
      ∙ ap (λ (x : Text). c ∷ x) (after_prefix-some p t r (sym passed ∙ e))
]

abbrev IsRun : Text → Text × Text → Type 0
IsRun t (run, rest) = (t ≡ run ++ rest) × IsFree run

media_run-IsRun : (t : Text) → IsRun t (media_run t)
media_run-IsRun [] = (refl, tt)
media_run-IsRun (c ∷ cs) = go (c == 59 || c == 44) refl (media_run-IsRun cs)
  where
    go :
        (b : Bool)
        → (c == 59 || c == 44) ≡ b
        → IsRun cs (media_run cs)
        → IsRun (c ∷ cs) (if b then ([], c ∷ cs) else (c ∷ (media_run cs).0, (media_run cs).1))
    go true e h = (refl, tt)
    go false e h = (ap (λ (x : Text). c ∷ x) h.0, (e, h.1))

media_run-append :
    (media : Text) (c : ℕ) (rest : Text)
    → IsFree media
    → (c == 59 || c == 44) ≡ true
    → media_run (media ++ c ∷ rest) ≡ (media, c ∷ rest)
media_run-append [] c rest h stop =
    ap (λ (b : Bool). if b then ([], c ∷ rest) else (c ∷ (media_run rest).0, (media_run rest).1))
      stop
media_run-append (d ∷ media) c rest (here, h) stop =
    ap
      (λ (b : Bool).
        if b
        then ([], d ∷ (media ++ c ∷ rest))
        else (d ∷ (media_run (media ++ c ∷ rest)).0, (media_run (media ++ c ∷ rest)).1))
      here
    ∙ ap (λ (p : Text × Text). (d ∷ p.0, p.1)) (media_run-append media c rest h stop)

-- What a match says of the URL.
abbrev IsMatched : Text → Option Match → Type 0
IsMatched url none =
    (media : Text) (coded : Bool) (rest : Text) → IsDataUrl url media coded rest → ⊥
IsMatched url (some found) = IsDataUrl url found.media found.base64 found.data_text

abbrev match_of : Text → Bool → Text → Match
match_of media coded rest = record { media = media; base64 = coded; data_text = rest }

after_media-marker :
    (media : Text) (coded : Bool) (rest : Text)
    → after_media media
        (marker coded ++ 44 ∷ rest)
        (after_prefix (units ";base64") (marker coded ++ 44 ∷ rest))
      ≡ some (match_of media coded rest)
after_media-marker media true rest = refl
after_media-marker media false rest = refl

match_url-IsDataUrl :
    (url media : Text) (coded : Bool) (rest : Text)
    → IsDataUrl url media coded rest
    → match_url url ≡ some (match_of media coded rest)
unfolding match_url
match_url-IsDataUrl url media coded rest (form, free) =
    ap (λ (u : Text). after_scheme (after_prefix (units "data:") u)) form
    ∙ ap after_scheme (after_prefix-append (units "data:") (media ++ (marker coded ++ 44 ∷ rest)))
    ∙ ap (λ (p : Text × Text). after_media p.0 p.1 (after_prefix (units ";base64") p.1))
        (stops coded)
    ∙ after_media-marker media coded rest
  where
    stops :
        (coded : Bool)
        → media_run (media ++ (marker coded ++ 44 ∷ rest)) ≡ (media, marker coded ++ 44 ∷ rest)
    stops true = media_run-append media 59 (units "base64" ++ 44 ∷ rest) free refl
    stops false = media_run-append media 44 rest free refl

after_comma_inv :
    (media : Text) (coded : Bool) (t : Text) (found : Match)
    → after_comma media coded t ≡ some found
    → (rest : Text) × (t ≡ 44 ∷ rest) × (match_of media coded rest ≡ found)
after_comma_inv media coded [] found e = cc
after_comma_inv media coded (c ∷ cs) found e = elim (Bool-cases (c == 44)) [
  | inr other ↦
      let shut : after_comma media coded (c ∷ cs) ≡ none =
        ap (λ (b : Bool). if b then some (match_of media coded cs) else none) other in
      absurd (cc (shut, e))
  | inl comma ↦
      let passed : after_comma media coded (c ∷ cs) ≡ some (match_of media coded cs) =
        ap (λ (b : Bool). if b then some (match_of media coded cs) else none) comma in
      (cs, ap (λ (x : ℕ). x ∷ cs) ((==_iff c 44).0 comma), cc (passed, e))
]

after_media_inv :
    (media rest : Text) (found : Match)
    → after_media media rest (after_prefix (units ";base64") rest) ≡ some found
    → (coded : Bool) × (data_text : Text) × (rest ≡ marker coded ++ 44 ∷ data_text)
      × (match_of media coded data_text ≡ found)
after_media_inv media rest found e = go (after_prefix (units ";base64") rest) refl e
  where
    go :
        (r : Option Text)
        → after_prefix (units ";base64") rest ≡ r
        → after_media media rest r ≡ some found
        → (coded : Bool) × (data_text : Text) × (rest ≡ marker coded ++ 44 ∷ data_text)
          × (match_of media coded data_text ≡ found)
    go none plain e =
        let (cs, comma, same) = after_comma_inv media false rest found e in (false, cs, comma, same)
    go (some d) base64 e =
        let (cs, comma, same) = after_comma_inv media true d found e in
        (
          true,
          cs,
          after_prefix-some (units ";base64") rest d base64
              ∙ ap (λ (x : Text). units ";base64" ++ x) comma,
          same,
        )

after_scheme_inv :
    (t : Text) (found : Match)
    → after_scheme (some t) ≡ some found
    → IsDataUrl (units "data:" ++ t) found.media found.base64 found.data_text
after_scheme_inv t found e =
    let (whole, free) = media_run-IsRun t in
    let (coded, cs, rest, same) = after_media_inv (media_run t).0 (media_run t).1 found e in
    subst (λ (f : Match). IsDataUrl (units "data:" ++ t) f.media f.base64 f.data_text) same
      (
        ap (λ (x : Text). units "data:" ++ x)
            (whole ∙ ap (λ (x : Text). (media_run t).0 ++ x) rest),
        free,
      )

match_url-IsMatched : (url : Text) → IsMatched url (match_url url)
unfolding match_url
match_url-IsMatched url = go (match_url url) refl
  where
    scheme :
        (r : Option Text) (found : Match)
        → after_prefix (units "data:") url ≡ r
        → after_scheme r ≡ some found
        → IsMatched url (some found)
    scheme none found e matched = cc
    scheme (some t) found e matched =
        subst (λ (u : Text). IsDataUrl u found.media found.base64 found.data_text)
          (sym (after_prefix-some (units "data:") url t e)) (after_scheme_inv t found matched)

    go : (m : Option Match) → match_url url ≡ m → IsMatched url m
    go none e = λ media coded rest form. cc (e, match_url-IsDataUrl url media coded rest form)
    go (some found) e = scheme (after_prefix (units "data:") url) found refl e

module _ (base64 : Text → List ℕ) (percent : Text → Option (List ℕ)) where
  -- The bytes that some data stand for.
  abbrev pub carried : Bool → Text → Option (List ℕ)
  carried true rest = some (base64 rest)
  carried false rest = percent rest

  -- A data URL with a given media type and bytes.
  abbrev pub IsRead : Text → Text → List ℕ → Type 0
  IsRead url media bytes =
      (coded : Bool) × (rest : Text) × IsDataUrl url media coded rest
      × (carried coded rest ≡ some bytes)

  -- Why a URL is refused: it has not the form, stands for more bytes than the limit, or is not well
  -- encoded.
  abbrev pub IsRefused : ℕ → UrlError → Text → Type 0
  IsRefused n not_data_url url =
      (media : Text) (coded : Bool) (rest : Text) → IsDataUrl url media coded rest → ⊥
  IsRefused n too_large url =
      (media : Text) × (bytes : List ℕ) × IsRead url media bytes × (n < length bytes)
  IsRefused n malformed url =
      (media : Text) × (rest : Text) × IsDataUrl url media false rest × (percent rest ≡ none)

  abbrev pub IsDecoded : ℕ → Text → Result UrlError Decoded → Type 0
  IsDecoded n url (ok d) =
      (media : Text) × IsRead url media d.bytes
      × (length d.bytes ≤ n)
      × (d.media_type ≡ some_text media)
  IsDecoded n url (err e) = IsRefused n e url

  sized-IsDecoded :
      (n : ℕ) (url media : Text) (bytes : List ℕ)
      → IsRead url media bytes
      → IsDecoded n url (
          throw_if (ltb n (length bytes)) too_large
          >> ok (record { bytes = bytes; media_type = some_text media }))
  sized-IsDecoded n url media bytes h = go (ltb n (length bytes)) refl
    where
      go :
          (b : Bool)
          → ltb n (length bytes) ≡ b
          → IsDecoded n url
              (throw_if b too_large >> ok (record { bytes = bytes; media_type = some_text media }))
      go true over = (media, bytes, h, ground (arith, over))
      go false within = (media, h, ground (arith, within), refl)

  decode_match-IsDecoded :
      (n : ℕ) (url : Text) (m : Option Match)
      → IsMatched url m
      → IsDecoded n url (decode_match base64 percent m n)
  decode_match-IsDecoded n url none h = h
  decode_match-IsDecoded n url (some found) h = go found.base64 h
    where
      plain :
          (r : Option (List ℕ))
          → percent found.data_text ≡ r
          → IsDataUrl url found.media false found.data_text
          → IsDecoded n url (
              or_malformed r >>= λ bytes.
              throw_if (ltb n (length bytes)) too_large
              >> ok (record { bytes = bytes; media_type = some_text found.media }))
      plain none e h = (found.media, found.data_text, h, e)
      plain (some bytes) e h =
          sized-IsDecoded n url found.media bytes (false, found.data_text, h, e)

      go :
          (coded : Bool)
          → IsDataUrl url found.media coded found.data_text
          → IsDecoded n url (
              (if coded
                then ok (base64 found.data_text)
                else or_malformed (percent found.data_text))
              >>= λ bytes.
                  throw_if (ltb n (length bytes)) too_large
                  >> ok (record { bytes = bytes; media_type = some_text found.media }))
      go true h =
          sized-IsDecoded n url found.media (base64 found.data_text)
            (true, found.data_text, h, refl)
      go false h = plain (percent found.data_text) refl h

  pub decode_data_url-IsDecoded :
      (n : ℕ) (url : Text) → IsDecoded n url (decode_data_url base64 percent url n)
  unfolding decode_data_url
  decode_data_url-IsDecoded n url =
      decode_match-IsDecoded n url (match_url url) (match_url-IsMatched url)
