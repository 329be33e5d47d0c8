-- ===== src/Envelope/Content/Depth.antt =====
-- How deep `parseContent` (envelope/mail.go) goes: each part is shorter than the body it stands in.
use smtpx.Base.{
  ℕ, zero, suc, ◌<◌, Bool, true, false, List, [], ◌∷◌, Option, none, some, Bytes, codes, All,
  length, ◌≡◌, refl, ap, ◌∙◌, arith, if◌then◌else◌, ◌==◌,
}
use smtpx.Dkim.Params.{Params, get}
use smtpx.Envelope.Content.{
  Content, content, child, Part, Parsers, Parsed, Parse, ok, err, ◌>>=◌, too_deep, bad_headers,
  bad_media_type, no_boundary, bad_part, bad_body, bad_name, bad_data, no_name, bad_disposition,
  unknown_encoding, wrong_kind, is_multipart, read_all, parse_parts, parse_multipart, by_media_type,
  parse_content,
}
use smtpx.Envelope.Headers.{Header, Failed, fine, failed, get_header}

-- A part of a body is shorter than the body: a boundary with its dashes stands before it.
abbrev pub Shrinks : Parsers → Type 0
Shrinks m =
    (boundary text : Bytes) (ending : Failed)
    → All (λ p. length (Part.text p) < length text) (m.parts boundary text ending).0

>>=-cong :
    {A B : Type 0} (r1 r2 : Parsed A) (f g : A → Parsed B)
    → r1 ≡ r2
    → ((a : A) → f a ≡ g a)
    → (r1 >>= f) ≡ (r2 >>= g)
>>=-cong (ok a) r2 f g same each = each a ∙ ap (λ r. r >>= g) same
>>=-cong (err e) r2 f g same each = ap (λ r. r >>= g) same

-- The model's fuel has run out.
abbrev pub is_exhausted : {A : Type 0} → Parsed A → Bool
is_exhausted (err too_deep) = true
is_exhausted _ = false

>>=-shallow :
    {A B : Type 0} (r : Parsed A) (f : A → Parsed B)
    → is_exhausted r ≡ false
    → ((a : A) → is_exhausted (f a) ≡ false)
    → is_exhausted (r >>= f) ≡ false
>>=-shallow (ok a) f shallow each = each a
>>=-shallow (err bad_headers) f shallow each = refl
>>=-shallow (err bad_media_type) f shallow each = refl
>>=-shallow (err no_boundary) f shallow each = refl
>>=-shallow (err bad_part) f shallow each = refl
>>=-shallow (err bad_body) f shallow each = refl
>>=-shallow (err bad_name) f shallow each = refl
>>=-shallow (err bad_data) f shallow each = refl
>>=-shallow (err no_name) f shallow each = refl
>>=-shallow (err bad_disposition) f shallow each = refl
>>=-shallow (err unknown_encoding) f shallow each = refl
>>=-shallow (err wrong_kind) f shallow each = refl
>>=-shallow (err too_deep) f shallow each = shallow

-- Two results agree, and the fuel was enough for the first.
abbrev Same : Parsed Content → Parsed Content → Type 0
Same r1 r2 = (r1 ≡ r2) × (is_exhausted r1 ≡ false)

if-Same :
    (b : Bool) (r1 r2 q1 q2 : Parsed Content)
    → Same r1 r2
    → Same q1 q2
    → Same (if b then r1 else q1) (if b then r2 else q2)
if-Same true r1 r2 q1 q2 r q = r
if-Same false r1 r2 q1 q2 r q = q

read_all-Same :
    (h : Header) (text : Bytes) (ending : Failed)
    → Same (read_all h text ending) (read_all h text ending)
read_all-Same h text fine = (refl, refl)
read_all-Same h text failed = (refl, refl)

-- Two ways to parse a part agree on it, and the fuel of the first is enough for it.
abbrev Settled : Parse → Parse → Part → Type 0
Settled parse1 parse2 p = Same (parse1 p.header p.text p.ending) (parse2 p.header p.text p.ending)

module _ (parse1 parse2 : Parse) where
  parse_parts-same :
      (ps : List Part) (last : Failed)
      → All (Settled parse1 parse2) ps
      → parse_parts parse1 ps last ≡ parse_parts parse2 ps last
  unfolding parse_parts
  parse_parts-same [] fine each = refl
  parse_parts-same [] failed each = refl
  parse_parts-same (p ∷ ps) last (here, each) =
      >>=-cong _ _ _ _ here.0
        (λ c. ap (λ r. r >>= (λ cs. ok (child c cs))) (parse_parts-same ps last each))

  parse_parts-shallow :
      (ps : List Part) (last : Failed)
      → All (Settled parse1 parse2) ps
      → is_exhausted (parse_parts parse1 ps last) ≡ false
  unfolding parse_parts
  parse_parts-shallow [] fine each = refl
  parse_parts-shallow [] failed each = refl
  parse_parts-shallow (p ∷ ps) last (here, each) =
      >>=-shallow _ _ here.1 (λ c. >>=-shallow _ _ (parse_parts-shallow ps last each) (λ cs. refl))

  module _ (m : Parsers) (h : Header) (text : Bytes) (ending : Failed)
      (settled : (boundary : Bytes)
        → All (Settled parse1 parse2) (m.parts boundary text ending).0) where
    parse_multipart-settled :
        (boundary : Bytes)
        → Same
            (parse_multipart m parse1 h boundary text ending)
            (parse_multipart m parse2 h boundary text ending)
    unfolding parse_multipart
    parse_multipart-settled boundary =
        let parts = m.parts boundary text ending in
        if-Same (length boundary == 0) _ _ _ _ (refl, refl)
          (
            ap (λ r. r >>= (λ cs. ok (content h [] cs)))
                (parse_parts-same parts.0 parts.1 (settled boundary)),
            >>=-shallow _ _ (parse_parts-shallow parts.0 parts.1 (settled boundary)) (λ cs. refl),
          )

    by_media_type-settled :
        (t : Bytes × Option Params)
        → Same (by_media_type m parse1 h text ending t) (by_media_type m parse2 h text ending t)
    unfolding by_media_type
    by_media_type-settled (media_type, none) = (refl, refl)
    by_media_type-settled (media_type, some params) =
        if-Same (is_multipart media_type) _ _ _ _
          (parse_multipart-settled (get (codes "boundary") params)) (read_all-Same h text ending)

All-map : {P Q : Part → Type 0} (ps : List Part) → ((p : Part) → P p → Q p) → All P ps → All Q ps
All-map [] f each = each
All-map (p ∷ ps) f (here, each) = (f p here, All-map ps f each)

parse_content-settled :
    (m : Parsers)
    → Shrinks m
    → (f g : ℕ) (h : Header) (text : Bytes) (ending : Failed) → length text < f
    → length text < g
    → (parse_content m f h text ending ≡ parse_content m g h text ending)
      × (is_exhausted (parse_content m f h text ending) ≡ false)
unfolding parse_content
parse_content-settled m shrinks zero g h text ending lt1 lt2 = absurd (omega arith)
parse_content-settled m shrinks (suc f) zero h text ending lt1 lt2 = absurd (omega arith)
parse_content-settled m shrinks (suc f) (suc g) h text ending lt1 lt2 =
    by_media_type-settled (parse_content m f) (parse_content m g) m h text ending
      (λ boundary.
        All-map (m.parts boundary text ending).0
          (λ p shorter.
            parse_content-settled m shrinks f g p.header p.text p.ending (omega arith)
              (omega arith))
          (shrinks boundary text ending))
      (m.parse_media_type (get_header h (codes "Content-Type")))

-- If each part of a body is shorter than the body, `parse_content` ends with any fuel above the length
-- of what can be read of the body, and more fuel gives the same result.
pub parse_content-enough :
    (m : Parsers) (f : ℕ) (h : Header) (text : Bytes) (ending : Failed)
    → Shrinks m
    → length text < f
    → (parse_content m f h text ending ≡ parse_content m (suc (length text)) h text ending)
      × (is_exhausted (parse_content m f h text ending) ≡ false)
parse_content-enough m f h text ending shrinks enough =
    parse_content-settled m shrinks f (suc (length text)) h text ending enough (omega arith)
