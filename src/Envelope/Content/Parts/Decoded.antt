-- ===== src/Envelope/Content/Parts/Decoded.antt =====
-- What `Decode` (envelope/mail.go) returns.
use smtpx.Base.{
  Bool, true, false, [], ◌∷◌, none, some, Bytes, codes, equal, equal_iff, ◌≡◌, refl, ap, sym, any,
  List, ◌∙◌, arith, Bool-cases, inl, inr,
}
use smtpx.Dkim.Params.{Params}
use smtpx.Envelope.Content.{
  Content, content, end, Parsers, ok, ◌>>=◌, body, body_with, is_multipart, parse_content,
  by_media_type, content_header, fields_of,
}
use smtpx.Envelope.Content.Parts.{
  encoding, charset_of, decode, decode_with, decode_as, to_utf8, is_identity, default_text,
}
use smtpx.Envelope.Headers.{Header, fine, get_header, headers}
use smtpx.Envelope.Mail.{Mail}
use smtpx.Envelope.Message.{canonical_key}

-- The names of encodings that leave the bytes as they are, and all names of encodings.
abbrev pub identities : List Bytes
identities = codes "7bit" ∷ codes "8bit" ∷ codes "binary" ∷ []

abbrev pub encodings : List Bytes
encodings = codes "quoted-printable" ∷ codes "base64" ∷ identities

abbrev pub is_encoding : Bytes → Bool
is_encoding enc = any (equal enc) encodings

is_identity-any : (enc : Bytes) → any (equal enc) identities ≡ is_identity enc
is_identity-any enc = ground arith

-- `Body` keeps the fields that `parseContent` and `Decode` read.
fields_of-type :
    (type enc dis id : Bytes) → get_header (fields_of type enc dis id) (codes "Content-Type") ≡ type
unfolding fields_of get_header canonical_key equal
fields_of-type type [] [] [] = refl
fields_of-type type [] [] (c ∷ id) = refl
fields_of-type type [] (c ∷ dis) [] = refl
fields_of-type type [] (c ∷ dis) (d ∷ id) = refl
fields_of-type type (c ∷ enc) [] [] = refl
fields_of-type type (c ∷ enc) [] (d ∷ id) = refl
fields_of-type type (c ∷ enc) (d ∷ dis) [] = refl
fields_of-type type (c ∷ enc) (d ∷ dis) (e ∷ id) = refl

fields_of-encoding :
    (type enc dis id : Bytes)
    → get_header (fields_of type enc dis id) (codes "Content-Transfer-Encoding") ≡ enc
unfolding fields_of get_header canonical_key equal
fields_of-encoding type [] [] [] = refl
fields_of-encoding type [] [] (c ∷ id) = refl
fields_of-encoding type [] (c ∷ dis) [] = refl
fields_of-encoding type [] (c ∷ dis) (d ∷ id) = refl
fields_of-encoding type (c ∷ enc) [] [] = refl
fields_of-encoding type (c ∷ enc) [] (d ∷ id) = refl
fields_of-encoding type (c ∷ enc) (d ∷ dis) [] = refl
fields_of-encoding type (c ∷ enc) (d ∷ dis) (e ∷ id) = refl

content_header-type :
    (h : Header)
    → get_header (content_header h) (codes "Content-Type") ≡ get_header h (codes "Content-Type")
unfolding content_header
content_header-type h = fields_of-type (get_header h (codes "Content-Type")) _ _ _

content_header-encoding :
    (h : Header)
    → get_header (content_header h) (codes "Content-Transfer-Encoding")
      ≡ get_header h (codes "Content-Transfer-Encoding")
unfolding content_header
content_header-encoding h =
    fields_of-encoding _ (get_header h (codes "Content-Transfer-Encoding")) _ _

-- A spelling that is not one of the three is not taken for one of them.
identity-ne :
    (enc name : Bytes) → is_identity name ≡ false → is_identity enc ≡ true → equal enc name ≡ false
identity-ne enc name other identity = elim (Bool-cases (equal enc name)) [
  | inl same ↦ absurd (ground (arith, ap is_identity ((equal_iff enc name).0 same)))
  | inr h ↦ h
]

decode_as-identity :
    (m : Parsers) (enc b : Bytes)
    → is_identity enc ≡ true
    → decode_as m enc (codes "utf-8") b ≡ (b, none)
unfolding decode_as to_utf8 equal
decode_as-identity m enc b identity =
    rw
      (
        identity-ne enc (codes "quoted-printable") refl identity,
        identity-ne enc (codes "base64") refl identity,
        identity,
      )
      refl

-- A mail that is not made of parts is one content, with the body of the mail.
body-single :
    (m : Parsers) (mail : Mail) (h : Header) (t : Bytes) (params : Params)
    → headers m.mime mail [] ≡ (h, fine)
    → m.parse_media_type (get_header h (codes "Content-Type")) ≡ (t, some params)
    → is_multipart t ≡ false
    → body m mail ≡ ok (content (content_header h) mail.raw_body end)
unfolding body body_with parse_content by_media_type
body-single m mail h t params read typed single =
    rw (read, content_header-type h, typed, single) refl

-- The data of a mail whose header is read without an error, and whose Content-Type can be parsed and
-- is not of parts, with no charset or with UTF-8, and with no transfer encoding or with 7bit, 8bit or
-- binary, is the body of the mail: `Body` finds one content, and `Decode` returns the bytes with no
-- error.
pub decode-body :
    (m : Parsers) (mail : Mail) (h : Header) (t : Bytes) (params : Params)
    → headers m.mime mail [] ≡ (h, fine)
    → m.parse_media_type (get_header h (codes "Content-Type")) ≡ (t, some params)
    → is_multipart t ≡ false
    → charset_of params ≡ codes "utf-8"
    → any
        (equal (default_text (get_header h (codes "Content-Transfer-Encoding")) (codes "7bit")))
        identities
      ≡ true
    → (body m mail >>= (λ c. ok (decode m c))) ≡ ok (mail.raw_body, none)
unfolding decode decode_with encoding
decode-body m mail h t params read typed single charset identity =
    ap (λ r. r >>= (λ c. ok (decode m c))) (body-single m mail h t params read typed single)
    ∙ ap ok (
        rw (content_header-type h, typed, charset, content_header-encoding h)
          (decode_as-identity m
            (default_text (get_header h (codes "Content-Transfer-Encoding")) (codes "7bit"))
            mail.raw_body
            (sym (
                is_identity-any
                  (default_text (get_header h (codes "Content-Transfer-Encoding")) (codes "7bit")))
              ∙ identity)))
