-- ===== src/Envelope/Content/Parts.antt =====
-- envelope/mail.go: what one part of a mail holds, decoded, and its names.
pub mod Decoded
use smtpx.Base.{
  Bool, true, false, ◌||◌, List, [], ◌∷◌, Option, none, some, Bytes, codes, equal, to_lower, cut_on,
  is_some, length, ◌==◌, if◌then◌else◌,
}
use smtpx.Dkim.Params.{Params, get}
use smtpx.Envelope.Charset.{Encoding, resolve}
use smtpx.Envelope.Content.{
  Content, headers_of, body_of, Parsers, MailError, bad_media_type, bad_body, bad_disposition,
  no_name, bad_name, bad_data, unknown_encoding, wrong_kind, Parsed, ok, err, ◌>>=◌, or_fail,
}
use smtpx.Envelope.Headers.{Header, Failed, fine, failed, get_header}

abbrev pub default_text : Bytes → Bytes → Bytes
default_text s default = if length s == 0 then default else s

-- `Encoding`
unfoldable pub encoding : Content → Bytes
unfolding get_header
encoding c =
    default_text (get_header (headers_of c) (codes "Content-Transfer-Encoding")) (codes "7bit")

unfoldable pub charset_of : Params → Bytes
unfolding get to_lower
charset_of params = default_text (to_lower (get (codes "charset") params)) (codes "utf-8")

through : Parsers → Option Encoding → Bytes → Failed → Bytes × Failed
through m none text ending = (text, ending)
through m (some e) text ending = m.convert e text ending

-- What comes out of `toUTF8(r)` for a reader `r`: a name that is in no table changes nothing.
unfoldable pub to_utf8 : Parsers → Bytes → Bytes → Failed → Bytes × Failed
unfolding through resolve equal
to_utf8 m charset text ending =
    if equal charset (codes "utf-8")
    then (text, ending)
    else through m (resolve charset) text ending

-- `io.ReadAll` gives the bytes read before an error too.
abbrev pub all_of : Bytes × Failed → Bytes × Option MailError
all_of (decoded, fine) = (decoded, none)
all_of (decoded, failed) = (decoded, some bad_body)

unfoldable pub decode_base64 : Parsers → Bytes → Option Bytes → Bytes × Option MailError
unfolding to_utf8
decode_base64 m charset none = ([], some bad_data)
decode_base64 m charset (some decoded) = all_of (to_utf8 m charset decoded fine)

-- The three encodings that leave the bytes as they are.
abbrev pub is_identity : Bytes → Bool
is_identity enc =
    equal enc (codes "7bit") || (equal enc (codes "8bit") || equal enc (codes "binary"))

unfoldable pub decode_as : Parsers → Bytes → Bytes → Bytes → Bytes × Option MailError
unfolding to_utf8 decode_base64 equal
decode_as m enc charset body =
    if equal enc (codes "quoted-printable")
    then (let (decoded, ending) = m.quoted_printable body in
        all_of (to_utf8 m charset decoded ending))
    else if equal enc (codes "base64")
    then decode_base64 m charset (m.decode_base64 body)
    else if is_identity enc
    then all_of (to_utf8 m charset body fine)
    else ([], some unknown_encoding)

unfoldable pub decode_with : Parsers → Bytes → Bytes → Option Params → Bytes × Option MailError
unfolding decode_as charset_of
decode_with m enc body none = ([], some bad_media_type)
decode_with m enc body (some params) = decode_as m enc (charset_of params) body

-- `Decode`: the data and the error, if any.
unfoldable pub decode : Parsers → Content → Bytes × Option MailError
unfolding decode_with get_header encoding
decode m c =
    decode_with m (encoding c) (body_of c)
      (m.parse_media_type (get_header (headers_of c) (codes "Content-Type"))).1

name_or_type : Parsers → Header → Bytes → Parsed Bytes
unfolding get get_header
name_or_type m h name =
    if length name == 0
    then (do
      params ← or_fail (m.parse_media_type (get_header h (codes "Content-Type"))).1 bad_media_type
      ok (get (codes "name") params))
    else ok name

-- A name that is not in the notation of RFC 5987 is unescaped.
unescaped : Parsers → Bytes → Bytes → Parsed Bytes
unfolding cut_on
unescaped m disposition name =
    if length name == 0
    then err no_name
    else if is_some (cut_on disposition (codes "filename*"))
    then ok name
    else or_fail (m.query_unescape name) bad_name

-- `filename`, which is `Filename` of the three kinds of parts.
unfoldable pub filename : Parsers → Content → Parsed Bytes
unfolding name_or_type unescaped get get_header
filename m c = do
  params ←
      or_fail (m.parse_media_type (get_header (headers_of c) (codes "Content-Disposition"))).1
        bad_disposition
  name ← name_or_type m (headers_of c) (get (codes "filename") params)
  unescaped m (get_header (headers_of c) (codes "Content-Disposition")) name

-- The error of `ParseMediaType` is not looked at.
is_disposed : Bytes → Parsers → Content → Bool
unfolding get_header equal to_lower
is_disposed kind m c =
    equal
      (to_lower (m.parse_media_type (get_header (headers_of c) (codes "Content-Disposition"))).0)
      kind

-- `IsForm`, `IsInline` and `IsAttachment`
unfoldable pub is_form : Parsers → Content → Bool
unfolding is_disposed
is_form m c = is_disposed (codes "form-data") m c

unfoldable pub is_inline : Parsers → Content → Bool
unfolding is_disposed
is_inline m c = is_disposed (codes "inline") m c

unfoldable pub is_attachment : Parsers → Content → Bool
unfolding is_disposed
is_attachment m c = is_disposed (codes "attachment") m c

-- `FormPart`, `InlinePart` and `AttachmentPart`
pub record FormPart : Type 0 where
  pub form : Content

pub record InlinePart : Type 0 where
  pub inline : Content

pub record AttachmentPart : Type 0 where
  pub attachment : Content

unfoldable pub as_form : Parsers → Content → Parsed FormPart
unfolding is_form
as_form m c = if is_form m c then ok (record { form = c }) else err wrong_kind

unfoldable pub as_inline : Parsers → Content → Parsed InlinePart
unfolding is_inline
as_inline m c = if is_inline m c then ok (record { inline = c }) else err wrong_kind

unfoldable pub as_attachment : Parsers → Content → Parsed AttachmentPart
unfolding is_attachment
as_attachment m c = if is_attachment m c then ok (record { attachment = c }) else err wrong_kind

-- `(*FormPart).Name`
unfoldable pub form_name : Parsers → FormPart → Parsed Bytes
unfolding get get_header
form_name m p = do
  params ←
      or_fail (m.parse_media_type (get_header (headers_of p.form) (codes "Content-Disposition"))).1
        bad_disposition
  if length (get (codes "name") params) == 0 then err no_name else ok (get (codes "name") params)
