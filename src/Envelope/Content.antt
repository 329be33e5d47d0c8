-- ===== src/Envelope/Content.antt =====
-- envelope/mail.go: the tree of the parts of a mail.
pub mod Walk
pub mod Depth
pub mod Parts
use smtpx.Base.{
  ℕ, zero, suc, ◌+◌, Bool, true, false, not, ◌&&◌, List, [], ◌∷◌, ◌++◌, Option, none, some, Bytes,
  codes, equal, has_prefix, to_lower, cut_on, length, is_some, ◌==◌, if◌then◌else◌,
}
use smtpx.Dkim.Params.{Params, get}
use smtpx.Envelope.Charset.{Encoding, resolve}
use smtpx.Envelope.Headers.{Header, Mime, Failed, fine, failed, get_header, headers}
use smtpx.Envelope.Mail.{Mail}
use smtpx.Envelope.Message.{canonical_key}

-- The list of children stands in the block of the tree.
mutual
  pub data Content : Type 0 where
    content : Header → Bytes → Children → Content

  pub data Children : Type 0 where
    end : Children
    child : Content → Children → Children

abbrev pub headers_of : Content → Header
headers_of (content h b cs) = h

abbrev pub body_of : Content → Bytes
body_of (content h b cs) = b

abbrev pub children_of : Content → Children
children_of (content h b cs) = cs

-- What `NextPart` returns with no error: a header, what can be read of the part's body, and whether
-- the read then fails.
pub record Part : Type 0 where
  pub header : Header
  pub text : Bytes
  pub ending : Failed

-- `parse_media_type` is `mime.ParseMediaType`, which gives a type beside some errors too; `parts` gives
-- the parts of a body with this boundary, and whether `NextPart` then failed otherwise than by the
-- end of the body; the others are the decoders of an escaped file name and of the encodings of a
-- part, `none` for an error.
pub record Parsers : Type 0 where
  pub mime : Mime
  pub parse_media_type : Bytes → Bytes × Option Params
  pub parts : Bytes → Bytes → Failed → List Part × Failed
  pub query_unescape : Bytes → Option Bytes
  pub quoted_printable : Bytes → Bytes × Failed
  pub decode_base64 : Bytes → Option Bytes
  pub convert : Encoding → Bytes → Failed → Bytes × Failed

-- The errors of this file. `too_deep` is none of them: it is the end of the model's fuel.
pub data MailError : Type 0 where
  bad_headers bad_media_type no_boundary bad_part bad_body bad_name bad_data no_name bad_disposition
        unknown_encoding :
      MailError
  wrong_kind too_deep : MailError

pub data Parsed {ℓ} (A : Type ℓ) : Type ℓ where
  ok : A → Parsed A
  err : MailError → Parsed A

infixl 5 ◌>>=◌
abbrev pub ◌>>=◌ {ℓ κ} : {A : Type ℓ} {B : Type κ} → Parsed A → (A → Parsed B) → Parsed B
ok a >>= f = f a
err e >>= f = err e

abbrev pub or_fail {ℓ} : {A : Type ℓ} → Option A → MailError → Parsed A
or_fail none e = err e
or_fail (some a) e = ok a

-- `parseContent` for a header, and what can be read of a body.
abbrev pub Parse : Type 0
Parse = Header → Bytes → Failed → Parsed Content

-- The loop over the parts of a body: `parse` is the call for one.
unfoldable pub parse_parts : Parse → List Part → Failed → Parsed Children
parse_parts parse [] fine = ok end
parse_parts parse [] failed = err bad_part
parse_parts parse (p ∷ ps) last = do
  c ← parse p.header p.text p.ending
  cs ← parse_parts parse ps last
  ok (child c cs)

unfoldable pub parse_multipart : Parsers → Parse → Header → Bytes → Bytes → Failed → Parsed Content
unfolding parse_parts
parse_multipart m parse h boundary text ending =
    if length boundary == 0
    then err no_boundary
    else (let (ps, last) = m.parts boundary text ending in
        do cs ← parse_parts parse ps last; ok (content h [] cs))

abbrev pub is_multipart : Bytes → Bool
is_multipart media_type = has_prefix media_type (codes "multipart/")

-- `io.ReadAll(body)`
abbrev pub read_all : Header → Bytes → Failed → Parsed Content
read_all h text fine = ok (content h text end)
read_all h text failed = err bad_body

unfoldable pub by_media_type :
    Parsers → Parse → Header → Bytes → Failed → Bytes × Option Params → Parsed Content
unfolding parse_multipart has_prefix get
by_media_type m parse h text ending (media_type, none) = err bad_media_type
by_media_type m parse h text ending (media_type, some params) =
    if is_multipart media_type
    then parse_multipart m parse h (get (codes "boundary") params) text ending
    else read_all h text ending

-- `parseContent`
unfoldable pub parse_content : Parsers → ℕ → Parse
unfolding by_media_type get_header
parse_content m zero h text ending = err too_deep
parse_content m (suc f) h text ending =
    by_media_type m (parse_content m f) h text ending
      (m.parse_media_type (get_header h (codes "Content-Type")))

-- `head.Set(key, v)`, in a header without the key.
abbrev pub set_some : Bytes → Bytes → Header → Header
set_some key [] h = h
set_some key (c ∷ v) h = (canonical_key key, (c ∷ v) ∷ []) ∷ h

-- A header with these values of the four fields, in the reverse of the order in which they are set.
unfoldable pub fields_of : Bytes → Bytes → Bytes → Bytes → Header
unfolding canonical_key
fields_of type enc dis id = set_some (codes "Content-ID") id (
    set_some (codes "Content-Disposition") dis (
      set_some (codes "Content-Transfer-Encoding") enc
        ((canonical_key (codes "Content-Type"), type ∷ []) ∷ [])))

-- The fields that `Body` takes over.
unfoldable pub content_header : Header → Header
unfolding get_header fields_of
content_header h =
    fields_of (get_header h (codes "Content-Type"))
      (get_header h (codes "Content-Transfer-Encoding"))
      (get_header h (codes "Content-Disposition")) (get_header h (codes "Content-ID"))

unfoldable pub body_with : Parsers → Bytes → Header × Failed → Parsed Content
unfolding parse_content content_header
body_with m raw (h, failed) = err bad_headers
body_with m raw (h, fine) = parse_content m (suc (length raw)) (content_header h) raw fine

-- `(*Mail).Body`
unfoldable pub body : Parsers → Mail → Parsed Content
unfolding body_with headers
body m mail = body_with m mail.raw_body (headers m.mime mail [])

abbrev has_children : Children → Bool
has_children end = false
has_children (child c cs) = true

-- `Leaf`
unfoldable pub leaf : Content → Bool
unfolding get_header has_prefix
leaf (content h b cs) =
    not (has_children cs) && not (is_multipart (get_header h (codes "Content-Type")))

-- `Flatten`
unfoldable mutual
  unfolding leaf

  pub flatten : Content → List Content
  flatten (content h b cs) =
      let below = flatten_all cs in if leaf (content h b cs) then content h b end ∷ [] else below

  pub flatten_all : Children → List Content
  flatten_all end = []
  flatten_all (child c cs) = flatten c ++ flatten_all cs

-- What follows a call that may return an error.
abbrev pub unless_error : {S E : Type 0} → S × Option E → (S → S × Option E) → S × Option E
unless_error (s, some e) next = (s, some e)
unless_error (s, none) next = next s

-- `Walk`: `fn` changes a state of type `S` and leaves the content as it is, and stops the walk by an
-- error.
unfoldable mutual
  pub walk_from : {S E : Type 0} → (Content → ℕ → S → S × Option E) → Content → ℕ → S → S × Option E
  walk_from fn (content h b cs) level s =
      unless_error (fn (content h b cs) level s) (λ s1. walk_children fn cs level s1)

  pub walk_children :
      {S E : Type 0} → (Content → ℕ → S → S × Option E) → Children → ℕ → S → S × Option E
  walk_children fn end level s = (s, none)
  walk_children fn (child c cs) level s =
      unless_error (walk_from fn c (level + 1) s) (λ s1. walk_children fn cs level s1)

-- `(*Content).Walk`
abbrev pub walk : {S E : Type 0} → Content → (Content → ℕ → S → S × Option E) → S → S × Option E
walk c fn s = walk_from fn c 0 s
