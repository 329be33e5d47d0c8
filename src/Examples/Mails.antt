-- ===== src/Examples/Mails.antt =====
-- Mails and their parts, with small stand-ins for the packages that parse them.
use smtpx.Base.{
  cut_on, ℕ, ap, equal, if◌then◌else◌, ◌==◌, ◌<◌, false, true, List, [], ◌∷◌, none, some, Option,
  Bytes, codes, length, All, ◌≡◌, refl, arith, to_lower, has_prefix,
}
use smtpx.Envelope.Content.{
  Content, content, is_multipart, body_of, end, child, Part, Parsers, ok, ◌>>=◌, body,
  parse_content, walk, flatten,
}
use smtpx.Envelope.Content.Depth.{Shrinks, is_exhausted, parse_content-enough}
use smtpx.Envelope.Content.Parts.{decode, charset_of, default_text, is_identity}
use smtpx.Envelope.Content.Parts.Decoded.{decode-body}
use smtpx.Envelope.Content.Walk.{walk-listed, gather, visit, listed}
use smtpx.Envelope.Headers.{
  with_quote_none, Header, Mime, Failed, fine, failed, headers, default_config, is_quoted,
  get_header,
}
use smtpx.Envelope.Headers.Plain.{LeavesPlain, ArePlain, headers_unchanged}
use smtpx.Envelope.Headers.Forgotten.{read_error_forgotten}
use smtpx.Envelope.Mail.{Mail}
use smtpx.Envelope.Message.{canonical_key}

abbrev hello : Mail
hello = record { utf8 = false; raw_headers = codes "From: a b"; raw_body = codes "hello" }

-- A reader of headers that gives one field and then fails.
abbrev cut_off : Mime
cut_off = record {
  read_mime_header = λ s. ((codes "From", s ∷ []) ∷ [], failed);
  decode_header = λ w. (w, fine);
}

from_quoted : is_quoted default_config (codes "From") ≡ true
unfolding to_lower equal
from_quoted = refl

read_error_forgotten_example : (headers cut_off hello []).1 ≡ fine
read_error_forgotten_example =
    read_error_forgotten cut_off hello [] [] (codes "From") (codes "From: a b") [] (λ w. refl) refl
      from_quoted refl

abbrev plain : Header
plain = (codes "Content-Type", codes "text/plain" ∷ []) ∷ []

abbrev mixed : Header
mixed = (codes "Content-Type", codes "multipart/mixed" ∷ []) ∷ []

-- A body that is not empty has one part, of several parts itself: the rest of the body.
abbrev rest_of : Bytes → Bytes → Failed → List Part × Failed
rest_of boundary [] ending = ([], ending)
rest_of boundary (c ∷ s) ending = (record { header = mixed; text = s; ending = ending } ∷ [], fine)

abbrev parsers : Parsers
parsers = record {
  mime = record { read_mime_header = λ s. (plain, fine); decode_header = λ w. (w, fine) };
  parse_media_type = λ s. (s, some ((codes "boundary", codes "b") ∷ []));
  parts = rest_of;
  query_unescape = λ s. some s;
  quoted_printable = λ s. (s, fine);
  decode_base64 = λ s. some s;
  convert = λ e s ending. (s, ending);
}

rest_of-shorter :
    (boundary text : Bytes) (ending : Failed)
    → All (λ p. length (Part.text p) < length text) (rest_of boundary text ending).0
rest_of-shorter boundary [] ending = ground arith
rest_of-shorter boundary (c ∷ s) ending = ground arith

parsers-Shrinks : Shrinks parsers
parsers-Shrinks boundary text ending = rest_of-shorter boundary text ending

parse_content-enough_example :
    (parse_content parsers 9 mixed (codes "abc") fine
      ≡ parse_content parsers 4 mixed (codes "abc") fine)
    × (is_exhausted (parse_content parsers 9 mixed (codes "abc") fine) ≡ false)
parse_content-enough_example =
    parse_content-enough parsers 9 mixed (codes "abc") fine parsers-Shrinks (omega arith)

hello_read : headers parsers.mime hello [] ≡ (plain, fine)
unfolding headers
hello_read = refl

plain_typed : get_header plain (codes "Content-Type") ≡ codes "text/plain"
unfolding get_header canonical_key equal
plain_typed = refl

plain_single : is_multipart (codes "text/plain") ≡ false
unfolding has_prefix
plain_single = refl

plain_identity :
    is_identity (default_text (get_header plain (codes "Content-Transfer-Encoding")) (codes "7bit"))
    ≡ true
unfolding get_header canonical_key equal
plain_identity = refl

no_charset : charset_of ((codes "boundary", codes "b") ∷ []) ≡ codes "utf-8"
unfolding charset_of
no_charset = refl

decode-body_example :
    (body parsers hello >>= (λ c. ok (decode parsers c))) ≡ ok (codes "hello", none)
unfolding equal get_header
decode-body_example =
    decode-body parsers hello plain (codes "text/plain") ((codes "boundary", codes "b") ∷ [])
      hello_read (ap (λ t. (t, some ((codes "boundary", codes "b") ∷ []))) plain_typed) plain_single
      no_charset plain_identity

abbrev leaf_part : Content
leaf_part = content plain (codes "hey") end

abbrev tree : Content
tree = content mixed [] (child leaf_part (child (content mixed [] end) (child leaf_part end)))

-- A function that keeps the lengths of the bodies it meets, and stops at the third.
abbrev measure : Content → ℕ → List ℕ → List ℕ × Option ℕ
measure c level found = (length (body_of c) ∷ found, if length found == 2 then some level else none)

walk-listed_example :
    (walk tree measure [] ≡ visit measure (listed tree 0) [])
    × (walk tree gather [] ≡ (flatten tree, none))
walk-listed_example = walk-listed tree measure []

leaves_all : LeavesPlain parsers.mime
leaves_all w h = refl

plain-ArePlain : ArePlain plain
unfolding cut_on has_prefix
plain-ArePlain = ground arith

headers_unchanged_example : headers parsers.mime hello (with_quote_none ∷ []) ≡ (plain, fine)
headers_unchanged_example =
    headers_unchanged parsers.mime hello (with_quote_none ∷ []) plain leaves_all plain-ArePlain refl
