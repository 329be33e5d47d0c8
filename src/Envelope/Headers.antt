-- ===== src/Envelope/Headers.antt =====
-- envelope/mail.go: the headers of a mail and their decoding. What the packages `mime`, `net/textproto` and
-- the like do is a parameter.
pub mod Forgotten
pub mod Plain
use smtpx.Base.{
  ℕ, Bool, true, false, not, ◌&&◌, ◌||◌, List, [], ◌∷◌, ◌++◌, Option, none, some, Bytes, codes,
  equal, any, to_lower, split, join, cut_on, length, is_some, ◌==◌, if◌then◌else◌,
}
use smtpx.Envelope.Charset.{Encoding}
use smtpx.Envelope.Mail.{Mail}
use smtpx.Envelope.Message.{canonical_key}

-- `textproto.MIMEHeader`: canonical keys with their values, in some order.
abbrev pub Header : Type 0
Header = List (Bytes × List Bytes)

abbrev first_value : List Bytes → Bytes
first_value [] = []
first_value (v ∷ vs) = v

-- `Get` for a canonical key.
unfoldable pub get_canonical : Bytes → Header → Bytes
unfolding equal
get_canonical key [] = []
get_canonical key ((k, vs) ∷ h) = if equal key k then first_value vs else get_canonical key h

unfoldable pub get_header : Header → Bytes → Bytes
unfolding get_canonical canonical_key
get_header h key = get_canonical (canonical_key key) h

-- The error of a call, whose text is left out.
pub data Failed : Type 0 where
  fine failed : Failed

-- What the libraries do: `ReadMIMEHeader` gives the fields that it read and whether it failed
-- otherwise than by the end of its input; `DecodeHeader` a text and whether it failed.
pub record Mime : Type 0 where
  pub read_mime_header : Bytes → Header × Failed
  pub decode_header : Bytes → Bytes × Failed

pub record DecodingConfig : Type 0 where
  pub quote_escape_headers : List Bytes
  pub specials : Bytes
  pub literal_headers : Bool

abbrev pub DecodingOption : Type 0
DecodingOption = DecodingConfig → DecodingConfig

-- `WithQuoteEscape`
unfoldable pub with_quote_escape : List Bytes → DecodingOption
with_quote_escape headers cfg = record cfg {
  quote_escape_headers = cfg.quote_escape_headers ++ headers;
}

-- `WithQuoteNone`
unfoldable pub with_quote_none : DecodingOption
with_quote_none cfg = record cfg { quote_escape_headers = [] }

-- `WithLiteral`
unfoldable pub with_literal : DecodingOption
with_literal cfg = record cfg { literal_headers = true }

abbrev pub default_config : DecodingConfig
default_config = record {
  quote_escape_headers =
      codes "from" ∷ codes "to" ∷ codes "cc" ∷ codes "bcc" ∷ codes "reply-to" ∷ codes "sender" ∷ [];
  specials = codes "\"#$%&'(),.:;<>@[]^`{|}~";
  literal_headers = false;
}

unfoldable pub configure : List DecodingOption → DecodingConfig → DecodingConfig
configure [] cfg = cfg
configure (option ∷ options) cfg = configure options (option cfg)

-- `strings.ReplaceAll(s, "\"", "\\\"")`
unfoldable pub escape_quotes : Bytes → Bytes
escape_quotes [] = []
escape_quotes (c ∷ s) = if c == b'"' then b'\\' ∷ b'"' ∷ escape_quotes s else c ∷ escape_quotes s

-- `strings.ContainsAny(s, chars)`
abbrev contains_any : Bytes → Bytes → Bool
contains_any s chars = any (λ c. any (λ d. c == d) chars) s

-- What becomes of one word that has been decoded.
unfoldable pub quote_word : Bytes → Bytes → Bytes → Bytes
unfolding escape_quotes equal
quote_word specials part word =
    if equal word part
    then word
    else (let escaped = escape_quotes word in
        if contains_any escaped specials then b'"' ∷ (escaped ++ (b'"' ∷ [])) else escaped)

-- The loop over the words of an address field. Each decoding assigns the variable `err` of
-- `Headers`, which the loop leaves as the last one set it.
unfoldable pub decode_parts : Mime → Bytes → List Bytes → Failed → List Bytes × Failed
unfolding quote_word
decode_parts m specials [] err = ([], err)
decode_parts m specials (part ∷ parts) err =
    let (word, err1) = m.decode_header part in
    let (words, err2) = decode_parts m specials parts err1 in
    (quote_word specials part word ∷ words, err2)

-- `decodeWords`: the text, its error, and the variable `err` of `Headers`.
unfoldable pub decode_words : Mime → Bytes → Bytes → Bool → Failed → (Bytes × Failed) × Failed
unfolding decode_parts split join
decode_words m specials str false err = (m.decode_header str, err)
decode_words m specials str true err =
    let (words, err') = decode_parts m specials (split str b' ') err in
    ((join words (codes " "), err'), err')

-- The text as it was, if it could not be decoded.
abbrev or_raw : Bytes → Bytes × Failed → Bytes
or_raw v (v2, fine) = v2
or_raw v (v2, failed) = v

-- The loop over the values of a field.
unfoldable pub decode_values : Mime → Bytes → Bool → List Bytes → Failed → List Bytes × Failed
unfolding decode_words
decode_values m specials quote [] err = ([], err)
decode_values m specials quote (v ∷ vv) err =
    let (result, err1) = decode_words m specials v quote err in
    let (vv2, err2) = decode_values m specials quote vv err1 in (or_raw v result ∷ vv2, err2)

abbrev pub is_quoted : DecodingConfig → Bytes → Bool
is_quoted cfg k = any (λ q. equal q (to_lower k)) cfg.quote_escape_headers

-- The loop over the fields, in the order in which the map gives them.
unfoldable pub decode_all : Mime → DecodingConfig → Header → Failed → Header × Failed
unfolding decode_values to_lower equal
decode_all m cfg [] err = ([], err)
decode_all m cfg ((k, vv) ∷ h) err =
    let (vv2, err1) = decode_values m cfg.specials (is_quoted cfg k) vv err in
    let (h2, err2) = decode_all m cfg h err1 in ((k, vv2) ∷ h2, err2)

-- `(*Mail).Headers`
unfoldable pub headers : Mime → Mail → List DecodingOption → Header × Failed
unfolding configure decode_all cut_on
headers m mail options =
    let cfg = configure options default_config in
    let (h, err) = m.read_mime_header mail.raw_headers in
    if cfg.literal_headers
    then (h, err)
    else if mail.utf8 && not (is_some (cut_on mail.raw_headers (codes "=?")))
    then (h, err)
    else decode_all m cfg h err
