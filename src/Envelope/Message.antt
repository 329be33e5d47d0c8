-- ===== src/Envelope/Message.antt =====
-- envelope/envelope.go. The values that the program stores in the context are its fields here.
use smtpx.Base.{
  ℕ, ◌+◌, ◌-◌, Bool, true, false, ◌&&◌, ◌||◌, List, [], ◌∷◌, ◌++◌, Option, none, some, Bytes, codes,
  crlf, leb, ◌==◌, if◌then◌else◌, any,
}
use smtpx.Envelope.Data.{Data, no_data, prepend}

-- `mail.Address`
pub record Address : Type 0 where
  pub name : Bytes
  pub address : Bytes

-- The keys "connection-id", "envelope-id" and "err" of a `context.Context`.
pub record Context : Type 0 where
  pub connection_id_value : Option ℕ
  pub envelope_id_value : Option Bytes
  pub err_value : Option Bytes

abbrev pub background : Context
background = record { connection_id_value = none; envelope_id_value = none; err_value = none }

pub record Envelope : Type 0 where
  pub ctx : Option Context
  pub remote_addr : Bytes
  pub helo : Bytes
  pub tls : Bool
  pub utf8 : Bool
  pub esmtp : Bool
  pub mail_from : Option Address
  pub rcpt_to : List Address
  pub body : Data

context_or : Option Context → Context
context_or none = background
context_or (some c) = c

-- `Context` stores the background context if there is none.
unfoldable pub context : Envelope → Envelope × Context
unfolding context_or
context e = (record e { ctx = some (context_or e.ctx) }, context_or e.ctx)

unfoldable pub with_context : Envelope → Context → Envelope
with_context e c = record e { ctx = some c }

id_or : Option ℕ → ℕ
id_or none = 0
id_or (some n) = n

text_or : Option Bytes → Bytes
text_or none = []
text_or (some s) = s

unfoldable pub connection_id : Envelope → ℕ
unfolding id_or context
connection_id e = id_or (context e).1.connection_id_value

unfoldable pub envelope_id : Envelope → Bytes
unfolding text_or context
envelope_id e = text_or (context e).1.envelope_id_value

unfoldable pub get_error : Envelope → Option Bytes
unfolding context
get_error e = (context e).1.err_value

unfoldable pub set_error : Envelope → Bytes → Envelope
unfolding context
set_error e err = record e { ctx = some (record (context e).1 { err_value = some err }) }

-- `NewEnvelope`; the third argument is what `utils.XID()` returns.
unfoldable pub new_envelope : Bytes → ℕ → Bytes → Envelope
new_envelope addr id xid = record {
  ctx =
      some
        (record { connection_id_value = some id; envelope_id_value = some xid; err_value = none });
  remote_addr = addr;
  helo = [];
  tls = false;
  utf8 = false;
  esmtp = false;
  mail_from = none;
  rcpt_to = [];
  body = no_data;
}

abbrev is_letter : ℕ → Bool
is_letter c = (leb b'a' c && leb c b'z') || (leb b'A' c && leb c b'Z')

-- The bytes of a header key, `validHeaderFieldByte` of net/textproto.
abbrev is_key_byte : ℕ → Bool
is_key_byte c =
    is_letter c || (leb b'0' c && leb c b'9') || any (λ d. d == c) (codes "!#$%&'*+-.^_`|~")

all_key_bytes : Bytes → Bool
all_key_bytes [] = true
all_key_bytes (c ∷ s) = is_key_byte c && all_key_bytes s

abbrev up : ℕ → ℕ
up c = if leb b'a' c && leb c b'z' then c - 32 else c

abbrev down : ℕ → ℕ
down c = if leb b'A' c && leb c b'Z' then c + 32 else c

-- The flag says that the byte stands first, or behind a `-`.
recase : Bytes → Bool → Bytes
recase [] first = []
recase (c ∷ s) first = (if first then up c else down c) ∷ recase s (c == b'-')

-- `textproto.CanonicalMIMEHeaderKey`
unfoldable pub canonical_key : Bytes → Bytes
unfolding all_key_bytes recase
canonical_key s = if all_key_bytes s then recase s true else s

-- The line `Key: value` that `PrependHeader` writes.
unfoldable pub header_line : Bytes → Bytes → Bytes
unfolding canonical_key
header_line key value = canonical_key key ++ (b':' ∷ b' ' ∷ (value ++ crlf))

unfoldable pub prepend_header : Envelope → Bytes → Bytes → Envelope
unfolding prepend
prepend_header e key value = record e { body = prepend e.body (header_line key value) }
