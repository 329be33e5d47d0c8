-- ===== src/Middleware/Headers.antt =====
-- middleware/middleware.go: headers put in front of a message. A field read through a nil pointer
-- is a panic.
pub mod Kept
use smtpx.Base.{
  ℕ, Bool, true, false, List, [], ◌∷◌, ◌++◌, Option, none, some, Bytes, codes, crlf, decimal,
  trim_space, if◌then◌else◌,
}
use smtpx.Envelope.Message.{Address, Envelope, connection_id, envelope_id, prepend_header}
use smtpx.Handler.{HandlerFunc, Wrapper, Outcome, panic}

return_path : Option Address → HandlerFunc → Envelope → Envelope × Outcome
return_path none next e = (e, panic (codes "invalid memory address or nil pointer dereference"))
return_path (some from) next e =
    next (prepend_header e (codes "Return-Path") (b'<' ∷ (from.address ++ (b'>' ∷ []))))

-- `AddReturnPath`
unfoldable pub add_return_path : Wrapper
unfolding return_path
add_return_path next e = return_path e.mail_from next e

delivered_to : List Address → Envelope → Envelope
delivered_to (to ∷ []) e = prepend_header e (codes "Delivered-To") to.address
delivered_to _ e = e

-- `AddDeliveredHeaders`
unfoldable pub add_delivered_headers : Wrapper
unfolding delivered_to
add_delivered_headers next e = next (delivered_to e.rcpt_to e)

-- The protocol of the Received header.
unfoldable pub protocol : Envelope → Bytes
protocol e =
    let smtp = if e.esmtp then b'E' ∷ codes "SMTP" else codes "SMTP" in
    if e.tls then smtp ++ codes "S" else smtp

for_part : List Address → Bytes
for_part (to ∷ []) = codes "  for <" ++ (to.address ++ (codes ">" ++ crlf))
for_part _ = []

-- The value of the Received header; `now` is the formatted time.
unfoldable pub received_value : Bytes → Bytes → Envelope → Bytes
unfolding protocol for_part decimal trim_space
received_value hostname now e =
    let id = decimal (connection_id e) ++ (b'-' ∷ (envelope_id e ++ (b'@' ∷ hostname))) in
    let from_part =
      codes "from "
      ++ (e.helo
          ++ (codes " (" ++ (e.helo ++ (codes " [" ++ (e.remote_addr ++ (codes "])" ++ crlf)))))) in
    let by_part =
      codes "  by "
      ++ (hostname ++ (codes " with " ++ (protocol e ++ (codes " id " ++ (id ++ crlf))))) in
    trim_space (from_part ++ (by_part ++ for_part e.rcpt_to))
    ++ (b';' ∷ (crlf ++ (codes "  " ++ now)))

-- `AddReceivedHeaders`
unfoldable pub add_received_headers : Bytes → Bytes → Wrapper
add_received_headers hostname now next e =
    next (prepend_header e (codes "Received") (received_value hostname now e))
