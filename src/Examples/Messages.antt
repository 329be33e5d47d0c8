-- ===== src/Examples/Messages.antt =====
-- The chain of handlers, the reader, and messages.
use smtpx.Base.{
  ℕ, ◌+◌, ◌≤◌, true, false, List, [], ◌∷◌, ◌++◌, Option, none, some, ◌≡◌, ◌≢◌, refl, arith, Bytes,
  codes, crlf, length, All, ◌==◌, select, cut_on, take, zero, suc,
}
use smtpx.Server.Config.{Server}
use smtpx.Examples.Data.{small_server}
use smtpx.Responses.Canned.{success_noop_cmd}
use smtpx.Envelope.Data.{Data, len, bytes, write, prepend, read_from, read_all}
use smtpx.Envelope.Data.Contents.{bytes_contents}
use smtpx.Envelope.Mail.{open_mail}
use smtpx.Envelope.Mail.Split.{LacksCr, open_mail-prepend_header}
use smtpx.Envelope.Message.{Envelope, prepend_header, header_line, canonical_key, new_envelope}
use smtpx.Examples.Data.{alice, bob, accept_all, addressed}
use smtpx.Handler.{Middleware, applies, reply, panic}
use smtpx.Middleware.Domains.{filter_recipient_domains, recipient_domains_whitelist}
use smtpx.Middleware.Domains.Allowed.{recipient_domains, is_configured}
use smtpx.Middleware.Headers.{
  add_return_path, add_delivered_headers, add_received_headers, received_value,
}
use smtpx.Middleware.Headers.Kept.{AddsInFront, headers_in_front}
use smtpx.Middleware.Recover.{recover}
use smtpx.Reader.{LimitedReader, RawRead, no_error, eof}
use smtpx.Reader.Limit.{IsReader, read_many, read_many-remaining}
use smtpx.Response.{new_response, canned}

abbrev some_middlewares : List (Option Middleware)
some_middlewares = some (applies recover) ∷ none ∷ some (applies add_return_path) ∷ []

-- A reader that always has two bytes, for a buffer that has room for them.
abbrev two_bytes : ℕ → RawRead
two_bytes k = record { given = take k (codes "ab"); error = no_error }

take_bound : (k : ℕ) (b : Bytes) → length (take k b) ≤ k
take_bound zero b = omega arith
take_bound (suc k) [] = omega arith
take_bound (suc k) (c ∷ b) = omega (arith, take_bound k b)

two_bytes-IsReader : IsReader two_bytes
two_bytes-IsReader k = take_bound k (codes "ab")

-- One that is at its end.
abbrev nothing : ℕ → RawRead
nothing k = record { given = []; error = eof }

nothing-IsReader : IsReader nothing
nothing-IsReader k = omega arith

abbrev some_reads : List (ℕ × (ℕ → RawRead))
some_reads = (2, two_bytes) ∷ (1, nothing) ∷ (9, two_bytes) ∷ []

abbrev five : LimitedReader
five = record { remaining = 5 }

read_many-remaining_example :
    (read_many five some_reads).1 + (read_many five some_reads).0.remaining ≡ 5
read_many-remaining_example =
    read_many-remaining five some_reads
      (two_bytes-IsReader, (nothing-IsReader, (two_bytes-IsReader, tt)))

abbrev two_buffers : Data
two_buffers = record { bufs = codes "ab" ∷ codes "cd" ∷ [] }

bytes_contents_example :
    (bytes two_buffers ≡ read_all two_buffers.bufs)
    × (len two_buffers ≡ length (bytes two_buffers))
    × (bytes (write two_buffers (codes "x")) ≡ bytes two_buffers ++ codes "x")
    × (bytes (read_from two_buffers (codes "x")) ≡ bytes two_buffers ++ codes "x")
    × (bytes (prepend two_buffers (codes "x")) ≡ codes "x" ++ bytes two_buffers)
bytes_contents_example = bytes_contents two_buffers (codes "x")

-- A message of one header line and a body.
abbrev message : Bytes
message = codes "To: bob" ++ (crlf ++ (crlf ++ codes "Hi"))

abbrev with_message : Envelope
with_message = record addressed { body = record { bufs = message ∷ [] } }

headers_in_front_example :
    (addressed.mail_from ≡ some alice
      → (e' : Envelope) × (add_return_path accept_all addressed ≡ accept_all e')
        × AddsInFront
            (header_line (codes "Return-Path") (b'<' ∷ (alice.address ++ (b'>' ∷ []))))
            addressed
            e')
    × (addressed.mail_from ≡ none
        → (text : Bytes) × (add_return_path accept_all addressed ≡ (addressed, panic text)))
    × (addressed.rcpt_to ≡ bob ∷ []
        → (e' : Envelope) × (add_delivered_headers accept_all addressed ≡ accept_all e')
          × AddsInFront (header_line (codes "Delivered-To") bob.address) addressed e')
    × (length addressed.rcpt_to ≢ 1
        → add_delivered_headers accept_all addressed ≡ accept_all addressed)
    × ((e' : Envelope) × (add_received_headers (codes "mx") (codes "now") accept_all addressed
          ≡ accept_all e')
        × AddsInFront
            (header_line (codes "Received") (received_value (codes "mx") (codes "now") addressed))
            addressed
            e')
headers_in_front_example =
    headers_in_front addressed alice bob (codes "mx") (codes "now") accept_all

abbrev allowed : List Bytes
allowed = codes "Example.org" ∷ []

allowed_some : allowed ≢ []
allowed_some h = cc

recipient_domains_example :
    let kept = select (is_configured allowed) addressed.rcpt_to in
    let refusal = reply (some (new_response 550 (codes "Recipient domain not allowed"))) in
    All (λ r. is_configured allowed r ≡ true) kept
    × ((length kept == 0) ≡ false
        → (filter_recipient_domains allowed accept_all addressed
            ≡ accept_all (record addressed { rcpt_to = kept }))
          × (recipient_domains_whitelist allowed accept_all addressed ≡ accept_all addressed))
    × ((length kept == 0) ≡ true
        → (filter_recipient_domains allowed accept_all addressed
            ≡ (record addressed { rcpt_to = [] }, refusal))
          × (recipient_domains_whitelist allowed accept_all addressed ≡ (addressed, refusal)))
recipient_domains_example = recipient_domains allowed accept_all addressed allowed_some

message_whole : bytes with_message.body ≡ b'T' ∷ (codes "o: bob" ++ (crlf ++ (crlf ++ codes "Hi")))
unfolding bytes
message_whole = refl

message_split :
    cut_on (b'T' ∷ (codes "o: bob" ++ (crlf ++ (crlf ++ codes "Hi")))) (13 ∷ 10 ∷ 13 ∷ 10 ∷ [])
    ≡ some (codes "To: bob", codes "Hi")
unfolding cut_on
message_split = refl

key-LacksCr : LacksCr (canonical_key (codes "x-a"))
unfolding canonical_key
key-LacksCr = ground arith

value-LacksCr : LacksCr (codes "1")
value-LacksCr = ground arith

not_cr : ◌≢◌ {A = ℕ} b'T' 13
not_cr = ground arith

open_mail-prepend_header_example :
    (open_mail with_message
      ≡ some (record { utf8 = false; raw_headers = codes "To: bob"; raw_body = codes "Hi" }))
    × (open_mail (prepend_header with_message (codes "x-a") (codes "1"))
        ≡ some (record {
          utf8 = false;
          raw_headers = header_line (codes "x-a") (codes "1") ++ codes "To: bob";
          raw_body = codes "Hi";
        }))
unfolding new_envelope
open_mail-prepend_header_example =
    open_mail-prepend_header with_message (codes "x-a") (codes "1") b'T'
      (codes "o: bob" ++ (crlf ++ (crlf ++ codes "Hi"))) (codes "To: bob") (codes "Hi")
      message_whole not_cr message_split key-LacksCr value-LacksCr

-- The table of codes has no entry for NOOP's enhanced code.
noop_reply : (canned success_noop_cmd).string ≡ codes "200 2.0.0 OK"
unfolding canned
noop_reply = refl

-- A configuration without limits and names.
abbrev bare : Server
bare = record small_server { hostname = []; max_recipients = 0; addr = [] }
