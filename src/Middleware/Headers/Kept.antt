-- ===== src/Middleware/Headers/Kept.antt =====
-- The header middlewares (middleware/middleware.go) put one line in front and keep the message.
use smtpx.Base.{[], ◌∷◌, ◌++◌, none, some, Bytes, codes, ◌≡◌, ◌≢◌, List, length, refl, ap}
use smtpx.Envelope.Data.{bytes}
use smtpx.Envelope.Data.Contents.{bytes-prepend}
use smtpx.Envelope.Message.{Address, Envelope, header_line, prepend_header}
use smtpx.Handler.{HandlerFunc, panic}
use smtpx.Middleware.Headers.{
  add_return_path, add_delivered_headers, add_received_headers, received_value, return_path,
  delivered_to,
}

-- `e'` is `e` with some lines in front of its data, and the same otherwise.
abbrev pub AddsInFront : Bytes → Envelope → Envelope → Type 0
AddsInFront front e e' =
    (bytes e'.body ≡ front ++ bytes e.body) × (e' ≡ record e { body = e'.body })

pub prepend_header-AddsInFront :
    (e : Envelope) (key value : Bytes)
    → AddsInFront (header_line key value) e (prepend_header e key value)
unfolding prepend_header
prepend_header-AddsInFront e key value = (bytes-prepend e.body (header_line key value), refl)

delivered_to-others : (l : List Address) (e : Envelope) → length l ≢ 1 → delivered_to l e ≡ e
unfolding delivered_to
delivered_to-others [] e h = refl
delivered_to-others (a ∷ []) e h = absurd (h refl)
delivered_to-others (a ∷ b ∷ l) e h = refl

-- Each of the header middlewares calls the next handler once, on an envelope whose data has the
-- header's line in front and which is the same otherwise: `AddReturnPath` if there is a sender,
-- `AddDeliveredHeaders` if there is exactly one recipient, `AddReceivedHeaders` always. Without a
-- sender `AddReturnPath` panics; with no recipient or several `AddDeliveredHeaders` hands on the
-- envelope as it is.
pub headers_in_front :
    (e : Envelope) (from to : Address) (hostname now : Bytes) (next : HandlerFunc)
    → (e.mail_from ≡ some from
        → (e' : Envelope) × (add_return_path next e ≡ next e')
          × AddsInFront
              (header_line (codes "Return-Path") (b'<' ∷ (from.address ++ (b'>' ∷ []))))
              e
              e')
      × (e.mail_from ≡ none → (text : Bytes) × (add_return_path next e ≡ (e, panic text)))
      × (e.rcpt_to ≡ to ∷ []
          → (e' : Envelope) × (add_delivered_headers next e ≡ next e')
            × AddsInFront (header_line (codes "Delivered-To") to.address) e e')
      × (length e.rcpt_to ≢ 1 → add_delivered_headers next e ≡ next e)
      × ((e' : Envelope) × (add_received_headers hostname now next e ≡ next e')
          × AddsInFront (header_line (codes "Received") (received_value hostname now e)) e e')
unfolding add_return_path add_delivered_headers add_received_headers
headers_in_front e from to hostname now next =
    let adds = prepend_header-AddsInFront e in
    (
      (λ p. (
        prepend_header e (codes "Return-Path") (b'<' ∷ (from.address ++ (b'>' ∷ []))),
        ap (λ m. return_path m next e) p,
        adds _ _,
      )),
      (λ p. (
        codes "invalid memory address or nil pointer dereference",
        ap (λ m. return_path m next e) p,
      )),
      (λ p. (
        prepend_header e (codes "Delivered-To") to.address,
        ap (λ l. next (delivered_to l e)) p,
        adds _ _,
      )),
      (λ p. ap next (delivered_to-others e.rcpt_to e p)),
      (prepend_header e (codes "Received") (received_value hostname now e), refl, adds _ _),
    )
