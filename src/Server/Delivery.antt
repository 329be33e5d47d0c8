-- ===== src/Server/Delivery.antt =====
-- What reaches the handlers (server.go, `case ConnData`), and what is left behind them.
use smtpx.Base.{
  ◌+◌, ◌≤◌, ◌<◌, false, [], ◌++◌, none, some, ◌≡◌, refl, ap, arith, length, ◌==◌, if◌then◌else◌,
  ◌∙◌,
}
use smtpx.Connection.{conn_cmd, conn_data, conn_shutdown}
use smtpx.Envelope.Data.Contents.{bytes-read_from}
use smtpx.Envelope.Data.{no_data, bytes, read_from}
use smtpx.Envelope.Message.{Envelope}
use smtpx.Handler.{reply, build_chain, call}
use smtpx.Response.{Response}
use smtpx.Server.Config.{Server}
use smtpx.Server.Invariant.{Inv}
use smtpx.Server.Session.{Input, Session, done}
use smtpx.Server.Turn.{consume, handled, turn_dot, turn_data}

abbrev received : Input → Session → Envelope
received i r = record r.conn.envelope { body = read_from r.conn.envelope.body i.dot_bytes }

empty_body : bytes no_data ≡ []
unfolding bytes
empty_body = refl

-- In a live connection that waits for data, a message that arrives whole is handed to the chain of
-- middlewares and handler once, with at least one and at most one recipient more than the maximum,
-- with the sender and recipients of the transaction, and with exactly the bytes of the message.
pub message_delivered :
    (s : Server) (i : Input) (r : Session)
    → Inv s r
    → r.conn.state ≡ conn_data
    → r.conn.killed ≡ false
    → i.dot_end ≡ done
    → (e : Envelope) × (turn_data s i r
        ≡ handled i
            (record r { conn = record (consume r.conn i.fetched) { envelope = e } })
            (call (build_chain s.middlewares s.handler) e))
      × (0 < length e.rcpt_to)
      × (length e.rcpt_to ≤ s.max_recipients + 1)
      × (e.rcpt_to ≡ r.conn.envelope.rcpt_to)
      × (e.mail_from ≡ r.conn.envelope.mail_from)
      × (bytes e.body ≡ i.dot_bytes)
unfolding turn_data
message_delivered s i r h q alive d = (
  received i r,
  ap
      (λ x.
        turn_dot s i x
          (record r { conn = record (consume r.conn i.fetched) { envelope = received i r } }))
      d,
  omega (arith, h.data_addressed q),
  h.recipients,
  refl,
  refl,
  bytes-read_from r.conn.envelope.body i.dot_bytes
      ∙ ap (λ b. bytes b ++ i.dot_bytes) (h.body_fresh alive)
      ∙ ap (λ b. b ++ i.dot_bytes) empty_body,
)

-- After a handler has answered, the transaction is over: the envelope has no sender, no recipient
-- and no data, the connection waits for a command or for its shutdown, and exactly one of the count
-- of messages and the count of errors has gone up, the former for a response of the success class.
pub transaction_over :
    (i : Input) (r : Session) (e : Envelope) (resp : Response)
    → let c = (handled i r (e, reply (some resp))).conn in
      (c.envelope.mail_from ≡ none)
      × (c.envelope.rcpt_to ≡ [])
      × (c.envelope.body ≡ no_data)
      × (c.state ≡ (if i.shutting_down then conn_shutdown else conn_cmd))
      × (c.messages_sent ≡ r.conn.messages_sent + (if resp.class == 2 then 1 else 0))
      × (c.errors ≡ r.conn.errors + (if resp.class == 2 then 0 else 1))
unfolding handled
transaction_over i r e resp = ground arith
