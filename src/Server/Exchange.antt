-- ===== src/Server/Exchange.antt =====
-- What a client sees of the commands (server.go, `handleConn`): each is answered once, and what each
-- does to the transaction.
use smtpx.Base.{
  ◌+◌, ◌≤◌, ◌<◌, true, false, [], ◌∷◌, ◌++◌, Option, none, some, ◌≡◌, ◌≢◌, ◌⊎◌, inl, inr, refl,
  Option-cases, ◌↔◌, arith, Bytes, length, length-append,
}
use smtpx.Connection.{Connection, conn_cmd, conn_data, is_in_transaction}
use smtpx.Envelope.Message.{Address, Envelope}
use smtpx.Server.Config.{Server}
use smtpx.Server.Command.{Command, mail, rcpt, content}
use smtpx.Server.Session.{Input, Externals, Session}
use smtpx.Server.Commands.{mail_parts, on_data, on_rcpt, on_mail, on_command}

-- Every command, recognised or not, is answered by exactly one write when the network takes it, and
-- leaves no pending write error; the write that fails is kept as the pending error.
pub command_answered :
    (s : Server) (x : Externals) (i : Input) (cmd : Bytes) (c : Option Command) (r : Session)
    → let r' = on_command s x i cmd c r in
      (r'.conn.buf_err ≡ i.write_err)
      × (i.write_err ≡ none → length r'.conn.sent ≡ length r.conn.sent + 1)
unfolding on_command
command_answered s x i cmd none r = grind (arith, length-append)
command_answered s x i cmd (some c) r = grind (arith, length-append)

-- RCPT is refused above the maximum, and otherwise adds the address that was parsed at the end of
-- the recipients; it changes nothing else of the transaction, and only its refusals count as errors.
pub rcpt_effect :
    (s : Server) (x : Externals) (i : Input) (cmd : Bytes) (c : Connection)
    → let c' = on_rcpt s x i cmd c in
      (s.max_recipients < length c.envelope.rcpt_to
        → (c'.envelope ≡ c.envelope) × (c'.errors ≡ c.errors + 1))
      × ((a : Address)
          → length c.envelope.rcpt_to ≤ s.max_recipients
          → x.parse_address (content rcpt cmd) ≡ some a
          → (c'.envelope ≡ record c.envelope { rcpt_to = c.envelope.rcpt_to ++ (a ∷ []) })
            × (c'.errors ≡ c.errors))
      × (x.parse_address (content rcpt cmd) ≡ none
          → (c'.envelope ≡ c.envelope) × (c'.errors ≡ c.errors + 1))
unfolding on_rcpt
rcpt_effect s x i cmd c = ((λ h. ground arith), (λ a h p. ground arith), (λ p. ground arith))

-- A maximum of n recipients lets n + 1 in: with n recipients the next address is still taken.
pub rcpt_one_too_many :
    (s : Server) (x : Externals) (i : Input) (cmd : Bytes) (c : Connection) (a : Address)
    → length c.envelope.rcpt_to ≡ s.max_recipients
    → x.parse_address (content rcpt cmd) ≡ some a
    → length (on_rcpt s x i cmd c).envelope.rcpt_to ≡ s.max_recipients + 1
unfolding on_rcpt
rcpt_one_too_many s x i cmd c a full parsed =
    ground (arith, length-append c.envelope.rcpt_to (a ∷ []))

-- DATA starts the transfer of a message exactly when the transaction has a recipient, whether or not
-- a sender was given; it changes nothing of the transaction.
pub data_gate :
    (i : Input) (c : Connection)
    → c.state ≡ conn_cmd
    → (((on_data i c).state ≡ conn_data) ↔ (0 < length c.envelope.rcpt_to))
      × ((on_data i c).envelope ≡ c.envelope)
unfolding on_data
data_gate i c q = (((λ h. ground arith), (λ h. ground arith)), ground arith)

-- There is a sender, whose address is not empty.
abbrev pub InTransaction : Envelope → Type 0
InTransaction e = (a : Address) × (e.mail_from ≡ some a) × (a.address ≢ [])

in_transaction_from :
    (c : Connection) (a : Address) (s : Bytes)
    → c.envelope.mail_from ≡ some a
    → a.address ≡ s
    → (InTransaction c.envelope × (is_in_transaction c ≡ true))
      ⊎ ((¬ InTransaction c.envelope) × (is_in_transaction c ≡ false))
unfolding is_in_transaction
in_transaction_from c a [] e empty = inr ((λ (b, f, h). h cc), rw (e, empty) refl)
in_transaction_from c a (d ∷ s) e text = inl ((a, e, (λ h. cc)), rw (e, text) (ground arith))

in_transaction :
    (c : Connection)
    → (InTransaction c.envelope × (is_in_transaction c ≡ true))
      ⊎ ((¬ InTransaction c.envelope) × (is_in_transaction c ≡ false))
unfolding is_in_transaction
in_transaction c = elim (Option-cases c.envelope.mail_from) [
  | inl e ↦ inr ((λ (a, f, h). cc), rw e refl)
  | inr (a, e) ↦ in_transaction_from c a a.address e refl
]

-- MAIL behind a MAIL that gave an address is refused, counted as an error, and leaves the transaction
-- as it is. With no sender, or one with an empty address, the sender becomes the address that was
-- parsed, or none if it does not parse, and the recipients and the body stay.
pub mail_effect :
    (x : Externals) (i : Input) (cmd : Bytes) (c : Connection)
    → let c' = on_mail x i cmd c in
      (InTransaction c.envelope → (c'.envelope ≡ c.envelope) × (c'.errors ≡ c.errors + 1))
      × (¬ InTransaction c.envelope
          → (c'.envelope.mail_from ≡ x.parse_address (mail_parts (content mail cmd)).0)
            × (c'.envelope.rcpt_to ≡ c.envelope.rcpt_to)
            × (c'.envelope.body ≡ c.envelope.body))
unfolding on_mail
mail_effect x i cmd c = elim (in_transaction c) [
  | inl (inside, b) ↦ ((λ h. ground arith), (λ h. absurd (h inside)))
  | inr (outside, b) ↦ ((λ h. absurd (outside h)), (λ h. ground arith))
]
