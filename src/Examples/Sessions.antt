-- ===== src/Examples/Sessions.antt =====
-- Sessions of the server.
use smtpx.Base.{
  ◌+◌, ◌≤◌, ◌<◌, false, List, [], ◌∷◌, none, some, ◌≡◌, ◌≢◌, ◌↔◌, refl, arith, Bytes, codes, length,
  ◌⊎◌, All, ◌==◌, if◌then◌else◌,
}
use smtpx.Connection.{conn_cmd, conn_data, new_connection}
use smtpx.Envelope.Data.{no_data, bytes}
use smtpx.Envelope.Message.{Address, Envelope, new_envelope}
use smtpx.Examples.Data.{
  broken_handler, alice, bob, carol, small_server, careful_server, outside, says, sends, fresh,
  idle, addressed, in_transaction, waiting,
}
use smtpx.Handler.{reply, build_chain, call, accepted, nil2success}
use smtpx.Middleware.Recover.{recover_never_crashes}
use smtpx.Server.Command.{recognise, content, rcpt, mail}
use smtpx.Server.Commands.{on_command, on_rcpt, on_data, on_mail, mail_parts}
use smtpx.Server.Delivery.{message_delivered, transaction_over}
use smtpx.Server.Forgotten.{IsQuiet, StaysForgotten, names_client, facts_forgotten}
use smtpx.Server.Ending.{IsIdle, IsUnrecognized, unrecognized_cut_off}
use smtpx.Server.Exchange.{command_answered, rcpt_effect, data_gate, mail_effect, InTransaction}
use smtpx.Server.Invariant.{Inv, handle_conn-Inv}
use smtpx.Server.Session.{Input, crashed, line}
use smtpx.Server.Turn.{
  consume, handled, handshaken, turn_data, handle_conn, run, is_live, advance, turn_in,
}

-- A whole delivery: greeting, HELO, MAIL, RCPT, DATA, the message, QUIT.
abbrev delivery : List Input
delivery =
    says []
    ∷ says (codes "HELO client")
    ∷ says (codes "MAIL FROM:alice@example.com")
    ∷ says (codes "RCPT TO:bob@example.org")
    ∷ says (codes "DATA")
    ∷ sends (codes "Hi")
    ∷ says (codes "QUIT")
    ∷ []

delivery_count : (handle_conn small_server outside [] none delivery fresh).conn.messages_sent ≡ 1
unfolding handle_conn new_connection advance turn_in build_chain call accepted nil2success
delivery_count = refl

delivery_replies : length (handle_conn small_server outside [] none delivery fresh).conn.sent ≡ 7
unfolding handle_conn new_connection advance turn_in build_chain call accepted nil2success
delivery_replies = refl

waiting-Inv : Inv small_server waiting
unfolding new_connection new_envelope
waiting-Inv = ground arith

handle_conn-Inv_example :
    let r = handle_conn small_server outside [] none delivery (new_connection [] 1000 7 []) in
    (r.phase ≡ crashed) ⊎ Inv small_server r
handle_conn-Inv_example = handle_conn-Inv small_server outside [] none delivery [] 7 []

fresh-live : fresh.killed ≡ false
unfolding new_connection
fresh-live = refl

message_delivered_example :
    (e : Envelope) × (turn_data small_server (sends (codes "Hi")) waiting
      ≡ handled
          (sends (codes "Hi"))
          (record waiting { conn = record (consume waiting.conn 2) { envelope = e } })
          (call (build_chain [] small_server.handler) e))
    × (0 < length e.rcpt_to)
    × (length e.rcpt_to ≤ 3)
    × (e.rcpt_to ≡ bob ∷ [])
    × (e.mail_from ≡ some alice)
    × (bytes e.body ≡ codes "Hi")
message_delivered_example =
    message_delivered small_server (sends (codes "Hi")) waiting waiting-Inv refl fresh-live refl

transaction_over_example :
    let c = (handled (sends []) waiting (addressed, reply (some accepted))).conn in
    (c.envelope.mail_from ≡ none)
    × (c.envelope.rcpt_to ≡ [])
    × (c.envelope.body ≡ no_data)
    × (c.state ≡ conn_cmd)
    × (c.messages_sent ≡ waiting.conn.messages_sent + (if accepted.class == 2 then 1 else 0))
    × (c.errors ≡ waiting.conn.errors + (if accepted.class == 2 then 0 else 1))
transaction_over_example = transaction_over (sends []) waiting addressed accepted

line-quiet :
    (l cmd : Bytes)
    → names_client (recognise small_server l) ≡ false
    → line l ≡ line cmd
    → names_client (recognise small_server cmd) ≡ false
line-quiet l cmd h e = let same : cmd ≡ l = cc in rw same h

next_message :
    All
      (IsQuiet small_server)
      (says (codes "MAIL FROM:alice@example.com") ∷ sends (codes "Hi") ∷ [])
unfolding recognise
next_message = (
  λ cmd e. line-quiet (codes "MAIL FROM:alice@example.com") cmd refl e,
  ((λ cmd e. line-quiet [] cmd refl e), tt),
)

facts_forgotten_example :
    let is = says (codes "MAIL FROM:alice@example.com") ∷ sends (codes "Hi") ∷ [] in
    StaysForgotten
      (run small_server outside is (handled (sends []) waiting (addressed, reply (some accepted))))
    × StaysForgotten (run small_server outside is (handshaken (sends []) none waiting))
facts_forgotten_example =
    facts_forgotten small_server outside (sends [])
      (says (codes "MAIL FROM:alice@example.com") ∷ sends (codes "Hi") ∷ []) waiting addressed
      accepted next_message

command_answered_example :
    let r' = on_command small_server outside (says []) (codes "QUIT") none idle in
    (r'.conn.buf_err ≡ none)
    × ((says []).write_err ≡ none → length r'.conn.sent ≡ length idle.conn.sent + 1)
command_answered_example = command_answered small_server outside (says []) (codes "QUIT") none idle

rcpt_effect_example :
    let c' =
      on_rcpt small_server outside (says []) (codes "RCPT TO:bob@example.org") in_transaction in
    (2 < 1 → (c'.envelope ≡ in_transaction.envelope) × (c'.errors ≡ in_transaction.errors + 1))
    × ((a : Address)
        → 1 ≤ 2
        → outside.parse_address (content rcpt (codes "RCPT TO:bob@example.org")) ≡ some a
        → (c'.envelope ≡ record addressed { rcpt_to = bob ∷ a ∷ [] })
          × (c'.errors ≡ in_transaction.errors))
    × (outside.parse_address (content rcpt (codes "RCPT TO:bob@example.org")) ≡ none
        → (c'.envelope ≡ in_transaction.envelope) × (c'.errors ≡ in_transaction.errors + 1))
rcpt_effect_example =
    rcpt_effect small_server outside (says []) (codes "RCPT TO:bob@example.org") in_transaction

carol_parses : outside.parse_address (content rcpt (codes "RCPT TO:carol@example.net")) ≡ some carol
unfolding content
carol_parses = refl

data_gate_example :
    (((on_data (says []) in_transaction).state ≡ conn_data) ↔ (0 < 1))
    × ((on_data (says []) in_transaction).envelope ≡ addressed)
data_gate_example = data_gate (says []) in_transaction refl

mail_effect_example :
    let c = idle.conn in
    let c' = on_mail outside (says []) (codes "MAIL FROM:alice@example.com") c in
    (InTransaction c.envelope → (c'.envelope ≡ c.envelope) × (c'.errors ≡ c.errors + 1))
    × (¬ InTransaction c.envelope
        → (c'.envelope.mail_from
            ≡ outside.parse_address
                (mail_parts (content mail (codes "MAIL FROM:alice@example.com"))).0)
          × (c'.envelope.rcpt_to ≡ c.envelope.rcpt_to)
          × (c'.envelope.body ≡ c.envelope.body))
mail_effect_example = mail_effect outside (says []) (codes "MAIL FROM:alice@example.com") idle.conn

idle-IsIdle : IsIdle idle
unfolding new_connection
idle-IsIdle = record { live = refl; waits = refl; buffer_ok = refl }

nonsense : IsUnrecognized small_server (says (codes "FOO"))
unfolding recognise
nonsense = (codes "FOO", refl, refl, refl, refl)

nonsense_twice : All (IsUnrecognized small_server) (says (codes "FOO") ∷ says (codes "FOO") ∷ [])
nonsense_twice = (nonsense, (nonsense, tt))

enough_nonsense : 2 ≤ idle.conn.errors + 2
unfolding new_connection
enough_nonsense = omega arith

unrecognized_cut_off_example :
    is_live (run small_server outside (says (codes "FOO") ∷ says (codes "FOO") ∷ []) idle) ≡ false
unrecognized_cut_off_example =
    unrecognized_cut_off small_server outside (says (codes "FOO")) (says (codes "FOO") ∷ []) idle
      idle-IsIdle nonsense_twice enough_nonsense

recover_never_crashes_example :
    (run careful_server outside (sends (codes "Hi") ∷ []) waiting).phase ≢ crashed
recover_never_crashes_example =
    recover_never_crashes careful_server outside [] broken_handler (sends (codes "Hi") ∷ []) waiting
      refl refl tt (ground arith)
