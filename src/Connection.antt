-- ===== src/Connection.antt =====
-- connection.go: the state of one connection and its methods.
use smtpx.Base.{
  ℕ, Bool, true, false, not, List, [], ◌∷◌, ◌++◌, Option, none, some, Bytes, codes, crlf, length,
  ◌==◌,
}
use smtpx.Envelope.Message.{Address, Envelope, new_envelope, connection_id}
use smtpx.Reader.{SmtpReader, new_reader, reset_limit, reader_limit}

-- `ClientState`
pub data ClientState : Type 0 where
  conn_greeting conn_cmd conn_data conn_start_tls conn_shutdown : ClientState

abbrev pub charset_default : Bytes
charset_default = codes "default"

abbrev pub charset_utf8 : Bytes
charset_utf8 = codes "SMTPUTF8"

-- `killed` is `!KilledAt.IsZero()`. `sent` collects what was written to the network; `is_open` says
-- that `conn.conn` is there.
pub record Connection : Type 0 where
  pub envelope : Envelope
  pub id : ℕ
  pub killed : Bool
  pub errors : ℕ
  pub state : ClientState
  pub charset : Bytes
  pub messages_sent : ℕ
  pub buf_err : Option Bytes
  pub in_reader : SmtpReader
  pub sent : List Bytes
  pub is_open : Bool

-- `newConnection`: the field `ID` is not set there.
unfoldable pub new_connection : Bytes → ℕ → ℕ → Bytes → Connection
unfolding new_envelope new_reader
new_connection addr max_message_size conn_id xid = record {
  envelope = new_envelope addr conn_id xid;
  id = 0;
  killed = false;
  errors = 0;
  state = conn_greeting;
  charset = charset_default;
  messages_sent = 0;
  buf_err = none;
  in_reader = new_reader max_message_size;
  sent = [];
  is_open = true;
}

concat : List Bytes → Bytes
concat [] = []
concat (p ∷ ps) = p ++ concat ps

sent_after : Option Bytes → List Bytes → Bytes → List Bytes
sent_after none sent line = sent ++ (line ∷ [])
sent_after (some e) sent line = sent

-- `sendResponse` writes its parts and a line end; the second argument is the error of the write.
-- What a failed write has put on the network is left out.
unfoldable pub send_response : Connection → Option Bytes → List Bytes → Connection
unfolding concat sent_after
send_response c write_err parts = record c {
  buf_err = write_err;
  sent = sent_after write_err c.sent (concat parts ++ crlf);
}

-- `resetTransaction`; the second argument is the new envelope's `utils.XID()`.
unfoldable pub reset_transaction : Connection → Bytes → Connection
unfolding new_envelope connection_id reset_limit
reset_transaction c xid = record c {
  envelope = new_envelope c.envelope.remote_addr (connection_id c.envelope) xid;
  in_reader = reset_limit c.in_reader;
}

has_address : Option Address → Bool
has_address none = false
has_address (some a) = not (length a.address == 0)

-- `isInTransaction`
unfoldable pub is_in_transaction : Connection → Bool
unfolding has_address
is_in_transaction c = has_address c.envelope.mail_from

unfoldable pub kill : Connection → Connection
kill c = record c { killed = true }

unfoldable pub is_alive : Connection → Bool
is_alive c = not c.killed

unfoldable pub close_conn : Connection → Connection
close_conn c = record c { is_open = false }

after_handshake : Option Bytes → Connection → Connection
unfolding new_reader reader_limit
after_handshake (some e) c = c
after_handshake none c = record c {
  in_reader = new_reader (reader_limit c.in_reader);
  envelope = record c.envelope { tls = true };
}

-- `upgradeTLS`; the second argument is the error of the handshake. After a failed one nothing changes.
unfoldable pub upgrade_tls : Connection → Option Bytes → Connection
unfolding after_handshake
upgrade_tls c handshake_err = after_handshake handshake_err c
