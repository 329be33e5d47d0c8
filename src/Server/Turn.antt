-- ===== src/Server/Turn.antt =====
-- server.go, `handleConn`: one turn of the loop in each state, the loop, and what stands before it
-- and behind it.
use smtpx.Base.{
  ℕ, ◌+◌, ◌-◌, Bool, true, false, not, ◌&&◌, List, [], ◌∷◌, ◌++◌, Option, none, some, Bytes, codes,
  crlf, ◌==◌, if◌then◌else◌, is_some,
}
use smtpx.Connection.{
  Connection, ClientState, conn_greeting, conn_cmd, conn_data, conn_start_tls, conn_shutdown,
  send_response, reset_transaction, kill, close_conn, upgrade_tls,
}
use smtpx.Envelope.Data.{read_from}
use smtpx.Envelope.Message.{Envelope}
use smtpx.Handler.{Outcome, reply, panic, accepted, build_chain, call}
use smtpx.Response.{Response, canned, written_text}
use smtpx.Responses.Canned.{
  fail_line_too_long, error_shutdown, fail_message_size_exceeded, fail_read_error_data_cmd,
}
use smtpx.Server.Config.{Server}
use smtpx.Server.Command.{recognise}
use smtpx.Server.Commands.{on_command}
use smtpx.Server.Session.{
  Line, line, eof, timeout, limit, failed, DotEnd, done, Input, Externals, Phase, running, returned,
  crashed, Session, greeting_text, reply_with,
}

-- What the turn has pulled through the limited reader is no longer available.
abbrev pub consume : Connection → ℕ → Connection
consume c n = record c {
  in_reader = record c.in_reader {
    limited = record c.in_reader.limited { remaining = c.in_reader.limited.remaining - n };
  };
}

-- `case ConnGreeting`
unfoldable pub turn_greeting : Input → Session → Session
unfolding send_response
turn_greeting i r = record r {
  conn = record (send_response r.conn i.write_err (r.greeting ∷ [])) { state = conn_cmd };
}

-- `case ConnCmd`, by what `readCommand` returned.
unfoldable pub turn_line : Server → Externals → Input → Line → Session → Session
unfolding reply_with kill recognise on_command
turn_line s x i eof r = record r { phase = returned }
turn_line s x i timeout r = record r { phase = returned }
turn_line s x i limit r = record r {
  conn = kill (reply_with r.conn i fail_line_too_long);
  phase = returned;
}
turn_line s x i failed r = record r { conn = kill r.conn; phase = returned }
turn_line s x i (line cmd) r =
    if i.shutting_down
    then record r { conn = record r.conn { state = conn_shutdown } }
    else on_command s x i cmd (recognise s cmd) r

unfoldable pub turn_cmd : Server → Externals → Input → Session → Session
unfolding turn_line
turn_cmd s x i r = turn_line s x i i.read_line (record r { conn = consume r.conn i.fetched })

-- The response of the handlers, behind `resp := start(conn.Envelope)`.
settle : Connection → Response → Connection
settle c resp =
    if resp.class == 2
    then record c { messages_sent = c.messages_sent + 1 }
    else record c { errors = c.errors + 1 }

after_data : Input → Connection → Response → Connection
unfolding settle send_response reset_transaction
after_data i c resp =
    let c1 = send_response (settle c resp) i.write_err (written_text resp ∷ []) in
    reset_transaction (record c1 { state = if i.shutting_down then conn_shutdown else conn_cmd })
      i.xid

-- The outcome of the chain of handlers; a nil response is the accepting one.
unfoldable pub handled : Input → Session → Envelope × Outcome → Session
unfolding after_data
handled i r (e, reply none) = record r {
  conn = after_data i (record r.conn { envelope = e }) accepted;
}
handled i r (e, reply (some resp)) = record r {
  conn = after_data i (record r.conn { envelope = e }) resp;
}
handled i r (e, panic s) = record r { conn = record r.conn { envelope = e }; phase = crashed }

unfoldable pub turn_dot : Server → Input → DotEnd → Session → Session
unfolding send_response kill handled
turn_dot s i DotEnd.limit r = record r {
  conn = kill (
      send_response r.conn i.write_err
        ((canned fail_message_size_exceeded).string ∷ codes " " ∷ codes "read limit reached" ∷ []));
}
turn_dot s i (DotEnd.failed text) r = record r {
  conn = kill (
      send_response r.conn i.write_err
        ((canned fail_read_error_data_cmd).string ∷ codes " " ∷ text ∷ []));
}
turn_dot s i done r = handled i r (call (build_chain s.middlewares s.handler) r.conn.envelope)

-- `case ConnData`: what the dot reader gave is in the envelope, also when it failed.
unfoldable pub turn_data : Server → Input → Session → Session
unfolding turn_dot read_from
turn_data s i r =
    let c = consume r.conn i.fetched in
    let e = record c.envelope { body = read_from c.envelope.body i.dot_bytes } in
    turn_dot s i i.dot_end (record r { conn = record c { envelope = e } })

-- `case ConnStartTLS`
unfoldable pub handshaken : Input → Option Bytes → Session → Session
unfolding upgrade_tls reset_transaction
handshaken i (some e) r = record r { conn = record r.conn { state = conn_cmd } }
handshaken i none r = record r {
  conn = record (reset_transaction (upgrade_tls r.conn none) i.xid) { state = conn_cmd };
  ext_tls = [];
}

unfoldable pub turn_start_tls : Server → Input → Session → Session
unfolding handshaken
turn_start_tls s i r =
    if r.conn.envelope.tls
    then record r { conn = record r.conn { state = conn_cmd } }
    else if not s.tls_config
    then record r { conn = record r.conn { state = conn_cmd } }
    else handshaken i i.handshake_err r

-- `case ConnShutdown`
unfoldable pub turn_shutdown : Input → Session → Session
unfolding reply_with kill
turn_shutdown i r = record r { conn = kill (reply_with r.conn i error_shutdown) }

-- `switch conn.state`
unfoldable pub turn_in : ClientState → Server → Externals → Input → Session → Session
unfolding turn_greeting turn_cmd turn_data turn_start_tls turn_shutdown
turn_in conn_greeting s x i r = turn_greeting i r
turn_in conn_cmd s x i r = turn_cmd s x i r
turn_in conn_data s x i r = turn_data s i r
turn_in conn_start_tls s x i r = turn_start_tls s i r
turn_in conn_shutdown s x i r = turn_shutdown i r

-- The loop is left by a `return`, by a panic, or by its test `conn.isAlive()`.
abbrev pub is_running : Phase → Bool
is_running running = true
is_running returned = false
is_running crashed = false

abbrev pub is_live : Session → Bool
is_live r = is_running r.phase && not r.conn.killed

-- The body of the loop, for a session that the loop has not left.
unfoldable pub turn : Server → Externals → Input → Session → Session
turn s x i r =
    if is_some r.conn.buf_err then record r { phase = returned } else turn_in r.conn.state s x i r

-- One round of `for conn.isAlive() { … }`.
unfoldable pub advance : Server → Externals → Input → Session → Session
unfolding turn
advance s x i r = if is_live r then turn s x i r else r

unfoldable pub run : Server → Externals → List Input → Session → Session
run s x [] r = r
run s x (i ∷ is) r = run s x is (advance s x i r)

-- Before the loop: the greeting is made up, and a server that is always on TLS shakes hands.
secured : Server → Option Bytes → Session → Session
unfolding upgrade_tls kill
secured s none r = record r { conn = upgrade_tls r.conn none; ext_tls = [] }
secured s (some e) r = record r { conn = kill r.conn; phase = returned }

unfoldable pub start : Server → Bytes → Option Bytes → Connection → Session
unfolding secured greeting_text
start s now handshake_err c =
    let r : Session = record {
      conn = c;
      greeting = greeting_text s c.id now;
      ext_tls = if s.tls_config then codes "250-STARTTLS" ++ crlf else [];
      phase = running;
    } in
    if s.tls_always_on && s.tls_config then secured s handshake_err r else r

-- `handleConn`: the deferred `closeConn` runs when the loop has been left.
unfoldable pub handle_conn :
    Server → Externals → Bytes → Option Bytes → List Input → Connection → Session
unfolding run start close_conn
handle_conn s x now handshake_err is c =
    let r = run s x is (start s now handshake_err c) in
    if is_live r then r else record r { conn = close_conn r.conn }
