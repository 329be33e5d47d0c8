-- ===== src/Server/Invariant.antt =====
-- What holds of a connection between two turns of the loop in `handleConn` (server.go).
use smtpx.Base.{
  ℕ, ◌+◌, ◌≤◌, ◌<◌, true, false, List, [], ◌∷◌, Option, none, some, ◌≡◌, refl, ap, arith, Bytes,
  length, length-append, fields, ◌⊎◌, inl, inr, Bool-cases, is_some, ◌∙◌,
}
use smtpx.Connection.{
  ClientState, conn_greeting, conn_cmd, conn_data, conn_start_tls, conn_shutdown, new_connection,
}
use smtpx.Envelope.Data.{Data, no_data, read_from}
use smtpx.Envelope.Message.{Envelope}
use smtpx.Handler.{Outcome, reply, panic, build_chain, call}
use smtpx.Server.Config.{Server}
use smtpx.Server.Command.{Command, xclient, rcpt, content, recognise}
use smtpx.Server.Session.{Input, Externals, Session, Line, line, DotEnd, done, crashed}
use smtpx.Server.Commands.{apply_token, set_attributes, on_xclient, on_command}
use smtpx.Server.Turn.{
  turn_line, turn_dot, consume, advance, handled, turn_in, turn, run, start, handle_conn, is_live,
}

pub record Inv (s : Server) (r : Session) : Type 0 where
  pub recipients : length r.conn.envelope.rcpt_to ≤ s.max_recipients + 1
  pub data_addressed : r.conn.state ≡ conn_data → 0 < length r.conn.envelope.rcpt_to
  pub tls_configured : r.conn.state ≡ conn_start_tls → s.tls_config ≡ true
  pub limit_fixed : r.conn.in_reader.n ≡ s.max_size
  pub body_fresh : r.conn.killed ≡ false → r.conn.envelope.body ≡ no_data
  pub within_limit : r.conn.in_reader.limited.remaining ≤ s.max_size

abbrev SameMessage : Envelope → Envelope → Type 0
SameMessage e' e = (e'.rcpt_to ≡ e.rcpt_to) × (e'.body ≡ e.body)

apply_token-SameMessage :
    (x : Externals) (tok : Bytes) (e : Envelope) → SameMessage (apply_token x tok e) e
unfolding apply_token
apply_token-SameMessage x tok e = ground arith

set_attributes-SameMessage :
    (x : Externals) (toks : List Bytes) (e : Envelope) → SameMessage (set_attributes x toks e) e
unfolding set_attributes
set_attributes-SameMessage x [] e = (refl, refl)
set_attributes-SameMessage x (tok ∷ toks) e =
    let step = apply_token-SameMessage x tok e in
    let rest = set_attributes-SameMessage x toks (apply_token x tok e) in
    (rest.0 ∙ step.0, rest.1 ∙ step.1)

on_xclient-Inv :
    (s : Server) (x : Externals) (i : Input) (cmd : Bytes) (r : Session)
    → Inv s r
    → Inv s (record r { conn = on_xclient x i cmd r.conn })
unfolding on_xclient
on_xclient-Inv s x i cmd r h =
    ground (arith, set_attributes-SameMessage x (fields (content xclient cmd)) r.conn.envelope)

on_command-Inv :
    (s : Server) (x : Externals) (i : Input) (cmd : Bytes) (c : Option Command) (r : Session)
    → r.conn.state ≡ conn_cmd
    → Inv s r
    → Inv s (on_command s x i cmd c r)
unfolding on_command
on_command-Inv s x i cmd none r q h = ground arith
on_command-Inv s x i cmd (some rcpt) r q h = grind (arith, length-append)
on_command-Inv s x i cmd (some xclient) r q h = on_xclient-Inv s x i cmd r h
on_command-Inv s x i cmd (some c) r q h = ground arith

turn_line-Inv :
    (s : Server) (x : Externals) (i : Input) (l : Line) (r : Session)
    → r.conn.state ≡ conn_cmd
    → Inv s r
    → Inv s (turn_line s x i l r)
unfolding turn_line
turn_line-Inv s x i (line cmd) r q h = elim (Bool-cases i.shutting_down) [
  | inl down ↦ rw down (ground arith)
  | inr up ↦ rw up (on_command-Inv s x i cmd (recognise s cmd) r q h)
]
turn_line-Inv s x i _ r q h = ground arith

handled-Inv :
    (s : Server) (i : Input) (r : Session) (p : Envelope × Outcome)
    → r.conn.in_reader.n ≡ s.max_size
    → ((handled i r p).phase ≡ crashed) ⊎ Inv s (handled i r p)
unfolding handled
handled-Inv s i r (e, panic p) h = inl refl
handled-Inv s i r (e, reply none) h = inr (ground arith)
handled-Inv s i r (e, reply (some resp)) h = inr (ground arith)

abbrev with_body : Session → Data → Session
with_body r d = record r { conn = record r.conn { envelope = record r.conn.envelope { body = d } } }

turn_dot-Inv :
    (s : Server) (i : Input) (d : DotEnd) (r : Session) (body : Data)
    → Inv s r
    → ((turn_dot s i d (with_body r body)).phase ≡ crashed)
      ⊎ Inv s (turn_dot s i d (with_body r body))
unfolding turn_dot
turn_dot-Inv s i DotEnd.limit r body h = inr (ground arith)
turn_dot-Inv s i (DotEnd.failed t) r body h = inr (ground arith)
turn_dot-Inv s i done r body h =
    let q = with_body r body in
    handled-Inv s i q (call (build_chain s.middlewares s.handler) q.conn.envelope) h.limit_fixed

turn_in-Inv :
    (state : ClientState) (s : Server) (x : Externals) (i : Input) (r : Session)
    → r.conn.state ≡ state
    → Inv s r
    → ((turn_in state s x i r).phase ≡ crashed) ⊎ Inv s (turn_in state s x i r)
unfolding turn_in
turn_in-Inv conn_greeting s x i r q h = inr (ground arith)
turn_in-Inv conn_cmd s x i r q h = inr (
    turn_line-Inv s x i i.read_line (record r { conn = consume r.conn i.fetched }) q (ground arith))
turn_in-Inv conn_data s x i r q h =
    turn_dot-Inv s i i.dot_end (record r { conn = consume r.conn i.fetched })
      (read_from r.conn.envelope.body i.dot_bytes) (ground arith)
turn_in-Inv conn_start_tls s x i r q h = inr (ground arith)
turn_in-Inv conn_shutdown s x i r q h = inr (ground arith)

turn-Inv :
    (s : Server) (x : Externals) (i : Input) (r : Session)
    → Inv s r
    → ((turn s x i r).phase ≡ crashed) ⊎ Inv s (turn s x i r)
unfolding turn
turn-Inv s x i r h = elim (Bool-cases (is_some r.conn.buf_err)) [
  | inl lost ↦ rw lost (inr (ground arith))
  | inr fine ↦ rw fine (turn_in-Inv r.conn.state s x i r refl h)
]

pub advance-Inv :
    (s : Server) (x : Externals) (i : Input) (r : Session)
    → Inv s r
    → ((advance s x i r).phase ≡ crashed) ⊎ Inv s (advance s x i r)
unfolding advance
advance-Inv s x i r h = elim (Bool-cases (is_live r)) [
  | inl live ↦ rw live (turn-Inv s x i r h)
  | inr dead ↦ rw dead (inr h)
]

advance_stopped :
    (s : Server) (x : Externals) (i : Input) (r : Session) → is_live r ≡ false → advance s x i r ≡ r
unfolding advance
advance_stopped s x i r h = rw h

-- The loop is over: nothing that comes later changes the session.
pub run_stopped :
    (s : Server) (x : Externals) (is : List Input) (r : Session)
    → is_live r ≡ false
    → run s x is r ≡ r
unfolding run
run_stopped s x [] r h = refl
run_stopped s x (i ∷ is) r h = ap (run s x is) (advance_stopped s x i r h) ∙ run_stopped s x is r h

run-Inv :
    (s : Server) (x : Externals) (is : List Input) (r : Session)
    → Inv s r
    → ((run s x is r).phase ≡ crashed) ⊎ Inv s (run s x is r)
unfolding run
run-Inv s x [] r h = inr h
run-Inv s x (i ∷ is) r h = elim (advance-Inv s x i r h) [
  | inr kept ↦ run-Inv s x is (advance s x i r) kept
  | inl crash ↦
      let stopped : is_live (advance s x i r) ≡ false = ground arith in
      inl (ap (λ q. q.phase) (run_stopped s x is (advance s x i r) stopped) ∙ crash)
]

pub start-Inv :
    (s : Server) (now : Bytes) (hs : Option Bytes) (addr : Bytes) (id : ℕ) (xid : Bytes)
    → Inv s (start s now hs (new_connection addr s.max_size id xid))
unfolding start new_connection
start-Inv s now hs addr id xid = ground arith

-- Whatever a client sends and however reads, writes and handshakes end, every state that
-- `handleConn` reaches from a new connection, unless a handler has panicked, has at most one
-- recipient more than the configured maximum, has a recipient whenever it waits for data, waits for
-- a handshake only with a TLS configuration, has an empty body before the data of a message unless
-- the connection is killed, and never has more bytes left to read than the configured size, which
-- is the limit of its reader.
pub handle_conn-Inv :
    (s : Server) (x : Externals) (now : Bytes) (hs : Option Bytes) (is : List Input) (addr : Bytes)
    (id : ℕ) (xid : Bytes)
    → let r = handle_conn s x now hs is (new_connection addr s.max_size id xid) in
      (r.phase ≡ crashed) ⊎ Inv s r
unfolding handle_conn
handle_conn-Inv s x now hs is addr id xid =
    let c = new_connection addr s.max_size id xid in
    let r = run s x is (start s now hs c) in
    elim (run-Inv s x is (start s now hs c) (start-Inv s now hs addr id xid)) [
      | inl crash ↦ inl (ground arith)
      | inr kept ↦ inr (ground arith)
    ]
