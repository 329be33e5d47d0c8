-- ===== src/Server/Forgotten.antt =====
-- What an envelope says of the session (server.go, `handleConn`), between one greeting and the next.
use smtpx.Base.{
  Bool, true, false, List, [], ◌∷◌, Option, none, some, Bytes, ◌≡◌, ◌⊎◌, inl, inr, refl, ap, ◌∙◌,
  All, is_some, Bool-cases, arith,
}
use smtpx.Connection.{
  ClientState, conn_greeting, conn_cmd, conn_data, conn_start_tls, conn_shutdown,
}
use smtpx.Envelope.Message.{Envelope}
use smtpx.Handler.{Outcome, reply, panic, build_chain, call}
use smtpx.Response.{Response}
use smtpx.Server.Command.{
  Command, helo, ehlo, help, xclient, proxy, mail, rcpt, rset, vrfy, noop, quit, dat, starttls,
  recognise,
}
use smtpx.Server.Commands.{on_command}
use smtpx.Server.Config.{Server}
use smtpx.Server.Session.{Line, line, DotEnd, done, Input, Externals, crashed, Session}
use smtpx.Server.Invariant.{run_stopped}
use smtpx.Server.Turn.{turn_line, turn_dot, handled, handshaken, turn_in, advance, run, is_live}

-- No name of the client, no flag of ESMTP and no flag of TLS.
pub record IsForgotten (e : Envelope) : Type 0 where
  pub helo : e.helo ≡ []
  pub esmtp : e.esmtp ≡ false
  pub tls : e.tls ≡ false

-- The commands by which a client gives its name.
abbrev pub names_client : Option Command → Bool
names_client (some helo) = true
names_client (some ehlo) = true
names_client (some xclient) = true
names_client _ = false

-- An input whose line, if there is one, is none of these commands.
abbrev pub IsQuiet : Server → Input → Type 0
IsQuiet s i = (cmd : Bytes) → i.read_line ≡ line cmd → names_client (recognise s cmd) ≡ false

abbrev pub StaysForgotten : Session → Type 0
StaysForgotten r = (r.phase ≡ crashed) ⊎ IsForgotten r.conn.envelope

on_command-IsForgotten :
    (s : Server) (x : Externals) (i : Input) (cmd : Bytes) (c : Option Command) (r : Session)
    → names_client c ≡ false
    → IsForgotten r.conn.envelope
    → IsForgotten (on_command s x i cmd c r).conn.envelope
unfolding on_command
on_command-IsForgotten s x i cmd none r q h = ground arith
on_command-IsForgotten s x i cmd (some helo) r q h = cc
on_command-IsForgotten s x i cmd (some ehlo) r q h = cc
on_command-IsForgotten s x i cmd (some xclient) r q h = cc
on_command-IsForgotten s x i cmd (some help) r q h = ground arith
on_command-IsForgotten s x i cmd (some proxy) r q h = ground arith
on_command-IsForgotten s x i cmd (some mail) r q h = ground arith
on_command-IsForgotten s x i cmd (some rcpt) r q h = ground arith
on_command-IsForgotten s x i cmd (some rset) r q h = ground arith
on_command-IsForgotten s x i cmd (some vrfy) r q h = ground arith
on_command-IsForgotten s x i cmd (some noop) r q h = ground arith
on_command-IsForgotten s x i cmd (some quit) r q h = ground arith
on_command-IsForgotten s x i cmd (some dat) r q h = ground arith
on_command-IsForgotten s x i cmd (some starttls) r q h = ground arith

turn_line-IsForgotten :
    (s : Server) (x : Externals) (i : Input) (l : Line) (r : Session)
    → ((cmd : Bytes) → l ≡ line cmd → names_client (recognise s cmd) ≡ false)
    → IsForgotten r.conn.envelope
    → IsForgotten (turn_line s x i l r).conn.envelope
unfolding turn_line
turn_line-IsForgotten s x i (line cmd) r q h = elim (Bool-cases i.shutting_down) [
  | inl down ↦ rw down h
  | inr up ↦ rw up (on_command-IsForgotten s x i cmd (recognise s cmd) r (q cmd refl) h)
]
turn_line-IsForgotten s x i _ r q h = ground arith

handled-StaysForgotten :
    (i : Input) (r : Session) (p : Envelope × Outcome) → StaysForgotten (handled i r p)
unfolding handled
handled-StaysForgotten i r (e, panic text) = inl refl
handled-StaysForgotten i r (e, reply none) = inr (ground arith)
handled-StaysForgotten i r (e, reply (some resp)) = inr (ground arith)

turn_dot-StaysForgotten :
    (s : Server) (i : Input) (d : DotEnd) (r : Session)
    → IsForgotten r.conn.envelope
    → StaysForgotten (turn_dot s i d r)
unfolding turn_dot
turn_dot-StaysForgotten s i DotEnd.limit r h = inr (ground arith)
turn_dot-StaysForgotten s i (DotEnd.failed t) r h = inr (ground arith)
turn_dot-StaysForgotten s i done r h =
    handled-StaysForgotten i r (call (build_chain s.middlewares s.handler) r.conn.envelope)

handshaken-IsForgotten : (i : Input) (r : Session) → IsForgotten (handshaken i none r).conn.envelope
unfolding handshaken
handshaken-IsForgotten i r = ground arith

handshaken-kept :
    (i : Input) (o : Option Bytes) (r : Session)
    → IsForgotten r.conn.envelope
    → IsForgotten (handshaken i o r).conn.envelope
unfolding handshaken
handshaken-kept i none r h = handshaken-IsForgotten i r
handshaken-kept i (some e) r h = h

turn_in-StaysForgotten :
    (state : ClientState) (s : Server) (x : Externals) (i : Input) (r : Session)
    → IsQuiet s i
    → IsForgotten r.conn.envelope
    → StaysForgotten (turn_in state s x i r)
unfolding turn_in
turn_in-StaysForgotten conn_greeting s x i r q h = inr (ground arith)
turn_in-StaysForgotten conn_cmd s x i r q h = inr (turn_line-IsForgotten s x i i.read_line _ q h)
turn_in-StaysForgotten conn_data s x i r q h =
    turn_dot-StaysForgotten s i i.dot_end _ (ground arith)
turn_in-StaysForgotten conn_start_tls s x i r q h =
    inr (ground (arith, handshaken-kept i i.handshake_err r h))
turn_in-StaysForgotten conn_shutdown s x i r q h = inr (ground arith)

advance-StaysForgotten :
    (s : Server) (x : Externals) (i : Input) (r : Session)
    → IsQuiet s i
    → IsForgotten r.conn.envelope
    → StaysForgotten (advance s x i r)
unfolding advance
advance-StaysForgotten s x i r q h = elim (Bool-cases (is_live r)) [
  | inr dead ↦ rw dead (inr h)
  | inl live ↦ rw live (elim (Bool-cases (is_some r.conn.buf_err)) [
    | inl lost ↦ rw lost (inr h)
    | inr fine ↦ rw fine (turn_in-StaysForgotten r.conn.state s x i r q h)
  ])
]

run-StaysForgotten :
    (s : Server) (x : Externals) (is : List Input) (r : Session)
    → All (IsQuiet s) is
    → IsForgotten r.conn.envelope
    → StaysForgotten (run s x is r)
unfolding run
run-StaysForgotten s x [] r qs h = inr h
run-StaysForgotten s x (i ∷ is) r (q, qs) h = elim (advance-StaysForgotten s x i r q h) [
  | inr kept ↦ run-StaysForgotten s x is (advance s x i r) qs kept
  | inl crash ↦
      let stopped : is_live (advance s x i r) ≡ false = ground arith in
      inl (ap (λ q. q.phase) (run_stopped s x is (advance s x i r) stopped) ∙ crash)
]

answered-IsForgotten :
    (i : Input) (r : Session) (e : Envelope) (resp : Response)
    → IsForgotten (handled i r (e, reply (some resp))).conn.envelope
unfolding handled
answered-IsForgotten i r e resp = ground arith

-- From the answer of a handler on, and from a handshake after STARTTLS on, until the client gives its
-- name by HELO, EHLO or XCLIENT, and unless a handler panics, the envelope of the connection has no
-- name of the client, no flag of ESMTP and no flag of TLS, whatever else the client sends: the
-- handshake sets the flag on an envelope that the reset of the transaction then replaces, as the end
-- of a message does.
pub facts_forgotten :
    (s : Server) (x : Externals) (i : Input) (is : List Input) (r : Session) (e : Envelope)
    (resp : Response)
    → All (IsQuiet s) is
    → StaysForgotten (run s x is (handled i r (e, reply (some resp))))
      × StaysForgotten (run s x is (handshaken i none r))
facts_forgotten s x i is r e resp quiet = (
  run-StaysForgotten s x is (handled i r (e, reply (some resp))) quiet
      (answered-IsForgotten i r e resp),
  run-StaysForgotten s x is (handshaken i none r) quiet (handshaken-IsForgotten i r),
)
