-- ===== src/Middleware/Recover.antt =====
-- middleware/recover.go, and what it gives a server that runs it first.
use smtpx.Base.{
  List, [], ◌∷◌, ◌++◌, Option, none, some, Bytes, codes, ◌≡◌, ◌≢◌, refl, arith, Bool-cases, inl,
  inr, is_some, All,
}
use smtpx.Connection.{
  ClientState, conn_greeting, conn_cmd, conn_data, conn_start_tls, conn_shutdown,
}
use smtpx.Envelope.Message.{Envelope, set_error}
use smtpx.Handler.{
  HandlerFunc, Middleware, Wrapper, applies, call, Outcome, reply, panic, nil_to_success,
  nil2success, build_chain,
}
use smtpx.Handler.Chain.{build_chain-nest, CanApply, nest-wrapped}
use smtpx.Response.{new_response}
use smtpx.Server.Command.{Command, recognise}
use smtpx.Server.Commands.{on_command}
use smtpx.Server.Config.{Server}
use smtpx.Server.Session.{Input, Externals, Session, Line, line, DotEnd, done, crashed}
use smtpx.Server.Turn.{turn_line, turn_dot, handled, turn_in, advance, run, is_live}

recovered : Envelope × Outcome → Envelope × Outcome
recovered (e, reply res) = (e, reply res)
recovered (e, panic r) = (
  set_error e (codes "recovered: " ++ r),
  reply (some (new_response 500 (codes "Internal Server GetError"))),
)

-- `Recover`
unfoldable pub recover : Wrapper
unfolding recovered
recover next e = recovered (next e)

recovered-ne-panic : (p : Envelope × Outcome) (text : Bytes) → (recovered p).1 ≢ panic text
unfolding recovered
recovered-ne-panic (e, reply res) text = ground arith
recovered-ne-panic (e, panic r) text = ground arith

nil_to_success-ne-panic :
    (o : Outcome) (text : Bytes) → o ≢ panic text → nil_to_success o ≢ panic text
nil_to_success-ne-panic (reply none) text h = ground arith
nil_to_success-ne-panic (reply (some r)) text h = ground arith
nil_to_success-ne-panic (panic s) text h = h

-- With `Recover` in front of middlewares that can be called, no panic of the functions that they give
-- or of the handler leaves the chain.
pub recover_chain :
    (ms : List (Option Middleware)) (handler : HandlerFunc) (e : Envelope) (text : Bytes)
    → All CanApply ms
    → (call (build_chain (some (applies recover) ∷ ms) (some handler)) e).1 ≢ panic text
unfolding nil2success recover call
recover_chain ms handler e text can =
    let (start, chain) = nest-wrapped ms handler can in
    rw (build_chain-nest, chain)
      (nil_to_success-ne-panic (recovered (start e)).1 text (recovered-ne-panic (start e) text))

on_command-alive :
    (s : Server) (x : Externals) (i : Input) (cmd : Bytes) (c : Option Command) (r : Session)
    → r.phase ≢ crashed
    → (on_command s x i cmd c r).phase ≢ crashed
unfolding on_command
on_command-alive s x i cmd none r h = ground arith
on_command-alive s x i cmd (some c) r h = ground arith

turn_line-alive :
    (s : Server) (x : Externals) (i : Input) (l : Line) (r : Session)
    → r.phase ≢ crashed
    → (turn_line s x i l r).phase ≢ crashed
unfolding turn_line
turn_line-alive s x i (line cmd) r h = elim (Bool-cases i.shutting_down) [
  | inl down ↦ rw down h
  | inr up ↦ rw up (on_command-alive s x i cmd (recognise s cmd) r h)
]
turn_line-alive s x i _ r h = ground arith

handled-alive :
    (i : Input) (r : Session) (p : Envelope × Outcome)
    → ((text : Bytes) → p.1 ≢ panic text)
    → r.phase ≢ crashed
    → (handled i r p).phase ≢ crashed
unfolding handled
handled-alive i r (e, reply none) n h = h
handled-alive i r (e, reply (some res)) n h = h
handled-alive i r (e, panic text) n h = absurd (n text refl)

-- The middlewares of the server never let a panic out.
abbrev pub NeverPanics : Server → Type 0
NeverPanics s =
    (e : Envelope) (text : Bytes) → (call (build_chain s.middlewares s.handler) e).1 ≢ panic text

turn_dot-alive :
    (s : Server) (i : Input) (d : DotEnd) (r : Session)
    → NeverPanics s
    → r.phase ≢ crashed
    → (turn_dot s i d r).phase ≢ crashed
unfolding turn_dot
turn_dot-alive s i DotEnd.limit r n h = h
turn_dot-alive s i (DotEnd.failed text) r n h = h
turn_dot-alive s i done r n h =
    handled-alive i r (call (build_chain s.middlewares s.handler) r.conn.envelope)
      (n r.conn.envelope) h

turn_in-alive :
    (state : ClientState) (s : Server) (x : Externals) (i : Input) (r : Session)
    → NeverPanics s
    → r.phase ≢ crashed
    → (turn_in state s x i r).phase ≢ crashed
unfolding turn_in
turn_in-alive conn_cmd s x i r n h = turn_line-alive s x i i.read_line _ h
turn_in-alive conn_data s x i r n h = turn_dot-alive s i i.dot_end _ n h
turn_in-alive conn_greeting s x i r n h = h
turn_in-alive conn_start_tls s x i r n h = ground arith
turn_in-alive conn_shutdown s x i r n h = h

advance-alive :
    (s : Server) (x : Externals) (i : Input) (r : Session)
    → NeverPanics s
    → r.phase ≢ crashed
    → (advance s x i r).phase ≢ crashed
unfolding advance
advance-alive s x i r n h = elim (Bool-cases (is_live r)) [
  | inr dead ↦ rw dead h
  | inl live ↦ rw live (elim (Bool-cases (is_some r.conn.buf_err)) [
    | inl lost ↦ rw lost (ground arith)
    | inr fine ↦ rw fine (turn_in-alive r.conn.state s x i r n h)
  ])
]

run-alive :
    (s : Server) (x : Externals) (is : List Input) (r : Session)
    → NeverPanics s
    → r.phase ≢ crashed
    → (run s x is r).phase ≢ crashed
unfolding run
run-alive s x [] r n h = h
run-alive s x (i ∷ is) r n h = run-alive s x is (advance s x i r) n (advance-alive s x i r n h)

-- A server that has a handler, whose first middleware is `Recover` and whose other middlewares do not
-- panic when they are called with the rest of the chain, never crashes on a connection, whatever the
-- client sends and whatever the handler and the functions that the middlewares give do with an
-- envelope: each of them panics, or returns a response whose methods return.
pub recover_never_crashes :
    (s : Server) (x : Externals) (ms : List (Option Middleware)) (handler : HandlerFunc)
    (is : List Input) (r : Session)
    → s.middlewares ≡ some (applies recover) ∷ ms
    → s.handler ≡ some handler
    → All CanApply ms
    → r.phase ≢ crashed
    → (run s x is r).phase ≢ crashed
recover_never_crashes s x ms handler is r first given can h =
    run-alive s x is r (λ e text. rw (first, given) (recover_chain ms handler e text can)) h
