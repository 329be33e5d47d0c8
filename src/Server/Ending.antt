-- ===== src/Server/Ending.antt =====
-- How a connection ends (server.go, `handleConn`).
use smtpx.Base.{
  ◌+◌, ◌≤◌, ◌<◌, true, false, List, [], ◌∷◌, ◌++◌, none, ◌≡◌, refl, ap, arith, Bytes, crlf, length,
  All, ◌∙◌, append-nil,
}
use native.Mathlib.Decide.{dec_le}
use smtpx.Connection.{conn_cmd, conn_shutdown}
use smtpx.Response.{canned}
use smtpx.Responses.Canned.{error_shutdown}
use smtpx.Server.Command.{recognise}
use smtpx.Server.Commands.{on_command}
use smtpx.Server.Config.{Server}
use smtpx.Server.Invariant.{run_stopped}
use smtpx.Server.Session.{Input, Externals, Session, line}
use smtpx.Server.Turn.{advance, turn_in, turn_shutdown, turn_line, is_live, run, consume}

-- A live session that waits for a command and has no pending write error.
pub record IsIdle (r : Session) : Type 0 where
  pub live : is_live r ≡ true
  pub waits : r.conn.state ≡ conn_cmd
  pub buffer_ok : r.conn.buf_err ≡ none

-- A turn whose line is no command that the server knows, with no shutdown and no write error.
abbrev pub IsUnrecognized : Server → Input → Type 0
IsUnrecognized s i =
    (cmd : Bytes) × (i.read_line ≡ line cmd)
    × (recognise s cmd ≡ none)
    × (i.shutting_down ≡ false)
    × (i.write_err ≡ none)

turn_line_up :
    (s : Server) (x : Externals) (i : Input) (r : Session) (cmd : Bytes)
    → i.shutting_down ≡ false
    → turn_line s x i (line cmd) r ≡ on_command s x i cmd (recognise s cmd) r
unfolding turn_line
turn_line_up s x i r cmd up = rw up

live_turn :
    (s : Server) (x : Externals) (i : Input) (r : Session)
    → is_live r ≡ true
    → r.conn.buf_err ≡ none
    → advance s x i r ≡ turn_in r.conn.state s x i r
unfolding advance
live_turn s x i r live ok = rw live (rw ok)

cmd_turn :
    (s : Server) (x : Externals) (i : Input) (r : Session)
    → turn_in conn_cmd s x i r
      ≡ turn_line s x i i.read_line (record r { conn = consume r.conn i.fetched })
unfolding turn_in
cmd_turn s x i r = refl

-- A live session that waits for a command and reads a line makes the case of the switch that the
-- line selects.
pub idle_turn :
    (s : Server) (x : Externals) (i : Input) (r : Session) (cmd : Bytes)
    → IsIdle r
    → i.read_line ≡ line cmd
    → i.shutting_down ≡ false
    → advance s x i r
      ≡ on_command s x i cmd (recognise s cmd) (record r { conn = consume r.conn i.fetched })
idle_turn s x i r cmd h l up =
    live_turn s x i r h.live h.buffer_ok
    ∙ ap (λ st. turn_in st s x i r) h.waits
    ∙ cmd_turn s x i r
    ∙ ap (λ k. turn_line s x i k (record r { conn = consume r.conn i.fetched })) l
    ∙ turn_line_up s x i _ cmd up

-- One line that is no command: an error more, and the connection is killed when the errors reach
-- the maximum; otherwise it waits for the next command.
unrecognized-effect :
    (s : Server) (x : Externals) (i : Input) (cmd : Bytes) (r : Session)
    → IsIdle r
    → i.write_err ≡ none
    → let r' = on_command s x i cmd none (record r { conn = consume r.conn i.fetched }) in
      (s.max_unrecognized_commands ≤ r.conn.errors + 1 → is_live r' ≡ false)
      × (r.conn.errors + 1 < s.max_unrecognized_commands
          → IsIdle r' × (r'.conn.errors ≡ r.conn.errors + 1))
unfolding on_command
unrecognized-effect s x i cmd r h w = ((λ q. ground arith), (λ q. ground arith))

unrecognized_turn :
    (s : Server) (x : Externals) (i : Input) (r : Session)
    → IsIdle r
    → IsUnrecognized s i
    → (s.max_unrecognized_commands ≤ r.conn.errors + 1 → is_live (advance s x i r) ≡ false)
      × (r.conn.errors + 1 < s.max_unrecognized_commands
          → IsIdle (advance s x i r) × ((advance s x i r).conn.errors ≡ r.conn.errors + 1))
unrecognized_turn s x i r h (cmd, l, u, up, w) =
    rw (idle_turn s x i r cmd h l up, u) (unrecognized-effect s x i cmd r h w)

-- A client that sends only lines that are no commands is cut off: as soon as the errors counted
-- before and these lines together reach the configured maximum, the loop has been left.
pub unrecognized_cut_off :
    (s : Server) (x : Externals) (i : Input) (is : List Input) (r : Session)
    → IsIdle r
    → All (IsUnrecognized s) (i ∷ is)
    → s.max_unrecognized_commands ≤ r.conn.errors + length (i ∷ is)
    → is_live (run s x (i ∷ is) r) ≡ false
unfolding run
unrecognized_cut_off s x i [] r h (u, us) enough = (unrecognized_turn s x i r h u).0 (omega arith)
unrecognized_cut_off s x i (j ∷ js) r h (u, us) enough =
    elim (dec_le s.max_unrecognized_commands (r.conn.errors + 1)) [
      | yes p ↦
          let dead = (unrecognized_turn s x i r h u).0 p in
          ap is_live (run_stopped s x (j ∷ js) (advance s x i r) dead) ∙ dead
      | no p ↦
          let (idle, count) = (unrecognized_turn s x i r h u).1 (omega arith) in
          unrecognized_cut_off s x j js (advance s x i r) idle us (omega arith)
    ]

-- The session behind a line that was read while the server shuts down.
abbrev told_to_stop : Input → Session → Session
told_to_stop i r = record r { conn = record (consume r.conn i.fetched) { state = conn_shutdown } }

turn_line_down :
    (s : Server) (x : Externals) (i : Input) (r : Session) (cmd : Bytes)
    → i.shutting_down ≡ true
    → turn_line s x i (line cmd) r ≡ record r { conn = record r.conn { state = conn_shutdown } }
unfolding turn_line
turn_line_down s x i r cmd down = rw down

down_turn :
    (s : Server) (x : Externals) (i : Input) (r : Session) (cmd : Bytes)
    → IsIdle r
    → i.read_line ≡ line cmd
    → i.shutting_down ≡ true
    → advance s x i r ≡ told_to_stop i r
down_turn s x i r cmd h l down =
    live_turn s x i r h.live h.buffer_ok
    ∙ ap (λ st. turn_in st s x i r) h.waits
    ∙ cmd_turn s x i r
    ∙ ap (λ k. turn_line s x i k (record r { conn = consume r.conn i.fetched })) l
    ∙ turn_line_down s x i _ cmd down

last_turn :
    (s : Server) (x : Externals) (j : Input) (q : Session)
    → q.conn.state ≡ conn_shutdown
    → is_live q ≡ true
    → q.conn.buf_err ≡ none
    → advance s x j q ≡ turn_shutdown j q
unfolding turn_in
last_turn s x j q st live ok = live_turn s x j q live ok ∙ ap (λ t. turn_in t s x j q) st

turn_shutdown-effect :
    (j : Input) (q : Session)
    → j.write_err ≡ none
    → (is_live (turn_shutdown j q) ≡ false)
      × ((turn_shutdown j q).conn.sent
          ≡ q.conn.sent ++ (((canned error_shutdown).string ++ crlf) ∷ []))
unfolding turn_shutdown
turn_shutdown-effect j q w =
    (ground arith, ground (arith, append-nil (canned error_shutdown).string))

run_down :
    (s : Server) (x : Externals) (i j : Input) (is : List Input) (r : Session) (cmd : Bytes)
    → IsIdle r
    → i.read_line ≡ line cmd
    → i.shutting_down ≡ true
    → j.write_err ≡ none
    → run s x (i ∷ j ∷ is) r ≡ turn_shutdown j (told_to_stop i r)
unfolding run
run_down s x i j is r cmd h l d w =
    let q = told_to_stop i r in
    ap (λ t. run s x is (advance s x j t)) (down_turn s x i r cmd h l d)
    ∙ ap (run s x is) (last_turn s x j q refl h.live h.buffer_ok)
    ∙ run_stopped s x is (turn_shutdown j q) (turn_shutdown-effect j q w).0

-- A server that is shutting down answers the next line with nothing but its reply for that, and
-- leaves the loop: two turns are enough, whatever the line says, when the reply can be written.
pub shutdown_in_two_turns :
    (s : Server) (x : Externals) (i j : Input) (is : List Input) (r : Session) (cmd : Bytes)
    → IsIdle r
    → i.read_line ≡ line cmd
    → i.shutting_down ≡ true
    → j.write_err ≡ none
    → let r' = run s x (i ∷ j ∷ is) r in
      (is_live r' ≡ false)
      × (r'.conn.sent ≡ r.conn.sent ++ (((canned error_shutdown).string ++ crlf) ∷ []))
shutdown_in_two_turns s x i j is r cmd h l d w =
    rw (run_down s x i j is r cmd h l d w) (turn_shutdown-effect j (told_to_stop i r) w)
