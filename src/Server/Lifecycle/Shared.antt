-- ===== src/Server/Lifecycle/Shared.antt =====
-- What the connections and a call of `Shutdown` see of the server (server.go).
use smtpx.Base.{
  ℕ, ◌+◌, true, false, List, [], ◌∷◌, ◌++◌, Option, none, some, Bytes, ◌≡◌, ◌≢◌, ◌⊎◌, inl, inr,
  refl, ap, sym, arith, All, All-replace, All-remove, Bool-cases, ◌∙◌, is_some,
}
use mathlib.Core.Path.{subst}
use smtpx.Connection.{ClientState, conn_cmd, conn_shutdown, close_conn}
use smtpx.Server.Lifecycle.{
  Host, Client, uncounted, absent, ended, Arrival, arrive, accept_one, stop_accepting, finish,
  shut_down, take_turn, hang_up, Step, no_defaults, no_listener, listen, accepted, refused, drained,
  shutdown, turns, returns, uncounts, leaves, Reach, begin, later, is_shutting_down,
  get_active_clients_count, ShutdownReturns, no_error, without_listener, listener_gone,
}
use smtpx.Server.Lifecycle.Preserved.{HostInv, Reach-HostInv, append-cons-ne-nil, counted}
use smtpx.Server.Config.{Server}
use smtpx.Server.Command.{Command, recognise}
use smtpx.Server.Commands.{on_command}
use smtpx.Server.Invariant.{Inv, advance-Inv, start-Inv}
use smtpx.Server.Session.{Input, Externals, Session, Line, line, crashed}
use smtpx.Server.Turn.{advance, is_live, turn_line, turn_in}

on_command-state :
    (s : Server) (x : Externals) (i : Input) (cmd : Bytes) (c : Option Command) (r : Session)
    → r.conn.state ≡ conn_cmd
    → (on_command s x i cmd c r).conn.state ≢ conn_shutdown
unfolding on_command
on_command-state s x i cmd none r q = ground arith
on_command-state s x i cmd (some c) r q = ground arith

turn_line-state :
    (s : Server) (x : Externals) (i : Input) (l : Line) (r : Session)
    → i.shutting_down ≡ false
    → r.conn.state ≡ conn_cmd
    → (turn_line s x i l r).conn.state ≢ conn_shutdown
unfolding turn_line
turn_line-state s x i (line cmd) r up q = rw up (on_command-state s x i cmd (recognise s cmd) r q)
turn_line-state s x i _ r up q = ground arith

turn_in-state :
    (state : ClientState) (s : Server) (x : Externals) (i : Input) (r : Session)
    → i.shutting_down ≡ false
    → state ≢ conn_shutdown
    → r.conn.state ≡ state
    → (turn_in state s x i r).conn.state ≢ conn_shutdown
unfolding turn_in
turn_in-state conn_cmd s x i r up n q = turn_line-state s x i i.read_line _ up q
turn_in-state state s x i r up n q = ground arith

advance-state :
    (s : Server) (x : Externals) (i : Input) (r : Session)
    → i.shutting_down ≡ false
    → r.conn.state ≢ conn_shutdown
    → (advance s x i r).conn.state ≢ conn_shutdown
unfolding advance
advance-state s x i r up n = elim (Bool-cases (is_live r)) [
  | inr dead ↦ rw dead n
  | inl live ↦ rw live (elim (Bool-cases (is_some r.conn.buf_err)) [
    | inl lost ↦ rw lost n
    | inr fine ↦ rw fine (turn_in-state r.conn.state s x i r up n refl)
  ])
]

-- Of a connection: it has not been told to shut down, and its session is as `handleConn` keeps it.
abbrev pub IsServed : Server → Client → Type 0
IsServed cfg c =
    (c.session.conn.state ≢ conn_shutdown) × ((c.session.phase ≡ crashed) ⊎ Inv cfg c.session)

arrive-IsServed : (cfg : Server) (id : ℕ) (a : Arrival) → IsServed cfg (arrive cfg id a)
unfolding arrive
arrive-IsServed cfg id a =
    (ground arith, inr (start-Inv cfg a.time a.handshake_err a.addr id a.xid))

advance-crashed :
    (s : Server) (x : Externals) (i : Input) (r : Session)
    → r.phase ≡ crashed
    → (advance s x i r).phase ≡ crashed
unfolding advance
advance-crashed s x i r q = let dead : is_live r ≡ false = ground arith in rw dead q

take_turn-IsServed :
    (h : Host) (x : Externals) (i : Input) (c : Client)
    → is_shutting_down h ≡ false
    → IsServed h.config c
    → IsServed h.config (take_turn h x i c)
take_turn-IsServed h x i c up (state, ok) =
    let i' = record i { shutting_down = is_shutting_down h } in
    (
      advance-state h.config x i' c.session up state,
      elim ok [
        | inl crash ↦ inl (advance-crashed h.config x i' c.session crash)
        | inr inv ↦ advance-Inv h.config x i' c.session inv
      ],
    )

hang_up-IsServed : (cfg : Server) (c : Client) → IsServed cfg c → IsServed cfg (hang_up c)
unfolding close_conn
hang_up-IsServed cfg c (state, inl crash) = (state, inl crash)
hang_up-IsServed cfg c (state, inr inv) = (state, inr (ground arith))

-- As long as a connection is there, the flag of the shutdown is not set.
flag_down :
    (h : Host) (c : Client) (cs ds : List Client)
    → HostInv h
    → h.clients ≡ cs ++ (c ∷ ds)
    → is_shutting_down h ≡ false
unfolding is_shutting_down
flag_down h c cs ds v at = elim (Bool-cases h.closed_listener) [
  | inr up ↦ up
  | inl down ↦ absurd (append-cons-ne-nil c cs ds (sym at ∙ v.none_after (v.closed_after down)))
]

no_clients : (h : Host) (cfg : Server) → h.clients ≡ [] → All (IsServed cfg) h.clients
no_clients h cfg none_there = subst (All (IsServed cfg)) (sym none_there) tt

Step-IsServed :
    {x : Externals} {h k : Host}
    → Step x h k
    → HostInv h
    → All (IsServed h.config) h.clients
    → All (IsServed k.config) k.clients
unfolding accept_one stop_accepting finish shut_down
Step-IsServed (no_defaults os q d) v a = a
Step-IsServed {h = h} (no_listener os cfg q d) v a = no_clients h cfg (v.none_before q)
Step-IsServed {h = h} (listen os cfg q d) v a = no_clients h cfg (v.none_before q)
Step-IsServed {h = h} (accepted arrival q l) v a =
    (arrive-IsServed h.config (h.connection_id + 1) arrival, a)
Step-IsServed (refused q) v a = a
Step-IsServed (drained q n) v a = a
Step-IsServed shutdown v a = a
Step-IsServed {x} {h} (turns i c cs ds at q) v a =
    All-replace (IsServed h.config) c (take_turn h x i c) cs ds
      (take_turn-IsServed h x i c (flag_down h c cs ds v at)) (subst (All (IsServed h.config)) at a)
Step-IsServed {h = h} (returns c cs ds at q dead fine) v a =
    All-replace (IsServed h.config) c (hang_up c) cs ds (hang_up-IsServed h.config c)
      (subst (All (IsServed h.config)) at a)
Step-IsServed {h = h} (uncounts c cs ds at q) v a =
    All-replace (IsServed h.config) c (record c { stage = uncounted }) cs ds (λ p. p)
      (subst (All (IsServed h.config)) at a)
Step-IsServed {h = h} (leaves c cs ds at q) v a =
    All-remove (IsServed h.config) c cs ds (subst (All (IsServed h.config)) at a)

Reach-IsServed :
    {x : Externals} {cfg : Server} {h : Host} → Reach x cfg h → All (IsServed h.config) h.clients
Reach-IsServed begin = tt
Reach-IsServed (later r s) = Step-IsServed s (Reach-HostInv r) (Reach-IsServed r)

-- In every state that the server reaches, with any number of connections and however their turns
-- interleave, no connection is ever told to shut down: the flag that `isShuttingDown` reads is set
-- only when no connection is left, so none ever waits in the state for the shutdown; and the session
-- of each one has the invariant of `handleConn` unless a handler has panicked.
pub shutdown_never_seen :
    {x : Externals} {cfg : Server} {h : Host}
    → Reach x cfg h
    → (is_shutting_down h ≡ true → h.clients ≡ []) × All (IsServed h.config) h.clients
unfolding is_shutting_down
shutdown_never_seen r =
    let v = Reach-HostInv r in ((λ down. v.none_after (v.closed_after down)), Reach-IsServed r)

-- When `Shutdown` returns nil, either the server never listened, or `ListenAndServe` is over and no
-- connection is left, the count of active clients being zero.
pub shutdown_waits :
    {x : Externals} {cfg : Server} {h : Host}
    → Reach x cfg h
    → ShutdownReturns h no_error
    → (h.listener ≡ absent)
      ⊎ ((h.loop ≡ ended) × (h.clients ≡ []) × (get_active_clients_count h ≡ 0))
unfolding get_active_clients_count
shutdown_waits r (without_listener q) = inl q
shutdown_waits r (listener_gone l down) =
    let v = Reach-HostInv r in
    let over = v.closed_after down in
    let none_left = v.none_after over in inr (over, none_left, v.counts ∙ ap counted none_left)
