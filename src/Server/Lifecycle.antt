-- ===== src/Server/Lifecycle.antt =====
-- server.go: `ListenAndServe`, `Shutdown` and the goroutines of the connections, as steps on what
-- they share. A step is one action of one goroutine; they interleave in any order.
pub mod Drained
pub mod Preserved
pub mod Shared
use smtpx.Base.{
  ℕ, ◌+◌, ◌-◌, Bool, true, false, List, [], ◌∷◌, ◌++◌, Option, none, some, Bytes, ◌≡◌, ◌≢◌,
}
use smtpx.Connection.{new_connection, close_conn}
use smtpx.Server.Config.{Server, set_defaults}
use smtpx.Server.Session.{Input, Externals, Session, crashed}
use smtpx.Server.Turn.{start, advance, is_live}

-- The constants `ServerStateNew` and so on.
pub data Status : Type 0 where
  new_server stopped up start_error : Status

-- `s.listener`: nil, listening, or closed.
pub data Listener : Type 0 where
  absent bound closed : Listener

-- Where `ListenAndServe` stands: before its call, in its loop, in `wgConnections.Wait()`, or
-- behind its return.
pub data Loop : Type 0 where
  idle accepting draining ended : Loop

-- Where the goroutine of a connection stands: in `handleConn`, or in its deferred calls, behind
-- `conn.Close` and behind `countConnections.Add(-1)`.
pub data Stage : Type 0 where
  serving hung_up uncounted : Stage

pub record Client : Type 0 where
  pub number : ℕ
  pub session : Session
  pub stage : Stage

-- The fields of `Server` that change, the variable `connectionId`, and the goroutines.
pub record Host : Type 0 where
  pub config : Server
  pub status : Status
  pub listener : Listener
  pub closed_listener : Bool
  pub wait_group : ℕ
  pub count_connections : ℕ
  pub connection_id : ℕ
  pub loop : Loop
  pub clients : List Client

abbrev pub new_host : Server → Host
new_host cfg = record {
  config = cfg;
  status = new_server;
  listener = absent;
  closed_listener = false;
  wait_group = 0;
  count_connections = 0;
  connection_id = 0;
  loop = idle;
  clients = [];
}

-- `GetActiveClientsCount`
unfoldable pub get_active_clients_count : Host → ℕ
get_active_clients_count h = h.count_connections

-- `isShuttingDown`: whether a read of the channel returns.
unfoldable pub is_shutting_down : Host → Bool
is_shutting_down h = h.closed_listener

-- The address of a connection, its envelope's identifier, the time of its greeting and the end of its first
-- handshake.
pub record Arrival : Type 0 where
  pub addr : Bytes
  pub xid : Bytes
  pub time : Bytes
  pub handshake_err : Option Bytes

-- `newConnection`, and `handleConn` up to its loop.
unfoldable pub arrive : Server → ℕ → Arrival → Client
unfolding start new_connection
arrive cfg id a = record {
  number = id;
  session = start cfg a.time a.handshake_err (new_connection a.addr cfg.max_size id a.xid);
  stage = serving;
}

-- The body of the loop, when `Accept` returns a connection.
unfoldable pub accept_one : Host → Arrival → Host
unfolding arrive
accept_one h a = record h {
  connection_id = h.connection_id + 1;
  wait_group = h.wait_group + 1;
  count_connections = h.count_connections + 1;
  clients = arrive h.config (h.connection_id + 1) a ∷ h.clients;
}

-- The body of the loop, when `Accept` returns an error.
unfoldable pub stop_accepting : Host → Host
stop_accepting h = record h {
  connection_id = h.connection_id + 1;
  status = stopped;
  loop = draining;
}

-- `Wait` has returned.
unfoldable pub finish : Host → Host
finish h = record h { closed_listener = true; loop = ended }

-- `s.listener.Close()`
close_listener : Listener → Listener
close_listener absent = absent
close_listener _ = closed

-- What `Shutdown` does before it waits.
unfoldable pub shut_down : Host → Host
unfolding close_listener
shut_down h = record h { listener = close_listener h.listener }

abbrev pub with_clients : Host → List Client → Host
with_clients h cs = record h { clients = cs }

-- A turn of a connection; the flag of the shutdown that it sees is the channel's.
abbrev pub take_turn : Host → Externals → Input → Client → Client
take_turn h x i c = record c {
  session = advance h.config x (record i { shutting_down = is_shutting_down h }) c.session;
}

-- The connection is closed when `handleConn` has returned.
abbrev pub hang_up : Client → Client
hang_up c = record c {
  session = record c.session { conn = close_conn c.session.conn };
  stage = hung_up;
}

pub data Step (x : Externals) (h : Host) : Host → Type 0 where
  no_defaults :
      (os : Option Bytes)
      → h.loop ≡ idle
      → set_defaults h.config os ≡ none
      → Step x h (record h { loop = ended })
  no_listener :
      (os : Option Bytes) (cfg : Server)
      → h.loop ≡ idle
      → set_defaults h.config os ≡ some cfg
      → Step x h (record h { config = cfg; status = start_error; loop = ended })
  listen :
      (os : Option Bytes) (cfg : Server)
      → h.loop ≡ idle
      → set_defaults h.config os ≡ some cfg
      → Step x h (record h { config = cfg; status = up; listener = bound; loop = accepting })
  accepted : (a : Arrival) → h.loop ≡ accepting → h.listener ≡ bound → Step x h (accept_one h a)
  refused : h.loop ≡ accepting → Step x h (stop_accepting h)
  drained : h.loop ≡ draining → h.wait_group ≡ 0 → Step x h (finish h)
  shutdown : Step x h (shut_down h)
  turns :
      (i : Input) (c : Client) (cs ds : List Client)
      → h.clients ≡ cs ++ (c ∷ ds)
      → c.stage ≡ serving
      → Step x h (with_clients h (cs ++ (take_turn h x i c ∷ ds)))
  returns :
      (c : Client) (cs ds : List Client)
      → h.clients ≡ cs ++ (c ∷ ds)
      → c.stage ≡ serving
      → is_live c.session ≡ false
      → c.session.phase ≢ crashed
      → Step x h (with_clients h (cs ++ (hang_up c ∷ ds)))
  uncounts :
      (c : Client) (cs ds : List Client)
      → h.clients ≡ cs ++ (c ∷ ds)
      → c.stage ≡ hung_up
      → Step x h (record h {
        count_connections = h.count_connections - 1;
        clients = cs ++ (record c { stage = uncounted } ∷ ds);
      })
  leaves :
      (c : Client) (cs ds : List Client)
      → h.clients ≡ cs ++ (c ∷ ds)
      → c.stage ≡ uncounted
      → Step x h (record h { wait_group = h.wait_group - 1; clients = cs ++ ds })

pub data Reach (x : Externals) (cfg : Server) : Host → Type 0 where
  begin : Reach x cfg (new_host cfg)
  later : {h k : Host} → Reach x cfg h → Step x h k → Reach x cfg k

-- What a call of `Shutdown` may return in a state: nil, or the error of its context.
pub data Verdict : Type 0 where
  no_error context_done : Verdict

pub data ShutdownReturns (h : Host) : Verdict → Type 0 where
  without_listener : h.listener ≡ absent → ShutdownReturns h no_error
  listener_gone : h.listener ≢ absent → h.closed_listener ≡ true → ShutdownReturns h no_error
  cancelled : h.listener ≢ absent → ShutdownReturns h context_done
