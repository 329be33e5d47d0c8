-- ===== src/Examples/Data.antt =====
-- The data of the examples: a server, its outside, and a connection of one client.
use smtpx.Base.{false, [], ◌∷◌, none, some, Bytes, codes, length, ◌==◌, if◌then◌else◌}
use smtpx.Connection.{Connection, conn_cmd, conn_data, new_connection}
use smtpx.Envelope.Message.{Address, Envelope, new_envelope}
use smtpx.Handler.{applies, HandlerFunc, reply, panic}
use smtpx.Middleware.Recover.{recover}
use smtpx.Server.Config.{Server}
use smtpx.Server.Session.{Input, Externals, Session, line, done, running}

abbrev pub alice : Address
alice = record { name = codes "Alice"; address = codes "alice@Example.com" }

abbrev pub bob : Address
bob = record { name = []; address = codes "bob@example.org" }

abbrev pub carol : Address
carol = record { name = []; address = codes "carol@example.net" }

-- A handler that takes every message.
abbrev pub accept_all : HandlerFunc
accept_all e = (e, reply none)

-- A handler that always panics.
abbrev pub broken_handler : HandlerFunc
broken_handler e = (e, panic (codes "out of luck"))

abbrev pub small_server : Server
small_server = record {
  middlewares = [];
  handler = some accept_all;
  tls_config = false;
  tls_always_on = false;
  hostname = codes "mx";
  addr = codes ":2525";
  max_size = 1000;
  timeout = 30;
  max_clients = 10;
  xclient_on = false;
  proxy_on = false;
  max_recipients = 2;
  max_unrecognized_commands = 2;
}

-- A server whose handler panics, behind `Recover`.
abbrev pub careful_server : Server
careful_server = record small_server {
  middlewares = some (applies recover) ∷ [];
  handler = some broken_handler;
}

abbrev pub outside : Externals
outside = record {
  parse_address = λ s. if length s == 0 then none else some (record { name = []; address = s });
  tcp_addr = λ s. s;
}

-- A turn that reads this line.
abbrev pub says : Bytes → Input
says l = record {
  read_line = line l;
  dot_bytes = [];
  dot_end = done;
  fetched = length l;
  write_err = none;
  handshake_err = none;
  shutting_down = false;
  xid = codes "x1";
}

-- A turn that reads the data of a message.
abbrev pub sends : Bytes → Input
sends m = record (says []) { dot_bytes = m; fetched = length m }

abbrev pub fresh : Connection
fresh = new_connection (codes "192.0.2.1:25") 1000 7 (codes "x0")

abbrev pub session_of : Connection → Session
session_of c = record { conn = c; greeting = []; ext_tls = []; phase = running }

-- A client that has been greeted.
abbrev pub idle : Session
idle = session_of (record fresh { state = conn_cmd })

-- The envelope of a transaction from Alice to Bob.
abbrev pub addressed : Envelope
addressed = record (new_envelope (codes "192.0.2.1:25") 7 (codes "x0")) {
  mail_from = some alice;
  rcpt_to = bob ∷ [];
}

-- Between RCPT and DATA.
abbrev pub in_transaction : Connection
in_transaction = record fresh { state = conn_cmd; envelope = addressed }

-- Behind DATA.
abbrev pub waiting : Session
waiting = session_of (record fresh { state = conn_data; envelope = addressed })
