-- ===== src/Server/Config.antt =====
-- server.go and consts.go: the configuration of a server and its defaults. A pointer that the code
-- only compares with nil is a Boolean: `tls_config` says that there is a TLS configuration.
pub mod Defaults
use smtpx.Base.{ℕ, Bool, List, ◌++◌, Option, none, some, Bytes, codes, length, ◌==◌, if◌then◌else◌}
use smtpx.Handler.{HandlerFunc, Middleware}

abbrev pub default_interface : Bytes
default_interface = codes ":2525"

abbrev pub default_max_clients : ℕ
default_max_clients = 100

abbrev pub default_timeout : ℕ
default_timeout = 30

abbrev pub default_max_size : ℕ
default_max_size = 10_485_760

abbrev pub default_max_recipients : ℕ
default_max_recipients = 100

abbrev pub default_max_unrecognized_commands : ℕ
default_max_unrecognized_commands = 5

pub record Server : Type 0 where
  pub middlewares : List (Option Middleware)
  pub handler : Option HandlerFunc
  pub tls_config : Bool
  pub tls_always_on : Bool
  pub hostname : Bytes
  pub addr : Bytes
  pub max_size : ℕ
  pub timeout : ℕ
  pub max_clients : ℕ
  pub xclient_on : Bool
  pub proxy_on : Bool
  pub max_recipients : ℕ
  pub max_unrecognized_commands : ℕ

-- `Use` appends to the middlewares.
unfoldable pub add_middlewares : Server → List (Option Middleware) → Server
add_middlewares s ms = record s { middlewares = s.middlewares ++ ms }

abbrev default_number : ℕ → ℕ → ℕ
default_number n d = if n == 0 then d else n

abbrev default_text : Bytes → Bytes → Bytes
default_text s d = if length s == 0 then d else s

-- `setDefaults`; the second argument is what `os.Hostname()` returns, `none` for an error.
fill : Server → Bytes → Server
fill s name = record s {
  addr = default_text s.addr default_interface;
  hostname = name;
  max_clients = default_number s.max_clients default_max_clients;
  timeout = default_number s.timeout default_timeout;
  max_size = default_number s.max_size default_max_size;
  max_recipients = default_number s.max_recipients default_max_recipients;
  max_unrecognized_commands =
      default_number s.max_unrecognized_commands default_max_unrecognized_commands;
}

fill_named : Server → Option Bytes → Option Server
fill_named s none = none
fill_named s (some name) = some (fill s name)

unfoldable pub set_defaults : Server → Option Bytes → Option Server
unfolding fill fill_named
set_defaults s os_hostname =
    if length s.hostname == 0 then fill_named s os_hostname else some (fill s s.hostname)
