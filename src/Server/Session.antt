-- ===== src/Server/Session.antt =====
-- server.go, `handleConn`: the local state of the handler of one connection, what a turn of its loop
-- gets from outside, and its replies.
use smtpx.Base.{
  ℕ, Bool, List, [], ◌∷◌, ◌++◌, Option, none, some, Bytes, codes, crlf, cut, join, decimal,
}
use smtpx.Envelope.Message.{Address}
use smtpx.Connection.{Connection, send_response}
use smtpx.Responses.Enhanced.{CannedResponse}
use smtpx.Response.{canned}
use smtpx.Server.Config.{Server}
use smtpx.Server.Command.{Command, commands, verb}

-- What `readCommand` returns. `limit` is an error that is `LimitError`, `failed` is any other.
pub data Line : Type 0 where
  line : Bytes → Line
  eof timeout limit failed : Line

-- How `Data.ReadFrom(conn.in.DotReader())` ends.
pub data DotEnd : Type 0 where
  done limit : DotEnd
  failed : Bytes → DotEnd

-- What one turn of the loop gets from the network, the clock and the other goroutines. A turn reads
-- once, writes once, and looks at the shutdown flag once.
pub record Input : Type 0 where
  pub read_line : Line
  pub dot_bytes : Bytes
  pub dot_end : DotEnd
  pub fetched : ℕ
  pub write_err : Option Bytes
  pub handshake_err : Option Bytes
  pub shutting_down : Bool
  pub xid : Bytes

-- Code outside the repository: `mail.ParseAddress`, and the text of a `net.TCPAddr` whose IP is
-- `net.ParseIP` of the argument.
pub record Externals : Type 0 where
  pub parse_address : Bytes → Option Address
  pub tcp_addr : Bytes → Bytes

-- `returned` is a `return` from the loop, `crashed` a panic that nothing recovers.
pub data Phase : Type 0 where
  running returned crashed : Phase

pub record Session : Type 0 where
  pub conn : Connection
  pub greeting : Bytes
  pub ext_tls : Bytes
  pub phase : Phase

pub Phase-discrete : Discrete Phase
Phase-discrete = hlevel

unfoldable pub greeting_text : Server → ℕ → Bytes → Bytes
unfolding decimal
greeting_text s id now =
    codes "220 "
    ++ (s.hostname ++ (codes " SMTP Brevx(0.0.1) #" ++ (decimal id ++ (codes "  " ++ now))))

unfoldable pub helo_text : Server → Bytes
helo_text s = codes "250 " ++ (s.hostname ++ codes " Hello")

-- The lines of the reply to EHLO.
unfoldable pub ehlo_parts : Server → Bytes → List Bytes
unfolding decimal
ehlo_parts s ext_tls =
    (codes "250-" ++ (s.hostname ++ (codes " Hello" ++ crlf)))
    ∷ (codes "250-SIZE " ++ (decimal s.max_size ++ crlf))
    ∷ (codes "250-PIPELINING" ++ crlf)
    ∷ ext_tls
    ∷ (codes "250-ENHANCEDSTATUSCODES" ++ crlf)
    ∷ (codes "250-SMTPUTF8" ++ crlf)
    ∷ codes "250 HELP"
    ∷ []

first_word : Bytes → Bytes
unfolding cut
first_word s = elim (cut s b' ') [ none ↦ s | some (a, b) ↦ a ]

command_words : List Command → List Bytes
unfolding first_word verb
command_words [] = []
command_words (c ∷ cs) = first_word (verb c) ∷ command_words cs

unfoldable pub help_parts : List Bytes
unfolding command_words join
help_parts =
    (codes "214-Supported commands:" ++ crlf)
    ∷ (codes "214-" ++ (join (command_words commands) (codes " ") ++ crlf))
    ∷ codes "214 End of HELP info"
    ∷ []

-- `conn.sendResponse(r)` for a canned response.
unfoldable pub reply_with : Connection → Input → CannedResponse → Connection
unfolding send_response canned
reply_with c i r = send_response c i.write_err ((canned r).string ∷ [])
