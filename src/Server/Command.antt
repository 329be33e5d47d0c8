-- ===== src/Server/Command.antt =====
-- server.go: the commands and the switch that recognises them.
use smtpx.Base.{
  Bool, ◌&&◌, List, [], ◌∷◌, Option, none, some, Bytes, codes, length, drop, to_upper, has_prefix,
  trim_space, if◌then◌else◌,
}
use smtpx.Server.Config.{Server}

pub data Command : Type 0 where
  helo ehlo help xclient proxy mail rcpt rset vrfy noop quit dat starttls : Command

-- The constants `cmdHELO`, `cmdEHLO` and so on.
unfoldable pub verb : Command → Bytes
verb helo = codes "HELO"
verb ehlo = codes "EHLO"
verb help = codes "HELP"
verb xclient = codes "XCLIENT"
verb mail = codes "MAIL FROM:"
verb rcpt = codes "RCPT TO:"
verb rset = codes "RSET"
verb vrfy = codes "VRFY"
verb noop = codes "NOOP"
verb quit = codes "QUIT"
verb dat = codes "DATA"
verb starttls = codes "STARTTLS"
verb proxy = codes "PROXY "

-- `commands`, in the order of the slice.
abbrev pub commands : List Command
commands =
    helo ∷ ehlo ∷ xclient ∷ mail ∷ rcpt ∷ rset ∷ vrfy ∷ noop ∷ quit ∷ dat ∷ starttls ∷ proxy ∷ help
    ∷ []

-- `command.match`
unfoldable pub match : Command → Bytes → Bool
unfolding to_upper has_prefix verb
match c cmd = has_prefix (to_upper cmd) (verb c)

-- `command.content`
unfoldable pub content : Command → Bytes → Bytes
unfolding trim_space verb
content c in_line = trim_space (drop (length (verb c)) in_line)

-- Which case of `switch { case cmdHELO.match(cmd): … }` is taken; `none` is `default`.
unfoldable pub recognise : Server → Bytes → Option Command
unfolding match
recognise s cmd =
    if match helo cmd
    then some helo
    else if match ehlo cmd
    then some ehlo
    else if match help cmd
    then some help
    else if match xclient cmd && s.xclient_on
    then some xclient
    else if match proxy cmd && s.proxy_on
    then some proxy
    else if match mail cmd
    then some mail
    else if match rcpt cmd
    then some rcpt
    else if match rset cmd
    then some rset
    else if match vrfy cmd
    then some vrfy
    else if match noop cmd
    then some noop
    else if match quit cmd
    then some quit
    else if match dat cmd
    then some dat
    else if match starttls cmd
    then some starttls
    else none
