-- ===== src/Server/Commands.antt =====
-- server.go, `handleConn`: one function for each case of the switch over commands.
use smtpx.Base.{
  ◌+◌, true, List, [], ◌∷◌, ◌++◌, Option, none, some, Bytes, codes, equal, cut, fields, trim_space,
  length, ltb, leb, ◌==◌, if◌then◌else◌,
}
use smtpx.Connection.{
  Connection, conn_data, conn_start_tls, charset_utf8, send_response, reset_transaction,
  is_in_transaction, kill,
}
use smtpx.Envelope.Message.{Address, Envelope}
use smtpx.Responses.Canned.{
  fail_nested_mail_cmd, rejected_sender_mail_cmd, success_mail_cmd, success_rcpt_cmd,
  success_reset_cmd, success_noop_cmd, success_verify_cmd, error_too_many_recipients,
  success_quit_cmd, fail_no_recipients_data_cmd, success_data_cmd, success_start_tls_cmd,
  fail_unrecognized_cmd, fail_max_unrecognized_cmd, fail_syntax_error, fail_command_not_implemented,
}
use smtpx.Server.Config.{Server}
use smtpx.Server.Command.{
  Command, helo, ehlo, help, xclient, proxy, mail, rcpt, rset, vrfy, noop, quit, dat, starttls,
  content,
}
use smtpx.Server.Session.{
  Input, Externals, Session, returned, helo_text, ehlo_parts, help_parts, reply_with,
}

abbrev with_envelope : Connection → Envelope → Connection
with_envelope c e = record c { envelope = e }

abbrev count_error : Connection → Connection
count_error c = record c { errors = c.errors + 1 }

-- `case cmdHELO.match(cmd)`
unfoldable pub on_helo : Server → Input → Bytes → Connection → Connection
unfolding reset_transaction send_response helo_text content trim_space
on_helo s i cmd c =
    let c1 = reset_transaction c i.xid in
    let name = trim_space (content helo cmd) in
    send_response (with_envelope c1 (record c1.envelope { helo = name })) i.write_err
      (helo_text s ∷ [])

-- `case cmdEHLO.match(cmd)`
unfoldable pub on_ehlo : Server → Input → Bytes → Bytes → Connection → Connection
unfolding reset_transaction send_response ehlo_parts content
on_ehlo s i ext_tls cmd c =
    let c1 = reset_transaction c i.xid in
    let name = content helo cmd in
    send_response (with_envelope c1 (record c1.envelope { helo = name; esmtp = true })) i.write_err
      (ehlo_parts s ext_tls)

-- `case cmdHELP.match(cmd)`
unfoldable pub on_help : Input → Connection → Connection
unfolding send_response help_parts
on_help i c = send_response c i.write_err help_parts

-- One token of XCLIENT, `key=val`.
unfoldable pub set_attribute : Externals → Bytes → Bytes → Envelope → Envelope
unfolding equal
set_attribute x key val e =
    if equal val (codes "[UNAVAILABLE]")
    then e
    else (let e1 =
          if equal key (codes "ADDR") then record e { remote_addr = x.tcp_addr val } else e in
        if equal key (codes "HELO") then record e1 { helo = val } else e1)

apply_pair : Externals → Option (Bytes × Bytes) → Envelope → Envelope
unfolding set_attribute
apply_pair x none e = e
apply_pair x (some (key, val)) e = set_attribute x key val e

unfoldable pub apply_token : Externals → Bytes → Envelope → Envelope
unfolding apply_pair cut
apply_token x tok e = apply_pair x (cut tok b'=') e

unfoldable pub set_attributes : Externals → List Bytes → Envelope → Envelope
unfolding apply_token
set_attributes x [] e = e
set_attributes x (tok ∷ toks) e = set_attributes x toks (apply_token x tok e)

-- `case cmdXCLIENT.match(cmd) && s.XClientOn`
unfoldable pub on_xclient : Externals → Input → Bytes → Connection → Connection
unfolding set_attributes fields content reply_with
on_xclient x i cmd c =
    let toks = fields (content xclient cmd) in
    reply_with (with_envelope c (set_attributes x toks c.envelope)) i success_mail_cmd

-- The address among the tokens of PROXY, if there are five or six.
proxy_addr : List Bytes → Option Bytes
proxy_addr (a ∷ ip ∷ b ∷ c ∷ d ∷ []) = some ip
proxy_addr (a ∷ h ∷ ip ∷ b ∷ c ∷ d ∷ []) = some ip
proxy_addr _ = none

proxy_reply : Externals → Input → Bytes → Connection → Option Bytes → Connection
unfolding reply_with send_response
proxy_reply x i greeting c none = reply_with c i fail_syntax_error
proxy_reply x i greeting c (some ip) =
    send_response (with_envelope c (record c.envelope { remote_addr = x.tcp_addr ip })) i.write_err
      (greeting ∷ [])

-- `case cmdPROXY.match(cmd) && s.ProxyOn`
unfoldable pub on_proxy : Externals → Input → Bytes → Bytes → Connection → Connection
unfolding proxy_addr proxy_reply fields content trim_space
on_proxy x i greeting cmd c =
    proxy_reply x i greeting c (proxy_addr (fields (trim_space (content proxy cmd))))

-- `strings.Cut(content, " ")` of MAIL: the address and what follows it.
unfoldable pub mail_parts : Bytes → Bytes × Bytes
unfolding cut
mail_parts text = elim (cut text b' ') [ none ↦ (text, []) | some (a, b) ↦ (a, b) ]

mail_reply : Input → Connection → Option Address → Connection
unfolding reply_with
mail_reply i c none = count_error (
    reply_with (with_envelope c (record c.envelope { mail_from = none })) i
      rejected_sender_mail_cmd)
mail_reply i c (some a) =
    reply_with (with_envelope c (record c.envelope { mail_from = some a })) i success_mail_cmd

mail_charset : Bytes → Connection → Connection
unfolding equal
mail_charset charset c =
    if equal charset charset_utf8
    then record c { charset = charset_utf8; envelope = record c.envelope { utf8 = true } }
    else c

-- `case cmdMAIL.match(cmd)`
unfoldable pub on_mail : Externals → Input → Bytes → Connection → Connection
unfolding is_in_transaction reply_with content mail_parts mail_charset mail_reply
on_mail x i cmd c =
    let (addr, charset) = mail_parts (content mail cmd) in
    if is_in_transaction c
    then count_error (reply_with c i fail_nested_mail_cmd)
    else mail_reply i (mail_charset charset c) (x.parse_address addr)

rcpt_reply : Input → Connection → Option Address → Connection
unfolding reply_with
rcpt_reply i c none = count_error (reply_with c i fail_syntax_error)
rcpt_reply i c (some a) =
    reply_with (with_envelope c (record c.envelope { rcpt_to = c.envelope.rcpt_to ++ (a ∷ []) })) i
      success_rcpt_cmd

-- `case cmdRCPT.match(cmd)`
unfoldable pub on_rcpt : Server → Externals → Input → Bytes → Connection → Connection
unfolding reply_with content rcpt_reply
on_rcpt s x i cmd c =
    if ltb s.max_recipients (length c.envelope.rcpt_to)
    then count_error (reply_with c i error_too_many_recipients)
    else rcpt_reply i c (x.parse_address (content rcpt cmd))

-- `case cmdRSET.match(cmd)`
unfoldable pub on_rset : Input → Connection → Connection
unfolding reset_transaction reply_with
on_rset i c = reply_with (reset_transaction c i.xid) i success_reset_cmd

-- `case cmdDATA.match(cmd)`
unfoldable pub on_data : Input → Connection → Connection
unfolding reply_with
on_data i c =
    if length c.envelope.rcpt_to == 0
    then reply_with c i fail_no_recipients_data_cmd
    else record (reply_with c i success_data_cmd) { state = conn_data }

-- `case cmdSTARTTLS.match(cmd)`
unfoldable pub on_starttls : Server → Input → Connection → Connection
unfolding reply_with
on_starttls s i c =
    if s.tls_config
    then record (reply_with c i success_start_tls_cmd) { state = conn_start_tls }
    else reply_with c i fail_command_not_implemented

-- `default`
unfoldable pub on_unrecognized : Server → Input → Connection → Connection
unfolding reply_with kill
on_unrecognized s i c =
    let c1 = count_error c in
    if leb s.max_unrecognized_commands c1.errors
    then kill (reply_with c1 i fail_max_unrecognized_cmd)
    else reply_with c1 i fail_unrecognized_cmd

-- The cases of the switch over commands. QUIT returns from the handler.
unfoldable pub on_command : Server → Externals → Input → Bytes → Option Command → Session → Session
unfolding on_helo on_ehlo on_help on_xclient on_proxy on_mail on_rcpt on_rset on_data on_starttls
    on_unrecognized kill
on_command s x i cmd none r = record r { conn = on_unrecognized s i r.conn }
on_command s x i cmd (some helo) r = record r { conn = on_helo s i cmd r.conn }
on_command s x i cmd (some ehlo) r = record r { conn = on_ehlo s i r.ext_tls cmd r.conn }
on_command s x i cmd (some help) r = record r { conn = on_help i r.conn }
on_command s x i cmd (some xclient) r = record r { conn = on_xclient x i cmd r.conn }
on_command s x i cmd (some proxy) r = record r { conn = on_proxy x i r.greeting cmd r.conn }
on_command s x i cmd (some mail) r = record r { conn = on_mail x i cmd r.conn }
on_command s x i cmd (some rcpt) r = record r { conn = on_rcpt s x i cmd r.conn }
on_command s x i cmd (some rset) r = record r { conn = on_rset i r.conn }
on_command s x i cmd (some vrfy) r = record r { conn = reply_with r.conn i success_verify_cmd }
on_command s x i cmd (some noop) r = record r { conn = reply_with r.conn i success_noop_cmd }
on_command s x i cmd (some quit) r = record r {
  conn = kill (reply_with r.conn i success_quit_cmd);
  phase = returned;
}
on_command s x i cmd (some dat) r = record r { conn = on_data i r.conn }
on_command s x i cmd (some starttls) r = record r { conn = on_starttls s i r.conn }
