-- ===== src/Authentication/Check.antt =====
-- middleware/authentication.go: the checks of SPF and DMARC, and the middleware that reports them
-- in the field Authentication-Results.
pub mod Passed
use smtpx.Base.{
  ◌||◌, List, [], ◌∷◌, ◌++◌, Option, none, some, Bytes, codes, length, ◌==◌, cut, if◌then◌else◌,
}
use smtpx.Base.Int.{ℤ}
use smtpx.Authres.Format.{format}
use smtpx.Authres.Results.{Result}
use smtpx.Authentication.{
  ResultValue, result_none, result_neutral, result_pass, result_fail, result_soft_fail,
  result_temp_error, result_perm_error, result_policy, result_hard_fail, SpfResult, DmarcResult,
  DkimResult, dkim_check, dmarc_result,
}
use smtpx.Dkim.Query.{Crypto}
use smtpx.Dmarc.{Parsed, ok, err, Record, TxtAnswer, lookup_with}
use smtpx.Envelope.Headers.{Header, Mime, Failed, fine, failed, get_header, headers}
use smtpx.Envelope.Mail.{Mail, open_mail}
use smtpx.Envelope.Message.{Address, Envelope, prepend_header}
use smtpx.Handler.{HandlerFunc, Wrapper, Outcome, panic}
use smtpx.Utils.Email.{domain_of_email}

-- `spf.Result`
pub data SpfOutcome : Type 0 where
  spf_none spf_neutral spf_pass spf_fail spf_soft_fail spf_temp_error spf_perm_error : SpfOutcome
  spf_other : SpfOutcome

-- `authres.Result`, of the three types that the middleware reports.
pub data Reported : Type 0 where
  of_spf : SpfResult → Reported
  of_dmarc : DmarcResult → Reported
  of_dkim : DkimResult → Reported

-- The libraries and the resolver: `parse_ip` is `net.ParseIP`, `check_host` is
-- `spf.CheckHostWithSender` with the text of its error, `parse_address` is `mail.ParseAddress` and `org` is
-- `publicsuffix.EffectiveTLDPlusOne`.
pub record Checks : Type 0 where
  pub crypto : Crypto
  pub mime : Mime
  pub parse_ip : Bytes → Option Bytes
  pub check_host : Option Bytes → Bytes → Bytes → SpfOutcome × Option Bytes
  pub parse_address : Bytes → Option Address
  pub org : Bytes → Option Bytes
  pub atoi : Bytes → Option ℤ
  pub lookup_txt : Bytes → TxtAnswer

-- The switch of `spfCheck`
abbrev pub spf_value : SpfOutcome → ResultValue
spf_value spf_none = result_none
spf_value spf_neutral = result_neutral
spf_value spf_pass = result_pass
spf_value spf_fail = result_fail
spf_value spf_soft_fail = result_soft_fail
spf_value spf_temp_error = result_temp_error
spf_value spf_perm_error = result_perm_error
spf_value spf_other = result_none

text_or : Option Bytes → Bytes
text_or none = []
text_or (some s) = s

before_or : Bytes → Option (Bytes × Bytes) → Bytes
before_or s none = s
before_or s (some (before, after)) = before

-- `spfCheck`, once the sender is known.
unfoldable pub spf_check : Checks → Envelope → Address → SpfResult
unfolding text_or before_or cut
spf_check x e sender =
    let ip = before_or e.remote_addr (cut e.remote_addr b':') in
    let (result, error) = x.check_host (x.parse_ip ip) e.helo sender.address in
    record {
      value = spf_value result;
      reason = text_or error;
      from = sender.address;
      helo = e.helo;
    }

-- `createErrorResult`
abbrev pub error_result : Bytes → Bytes → DmarcResult
error_result domain reason = record { value = result_none; reason = reason; from = domain }

-- `dmarcCheck`, once the record is known.
unfoldable pub with_record :
    Checks
    → Bytes
    → SpfResult
    → List DkimResult
    → Bytes
    → Parsed Record
    → Option Address
    → DmarcResult
unfolding dmarc_result domain_of_email
with_record x domain spf dkims from_domain (err e) spf_from =
    error_result domain (codes "DMARC lookup failed")
with_record x domain spf dkims from_domain (ok r) none =
    error_result domain (codes "Unable to parse spf from")
with_record x domain spf dkims from_domain (ok r) (some spf_from) =
    record (dmarc_result x.org spf dkims r (domain_of_email (some spf_from)) from_domain) {
      from = domain;
    }

-- `dmarcCheck`, once the From field has been parsed.
unfoldable pub with_from :
    Checks → Bytes → SpfResult → List DkimResult → Bytes → Option Address → DmarcResult
unfolding with_record lookup_with domain_of_email
with_from x domain spf dkims header none = error_result domain (codes "uo From header")
with_from x domain spf dkims header (some from) =
    if length header == 0
    then error_result domain (codes "uo From header")
    else with_record x domain spf dkims (domain_of_email (some from))
        (lookup_with x.atoi x.lookup_txt (domain_of_email (some from))) (x.parse_address spf.from)

unfoldable pub with_headers :
    Checks → Bytes → SpfResult → List DkimResult → Header × Failed → DmarcResult
unfolding with_from get_header
with_headers x domain spf dkims (h, failed) = error_result domain (codes "unable to get headers")
with_headers x domain spf dkims (h, fine) =
    with_from x domain spf dkims (get_header h (codes "From"))
      (x.parse_address (get_header h (codes "From")))

unfoldable pub with_mail : Checks → Bytes → SpfResult → List DkimResult → Option Mail → DmarcResult
unfolding with_headers headers
with_mail x domain spf dkims none = error_result domain (codes "unable to get mail")
with_mail x domain spf dkims (some m) = with_headers x domain spf dkims (headers x.mime m [])

-- `dmarcCheck`
unfoldable pub dmarc_check : Checks → Envelope → SpfResult → List DkimResult → DmarcResult
unfolding with_mail open_mail domain_of_email
dmarc_check x e spf dkims = with_mail x (domain_of_email e.mail_from) spf dkims (open_mail e)

abbrev pub of_dkims : List DkimResult → List Reported
of_dkims [] = []
of_dkims (d ∷ ds) = of_dkim d ∷ of_dkims ds

-- The results that are reported for an envelope with a sender, in their order.
unfoldable pub results : Checks → Envelope → Address → List Reported
unfolding spf_check dmarc_check dkim_check
results x e sender =
    let spf = spf_check x e sender in
    let dkims = dkim_check x.crypto e in
    of_spf spf ∷ of_dmarc (dmarc_check x e spf dkims) ∷ of_dkims dkims

unfoldable pub value_text : ResultValue → Bytes
value_text result_none = codes "none"
value_text result_pass = codes "pass"
value_text result_fail = codes "fail"
value_text result_policy = codes "policy"
value_text result_neutral = codes "neutral"
value_text result_temp_error = codes "temperror"
value_text result_perm_error = codes "permerror"
value_text result_hard_fail = codes "hardfail"
value_text result_soft_fail = codes "softfail"

-- The results as `authres.Format` takes them.
unfoldable pub result_of : Reported → Result
unfolding value_text
result_of (of_spf r) = Result.spf (value_text r.value) r.reason r.from r.helo
result_of (of_dmarc r) = Result.dmarc (value_text r.value) r.reason r.from
result_of (of_dkim r) =
    Result.dkim (value_text r.value) r.reason r.domain r.identifier r.selector r.signature

unfoldable pub results_of : List Reported → List Result
unfolding result_of
results_of [] = []
results_of (r ∷ rs) = result_of r ∷ results_of rs

-- The value of the field.
unfoldable pub reports : Bytes → List Reported → Bytes
unfolding results_of format
reports hostname rs = format hostname (results_of rs)

unfoldable pub report :
    Checks → Bytes → Option Address → HandlerFunc → Envelope → Envelope × Outcome
unfolding results reports prepend_header
report x hostname none next e =
    (e, panic (codes "invalid memory address or nil pointer dereference"))
report x hostname (some sender) next e =
    next (prepend_header e (codes "Authentication-Results") (reports hostname (results x e sender)))

-- `AddAuthenticationResult`; the log is left out.
unfoldable pub add_authentication_result : Checks → Bytes → Wrapper
unfolding report
add_authentication_result x hostname next e = report x hostname e.mail_from next e
