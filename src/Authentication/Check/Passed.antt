-- ===== src/Authentication/Check/Passed.antt =====
-- What a DMARC "pass" that is reported for a message rests on (middleware/authentication.go).
use smtpx.Base.{
  Bool, true, false, List, [], Option, none, some, Bytes, codes, length, ◌==◌, ◌≡◌, ◌≢◌, refl, ap,
  sym, ◌∙◌, arith, ◌⊎◌, inl, inr, Bool-cases,
}
use smtpx.Authentication.{
  result_pass, is_pass, SpfResult, dkim_check, checked_message, dkim_results, dmarc_result,
}
use smtpx.Authentication.Alignment.{SpfAligned, Aligns, dmarc_pass_sound}
use smtpx.Authentication.Check.{
  reports, Checks, with_record, with_from, with_headers, with_mail, dmarc_check, results, report,
  add_authentication_result,
}
use smtpx.Dkim.Message.{verify_with_options}
use smtpx.Dkim.Query.{Checked}
use smtpx.Dkim.Verify.{Verification}
use smtpx.Dmarc.{Record, Parsed, ok, err, lookup_with, no_policy}
use smtpx.Envelope.Data.{bytes}
use smtpx.Envelope.Headers.{Header, Failed, fine, failed, get_header, headers}
use smtpx.Envelope.Mail.{Mail, open_mail}
use smtpx.Envelope.Message.{Address, Envelope, header_line, prepend_header}
use smtpx.Handler.{HandlerFunc}
use smtpx.Middleware.Headers.Kept.{AddsInFront, prepend_header-AddsInFront}
use smtpx.Utils.Email.{domain_of_email}
use mathlib.Core.List.{Mem, not-mem-nil}

-- One verification of the message succeeded for a domain that is aligned.
abbrev pub DkimPassed : Checks → Envelope → Record → Bytes → Type 0
DkimPassed x e r from_domain =
    (vs : List (Verification × Checked (Unit {0}))) × (verify_with_options x.crypto 0 (bytes e.body)
      ≡ some (vs, false))
    × ((v : Verification × Checked (Unit {0})) × Mem v vs × Aligns x.org r from_domain v)

-- SPF passed, for an address whose domain is aligned.
abbrev pub SpfPassed : Checks → SpfResult → Record → Bytes → Type 0
SpfPassed x spf r from_domain =
    (is_pass spf.value ≡ true)
    × ((a : Address) × (x.parse_address spf.from ≡ some a)
        × SpfAligned x.org r.spf_alignment (domain_of_email (some a)) from_domain)

-- The message has a From field with an address whose domain has a record with a policy, and SPF or a
-- signature passed for an aligned domain.
abbrev pub PassReasons : Checks → Envelope → SpfResult → Type 0
PassReasons x e spf =
    (m : Mail) × (h : Header) × (from : Address) × (r : Record) × (open_mail e ≡ some m)
    × (headers x.mime m [] ≡ (h, fine))
    × (x.parse_address (get_header h (codes "From")) ≡ some from)
    × (lookup_with x.atoi x.lookup_txt (domain_of_email (some from)) ≡ ok r)
    × (r.policy ≢ no_policy)
    × (SpfPassed x spf r (domain_of_email (some from))
        ⊎ DkimPassed x e r (domain_of_email (some from)))

-- The results of DKIM are those of the verifications, and there are none if `Verify` fails.
checked_message-results :
    (c : Option (List (Verification × Checked (Unit {0})) × Bool))
    → (vs : List (Verification × Checked (Unit {0}))) × (checked_message c ≡ dkim_results vs)
      × ((v : Verification × Checked (Unit {0})) → Mem v vs → c ≡ some (vs, false))
unfolding checked_message dkim_results
checked_message-results none = ([], refl, (λ v m. absurd (not-mem-nil m)))
checked_message-results (some (vs, true)) = ([], refl, (λ v m. absurd (not-mem-nil m)))
checked_message-results (some (vs, false)) = (vs, refl, (λ v m. refl))

module _ (x : Checks) (e : Envelope) (spf : SpfResult) (domain : Bytes) where
  -- `dmarcCheck` with the record, the address of SPF and the verifications.
  with_record-pass :
      (from_domain : Bytes) (p : Parsed Record) (spf_from : Option Address)
      → x.parse_address spf.from ≡ spf_from
      → (with_record x domain spf (dkim_check x.crypto e) from_domain p spf_from).value
        ≡ result_pass
      → (r : Record) × (p ≡ ok r)
        × (r.policy ≢ no_policy)
        × (SpfPassed x spf r from_domain ⊎ DkimPassed x e r from_domain)
  unfolding with_record dkim_check
  with_record-pass from_domain (err f) a parsed h = absurd (ground arith)
  with_record-pass from_domain (ok r) none parsed h = absurd (ground arith)
  with_record-pass from_domain (ok r) (some a) parsed h =
      let (vs, same, found) =
        checked_message-results (verify_with_options x.crypto 0 (bytes e.body)) in
      let passed =
        ap (λ ds. (dmarc_result x.org spf ds r (domain_of_email (some a)) from_domain).value)
          (sym same)
        ∙ h in
      let (policy, which) =
        dmarc_pass_sound x.org spf vs r (domain_of_email (some a)) from_domain passed in
      (
        r,
        refl,
        policy,
        elim which [
          | inl (value, aligned) ↦ inl (value, (a, parsed, aligned))
          | inr (v, at, aligned) ↦ inr (vs, found v at, (v, at, aligned))
        ],
      )

  with_from-pass :
      (header : Bytes) (from : Option Address)
      → (with_from x domain spf (dkim_check x.crypto e) header from).value ≡ result_pass
      → (a : Address) × (r : Record) × (from ≡ some a)
        × (lookup_with x.atoi x.lookup_txt (domain_of_email (some a)) ≡ ok r)
        × (r.policy ≢ no_policy)
        × (SpfPassed x spf r (domain_of_email (some a))
            ⊎ DkimPassed x e r (domain_of_email (some a)))
  unfolding with_from
  with_from-pass header none h = absurd (ground arith)
  with_from-pass header (some a) h = elim (Bool-cases (length header == 0)) [
    | inl empty ↦ absurd (ground arith)
    | inr full ↦
        let (r, found, policy, which) =
          with_record-pass (domain_of_email (some a))
            (lookup_with x.atoi x.lookup_txt (domain_of_email (some a))) (x.parse_address spf.from)
            refl (ground arith) in
        (a, r, refl, found, policy, which)
  ]

  with_headers-pass :
      (m : Mail) (p : Header × Failed)
      → open_mail e ≡ some m
      → headers x.mime m [] ≡ p
      → (with_headers x domain spf (dkim_check x.crypto e) p).value ≡ result_pass
      → PassReasons x e spf
  unfolding with_headers
  with_headers-pass m (h, failed) opened read pass = absurd (ground arith)
  with_headers-pass m (h, fine) opened read pass =
      let (a, r, parsed, found, policy, which) =
        with_from-pass (get_header h (codes "From")) (x.parse_address (get_header h (codes "From")))
          pass in
      (m, h, a, r, opened, read, parsed, found, policy, which)

  with_mail-pass :
      (m : Option Mail)
      → open_mail e ≡ m
      → (with_mail x domain spf (dkim_check x.crypto e) m).value ≡ result_pass
      → PassReasons x e spf
  unfolding with_mail
  with_mail-pass none opened pass = absurd (ground arith)
  with_mail-pass (some m) opened pass = with_headers-pass m (headers x.mime m []) opened refl pass

-- A DMARC "pass" is reported only for a message whose From field holds an address, of a domain whose
-- record parses and has a policy other than "none", if SPF passed for an address whose domain is
-- accepted for that domain, or a signature field of the message verified for a domain that is. A
-- domain is accepted if it is equal, where the record asks for strict alignment, and otherwise if it
-- has the same organizational domain, or, for SPF alone, if its text ends in that of the other, also
-- where it is no subdomain.
pub dmarc_check-pass :
    (x : Checks) (e : Envelope) (spf : SpfResult)
    → (dmarc_check x e spf (dkim_check x.crypto e)).value ≡ result_pass
    → PassReasons x e spf
unfolding dmarc_check
dmarc_check-pass x e spf pass =
    with_mail-pass x e spf (domain_of_email e.mail_from) (open_mail e) refl pass

-- For an envelope with a sender `AddAuthenticationResult` calls the next handler once, on an envelope whose data
-- has the line of the results in front and which is the same otherwise.
pub authentication_in_front :
    (x : Checks) (hostname : Bytes) (next : HandlerFunc) (e : Envelope) (sender : Address)
    → e.mail_from ≡ some sender
    → (e' : Envelope) × (add_authentication_result x hostname next e ≡ next e')
      × AddsInFront
          (header_line (codes "Authentication-Results") (reports hostname (results x e sender)))
          e
          e'
unfolding add_authentication_result report
authentication_in_front x hostname next e sender sent = (
  prepend_header e (codes "Authentication-Results") (reports hostname (results x e sender)),
  ap (λ m. report x hostname m next e) sent,
  prepend_header-AddsInFront e _ _,
)
