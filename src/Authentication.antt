-- ===== src/Authentication.antt =====
-- middleware/authentication.go: the results of DKIM and SPF, their alignment with the domain of the
-- From field, and the result of DMARC. The types are those of middleware/authres/parse.go. The
-- check of SPF and the list of public suffixes are libraries.
pub mod Alignment
pub mod Check
use smtpx.Base.{
  Bool, true, false, not, ◌&&◌, ◌||◌, List, [], ◌∷◌, ◌++◌, Option, none, some, Bytes, codes, equal,
  has_suffix, join, if◌then◌else◌,
}
use smtpx.Dkim.Message.{verify_with_options}
use smtpx.Envelope.Data.{bytes}
use smtpx.Envelope.Message.{Envelope}
use smtpx.Dkim.Query.{Crypto, VerifyError, perm_fail, temp_fail, fail_error, Checked, pass, stop}
use smtpx.Dkim.Verify.{Verification}
use smtpx.Dmarc.{AlignmentMode, strict, relaxed, Policy, no_policy, Record}

-- `ResultValue`
pub data ResultValue : Type 0 where
  result_none result_pass result_fail result_policy result_neutral : ResultValue
  result_temp_error result_perm_error result_hard_fail result_soft_fail : ResultValue

pub record DkimResult : Type 0 where
  pub value : ResultValue
  pub reason : Bytes
  pub domain : Bytes
  pub identifier : Bytes
  pub selector : Bytes
  pub signature : Bytes

pub record SpfResult : Type 0 where
  pub value : ResultValue
  pub reason : Bytes
  pub from : Bytes
  pub helo : Bytes

pub record DmarcResult : Type 0 where
  pub value : ResultValue
  pub reason : Bytes
  pub from : Bytes

abbrev pub is_pass : ResultValue → Bool
is_pass result_pass = true
is_pass _ = false

-- `err.Error()` of an error of `verify`.
error_text : VerifyError → Bytes
error_text (perm_fail s) = codes "dkim: " ++ s
error_text (temp_fail s) = codes "dkim: " ++ s
error_text (fail_error s) = codes "dkim: " ++ s

verdict : Checked (Unit {0}) → ResultValue × Bytes
unfolding error_text
verdict (pass u) = (result_pass, [])
verdict (stop e) = (result_fail, error_text e)

-- One round of the loop of `dkimCheck`.
unfoldable pub dkim_result : Verification × Checked (Unit {0}) → DkimResult
unfolding verdict
dkim_result (v, r) = record {
  value = (verdict r).0;
  reason = (verdict r).1;
  domain = v.domain;
  identifier = v.identifier;
  selector = v.selector;
  signature = v.signature;
}

-- The loop of `dkimCheck` over the verifications.
unfoldable pub dkim_results : List (Verification × Checked (Unit {0})) → List DkimResult
unfolding dkim_result
dkim_results [] = []
dkim_results (v ∷ vs) = dkim_result v ∷ dkim_results vs

unfoldable pub checked_message :
    Option (List (Verification × Checked (Unit {0})) × Bool) → List DkimResult
unfolding dkim_results
checked_message none = []
checked_message (some (vs, true)) = []
checked_message (some (vs, false)) = dkim_results vs

-- `dkimCheck`: no result if `Verify` returns an error.
unfoldable pub dkim_check : Crypto → Envelope → List DkimResult
unfolding checked_message verify_with_options bytes
dkim_check c e = checked_message (verify_with_options c 0 (bytes e.body))

same_text : Option Bytes → Option Bytes → Bool
unfolding equal
same_text none b = false
same_text (some a) none = false
same_text (some a) (some b) = equal a b

-- The comparison of the organizational domains; `org` is `publicsuffix.EffectiveTLDPlusOne`.
unfoldable pub same_org : (Bytes → Option Bytes) → Bytes → Bytes → Bool
unfolding same_text
same_org org a b = same_text (org a) (org b)

spf_matches : (Bytes → Option Bytes) → AlignmentMode → Bytes → Bytes → Bool
unfolding equal has_suffix same_org
spf_matches org strict spf_domain from_domain = equal spf_domain from_domain
spf_matches org relaxed spf_domain from_domain =
    if has_suffix spf_domain from_domain then true else same_org org spf_domain from_domain

-- `checkSPFAlignment`
unfoldable pub check_spf_alignment :
    (Bytes → Option Bytes) → SpfResult → Record → Bytes → Bytes → Bool
unfolding spf_matches
check_spf_alignment org spf r spf_domain from_domain =
    if not (is_pass spf.value)
    then false
    else spf_matches org r.spf_alignment spf_domain from_domain

dkim_matches : (Bytes → Option Bytes) → AlignmentMode → Bytes → Bytes → Bool
unfolding equal same_org
dkim_matches org strict domain from_domain = equal domain from_domain
dkim_matches org relaxed domain from_domain = same_org org domain from_domain

-- `checkDKIMAlignment`
unfoldable pub check_dkim_alignment :
    (Bytes → Option Bytes) → List DkimResult → Record → Bytes → Bool
unfolding dkim_matches
check_dkim_alignment org [] r from_domain = false
check_dkim_alignment org (d ∷ ds) r from_domain =
    if not (is_pass d.value)
    then check_dkim_alignment org ds r from_domain
    else if dkim_matches org r.dkim_alignment d.domain from_domain
    then true
    else check_dkim_alignment org ds r from_domain

abbrev is_none_policy : Policy → Bool
is_none_policy no_policy = true
is_none_policy _ = false

failure_reasons : Bool → SpfResult → List Bytes
failure_reasons dkim_aligned spf =
    codes "DMARC check failed"
    ∷ ((if not (is_pass spf.value)
          then (codes "SPF failed or not aligned: " ++ spf.reason) ∷ []
          else [])
        ++ (if not dkim_aligned then codes "DKIM failed or not aligned" ∷ [] else []))

-- `determineDMARCResult`; the field `From` is set by its caller.
unfoldable pub determine_dmarc_result : Bool → Bool → SpfResult → Record → DmarcResult
unfolding failure_reasons join
determine_dmarc_result spf_aligned dkim_aligned spf r =
    let aligned = spf_aligned || dkim_aligned in
    let value = if aligned then result_pass else result_fail in
    let reasons =
      if aligned then codes "DMARC check passed" ∷ [] else failure_reasons dkim_aligned spf in
    if is_none_policy r.policy
    then record { value = result_none; reason = codes "DMARC policy is none"; from = [] }
    else record { value = value; reason = join reasons (codes ", "); from = [] }

-- The end of `dmarcCheck`, once the record and the domains are known.
unfoldable pub dmarc_result :
    (Bytes → Option Bytes) → SpfResult → List DkimResult → Record → Bytes → Bytes → DmarcResult
unfolding determine_dmarc_result check_spf_alignment check_dkim_alignment
dmarc_result org spf dkims r spf_domain from_domain =
    determine_dmarc_result (check_spf_alignment org spf r spf_domain from_domain)
      (check_dkim_alignment org dkims r from_domain) spf r
