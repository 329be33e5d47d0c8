-- ===== src/Middleware/Domains.antt =====
-- middleware/domains.go and middleware/email.go: filters and lists of allowed domains.
pub mod Allowed
use smtpx.Base.{
  Bool, true, false, not, List, [], ◌∷◌, ◌++◌, Option, none, some, Bytes, codes, equal, to_lower,
  length, ◌==◌, if◌then◌else◌,
}
use smtpx.Envelope.Message.{Address, Envelope}
use smtpx.Handler.{HandlerFunc, Wrapper, reply}
use smtpx.Response.{new_response}
use smtpx.Utils.Email.{domain_of_email}

-- The keys of `set[strings.ToLower(d)] = true`, which may stand here twice.
unfoldable pub set_of : List Bytes → List Bytes
unfolding to_lower
set_of [] = []
set_of (d ∷ ds) = to_lower d ∷ set_of ds

-- `set[d]`
unfoldable pub in_set : List Bytes → Bytes → Bool
unfolding equal
in_set [] d = false
in_set (k ∷ ks) d = if equal d k then true else in_set ks d

-- The loop that appends to `res` the recipients that are to stay.
unfoldable pub keep_into : (Address → Bool) → List Address → List Address → List Address
keep_into test res [] = res
keep_into test res (r ∷ rs) = keep_into test (if test r then res ++ (r ∷ []) else res) rs

abbrev pub is_allowed : List Bytes → Address → Bool
is_allowed set r = in_set set (domain_of_email (some r))

-- `FilterRecipientDomains`
unfoldable pub filter_recipient_domains : List Bytes → Wrapper
unfolding set_of keep_into
filter_recipient_domains domain next e =
    let set = set_of domain in
    let res = keep_into (is_allowed set) [] e.rcpt_to in
    let e' = record e { rcpt_to = res } in
    if length set == 0
    then next e
    else if not (length res == 0)
    then next e'
    else (e', reply (some (new_response 550 (codes "Recipient domain not allowed"))))

-- The loop that looks for a recipient with an allowed domain.
unfoldable pub has_allowed : List Bytes → List Address → Bool
unfolding in_set to_lower domain_of_email
has_allowed set [] = false
has_allowed set (r ∷ rs) =
    if in_set set (to_lower (domain_of_email (some r))) then true else has_allowed set rs

-- `RecipientDomainsWhitelist`
unfoldable pub recipient_domains_whitelist : List Bytes → Wrapper
unfolding set_of has_allowed
recipient_domains_whitelist domain next e =
    let set = set_of domain in
    if length set == 0
    then next e
    else if has_allowed set e.rcpt_to
    then next e
    else (e, reply (some (new_response 550 (codes "Recipient domain not allowed"))))

-- `SenderDomainsWhitelist`
unfoldable pub sender_domains_whitelist : List Bytes → Wrapper
unfolding set_of in_set to_lower
sender_domains_whitelist domain next e =
    let set = set_of domain in
    if length set == 0
    then next e
    else if not (in_set set (to_lower (domain_of_email e.mail_from)))
    then (e, reply (some (new_response 550 (codes "Sender domain not allowed"))))
    else next e

-- `FilterRecipient`
unfoldable pub filter_recipient : (Address → Bool) → Wrapper
unfolding keep_into
filter_recipient include next e =
    let e' = record e { rcpt_to = keep_into include [] e.rcpt_to } in
    if not (length e'.rcpt_to == 0)
    then next e'
    else (e', reply (some (new_response 550 (codes "filtered recipient"))))
