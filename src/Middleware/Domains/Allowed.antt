-- ===== src/Middleware/Domains/Allowed.antt =====
-- Which envelopes the middlewares of domains.go and email.go let through, and how they leave them.
use smtpx.Base.{
  Bool, true, false, not, List, [], ◌∷◌, ◌++◌, append_assoc, append-nil, some, ap, ◌≢◌, ◌≡◌, inl,
  inr, refl, sym, ◌∙◌, arith, Bytes, codes, equal_fold, to_lower, length, select, any, All, ◌==◌,
  Bool-cases,
}
use mathlib.Core.Path.{subst}
use smtpx.Envelope.Message.{Address, Envelope}
use smtpx.Handler.{HandlerFunc, reply}
use smtpx.Response.{new_response}
use smtpx.Utils.Email.{domain_of_email, to_lower-domain, after_last, domain_of_email-after_last}
use smtpx.Middleware.Domains.{
  set_of, in_set, keep_into, is_allowed, filter_recipient_domains, has_allowed,
  recipient_domains_whitelist, sender_domains_whitelist, filter_recipient,
}

keep_into-select :
    (test : Address → Bool) (res rs : List Address) → keep_into test res rs ≡ res ++ select test rs
unfolding keep_into
keep_into-select test res [] = sym (append-nil res)
keep_into-select test res (r ∷ rs) = elim (Bool-cases (test r)) [
  | inl kept ↦ rw kept (keep_into-select test (res ++ (r ∷ [])) rs ∙ append_assoc res (r ∷ []) _)
  | inr left ↦ rw left (keep_into-select test res rs)
]

All-select : (test : Address → Bool) (rs : List Address) → All (λ r. test r ≡ true) (select test rs)
All-select test [] = tt
All-select test (r ∷ rs) = elim (Bool-cases (test r)) [
  | inl kept ↦ rw kept (kept, All-select test rs)
  | inr left ↦ rw left (All-select test rs)
]

any-select :
    (test : Address → Bool) (rs : List Address) → not (length (select test rs) == 0) ≡ any test rs
any-select test [] = refl
any-select test (r ∷ rs) = elim (Bool-cases (test r)) [
  | inl kept ↦ rw kept (ground arith)
  | inr left ↦ rw left (any-select test rs)
]

has_allowed-any :
    (set : List Bytes) (rs : List Address) → has_allowed set rs ≡ any (is_allowed set) rs
unfolding has_allowed
has_allowed-any set [] = refl
has_allowed-any set (r ∷ rs) = rw (to_lower-domain (some r), has_allowed-any set rs)

length-eq-zero : (rs : List Address) → (length rs == 0) ≡ true → rs ≡ []
length-eq-zero [] h = refl
length-eq-zero (r ∷ rs) h = ground arith

in_set-any :
    (ds : List Bytes) (d : Bytes) → in_set (set_of ds) (to_lower d) ≡ any (λ k. equal_fold d k) ds
unfolding in_set set_of equal_fold
in_set-any [] d = refl
in_set-any (k ∷ ds) d = rw (in_set-any ds d)

-- The domain of the address, which is what stands behind its last @, equals a configured one up to
-- case.
abbrev pub is_configured : List Bytes → Address → Bool
is_configured domain r = any (λ k. equal_fold (after_last b'@' r.address) k) domain

is_allowed-configured :
    (domain : List Bytes) (r : Address) → is_allowed (set_of domain) r ≡ is_configured domain r
is_allowed-configured domain r =
    ap (in_set (set_of domain)) (domain_of_email-after_last r)
    ∙ in_set-any domain (after_last b'@' r.address)

is_allowed-is_configured : (domain : List Bytes) → is_allowed (set_of domain) ≡ is_configured domain
is_allowed-is_configured domain = λ i r. is_allowed-configured domain r i

set_of-some : (domain : List Bytes) → domain ≢ [] → (length (set_of domain) == 0) ≡ false
unfolding set_of
set_of-some [] h = absurd (h refl)
set_of-some (d ∷ ds) h = ground arith

-- With domains configured, `FilterRecipientDomains` hands on the envelope with exactly the recipients
-- whose domain, behind the last @ and up to case, is configured, in their order, and `RecipientDomainsWhitelist` hands on the whole
-- envelope, both exactly when there is such a recipient; otherwise both answer 550 without a call of
-- the next handler.
pub recipient_domains :
    (domain : List Bytes) (next : HandlerFunc) (e : Envelope)
    → domain ≢ []
    → let kept = select (is_configured domain) e.rcpt_to in
      let refusal = reply (some (new_response 550 (codes "Recipient domain not allowed"))) in
      All (λ r. is_configured domain r ≡ true) kept
      × ((length kept == 0) ≡ false
          → (filter_recipient_domains domain next e ≡ next (record e { rcpt_to = kept }))
            × (recipient_domains_whitelist domain next e ≡ next e))
      × ((length kept == 0) ≡ true
          → (filter_recipient_domains domain next e ≡ (record e { rcpt_to = [] }, refusal))
            × (recipient_domains_whitelist domain next e ≡ (e, refusal)))
unfolding filter_recipient_domains recipient_domains_whitelist
recipient_domains domain next e given =
    rw (← is_allowed-is_configured domain)
      let some_domain = set_of-some domain given in
        let test = is_allowed (set_of domain) in
        let kept = keep_into-select test [] e.rcpt_to in
        let passed = any-select test e.rcpt_to in
        let found = has_allowed-any (set_of domain) e.rcpt_to in
        (
          subst (λ p. All (λ r. is_configured domain r ≡ true) (select p e.rcpt_to))
              (sym (is_allowed-is_configured domain)) (All-select (is_configured domain) e.rcpt_to),
          (λ h. (rw (some_domain, kept, h), rw (some_domain, found ∙ sym passed, h))),
          (λ h. (
            rw (some_domain, kept, length-eq-zero (select test e.rcpt_to) h),
            rw (some_domain, found ∙ sym passed, h),
          )),
        )

set_of-cons : (d : Bytes) (ds : List Bytes) → (length (set_of (d ∷ ds)) == 0) ≡ false
unfolding set_of
set_of-cons d ds = ground arith

-- `SenderDomainsWhitelist` calls the next handler, with the envelope as it is, exactly when no domain
-- is configured or one equals the sender's domain up to case; otherwise it answers 550.
pub sender_domains :
    (d : Bytes) (ds : List Bytes) (next : HandlerFunc) (e : Envelope)
    → (sender_domains_whitelist [] next e ≡ next e)
      × (any (λ k. equal_fold (domain_of_email e.mail_from) k) (d ∷ ds) ≡ true
          → sender_domains_whitelist (d ∷ ds) next e ≡ next e)
      × (any (λ k. equal_fold (domain_of_email e.mail_from) k) (d ∷ ds) ≡ false
          → sender_domains_whitelist (d ∷ ds) next e
            ≡ (e, reply (some (new_response 550 (codes "Sender domain not allowed")))))
unfolding sender_domains_whitelist
sender_domains d ds next e =
    let found = in_set-any (d ∷ ds) (domain_of_email e.mail_from) in
    (
      unfold set_of in refl,
      (λ h. rw (set_of-cons d ds, found, h)),
      (λ h. rw (set_of-cons d ds, found, h)),
    )

-- `FilterRecipient` hands on the recipients that the test includes, in their order, if there is one,
-- and otherwise answers 550.
pub included_recipients :
    (include : Address → Bool) (next : HandlerFunc) (e : Envelope)
    → let kept = select include e.rcpt_to in
      ((length kept == 0) ≡ false
        → filter_recipient include next e ≡ next (record e { rcpt_to = kept }))
      × ((length kept == 0) ≡ true
          → filter_recipient include next e ≡ (
            record e { rcpt_to = [] },
            reply (some (new_response 550 (codes "filtered recipient"))),
          ))
unfolding filter_recipient
included_recipients include next e =
    let kept = keep_into-select include [] e.rcpt_to in
    ((λ h. rw (kept, h)), (λ h. rw (kept, length-eq-zero (select include e.rcpt_to) h)))
