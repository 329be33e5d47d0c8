-- ===== src/Dmarc/Bounds.antt =====
-- What a record that parses (dmarc/lookup.go) is sure to hold.
use smtpx.Base.{ℕ, ◌≤◌, Option, none, some, Bytes, codes, equal_iff, ◌≡◌, refl, arith}
use smtpx.Base.Int.{ℤ}
use smtpx.Dkim.Params.{Params, find, get}
use smtpx.Dmarc.{
  relaxed, Policy, Record, ok, optional, parse, parse_params, percent_of, required_policy,
  check_version, parse_policy,
}

check_version-ok : (v : Bytes) {u : Unit {0}} → check_version v ≡ ok u → v ≡ codes "DMARC1"
unfolding check_version
check_version-ok v h = ground (arith, equal_iff v (codes "DMARC1"))

required_policy-ok :
    (p : Option Bytes) (q : Policy)
    → required_policy p ≡ ok q
    → (text : Bytes) × (p ≡ some text) × (parse_policy text ≡ ok q)
unfolding required_policy
required_policy-ok none q h = ground arith
required_policy-ok (some text) q h = (text, refl, h)

parse-check_version :
    (atoi : Bytes → Option ℤ) (txt : Bytes) (m : Params) (r : Record)
    → parse_params txt ≡ ok m
    → parse atoi txt ≡ ok r
    → check_version (get (codes "v") m) ≡ ok tt
unfolding parse
parse-check_version atoi txt m r given h = ground arith

parse-required_policy :
    (atoi : Bytes → Option ℤ) (txt : Bytes) (m : Params) (r : Record)
    → parse_params txt ≡ ok m
    → parse atoi txt ≡ ok r
    → required_policy (find (codes "p") m) ≡ ok r.policy
unfolding parse
parse-required_policy atoi txt m r given h = ground arith

parse-alignments :
    (atoi : Bytes → Option ℤ) (txt : Bytes) (m : Params) (r : Record)
    → parse_params txt ≡ ok m
    → parse atoi txt ≡ ok r
    → ((n : ℕ) → r.percent ≡ some n → n ≤ 100)
      × (find (codes "adkim") m ≡ none → r.dkim_alignment ≡ relaxed)
      × (find (codes "aspf") m ≡ none → r.spf_alignment ≡ relaxed)
unfolding parse optional percent_of
parse-alignments atoi txt m r given h =
    ((λ n q. ground arith), (λ q. ground arith), (λ q. ground arith))

-- A record that parses has version "DMARC1" and a policy that is the one of its parameter "p"; its
-- percentage, if it has one, is at most 100; and without the parameters "adkim" and "aspf" both
-- alignments are relaxed.
pub parse_ok :
    (atoi : Bytes → Option ℤ) (txt : Bytes) (m : Params) (r : Record)
    → parse_params txt ≡ ok m
    → parse atoi txt ≡ ok r
    → (get (codes "v") m ≡ codes "DMARC1")
      × ((p : Bytes) × (find (codes "p") m ≡ some p) × (parse_policy p ≡ ok r.policy))
      × ((n : ℕ) → r.percent ≡ some n → n ≤ 100)
      × (find (codes "adkim") m ≡ none → r.dkim_alignment ≡ relaxed)
      × (find (codes "aspf") m ≡ none → r.spf_alignment ≡ relaxed)
parse_ok atoi txt m r given h =
    let (bound, dkim, spf) = parse-alignments atoi txt m r given h in
    (
      check_version-ok (get (codes "v") m) (parse-check_version atoi txt m r given h),
      required_policy-ok (find (codes "p") m) r.policy (parse-required_policy atoi txt m r given h),
      bound,
      dkim,
      spf,
    )
