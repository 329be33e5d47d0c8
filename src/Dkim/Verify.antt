-- ===== src/Dkim/Verify.antt =====
-- middleware/authres/dkim/verify.go: the verification of one signature. The function returns the
-- verification as far as it is filled in together with its error, so its steps pass it on.
pub mod Sound
pub mod Trimmed
use Prim.Native.String.{String}
use smtpx.Base.{
  ℕ, Bool, true, false, not, ◌&&◌, ◌||◌, List, [], ◌∷◌, ◌++◌, Option, none, some, Bytes, codes,
  equal, equal_fold, has_suffix, cut, trim_right, any, take, length, is_some, ◌==◌, if◌then◌else◌,
}
use smtpx.Dkim.Canonical.{
  SimpleBody, new_simple, simple_write, simple_close, RelaxedBody, new_relaxed, relaxed_write,
  relaxed_close, relaxed_header,
}
use smtpx.Dkim.Header.{HeaderPicker, pick, remove_signature}
use smtpx.Dkim.Params.{
  Params, ParamsResult, params, bad, find, get, parse_header_params, strip_whitespace,
  parse_tag_list, Canonicalization, simple, relaxed, canonicalization, parse_canonicalization,
}
use smtpx.Dkim.Query.{
  VerifyError, perm_fail, temp_fail, fail_error, Checked, pass, stop, Seconds, is_after, Crypto,
  QueryResult, query_dns_txt, verifies,
}

-- `Verification`, without its error; a zero time is `none`.
pub record Verification : Type 0 where
  pub domain : Bytes
  pub selector : Bytes
  pub signature : Bytes
  pub identifier : Bytes
  pub header_keys : List Bytes
  pub time : Option Seconds
  pub expiration : Option Seconds

abbrev pub new_verification : Verification
new_verification = record {
  domain = [];
  selector = [];
  signature = [];
  identifier = [];
  header_keys = [];
  time = none;
  expiration = none;
}

abbrev pub M : Type 0 → Type 0
M A = Verification → Verification × Checked A

abbrev pub continue :
    {A B : Type 0} → (A → M B) → Verification × Checked A → Verification × Checked B
continue f (v, pass a) = f a v
continue f (v, stop e) = (v, stop e)

infixl 5 ◌>>=◌ ◌>>◌
abbrev pub ◌>>=◌ : {A B : Type 0} → M A → (A → M B) → M B
◌>>=◌ step next v = continue next (step v)

abbrev pub ◌>>◌ : {B : Type 0} → M (Unit {0}) → M B → M B
m >> k = m >>= λ _. k

abbrev pub return : {A : Type 0} → A → M A
return a v = (v, pass a)

abbrev pub lift : {A : Type 0} → Checked A → M A
lift r v = (v, r)

abbrev pub update : (Verification → Verification) → M (Unit {0})
update f v = (f v, pass tt)

abbrev pub gets : {A : Type 0} → (Verification → A) → M A
gets f v = (v, pass (f v))

abbrev pub must : Bool → VerifyError → M (Unit {0})
must true e v = (v, pass tt)
must false e v = (v, stop e)

abbrev pub must_have : {A : Type 0} → Option A → VerifyError → M A
must_have none e v = (v, stop e)
must_have (some a) e v = (v, pass a)

abbrev pub perm : String → VerifyError
perm s = perm_fail (codes s)

abbrev pub params_or_stop : ParamsResult → M Params
params_or_stop (params m) v = (v, pass m)
params_or_stop (bad e) v = (v, stop (perm "malformed signature tags"))

abbrev pub required_tags : List Bytes
required_tags =
    codes "v" ∷ codes "a" ∷ codes "b" ∷ codes "bh" ∷ codes "d" ∷ codes "h" ∷ codes "s" ∷ []

unfoldable pub has_all : List Bytes → Params → Bool
unfolding find
has_all [] m = true
has_all (t ∷ ts) m = is_some (find t m) && has_all ts m

-- Domain, selector, the first eight bytes of the signature, and the required tags.
unfoldable pub check_tags : Params → M (Unit {0})
check_tags m = do
  must (equal (get (codes "v") m) (codes "1")) (perm "incompatible signature version")
  update (λ v. record v {
    domain = strip_whitespace (get (codes "d") m);
    selector = strip_whitespace (get (codes "s") m);
    signature = take 8 (strip_whitespace (get (codes "b") m));
  })
  must (has_all required_tags m) (perm "signature missing required tag")

abbrev pub belongs : Bytes → Bytes → Bool
belongs identifier domain =
    has_suffix identifier (b'@' ∷ domain) || has_suffix identifier (b'.' ∷ domain)

identify : Option Bytes → M (Unit {0})
identify none = update (λ v. record v { identifier = b'@' ∷ v.domain })
identify (some i) = do
  update (λ v. record v { identifier = strip_whitespace i })
  d ← gets (λ v. v.domain)
  must (belongs (strip_whitespace i) d) (perm "domain mismatch")

-- The identifier, which has to belong to the domain, and the signed header keys.
unfoldable pub check_identity : Params → M (List Bytes)
unfolding identify
check_identity m = do
  identify (find (codes "i") m)
  let keys = parse_tag_list (get (codes "h") m)
  must (any (λ k. equal_fold k (codes "from")) keys) (perm "From field not signed")
  update (λ v. record v { header_keys = keys })
  return keys

sign_time : Crypto → Option Bytes → M (Unit {0})
sign_time c none = return tt
sign_time c (some s) = do
  t ← must_have (c.parse_int (strip_whitespace s)) (perm "malformed time")
  update (λ v. record v { time = some t })

expiry : Crypto → Option Bytes → M (Unit {0})
expiry c none = return tt
expiry c (some s) = do
  t ← must_have (c.parse_int (strip_whitespace s)) (perm "malformed expiration time")
  update (λ v. record v { expiration = some t })
  must (not (is_after c.now c.now_nanos t)) (perm "signature has expired")

unfoldable pub check_times : Crypto → Params → M (Unit {0})
unfolding sign_time expiry
check_times c m = do sign_time c (find (codes "t") m); expiry c (find (codes "x") m)

methods : Option Bytes → List Bytes
methods none = codes "dns/txt" ∷ []
methods (some s) = parse_tag_list s

-- The query of the first method that is known.
unfoldable pub fetch_key : Crypto → Params → M QueryResult
unfolding methods
fetch_key c m = do
  must (any (λ q. equal q (codes "dns/txt")) (methods (find (codes "q") m)))
      (perm "unsupported public key query method")
  d ← gets (λ v. v.domain)
  lift (query_dns_txt c d (strip_whitespace (get (codes "s") m)))

abbrev pub listed : Option (List Bytes) → Bytes → Bool
listed none s = true
listed (some l) s = any (λ t. equal t s) l

-- Key and hash algorithms, and the services of the key.
unfoldable pub check_algorithms : QueryResult → Params → M (Unit {0})
check_algorithms q m = do
  algo ←
      must_have (cut (strip_whitespace (get (codes "a") m)) b'-') (perm "malformed algorithm name")
  must (listed q.hash_algos algo.1) (perm "inappropriate hash algorithm")
  must (not (equal algo.1 (codes "sha1"))) (perm "hash algorithm too weak")
  must (equal algo.1 (codes "sha256")) (perm "unsupported hash algorithm")
  must (equal q.key_algo algo.0) (perm "inappropriate key algorithm")
  must (listed q.services (codes "email")) (perm "inappropriate service")

-- The canonicalizations of header and body, and the refusal of a body length.
unfoldable pub check_canonicalization : Params → M (Canonicalization × Canonicalization)
check_canonicalization m = do
  let names = parse_canonicalization (get (codes "c") m)
  h ← must_have (canonicalization names.0) (perm "unsupported header canonicalization algorithm")
  b ← must_have (canonicalization names.1) (perm "unsupported body canonicalization algorithm")
  must (not (is_some (find (codes "l") m)))
      (fail_error (codes "message contains an insecure body length tag"))
  return (h, b)

-- `CanonicalizeBody`, one write and `Close`.
unfoldable pub canonical_body : Canonicalization → Bytes → Bytes
canonical_body simple body = (simple_close (simple_write new_simple body)).out
canonical_body relaxed body = (relaxed_close (relaxed_write new_relaxed body)).out

-- `CanonicalizeHeader`
unfoldable pub canonical_header : Canonicalization → Bytes → Bytes
canonical_header simple s = s
canonical_header relaxed s = relaxed_header s

-- The picked fields, canonicalized; a key without a field left is skipped.
unfoldable pub signed_fields : Canonicalization → HeaderPicker → List Bytes → Bytes
signed_fields can p [] = []
signed_fields can p (k ∷ ks) =
    let (p', kv) = pick p k in
    let rest = signed_fields can p' ks in
    if length kv == 0 then rest else canonical_header can kv ++ rest

-- `strings.TrimRight(s, "\r\n")`
unfoldable pub trim_crlf : Bytes → Bytes
trim_crlf [] = []
trim_crlf (c ∷ s) = elim (trim_crlf s) [
  | [] ↦ if c == 13 || c == 10 then [] else c ∷ []
  | d ∷ t ↦ c ∷ d ∷ t
]

-- What the signature is over.
unfoldable pub signed_data : Canonicalization → List Bytes → List Bytes → Bytes → Bytes
unfolding signed_fields trim_crlf
signed_data can h keys sig_field =
    signed_fields can (record { h = h; picked = [] }) keys
    ++ trim_crlf (canonical_header can (remove_signature sig_field))

unfoldable pub check_hashes :
    Crypto
    → QueryResult
    → Params
    → Canonicalization × Canonicalization
    → List Bytes
    → Bytes
    → List Bytes
    → Bytes
    → M (Unit {0})
check_hashes c q m can h body keys sig_field = do
  body_hashed ←
      must_have (c.decode_base64 (strip_whitespace (get (codes "bh") m)))
        (perm "malformed body hash")
  sig ←
      must_have (c.decode_base64 (strip_whitespace (get (codes "b") m)))
        (perm "malformed signature")
  must (equal (c.sha256 (canonical_body can.1 body)) body_hashed)
      (fail_error (codes "body hash did not verify"))
  must (verifies c q.verifier (c.sha256 (signed_data can.0 h keys sig_field)) sig)
      (fail_error (codes "signature did not verify"))

-- `verify` of the header `h`, the body, and the signature's field and value.
unfoldable pub verify_steps : Crypto → List Bytes → Bytes → Bytes → Bytes → M (Unit {0})
verify_steps c h body sig_field sig_value = do
  m ← params_or_stop (parse_header_params sig_value)
  check_tags m
  keys ← check_identity m
  check_times c m
  q ← fetch_key c m
  check_algorithms q m
  can ← check_canonicalization m
  check_hashes c q m can h body keys sig_field

unfoldable pub verify :
    Crypto → List Bytes → Bytes → Bytes → Bytes → Verification × Checked (Unit {0})
unfolding verify_steps
verify c h body sig_field sig_value = verify_steps c h body sig_field sig_value new_verification
