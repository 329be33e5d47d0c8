-- ===== src/Dkim/Query.antt =====
-- middleware/authres/dkim/query.go: the public key of a signature, and the errors of verify.go.
use smtpx.Base.{
  ℕ, ◌*◌, Bool, true, false, not, ◌&&◌, ◌||◌, List, [], ◌∷◌, ◌++◌, Option, none, some, Bytes, codes,
  equal, any, select, length, ltb, ◌==◌, if◌then◌else◌,
}
use Prim.Native.String.{String}
use smtpx.Dkim.Params.{
  Params, ParamsResult, params, bad, find, get, parse_header_params, parse_tag_list,
}

-- `permFailError`, `tempFailError` and `failError`. The text of an error of other code, which the
-- source appends, is left out.
pub data VerifyError : Type 0 where
  perm_fail temp_fail fail_error : Bytes → VerifyError

pub data Checked {ℓ} (A : Type ℓ) : Type ℓ where
  pass : A → Checked A
  stop : VerifyError → Checked A

infixl 5 ◌>>=◌ ◌>>◌
abbrev pub ◌>>=◌ {ℓ κ} : {A : Type ℓ} {B : Type κ} → Checked A → (A → Checked B) → Checked B
pass a >>= f = f a
stop e >>= f = stop e

abbrev pub ◌>>◌ {ℓ} : {B : Type ℓ} → Checked (Unit {0}) → Checked B → Checked B
m >> k = m >>= λ _. k

-- An early return with an error, unless the test holds.
abbrev pub require : Bool → VerifyError → Checked (Unit {0})
require true e = pass tt
require false e = stop e

abbrev pub perm : String → VerifyError
perm s = perm_fail (codes s)

pub data PublicKey : Type 0 where
  rsa_public : Bytes → PublicKey
  other_public : PublicKey

-- `rsaVerifier` and `ed25519Verifier`
pub data Verifier : Type 0 where
  rsa_verifier ed25519_verifier : Bytes → Verifier

-- What `txtLookup` returns.
pub data TxtAnswer : Type 0 where
  records : List Bytes → TxtAnswer
  unavailable missing : TxtAnswer

-- The seconds of a `time.Time`; `before n` stands for -(n + 1).
pub data Seconds : Type 0 where
  since before : ℕ → Seconds

-- `t.After(u)` for a `t` of some seconds and nanoseconds, and a `u` of whole seconds.
unfoldable pub is_after : Seconds → ℕ → Seconds → Bool
is_after (since a) nanos (since b) = ltb b a || (a == b && ltb 0 nanos)
is_after (since a) nanos (before b) = true
is_after (before a) nanos (since b) = false
is_after (before a) nanos (before b) = ltb a b || (a == b && ltb 0 nanos)

-- The clock, the resolver, and the libraries for encodings, keys and signatures. `key_size` is in
-- bytes, and `parse_int` is `strconv.ParseInt(s, 10, 64)`.
pub record Crypto : Type 0 where
  pub now : Seconds
  pub now_nanos : ℕ
  pub parse_int : Bytes → Option Seconds
  pub decode_base64 : Bytes → Option Bytes
  pub sha256 : Bytes → Bytes
  pub lookup_txt : Bytes → TxtAnswer
  pub parse_pkix : Bytes → Option PublicKey
  pub parse_pkcs1 : Bytes → Option PublicKey
  pub key_size : Bytes → ℕ
  pub verify_rsa : Bytes → Bytes → Bytes → Bool
  pub verify_ed25519 : Bytes → Bytes → Bytes → Bool

-- `queryResult`
pub record QueryResult : Type 0 where
  pub verifier : Verifier
  pub key_algo : Bytes
  pub hash_algos : Option (List Bytes)
  pub services : Option (List Bytes)
  pub notes : Bytes
  pub flags : Option (List Bytes)

params_of : ParamsResult → Checked Params
params_of (params m) = pass m
params_of (bad e) = stop (perm "key record error")

checked {ℓ} : {A : Type ℓ} → Option A → VerifyError → Checked A
checked none e = stop e
checked (some a) e = pass a

version_ok : Option Bytes → Bool
unfolding equal
version_ok none = true
version_ok (some v) = equal v (codes "DKIM1")

rsa_key : PublicKey → Checked Bytes
rsa_key (rsa_public k) = pass k
rsa_key other_public = stop (perm "key syntax error: not an RSA public key")

first_of_two {ℓ} : {A : Type ℓ} → Option A → Option A → Option A
first_of_two none b = b
first_of_two (some a) b = some a

rsa_case : Crypto → Bytes → Checked (Verifier × Bytes)
unfolding checked rsa_key first_of_two
rsa_case c b = do
  pub_key ← checked (first_of_two (c.parse_pkix b) (c.parse_pkcs1 b)) (perm "key syntax error")
  k ← rsa_key pub_key
  require (not (ltb (c.key_size k * 8) 1024)) (perm "key is too short")
  pass (rsa_verifier k, codes "rsa")

ed25519_case : Bytes → Checked (Verifier × Bytes)
ed25519_case b = do
  require (length b == 32) (perm "invalid Ed25519 public key size")
  pass (ed25519_verifier b, codes "ed25519")

-- `switch params["k"]`
key_case : Crypto → Bytes → Bytes → Checked (Verifier × Bytes)
unfolding equal rsa_case ed25519_case
key_case c k b =
    if equal k (codes "rsa") || equal k []
    then rsa_case c b
    else if equal k (codes "ed25519")
    then ed25519_case b
    else stop (perm "unsupported key algorithm")

tags : Option Bytes → Option (List Bytes)
unfolding parse_tag_list
tags none = none
tags (some s) = some (parse_tag_list s)

services_of : Option Bytes → Option (List Bytes)
unfolding parse_tag_list equal
services_of none = none
services_of (some s) =
    let services = parse_tag_list s in
    if any (λ t. equal t (codes "*")) services then none else some services

-- `parsePublicKey`
unfoldable pub parse_public_key : Crypto → Bytes → Checked QueryResult
unfolding params_of checked version_ok key_case tags services_of find get parse_header_params
parse_public_key c s = do
  m ← params_of (parse_header_params s)
  require (version_ok (find (codes "v") m)) (perm "incompatible public key version")
  p ← checked (find (codes "p") m) (perm "key syntax error: missing public key data")
  require (not (length p == 0)) (perm "key revoked")
  b ← checked (c.decode_base64 (select (λ d. not (d == b' ')) p)) (perm "key syntax error")
  key ← key_case c (get (codes "k") m) b
  pass (record {
    verifier = key.0;
    key_algo = key.1;
    hash_algos = tags (find (codes "h") m);
    services = services_of (find (codes "s") m);
    notes = get (codes "n") m;
    flags = tags (find (codes "t") m);
  })

one_record : Crypto → TxtAnswer → Checked QueryResult
unfolding parse_public_key
one_record c unavailable = stop (temp_fail (codes "key unavailable"))
one_record c missing = stop (perm "no key for signature")
one_record c (records []) = stop (perm "no valid key found")
one_record c (records (t ∷ [])) = parse_public_key c t
one_record c (records (t ∷ u ∷ ts)) = stop (perm "multiple TXT records found for key")

-- `queryDNSTXT`
unfoldable pub query_dns_txt : Crypto → Bytes → Bytes → Checked QueryResult
unfolding one_record
query_dns_txt c domain selector =
    one_record c (c.lookup_txt (selector ++ (codes "._domainkey." ++ domain)))

-- `verifier.Verify`
unfoldable pub verifies : Crypto → Verifier → Bytes → Bytes → Bool
verifies c (rsa_verifier k) hashed sig = c.verify_rsa k hashed sig
verifies c (ed25519_verifier k) hashed sig = c.verify_ed25519 k hashed sig
