-- ===== src/Dkim/Sign.antt =====
-- middleware/authres/dkim/sign.go: signing a message. The pipe to the goroutine that signs is the
-- whole message as one argument; what it sends on `done` is the result.
pub mod Hashed
pub mod Readable
pub mod Signed
pub mod Verified
pub mod Accepted
pub mod Checked
use smtpx.Base.{
  ℕ, suc, Bool, true, false, not, List, [], ◌∷◌, ◌++◌, Option, none, some, Bytes, codes, equal,
  equal_fold, join, any, decimal, length, ◌==◌, if◌then◌else◌,
}
use smtpx.Dkim.Format.{format_signature}
use smtpx.Dkim.Header.{HeaderPicker, read_header}
use smtpx.Dkim.Params.{Params, put, Canonicalization, canonicalization, parse_header_field}
use smtpx.Dkim.Query.{Seconds, since, before}
use smtpx.Dkim.Verify.{canonical_body, canonical_header, signed_fields, trim_crlf}

-- `options.Signer.Public()`
pub data PublicKind : Type 0 where
  rsa_kind ed25519_kind other_kind : PublicKind

-- `crypto.Hash`; no hash is zero.
pub data Hash : Type 0 where
  no_hash sha256_hash sha1_hash other_hash : Hash

-- `crypto.Signer`: `sign` gets the hash and the name of the function it was made with.
pub record KeySigner : Type 0 where
  pub kind : PublicKind
  pub sign : Bytes → Hash → Option Bytes

-- `SignOptions`; a nil slice, and a zero time, is `none`.
pub record SignOptions : Type 0 where
  pub domain : Bytes
  pub selector : Bytes
  pub identifier : Bytes
  pub signer : Option KeySigner
  pub hash : Hash
  pub header_can : Bytes
  pub body_can : Bytes
  pub header_keys : Option (List Bytes)
  pub expiration : Option Seconds
  pub query_methods : Option (List Bytes)

-- The clock, and the packages for hashes and encodings.
pub record Tools : Type 0 where
  pub now : Seconds
  pub sha256 : Bytes → Bytes
  pub encode_base64 : Bytes → Bytes

pub data SignError : Type 0 where
  no_options no_domain no_selector no_signer : SignError
  unknown_header_can unknown_body_can : Bytes → SignError
  unsupported_key weak_hash unsupported_hash from_not_signed : SignError
  unreadable_header signing_failed : SignError

pub data Signing {ℓ} (A : Type ℓ) : Type ℓ where
  done : A → Signing A
  refused : SignError → Signing A

infixl 5 ◌>>=◌ ◌>>◌
abbrev pub ◌>>=◌ {ℓ κ} : {A : Type ℓ} {B : Type κ} → Signing A → (A → Signing B) → Signing B
done a >>= f = f a
refused e >>= f = refused e

abbrev pub ◌>>◌ {ℓ} : {B : Type ℓ} → Signing (Unit {0}) → Signing B → Signing B
m >> k = m >>= λ _. k

abbrev pub unless : Bool → SignError → Signing (Unit {0})
unless true e = refused e
unless false e = done tt

abbrev pub need {ℓ} : {A : Type ℓ} → Option A → SignError → Signing A
need none e = refused e
need (some a) e = done a

abbrev pub is_empty : Bytes → Bool
is_empty s = length s == 0

abbrev pub or_simple : Bytes → Bytes
or_simple s = if is_empty s then codes "simple" else s

unfoldable pub key_name : PublicKind → Signing Bytes
key_name rsa_kind = done (codes "rsa")
key_name ed25519_kind = done (codes "ed25519")
key_name other_kind = refused unsupported_key

-- The only function that is left is SHA-256.
unfoldable pub hash_name : Hash → Signing Bytes
hash_name no_hash = done (codes "sha256")
hash_name sha256_hash = done (codes "sha256")
hash_name sha1_hash = refused weak_hash
hash_name other_hash = refused unsupported_hash

unfoldable pub covers_from : Option (List Bytes) → Bool
unfolding equal_fold
covers_from none = true
covers_from (some keys) = any (λ k. equal_fold k (codes "From")) keys

-- What `NewSigner` finds out before it starts the goroutine.
pub record Signer : Type 0 where
  pub options : SignOptions
  pub key : KeySigner
  pub header_can : Canonicalization
  pub body_can : Canonicalization
  pub key_algo : Bytes
  pub hash_algo : Bytes

-- `NewSigner`, with options.
unfoldable pub new_signer : SignOptions → Signing Signer
unfolding key_name hash_name covers_from canonicalization
new_signer o = do
  unless (is_empty o.domain) no_domain
  unless (is_empty o.selector) no_selector
  key ← need o.signer no_signer
  h ← need (canonicalization (or_simple o.header_can)) (unknown_header_can (or_simple o.header_can))
  b ← need (canonicalization (or_simple o.body_can)) (unknown_body_can (or_simple o.body_can))
  algo ← key_name key.kind
  hash ← hash_name o.hash
  unless (not (covers_from o.header_keys)) from_not_signed
  done (record {
    options = o;
    key = key;
    header_can = h;
    body_can = b;
    key_algo = algo;
    hash_algo = hash;
  })

-- `formatTagList`
abbrev pub format_tag_list : List Bytes → Bytes
format_tag_list l = join l (codes ":")

-- `formatTime`
unfoldable pub format_time : Seconds → Bytes
unfolding decimal
format_time (since n) = decimal n
format_time (before n) = codes "-" ++ decimal (suc n)

unfoldable pub put_some : Bytes → Option Bytes → Params → Params
unfolding put
put_some k none m = m
put_some k (some v) m = put k v m

unfoldable pub names_of : List Bytes → List Bytes
unfolding parse_header_field
names_of [] = []
names_of (kv ∷ h) = (parse_header_field kv).0 ∷ names_of h

-- The keys that are signed: all of the header where the options have none.
unfoldable pub signed_keys : Option (List Bytes) → List Bytes → List Bytes
unfolding names_of
signed_keys none h = names_of h
signed_keys (some keys) h = keys

abbrev pub present : Bytes → Option Bytes
present s = if is_empty s then none else some s

abbrev pub map_some : {A : Type 0} → (A → Bytes) → Option A → Option Bytes
map_some f none = none
map_some f (some a) = some (f a)

-- The parameters before there is a signature.
unfoldable pub sign_params : Tools → Signer → List Bytes → Bytes → Params
unfolding format_time put_some signed_keys canonical_body join
sign_params t s h body =
    let o = s.options in
    let base =
      (codes "v", codes "1")
      ∷ (codes "a", s.key_algo ++ (codes "-" ++ s.hash_algo))
      ∷ (codes "bh", t.encode_base64 (t.sha256 (canonical_body s.body_can body)))
      ∷ (codes "c", or_simple o.header_can ++ (codes "/" ++ or_simple o.body_can))
      ∷ (codes "d", o.domain)
      ∷ (codes "s", o.selector)
      ∷ (codes "t", format_time t.now)
      ∷ (codes "h", format_tag_list (signed_keys o.header_keys h))
      ∷ [] in
    put_some (codes "x") (map_some format_time o.expiration) (
      put_some (codes "q") (map_some format_tag_list o.query_methods)
        (put_some (codes "i") (present o.identifier) base))

-- What is written to the hasher: the fields that are picked, and the field of the signature without
-- its value, and without the line break at its end.
unfoldable pub hashed_data : Canonicalization → List Bytes → List Bytes → Params → Bytes
unfolding put signed_fields canonical_header trim_crlf format_signature
hashed_data can h keys m =
    signed_fields can (record { h = h; picked = [] }) keys
    ++ trim_crlf (canonical_header can (format_signature (put (codes "b") [] m)))

-- The hash function that `Sign` is told of.
unfoldable pub told_hash : PublicKind → Hash
told_hash ed25519_kind = no_hash
told_hash rsa_kind = sha256_hash
told_hash other_kind = sha256_hash

unfoldable pub sign_header : Tools → Signer → List Bytes → Bytes → Signing Params
unfolding sign_params hashed_data told_hash put
sign_header t s h body = do
  let m = sign_params t s h body
  let keys = signed_keys s.options.header_keys h
  sig ←
      need (s.key.sign (t.sha256 (hashed_data s.header_can h keys m)) (told_hash s.key.kind))
        signing_failed
  done (put (codes "b") (t.encode_base64 sig) m)

-- The goroutine of `NewSigner`, up to what `Close` returns: the parameters of the signature.
unfoldable pub sign_message : Tools → Signer → Bytes → Signing Params
unfolding sign_header read_header
sign_message t s message = do
  (h, body) ← need (read_header message) unreadable_header
  sign_header t s h body

-- `Sign`; no options are nil.
unfoldable pub sign : Tools → Option SignOptions → Bytes → Signing Bytes
unfolding new_signer sign_message format_signature
sign t options message = do
  o ← need options no_options
  s ← new_signer o
  m ← sign_message t s message
  done (format_signature m ++ message)
