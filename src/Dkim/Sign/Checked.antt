-- ===== src/Dkim/Sign/Checked.antt =====
-- middleware/authres/dkim/sign.go and verify.go: a signed message in the hands of a verifier that knows
-- nothing but what it reads.
use smtpx.Base.{
  true, false, List, [], ◌∷◌, ◌++◌, Option, none, some, Bytes, codes, ◌≡◌, refl, ap, ap₂, ◌∙◌, any,
  equal, equal_iff, select, sort_strings-any, join, Option-cases, inl, inr, arith,
}
use smtpx.Dkim.Format.{is_other, keys_of}
use smtpx.Dkim.Format.Tagged.{other_keys}
use smtpx.Dkim.Format.Tagged.Reparsed.{AreTags, get-collect_tag, find-collect}
use smtpx.Dkim.Header.{is_continuation, read_header}
use smtpx.Dkim.Params.{
  Params, params, find, get, put, parse_header_params, parse_header_field, parse_tag_list,
  Canonicalization, simple, relaxed, canonicalization, parse_canonicalization, strip_whitespace,
}
use smtpx.Dkim.Params.Listed.{AreKeys, parse_tag_list-join}
use smtpx.Dkim.Params.Named.{IsNamed, canonicalization-IsNamed}
use smtpx.Dkim.Query.{Crypto, QueryResult, pass}
use smtpx.Dkim.Sign.{
  Tools, SignOptions, Signer, done, new_signer, signed_keys, sign_params, put_some, hashed_data,
  told_hash, sign, or_simple, format_time, format_tag_list, map_some, present,
}
use smtpx.Dkim.Sign.Signed.{IsSafe, IsSigned, sign_lem}
use smtpx.Dkim.Sign.Verified.{
  AreMatching, any-others, any-put_some, get-put_some, read_params, check_hashes-read,
}
use smtpx.Dkim.Verify.{Verification, check_canonicalization, check_hashes}

any-put_other :
    (j k v : Bytes) (m : Params)
    → equal j k ≡ false
    → any (equal j) (keys_of (put k v m)) ≡ any (equal j) (keys_of m)
unfolding keys_of put
any-put_other j k v [] h = rw h refl
any-put_other j k v ((i, w) ∷ m) h =
    ground (arith, equal_iff k i, equal_iff j i, equal_iff j k, any-put_other j k v m)

any-put_some_other :
    (j k : Bytes) (o : Option Bytes) (m : Params)
    → equal j k ≡ false
    → any (equal j) (keys_of (put_some k o m)) ≡ any (equal j) (keys_of m)
unfolding put_some
any-put_some_other j k none m h = refl
any-put_some_other j k (some v) m h = any-put_other j k v m h

abbrev body_length : Bytes
body_length = codes "l"

no_length :
    (t : Tools) (s : Signer) (h : List Bytes) (body : Bytes)
    → any (equal body_length) (other_keys (sign_params t s h body)) ≡ false
unfolding sign_params keys_of equal
no_length t s h body =
    sort_strings-any (equal body_length) (select is_other (keys_of (sign_params t s h body)))
    ∙ (any-others body_length (keys_of (sign_params t s h body)) refl
        ∙ (any-put_some_other body_length (codes "x") (map_some format_time s.options.expiration) _
              refl
            ∙ (any-put_some_other body_length (codes "q")
                  (map_some format_tag_list s.options.query_methods) _ refl
                ∙ any-put_some_other body_length (codes "i") (present s.options.identifier) _
                    refl)))

-- The tags of the keys and of the canonicalizations are among the others, and stand in the way the
-- signer puts them together.
module _ (t : Tools) (s : Signer) (h : List Bytes) (body : Bytes) where
  keys_listed : any (equal (codes "h")) (other_keys (sign_params t s h body)) ≡ true
  unfolding sign_params keys_of equal
  keys_listed =
      sort_strings-any (equal (codes "h")) (select is_other (keys_of (sign_params t s h body)))
      ∙ (any-others (codes "h") (keys_of (sign_params t s h body)) refl
          ∙ any-put_some (codes "h") (codes "x") (map_some format_time s.options.expiration) _ (
              any-put_some (codes "h") (codes "q")
                (map_some format_tag_list s.options.query_methods) _
                (any-put_some (codes "h") (codes "i") (present s.options.identifier) _ refl)))

  cans_listed : any (equal (codes "c")) (other_keys (sign_params t s h body)) ≡ true
  unfolding sign_params keys_of equal
  cans_listed =
      sort_strings-any (equal (codes "c")) (select is_other (keys_of (sign_params t s h body)))
      ∙ (any-others (codes "c") (keys_of (sign_params t s h body)) refl
          ∙ any-put_some (codes "c") (codes "x") (map_some format_time s.options.expiration) _ (
              any-put_some (codes "c") (codes "q")
                (map_some format_tag_list s.options.query_methods) _
                (any-put_some (codes "c") (codes "i") (present s.options.identifier) _ refl)))

  keys_get :
      get (codes "h") (sign_params t s h body)
      ≡ join (signed_keys s.options.header_keys h) (codes ":")
  unfolding sign_params get find equal
  keys_get =
      get-put_some (codes "h") (codes "x") (map_some format_time s.options.expiration) _ refl
      ∙ (get-put_some (codes "h") (codes "q") (map_some format_tag_list s.options.query_methods) _
            refl
          ∙ (get-put_some (codes "h") (codes "i") (present s.options.identifier) _ refl ∙ refl))

  cans_get :
      get (codes "c") (sign_params t s h body)
      ≡ or_simple s.options.header_can ++ (codes "/" ++ or_simple s.options.body_can)
  unfolding sign_params get find equal
  cans_get =
      get-put_some (codes "c") (codes "x") (map_some format_time s.options.expiration) _ refl
      ∙ (get-put_some (codes "c") (codes "q") (map_some format_tag_list s.options.query_methods) _
            refl
          ∙ (get-put_some (codes "c") (codes "i") (present s.options.identifier) _ refl ∙ refl))

  keys_read :
      (w : Bytes)
      → AreKeys (signed_keys s.options.header_keys h)
      → parse_tag_list (get (codes "h") (read_params t s h body w))
        ≡ signed_keys s.options.header_keys h
  unfolding equal
  keys_read w keys =
      ap parse_tag_list
        (get-collect_tag (sign_params t s h body) (codes "h") w refl keys_listed ∙ keys_get)
      ∙ parse_tag_list-join (signed_keys s.options.header_keys h) keys

  cans_get_read :
      (w : Bytes)
      → get (codes "c") (read_params t s h body w)
        ≡ or_simple s.options.header_can ++ (codes "/" ++ or_simple s.options.body_can)
  unfolding equal
  cans_get_read w =
      get-collect_tag (sign_params t s h body) (codes "c") w refl cans_listed ∙ cans_get

  length_read : (w : Bytes) → find body_length (read_params t s h body w) ≡ none
  unfolding find equal
  length_read w =
      find-collect (sign_params t s h body) body_length (other_keys (sign_params t s h body)) []
        (no_length t s h body) refl

-- The names that a signer writes are those that a verifier reads.
check_canonicalization-named :
    (m : Params) (v : Verification) (x y : Bytes) (a b : Canonicalization)
    → get (codes "c") m ≡ x ++ (codes "/" ++ y)
    → IsNamed x a
    → IsNamed y b
    → find body_length m ≡ none
    → check_canonicalization m v ≡ (v, pass (a, b))
unfolding check_canonicalization canonicalization parse_canonicalization strip_whitespace equal
check_canonicalization-named m v x y simple simple e p q l =
    rw (e ∙ ap₂ (λ a b. a ++ (codes "/" ++ b)) p q, check_canonicalization) (rw l refl)
check_canonicalization-named m v x y simple relaxed e p q l =
    rw (e ∙ ap₂ (λ a b. a ++ (codes "/" ++ b)) p q, check_canonicalization) (rw l refl)
check_canonicalization-named m v x y relaxed simple e p q l =
    rw (e ∙ ap₂ (λ a b. a ++ (codes "/" ++ b)) p q, check_canonicalization) (rw l refl)
check_canonicalization-named m v x y relaxed relaxed e p q l =
    rw (e ∙ ap₂ (λ a b. a ++ (codes "/" ++ b)) p q, check_canonicalization) (rw l refl)

-- What `NewSigner` has found out of the names.
record AreFound (o : SignOptions) (s : Signer) : Type 0 where
  options : s.options ≡ o
  header_can : canonicalization (or_simple o.header_can) ≡ some s.header_can
  body_can : canonicalization (or_simple o.body_can) ≡ some s.body_can

new_signer-AreFound : (o : SignOptions) (s : Signer) → new_signer o ≡ done s → AreFound o s
unfolding new_signer
new_signer-AreFound o s e = elim (Option-cases o.signer) [
  | inl e1 ↦ absurd (ground arith)
  | inr (k, e1) ↦ elim (Option-cases (canonicalization (or_simple o.header_can))) [
    | inl e2 ↦ absurd (ground arith)
    | inr (a, e2) ↦ elim (Option-cases (canonicalization (or_simple o.body_can))) [
      | inl e3 ↦ absurd (ground arith)
      | inr (b, e3) ↦ record {
        options = ground arith;
        header_can = ground arith;
        body_can = ground arith;
      }
    ]
  ]
]

-- What a verifier finds of `out`: a first field, which it reads as parameters, and with the
-- canonicalizations and the keys that these name the hash of the body and the signature are right.
pub record IsRight (h : List Bytes) (body message out : Bytes) (c : Crypto) (q : QueryResult)
    (v : Verification) : Type 0 where
  pub field : Bytes
  pub written : out ≡ field ++ message
  pub read : read_header out ≡ some (field ∷ h, body)
  pub tags : Params
  pub parsed : parse_header_params (parse_header_field field).1 ≡ params tags
  pub can : Canonicalization × Canonicalization
  pub named : check_canonicalization tags v ≡ (v, pass can)
  pub hashes :
      check_hashes c q tags can (field ∷ h) body (parse_tag_list (get (codes "h") tags)) field v
      ≡ (v, pass tt)

module _ (t : Tools) (o : SignOptions) (s : Signer) (h : List Bytes) (body message : Bytes)
    (valid : new_signer o ≡ done s)
    (tags : AreTags (sign_params t s h body) (other_keys (sign_params t s h body)) [])
    (keys : AreKeys (signed_keys s.options.header_keys h)) (c : Crypto) (q : QueryResult)
    (matching : AreMatching t s c q) (v : Verification) where
  can_read :
      (w : Bytes)
      → check_canonicalization (read_params t s h body w) v ≡ (v, pass (s.header_can, s.body_can))
  can_read w =
      let found = new_signer-AreFound o s valid in
      check_canonicalization-named (read_params t s h body w) v (or_simple s.options.header_can)
        (or_simple s.options.body_can) s.header_can s.body_can (cans_get_read t s h body w)
        (rw found.options
          (canonicalization-IsNamed (or_simple o.header_can) s.header_can found.header_can))
        (rw found.options
          (canonicalization-IsNamed (or_simple o.body_can) s.body_can found.body_can))
        (length_read t s h body w)

  IsSigned-IsRight :
      (out : Bytes)
      → IsSafe t s h body
      → IsSigned t s h body message out
      → IsRight h body message out c q v
  IsSigned-IsRight out safe signed =
      let (w, parsed, right) =
        check_hashes-read t s h body message out c q v safe tags matching signed in
      record {
        field = signed.field;
        written = signed.written;
        read = signed.read;
        tags = read_params t s h body w;
        parsed = parsed;
        can = (s.header_can, s.body_can);
        named = can_read w;
        hashes = rw (keys_read t s h body w keys) right;
      }

-- With options that NewSigner accepts, a key that signs, and a message whose header can be read and
-- that does not begin with white space, Sign writes the message with a field in front that a reader
-- finds as its first field, before the header and the body of the message. A verifier that has the
-- published key, and otherwise only what it reads, reads this field as parameters, takes the
-- canonicalizations from their tag c= and the signed keys from their tag h=, and with these finds the
-- hash of the body and the signature right. This takes libraries and a key of the verifier that match
-- those of the signer; tags that stand once each, and are texts without semicolons, without white
-- space at their ends, without a line break, and without the pattern by which a verifier finds the
-- signature; a list of signed keys that is not empty and has neither colons, white space nor the name
-- of the field; and texts of signatures that are not empty, without a semicolon and white space.
pub sign-IsRight :
    (t : Tools) (o : SignOptions) (s : Signer) (h : List Bytes) (body message sig : Bytes)
    (c : Crypto) (q : QueryResult) (v : Verification)
    → new_signer o ≡ done s
    → read_header message ≡ some (h, body)
    → is_continuation message ≡ false
    → IsSafe t s h body
    → AreTags (sign_params t s h body) (other_keys (sign_params t s h body)) []
    → AreKeys (signed_keys s.options.header_keys h)
    → AreMatching t s c q
    → s.key.sign
        (t.sha256 (
          hashed_data s.header_can h
            (signed_keys s.options.header_keys h)
            (sign_params t s h body)))
        (told_hash s.key.kind)
      ≡ some sig
    → (out : Bytes) × (sign t (some o) message ≡ done out) × IsRight h body message out c q v
sign-IsRight t o s h body message sig c q v valid header start safe tags keys matching signed =
    let (out, ran, right) = sign_lem t o s h body message sig valid header start safe signed in
    (out, ran, IsSigned-IsRight t o s h body message valid tags keys c q matching v out safe right)
