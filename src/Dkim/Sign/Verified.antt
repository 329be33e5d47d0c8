-- ===== src/Dkim/Sign/Verified.antt =====
-- middleware/authres/dkim/sign.go and verify.go: the hashes of a signed message are those that a
-- verifier computes.
use smtpx.Base.{
  ℕ, true, false, List, [], ◌∷◌, Option, none, some, Bytes, codes, ◌≡◌, ◌≢◌, refl, sym, ap, ◌∙◌,
  any, equal, equal_iff, equal_refl, select, sort_strings-any, All, trim_space, ◌==◌, arith,
}
use smtpx.Dkim.Format.{is_other, keys_of, tag_key, format_signature}
use smtpx.Dkim.Format.Fold.{folded, folded-ne-semicolon}
use smtpx.Dkim.Format.Fold.Stripped.{IsWord, strip-word, strip-folded, strip-trim_space}
use smtpx.Dkim.Format.Tagged.{other_keys, get-put_other}
use smtpx.Dkim.Format.Tagged.Reparsed.{AreTags, collect, get-collect_tag, parse_header_params-field}
use smtpx.Dkim.Params.{
  Params, params, find, get, put, parse_header_params, parse_header_field, strip_whitespace,
  Canonicalization,
}
use smtpx.Dkim.Query.{Crypto, QueryResult, pass, verifies}
use smtpx.Dkim.Sign.{
  Tools, Signer, signed_keys, sign_params, put_some, told_hash, map_some, format_time,
  format_tag_list, present,
}
use smtpx.Dkim.Sign.Signed.{IsSafe, IsSigned, IsSignatureText}
use smtpx.Dkim.Verify.{Verification, canonical_body, signed_data, check_hashes}

any-put :
    (j k v : Bytes) (m : Params)
    → any (equal j) (keys_of m) ≡ true
    → any (equal j) (keys_of (put k v m)) ≡ true
unfolding keys_of put
any-put j k v [] h = ground arith
any-put j k v ((i, w) ∷ m) h = ground (arith, any-put j k v m)

pub any-put_some :
    (j k : Bytes) (o : Option Bytes) (m : Params)
    → any (equal j) (keys_of m) ≡ true
    → any (equal j) (keys_of (put_some k o m)) ≡ true
unfolding put_some
any-put_some j k none m h = h
any-put_some j k (some v) m h = any-put j k v m h

pub get-put_some :
    (j k : Bytes) (o : Option Bytes) (m : Params)
    → equal j k ≡ false
    → get j (put_some k o m) ≡ get j m
unfolding put_some
get-put_some j k none m h = refl
get-put_some j k (some v) m h = get-put_other k j v m h

pub any-others :
    (j : Bytes) (ks : List Bytes)
    → equal j tag_key ≡ false
    → any (equal j) (select is_other ks) ≡ any (equal j) ks
any-others j [] h = refl
any-others j (k ∷ ks) h =
    ground (arith, equal_iff j k, equal_iff k tag_key, equal_iff j tag_key, any-others j ks)

abbrev body_hash : Bytes
body_hash = codes "bh"

body_hash_get :
    (t : Tools) (s : Signer) (h : List Bytes) (body : Bytes)
    → get body_hash (sign_params t s h body)
      ≡ t.encode_base64 (t.sha256 (canonical_body s.body_can body))
unfolding sign_params get find equal
body_hash_get t s h body =
    get-put_some body_hash (codes "x") (map_some format_time s.options.expiration) _ refl
    ∙ (get-put_some body_hash (codes "q") (map_some format_tag_list s.options.query_methods) _ refl
        ∙ (get-put_some body_hash (codes "i") (present s.options.identifier) _ refl ∙ refl))

body_hash_listed :
    (t : Tools) (s : Signer) (h : List Bytes) (body : Bytes)
    → any (equal body_hash) (other_keys (sign_params t s h body)) ≡ true
unfolding sign_params keys_of equal
body_hash_listed t s h body =
    sort_strings-any (equal body_hash) (select is_other (keys_of (sign_params t s h body)))
    ∙ (any-others body_hash (keys_of (sign_params t s h body)) refl
        ∙ any-put_some body_hash (codes "x") (map_some format_time s.options.expiration) _ (
            any-put_some body_hash (codes "q") (map_some format_tag_list s.options.query_methods) _
              (any-put_some body_hash (codes "i") (present s.options.identifier) _ refl)))

-- The packages that a verifier uses and those of the signer agree, and what the key signs the
-- verifier's key verifies.
pub record AreMatching (t : Tools) (s : Signer) (c : Crypto) (q : QueryResult) : Type 0 where
  pub hash : (x : Bytes) → c.sha256 x ≡ t.sha256 x
  pub base64 : (x : Bytes) → c.decode_base64 (t.encode_base64 x) ≡ some x
  pub words : (x : Bytes) → IsWord (t.encode_base64 x)
  pub key :
      (hashed sig : Bytes)
      → s.key.sign hashed (told_hash s.key.kind) ≡ some sig
      → verifies c q.verifier hashed sig ≡ true

not_semicolon : (s : Bytes) → All (λ d. d ≢ b';') s → All (λ d. (d == b';') ≡ false) s
not_semicolon [] h = tt
not_semicolon (d ∷ s) (hd, h) = (ground arith, not_semicolon s h)

check_hashes-pass :
    (c : Crypto) (q : QueryResult) (m : Params) (can : Canonicalization × Canonicalization)
    (h : List Bytes) (body : Bytes) (keys : List Bytes) (field : Bytes) (v : Verification)
    (hashed sig : Bytes)
    → c.decode_base64 (strip_whitespace (get body_hash m)) ≡ some hashed
    → c.decode_base64 (strip_whitespace (get tag_key m)) ≡ some sig
    → c.sha256 (canonical_body can.1 body) ≡ hashed
    → verifies c q.verifier (c.sha256 (signed_data can.0 h keys field)) sig ≡ true
    → check_hashes c q m can h body keys field v ≡ (v, pass tt)
unfolding check_hashes
check_hashes-pass c q m can h body keys field v hashed sig eh es same verified =
    rw (eh, check_hashes) (rw es (rw (same, equal_refl hashed) (rw verified refl)))

-- The parameters that a verifier reads, with the folded value of the signature.
abbrev pub read_params : Tools → Signer → List Bytes → Bytes → Bytes → Params
read_params t s h body w =
    (tag_key, w) ∷ collect (sign_params t s h body) (other_keys (sign_params t s h body)) []

module _ (t : Tools) (s : Signer) (h : List Bytes) (body : Bytes) (c : Crypto) (q : QueryResult)
    (matching : AreMatching t s c q)
    (tags : AreTags (sign_params t s h body) (other_keys (sign_params t s h body)) []) where
  body_hash_read :
      (w : Bytes)
      → c.decode_base64 (strip_whitespace (get body_hash (read_params t s h body w)))
        ≡ some (t.sha256 (canonical_body s.body_can body))
  unfolding equal
  body_hash_read w =
      let hashed = t.sha256 (canonical_body s.body_can body) in
      ap (λ b. c.decode_base64 (strip_whitespace b))
        (get-collect_tag (sign_params t s h body) body_hash w refl (body_hash_listed t s h body)
          ∙ body_hash_get t s h body)
      ∙ (ap c.decode_base64 (strip-word (t.encode_base64 hashed) (matching.words hashed))
          ∙ matching.base64 hashed)

  tag_key_first : (w : Bytes) → get tag_key (read_params t s h body w) ≡ w
  unfolding get find equal
  tag_key_first w = refl

  signature_read :
      (x : ℕ) (v sig : Bytes)
      → t.encode_base64 sig ≡ x ∷ v
      → c.decode_base64
          (strip_whitespace (get tag_key (read_params t s h body (trim_space (x ∷ folded v)))))
        ≡ some sig
  signature_read x v sig e =
      ap (λ b. c.decode_base64 (strip_whitespace b)) (tag_key_first (trim_space (x ∷ folded v)))
      ∙ (ap c.decode_base64 (
            strip-trim_space (x ∷ folded v)
            ∙ (strip-folded x v (rw e at (matching.words sig)) ∙ sym e))
          ∙ matching.base64 sig)

  hashes_pass :
      (field b sig : Bytes) (vf : Verification)
      → t.encode_base64 sig ≡ b
      → IsSignatureText b
      → field ≡ format_signature (put tag_key b (sign_params t s h body))
      → s.key.sign
          (t.sha256
            (signed_data s.header_can (field ∷ h) (signed_keys s.options.header_keys h) field))
          (told_hash s.key.kind)
        ≡ some sig
      → (w : Bytes) × (parse_header_params (parse_header_field field).1
          ≡ params (read_params t s h body w))
        × (check_hashes c q
              (read_params t s h body w)
              (s.header_can, s.body_can)
              (field ∷ h)
              body
              (signed_keys s.options.header_keys h)
              field
              vf
            ≡ (vf, pass tt))
  hashes_pass field [] sig vf e text written signed = absurd text
  hashes_pass field (x ∷ v) sig vf e (plain, line) written signed = (
    trim_space (x ∷ folded v),
    ap (λ f. parse_header_params (parse_header_field f).1) written
        ∙ parse_header_params-field (sign_params t s h body) x v tags
            (not_semicolon (x ∷ folded v) (plain.0, folded-ne-semicolon v plain.1)),
    check_hashes-pass c q (read_params t s h body (trim_space (x ∷ folded v)))
        (s.header_can, s.body_can) (field ∷ h) body (signed_keys s.options.header_keys h) field vf
        (t.sha256 (canonical_body s.body_can body)) sig (body_hash_read (trim_space (x ∷ folded v)))
        (signature_read x v sig e) (matching.hash (canonical_body s.body_can body))
        (rw (matching.hash _) (matching.key _ sig signed)),
  )

-- The hashes of a signed message are right with the parameters that a verifier reads in the field in
-- front of it, and the canonicalizations and keys of the signer.
pub check_hashes-read :
    (t : Tools) (s : Signer) (h : List Bytes) (body message out : Bytes)
    → (c : Crypto) (q : QueryResult) (vf : Verification) → IsSafe t s h body
    → AreTags (sign_params t s h body) (other_keys (sign_params t s h body)) []
    → AreMatching t s c q
    → (signed : IsSigned t s h body message out)
    → (w : Bytes) × (parse_header_params (parse_header_field signed.field).1
        ≡ params (read_params t s h body w))
      × (check_hashes c q
            (read_params t s h body w)
            (s.header_can, s.body_can)
            (signed.field ∷ h)
            body
            (signed_keys s.options.header_keys h)
            signed.field
            vf
          ≡ (vf, pass tt))
check_hashes-read t s h body message out c q vf safe tags matching signed =
    hashes_pass t s h body c q matching tags signed.field (t.encode_base64 signed.sig) signed.sig vf
      refl (safe.text _ signed.sig signed.signature) signed.tags signed.signature
