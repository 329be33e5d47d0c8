-- ===== src/Dkim/Sign/Signed.antt =====
-- middleware/authres/dkim/sign.go: what `Sign` writes.
use smtpx.Base.{
  false, List, [], ◌∷◌, ◌++◌, some, Bytes, codes, ◌≡◌, ◌≢◌, refl, sym, ap, ◌∙◌, All, equal_fold,
}
use smtpx.Dkim.Format.{tag_key, format_signature}
use smtpx.Dkim.Format.Fold.{IsLine}
use smtpx.Dkim.Header.{is_continuation, read_header}
use smtpx.Dkim.Header.Read.{with_first}
use smtpx.Dkim.Params.{put}
use smtpx.Dkim.Sign.{
  Tools, SignOptions, Signer, done, new_signer, signed_keys, sign_params, hashed_data, told_hash,
  sign_header, sign_message, sign,
}
use smtpx.Dkim.Sign.Hashed.{HasPlainTags, signed_data-format}
use smtpx.Dkim.Sign.Readable.{HasOneLineTags, read_header-format}
use smtpx.Dkim.Verify.{signed_data}

-- The text of a signature: not empty, with no semicolon and no line break.
abbrev pub IsSignatureText : Bytes → Type 0
IsSignatureText [] = ⊥
IsSignatureText (c ∷ v) = All (λ d. d ≢ b';') (c ∷ v) × IsLine (c ∷ v)

-- What a signer's tags, the keys that it signs and the texts of its signatures must not hold.
pub record IsSafe (t : Tools) (s : Signer) (h : List Bytes) (body : Bytes) : Type 0 where
  pub plain_tags : HasPlainTags (sign_params t s h body)
  pub one_line_tags : HasOneLineTags (sign_params t s h body)
  pub other_keys :
      All (λ k. equal_fold (codes "DKIM-Signature") k ≡ false) (signed_keys s.options.header_keys h)
  pub text :
      (hashed sig : Bytes)
      → s.key.sign hashed (told_hash s.key.kind) ≡ some sig
      → IsSignatureText (t.encode_base64 sig)

-- `out` is `message` with a field in front; a reader finds that field first, and behind it the header
-- and the body of `message`; and the signature in it is one of the key, over the hash of the data that a
-- verifier puts together from what it reads.
pub record IsSigned (t : Tools) (s : Signer) (h : List Bytes) (body message out : Bytes)
    : Type 0 where
  pub field : Bytes
  pub sig : Bytes
  pub written : out ≡ field ++ message
  pub tags : field ≡ format_signature (put tag_key (t.encode_base64 sig) (sign_params t s h body))
  pub read : read_header out ≡ some (field ∷ h, body)
  pub signature :
      s.key.sign
        (t.sha256
          (signed_data s.header_can (field ∷ h) (signed_keys s.options.header_keys h) field))
        (told_hash s.key.kind)
      ≡ some sig

module _ (t : Tools) (s : Signer) (h : List Bytes) (body message : Bytes)
    (header : read_header message ≡ some (h, body)) (start : is_continuation message ≡ false)
    (safe : IsSafe t s h body) where
  IsSigned-text :
      (sig b : Bytes)
      → t.encode_base64 sig ≡ b
      → IsSignatureText b
      → s.key.sign
          (t.sha256 (
            hashed_data s.header_can h
              (signed_keys s.options.header_keys h)
              (sign_params t s h body)))
          (told_hash s.key.kind)
        ≡ some sig
      → IsSigned t s h body message
          (format_signature (put tag_key (t.encode_base64 sig) (sign_params t s h body)) ++ message)
  IsSigned-text sig [] e text signed = absurd text
  IsSigned-text sig (c ∷ v) e (no_semicolon, line) signed =
      let m = sign_params t s h body in
      let field = format_signature (put tag_key (c ∷ v) m) in
      let same : format_signature (put tag_key (t.encode_base64 sig) m) ≡ field =
        ap (λ b. format_signature (put tag_key b m)) e in
      record {
        field = field;
        sig = sig;
        written = ap (λ f. f ++ message) same;
        tags = sym same;
        read =
            ap (λ f. read_header (f ++ message)) same
            ∙ (read_header-format m c v message safe.one_line_tags line start
                ∙ ap (with_first field) header);
        signature =
            ap (λ d. s.key.sign (t.sha256 d) (told_hash s.key.kind))
              (signed_data-format s.header_can h (signed_keys s.options.header_keys h) m c v
                safe.plain_tags no_semicolon safe.other_keys)
            ∙ signed;
      }

  sign_message-signed :
      (sig : Bytes)
      → s.key.sign
          (t.sha256 (
            hashed_data s.header_can h
              (signed_keys s.options.header_keys h)
              (sign_params t s h body)))
          (told_hash s.key.kind)
        ≡ some sig
      → sign_message t s message ≡ done (put tag_key (t.encode_base64 sig) (sign_params t s h body))
  unfolding sign_message
  sign_message-signed sig signed = rw (header, sign_message) (rw (signed, sign_header) refl)

-- With options that NewSigner accepts, a key that signs, and a message whose header can be read and
-- that does not begin with white space, Sign writes the message with a field in front that a reader
-- finds as its first field, before the header and the body of the message. The signature in it is
-- one of the key over the hash of the data that a verifier puts together from what it reads. The
-- tags must not hold a line break or the pattern by which a verifier finds the signature, the keys
-- that are signed not the name of the field, and the text of a signature is not empty and has no
-- semicolon and no line break.
pub sign_lem :
    (t : Tools) (o : SignOptions) (s : Signer) (h : List Bytes) (body message sig : Bytes)
    → new_signer o ≡ done s
    → read_header message ≡ some (h, body)
    → is_continuation message ≡ false
    → IsSafe t s h body
    → s.key.sign
        (t.sha256 (
          hashed_data s.header_can h
            (signed_keys s.options.header_keys h)
            (sign_params t s h body)))
        (told_hash s.key.kind)
      ≡ some sig
    → (out : Bytes) × (sign t (some o) message ≡ done out) × IsSigned t s h body message out
unfolding sign
sign_lem t o s h body message sig valid header start safe signed = (
  format_signature (put tag_key (t.encode_base64 sig) (sign_params t s h body)) ++ message,
  rw (valid, sign) (rw (sign_message-signed t s h body message header start safe sig signed) refl),
  IsSigned-text t s h body message header start safe sig (t.encode_base64 sig) refl
      (safe.text
        (t.sha256 (
          hashed_data s.header_can h (signed_keys s.options.header_keys h)
            (sign_params t s h body)))
        sig signed)
      signed,
)
