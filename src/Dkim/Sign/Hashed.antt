-- ===== src/Dkim/Sign/Hashed.antt =====
-- middleware/authres/dkim/sign.go and verify.go: the data of the signer's hash and the data of the
-- verifier's.
use smtpx.Base.{
  ℕ, false, List, [], ◌∷◌, ◌++◌, some, Bytes, codes, crlf, equal_fold, length, ◌≡◌, ◌≢◌, refl, sym,
  ap, ap₂, ◌∙◌, append_assoc, cut, cut-append, trim_space, select, All, ◌==◌, if◌then◌else◌,
}
use mathlib.Core.Path.{subst}
use smtpx.Dkim.Format.{is_other, keys_of, param_text, tag_key, fold_header_field, format_signature}
use smtpx.Dkim.Format.Fold.{
  folded, fold_header_field-tag, folded-ne-semicolon, fold_header_field-empty,
}
use smtpx.Dkim.Format.Tagged.{other_tags, other_tags-name, other_tags-scan, format_signature-put}
use smtpx.Dkim.Header.{HeaderPicker, pick, remove_signature}
use smtpx.Dkim.Header.Prepended.{with_field, pick-with_field}
use smtpx.Dkim.Header.Removed.{scan, scan-append, remove_signature-tag}
use smtpx.Dkim.Params.{Params, Canonicalization, get, put, parse_header_field}
use smtpx.Dkim.Sign.{hashed_data}
use smtpx.Dkim.Verify.{canonical_header, signed_fields, signed_data, trim_crlf}
use smtpx.Dkim.Verify.Trimmed.{trim_crlf-canonical_header}

signed_fields-with_field :
    (can : Canonicalization) (f : Bytes) (p : HeaderPicker) (keys : List Bytes)
    → All (λ k. equal_fold (parse_header_field f).0 k ≡ false) keys
    → signed_fields can (with_field f p) keys ≡ signed_fields can p keys
unfolding signed_fields
signed_fields-with_field can f p [] h = refl
signed_fields-with_field can f p (k ∷ ks) (hk, h) =
    let p' = (pick p k).0 in
    let kv = (pick p k).1 in
    ap
      (λ (o : HeaderPicker × Bytes).
        if length o.1 == 0
        then signed_fields can o.0 ks
        else canonical_header can o.1 ++ signed_fields can o.0 ks)
      (pick-with_field f k p hk)
    ∙ ap (λ r. if length kv == 0 then r else canonical_header can kv ++ r)
        (signed_fields-with_field can f p' ks h)

abbrev name : Bytes
name = codes "DKIM-Signature"

-- The field up to the value of the signature.
front : Params → Bytes
front m = other_tags name m ++ (crlf ++ codes " b=")

tags-cut :
    (m : Params) (t : Bytes) → (r : Bytes) × (cut (other_tags name m ++ t) b':' ≡ some (name, r))
unfolding cut
tags-cut m t =
    let (r, starts) = other_tags-name name m in
    (r ++ t, cut-append (other_tags name m) t name r b':' (rw starts refl))

parse_header_field-cut :
    (s k v : Bytes) → cut s b':' ≡ some (k, v) → (parse_header_field s).0 ≡ trim_space k
unfolding parse_header_field
parse_header_field-cut s k v h = rw (h, parse_header_field) refl

field_name :
    (m : Params) (v : Bytes) → (parse_header_field (format_signature (put tag_key v m))).0 ≡ name
unfolding trim_space
field_name m v =
    let t = crlf ++ fold_header_field (codes " b=" ++ v) in
    let (r, starts) = tags-cut m t in
    ap (λ s. (parse_header_field s).0) (format_signature-put v m)
    ∙ parse_header_field-cut (other_tags name m ++ t) name r starts

-- The field that the signer hashes is the front and a line break.
format_signature-empty : (m : Params) → format_signature (put tag_key [] m) ≡ front m ++ crlf
unfolding front
format_signature-empty m =
    format_signature-put [] m
    ∙ (ap (λ t. other_tags name m ++ (crlf ++ t)) fold_header_field-empty
        ∙ sym (append_assoc (other_tags name m) (crlf ++ codes " b=") crlf))

-- What a tag must not hold: the pattern of the signature's tag, a `b`, white space and an equals sign.
abbrev pub HasPlainTags : Params → Type 0
HasPlainTags m =
    All (λ k. scan false (param_text k (get k m)) ≡ some false) (select is_other (keys_of m))

front-scan :
    (m : Params)
    → HasPlainTags m
    → scan false (other_tags name m ++ (crlf ++ codes " ")) ≡ some false
unfolding scan
front-scan m h =
    rw (scan-append false (other_tags name m) (crlf ++ codes " "), other_tags-scan m h) refl

remove_signature-format :
    (m : Params) (c : ℕ) (v : Bytes)
    → HasPlainTags m
    → All (λ d. d ≢ b';') (c ∷ v)
    → remove_signature (format_signature (put tag_key (c ∷ v) m)) ≡ front m
unfolding front
remove_signature-format m c v h (hc, hv) =
    let prefix = other_tags name m in
    ap remove_signature (
      format_signature-put (c ∷ v) m
      ∙ (ap (λ t. prefix ++ (crlf ++ t)) (fold_header_field-tag c v)
          ∙ sym (append_assoc prefix (crlf ++ codes " ") (codes "b=" ++ (c ∷ folded v)))))
    ∙ (remove_signature-tag (prefix ++ (crlf ++ codes " ")) (folded v) c (front-scan m h) hc
          (folded-ne-semicolon v hv)
        ∙ append_assoc prefix (crlf ++ codes " ") (codes "b="))

-- What the verifier hashes for the field of the signer, in front of the header that was signed, is
-- what the signer hashed: if the signature's text is not empty and holds no semicolon, no other tag
-- holds the pattern that is cut out, and the field is not among those that are signed.
pub signed_data-format :
    (can : Canonicalization) (h keys : List Bytes) (m : Params) (c : ℕ) (v : Bytes)
    → HasPlainTags m
    → All (λ d. d ≢ b';') (c ∷ v)
    → All (λ k. equal_fold (codes "DKIM-Signature") k ≡ false) keys
    → (let field = format_signature (put tag_key (c ∷ v) m) in
        signed_data can (field ∷ h) keys field ≡ hashed_data can h keys m)
unfolding signed_data hashed_data front
signed_data-format can h keys m c v plain sig others =
    let front_cut = tags-cut m (crlf ++ codes " b=") in
    ap₂ (λ a b. a ++ b)
      (signed_fields-with_field can (format_signature (put tag_key (c ∷ v) m))
        (record { h = h; picked = [] }) keys
        (subst (λ n. All (λ k. equal_fold n k ≡ false) keys) (sym (field_name m (c ∷ v))) others))
      (ap (λ t. trim_crlf (canonical_header can t)) (remove_signature-format m c v plain sig)
        ∙ (sym (trim_crlf-canonical_header can (front m) name front_cut.0 front_cut.1)
            ∙ ap (λ t. trim_crlf (canonical_header can t)) (sym (format_signature-empty m))))
