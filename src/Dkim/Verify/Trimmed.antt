-- ===== src/Dkim/Verify/Trimmed.antt =====
-- middleware/authres/dkim/verify.go and canonical.go: a line break at the end of a signature's field
-- does not reach the hash.
use smtpx.Base.{
  [], ◌∷◌, ◌++◌, some, Bytes, codes, crlf, ◌≡◌, refl, sym, ap, ◌∙◌, append_assoc, trim_space,
  to_lower, cut, cut-append, join, fields_by, fields_by-end,
}
use smtpx.Dkim.Canonical.{is_fold_space, relaxed_header}
use smtpx.Dkim.Params.{Canonicalization, simple, relaxed}
use smtpx.Dkim.Verify.{canonical_header, trim_crlf}

trim_crlf-crlf : (s : Bytes) → trim_crlf (s ++ crlf) ≡ trim_crlf s
unfolding trim_crlf
trim_crlf-crlf [] = refl
trim_crlf-crlf (c ∷ s) = rw (trim_crlf-crlf s, trim_crlf) refl

fields_by-crlf : (s : Bytes) → fields_by is_fold_space (s ++ crlf) ≡ fields_by is_fold_space s
fields_by-crlf s =
    ap (fields_by is_fold_space) (sym (append_assoc s (13 ∷ []) (10 ∷ [])))
    ∙ (fields_by-end is_fold_space (s ++ 13 ∷ []) 10 refl ∙ fields_by-end is_fold_space s 13 refl)

relaxed_header-some :
    (s k v : Bytes)
    → cut s b':' ≡ some (k, v)
    → (relaxed_header s
        ≡ trim_space (to_lower k)
          ++ (b':' ∷ (join (fields_by is_fold_space v) (codes " ") ++ crlf)))
unfolding relaxed_header
relaxed_header-some s k v h = rw (h, relaxed_header) refl

-- The field has a colon.
pub trim_crlf-canonical_header :
    (can : Canonicalization) (s k v : Bytes)
    → cut s b':' ≡ some (k, v)
    → trim_crlf (canonical_header can (s ++ crlf)) ≡ trim_crlf (canonical_header can s)
unfolding canonical_header
trim_crlf-canonical_header simple s k v h = trim_crlf-crlf s
trim_crlf-canonical_header relaxed s k v h = ap trim_crlf (
    relaxed_header-some (s ++ crlf) k (v ++ crlf) (cut-append s crlf k v b':' h)
    ∙ (ap (λ l. trim_space (to_lower k) ++ (b':' ∷ (join l (codes " ") ++ crlf))) (fields_by-crlf v)
        ∙ sym (relaxed_header-some s k v h)))
