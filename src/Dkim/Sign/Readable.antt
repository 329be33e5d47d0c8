-- ===== src/Dkim/Sign/Readable.antt =====
-- middleware/authres/dkim/sign.go and header.go: a signed message is read as the message with the field
-- of the signature in front of its header.
use smtpx.Base.{
  ℕ, false, ◌∷◌, ◌++◌, some, Bytes, codes, crlf, ◌≡◌, refl, sym, ap, ◌∙◌, ◌==◌, append_assoc,
  select, All,
}
use mathlib.Core.Path.{subst}
use smtpx.Dkim.Format.{is_other, keys_of, param_text, tag_key, format_signature}
use smtpx.Dkim.Format.Fold.{
  IsLine, folded_lines, folded, fold_header_field-tag, folded_lines-IsFolded,
}
use smtpx.Dkim.Format.Tagged.{other_tags, other_tags-name, other_tags-place, format_signature-put}
use smtpx.Dkim.Header.{is_continuation, read_header}
use smtpx.Dkim.Header.Read.{
  IsFolded, place, place_step, inside, place-byte, place-join, with_first, read_header-field,
}
use smtpx.Dkim.Params.{Params, get, put}

abbrev name : Bytes
name = codes "DKIM-Signature"

-- No tag holds a line break.
abbrev pub HasOneLineTags : Params → Type 0
HasOneLineTags m =
    All (λ k. place inside (param_text k (get k m)) ≡ some inside) (select is_other (keys_of m))

-- The field without its last line break.
field_text : Params → ℕ → Bytes → Bytes
field_text m c v = other_tags name m ++ (crlf ++ (codes " b=" ++ (c ∷ folded_lines v)))

format_signature-text :
    (m : Params) (c : ℕ) (v : Bytes)
    → format_signature (put tag_key (c ∷ v) m) ≡ field_text m c v ++ crlf
unfolding field_text
format_signature-text m c v =
    format_signature-put (c ∷ v) m
    ∙ (ap (λ t. other_tags name m ++ (crlf ++ t)) (fold_header_field-tag c v)
        ∙ sym
            (append_assoc (other_tags name m) (crlf ++ (codes " b=" ++ (c ∷ folded_lines v))) crlf))

field_text-IsFolded :
    (m : Params) (c : ℕ) (v : Bytes)
    → HasOneLineTags m
    → IsLine (c ∷ v)
    → IsFolded (field_text m c v)
unfolding field_text place place_step
field_text-IsFolded m c v h (hc, hv) =
    place-join (other_tags name m) (crlf ++ (codes " b=" ++ (c ∷ folded_lines v)))
      (other_tags-place m h) (rw hc.0 (rw hc.1 (folded_lines-IsFolded v hv)))

read_header-text :
    (t : Bytes) (d : ℕ) (x message : Bytes)
    → t ≡ d ∷ x
    → ((d == 13) ≡ false) × ((d == 10) ≡ false)
    → IsFolded t
    → is_continuation message ≡ false
    → read_header ((t ++ crlf) ++ message) ≡ with_first (t ++ crlf) (read_header message)
read_header-text t d x message e (no_cr, no_lf) folded start =
    ap read_header (append_assoc t crlf message ∙ ap (λ s. s ++ (crlf ++ message)) e)
    ∙ (read_header-field d x message no_lf (place-byte d x no_cr (subst IsFolded e folded)).1 start
        ∙ ap (λ s. with_first (s ++ crlf) (read_header message)) (sym e))

-- The field of a signature in front of a text is read as the first field, if no tag holds a line
-- break and the text does not begin with white space.
pub read_header-format :
    (m : Params) (c : ℕ) (v message : Bytes)
    → HasOneLineTags m
    → IsLine (c ∷ v)
    → is_continuation message ≡ false
    → (let field = format_signature (put tag_key (c ∷ v) m) in
        read_header (field ++ message) ≡ with_first field (read_header message))
unfolding field_text
read_header-format m c v message h line start =
    let (r, starts) = other_tags-name name m in
    let tail = crlf ++ (codes " b=" ++ (c ∷ folded_lines v)) in
    let text = format_signature-text m c v in
    ap (λ t. read_header (t ++ message)) text
    ∙ (read_header-text (field_text m c v) b'D' (codes "KIM-Signature:" ++ (r ++ tail)) message
          (ap (λ t. t ++ tail) starts) (refl, refl) (field_text-IsFolded m c v h line) start
        ∙ ap (λ t. with_first t (read_header message)) (sym text))
