-- ===== src/Dkim/Format/Tagged/Reparsed.antt =====
-- middleware/authres/dkim/header.go: the parameters that are read of the text of a signature field.
use smtpx.Base.{
  ℕ, ◌+◌, true, false, List, [], ◌∷◌, ◌++◌, none, some, Bytes, codes, crlf, ◌≡◌, refl, sym, ap, ◌∙◌,
  inl, inr, append_assoc, any, equal, equal_iff, trim_space, cut, cut-append, split, select,
  sort_strings-any, length, ltb, ◌==◌, if◌then◌else◌, Bool-cases, All, arith,
}
use smtpx.Dkim.Format.{
  add_param, add_params, is_other, keys_of, param_text, tag_key, format_signature,
}
use smtpx.Dkim.Format.Fold.{folded, fold_header_field-tag}
use smtpx.Dkim.Format.Tagged.{
  other_keys, other_tags, rest_tags, other_tags-rest, format_signature-put,
}
use smtpx.Dkim.Params.{
  Params, params, find, get, put, add_pairs, parse_header_params, parse_header_field,
}
use smtpx.Dkim.Params.Edges.{parse_header_params-trim_space}
use smtpx.Dkim.Params.Written.{IsTag, add_pairs-tag, add_pairs-last_tag}

-- The parameters in the order in which they are read, the last one first.
pub collect : Params → List Bytes → Params → Params
collect m [] acc = acc
collect m (k ∷ ks) acc = collect m ks ((k, get k m) ∷ acc)

-- Each tag is read as it is written, and no key stands twice.
abbrev pub AreTags : Params → List Bytes → Params → Type 0
AreTags m [] acc = Unit
AreTags m (k ∷ ks) acc = (find k acc ≡ none) × IsTag k (get k m) × AreTags m ks ((k, get k m) ∷ acc)

-- The text is read as `acc`, whatever follows it.
abbrev ReadsAs : Bytes → Params → Type 0
ReadsAs x acc = (t : Bytes) → add_pairs (split (x ++ t) b';') [] ≡ add_pairs (split t b';') acc

tag_text :
    (k v t : Bytes) → param_text k v ++ t ≡ (codes " " ++ (k ++ (codes "=" ++ v))) ++ (b';' ∷ t)
tag_text k v t =
    ap (λ s. 32 ∷ s)
      (append_assoc k (codes "=" ++ (v ++ codes ";")) t
        ∙ (ap (λ s. k ++ (b'=' ∷ s)) (append_assoc v (codes ";") t)
            ∙ sym (append_assoc k (codes "=" ++ v) (b';' ∷ t))))

ReadsAs-tag :
    (x k v : Bytes) (acc : Params)
    → ReadsAs x acc
    → IsTag k v
    → find k acc ≡ none
    → ReadsAs (x ++ param_text k v) ((k, v) ∷ acc)
ReadsAs-tag x k v acc h tag fresh t =
    ap (λ s. add_pairs (split s b';') []) (append_assoc x (param_text k v) t)
    ∙ (h (param_text k v ++ t)
        ∙ (ap (λ s. add_pairs (split s b';') acc) (tag_text k v t)
            ∙ add_pairs-tag (codes " ") k v t acc (refl, tt) tag fresh))

ReadsAs-next_line :
    (x k v : Bytes) (acc : Params)
    → ReadsAs x acc
    → IsTag k v
    → find k acc ≡ none
    → ReadsAs (x ++ (crlf ++ param_text k v)) ((k, v) ∷ acc)
ReadsAs-next_line x k v acc h tag fresh t =
    ap (λ s. add_pairs (split s b';') []) (append_assoc x (crlf ++ param_text k v) t)
    ∙ (h ((crlf ++ param_text k v) ++ t)
        ∙ (ap (λ s. add_pairs (split (crlf ++ s) b';') acc) (tag_text k v t)
            ∙ add_pairs-tag (crlf ++ codes " ") k v t acc (refl, (refl, (refl, tt))) tag fresh))

ReadsAs-add_param :
    (k v s line : Bytes) (acc : Params)
    → ReadsAs (s ++ line) acc
    → IsTag k v
    → find k acc ≡ none
    → ReadsAs ((add_param k v (s, line)).0 ++ (add_param k v (s, line)).1) ((k, v) ∷ acc)
unfolding add_param
ReadsAs-add_param k v s line acc h tag fresh =
    let broken : (s ++ (line ++ crlf)) ++ param_text k v ≡ (s ++ line) ++ (crlf ++ param_text k v) =
      ap (λ t. t ++ param_text k v) (sym (append_assoc s line crlf))
      ∙ append_assoc (s ++ line) crlf (param_text k v) in
    elim (Bool-cases (ltb 75 (3 + length line + length v + length k))) [
      | inl b ↦ rw b (rw broken (ReadsAs-next_line (s ++ line) k v acc h tag fresh))
      | inr b ↦ rw b (
          rw (← append_assoc s line (param_text k v)) (ReadsAs-tag (s ++ line) k v acc h tag fresh))
    ]

ReadsAs-add_params :
    (m : Params) (ks : List Bytes) (s line : Bytes) (acc : Params)
    → ReadsAs (s ++ line) acc
    → AreTags m ks acc
    → ReadsAs ((add_params m ks (s, line)).0 ++ (add_params m ks (s, line)).1) (collect m ks acc)
unfolding add_params collect
ReadsAs-add_params m [] s line acc h tags = h
ReadsAs-add_params m (k ∷ ks) s line acc h (fresh, tag, tags) =
    let w = add_param k (get k m) (s, line) in
    ReadsAs-add_params m ks w.0 w.1 ((k, get k m) ∷ acc)
      (ReadsAs-add_param k (get k m) s line acc h tag fresh) tags

ReadsAs-rest_tags :
    (m : Params) → AreTags m (other_keys m) [] → ReadsAs (rest_tags m) (collect m (other_keys m) [])
unfolding rest_tags
ReadsAs-rest_tags m tags = ReadsAs-add_params m (other_keys m) [] [] [] (λ t. refl) tags

abbrev name : Bytes
name = codes "DKIM-Signature"

parse_header_field-value :
    (s k v : Bytes) → cut s b':' ≡ some (k, v) → (parse_header_field s).1 ≡ trim_space v
unfolding parse_header_field
parse_header_field-value s k v h = rw (h, parse_header_field) refl

field_value :
    (m : Params) (c : ℕ) (v : Bytes)
    → (parse_header_field (format_signature (put tag_key (c ∷ v) m))).1
      ≡ trim_space (rest_tags m ++ (crlf ++ (codes " b=" ++ (c ∷ folded v))))
unfolding cut
field_value m c v =
    let tail = crlf ++ (codes " b=" ++ (c ∷ folded v)) in
    ap (λ s. (parse_header_field s).1)
      (format_signature-put (c ∷ v) m
        ∙ ap (λ t. other_tags name m ++ (crlf ++ t)) (fold_header_field-tag c v))
    ∙ parse_header_field-value (other_tags name m ++ tail) name (rest_tags m ++ tail) (
        cut-append (other_tags name m) tail name (rest_tags m) b':'
          (rw (other_tags-rest name m) refl))

tag_b : IsTag tag_key []
unfolding trim_space
tag_b = record {
  key = (refl, tt);
  key_part = (refl, tt);
  key_trimmed = refl;
  value_part = tt;
  value_trimmed = refl;
}

no_tag_key : (ks : List Bytes) → any (equal tag_key) (select is_other ks) ≡ false
no_tag_key [] = refl
no_tag_key (k ∷ ks) = ground (arith, equal_iff k tag_key, equal_iff tag_key k, no_tag_key ks)

pub find-collect :
    (m : Params) (j : Bytes) (ks : List Bytes) (acc : Params)
    → any (equal j) ks ≡ false
    → find j acc ≡ none
    → find j (collect m ks acc) ≡ none
unfolding collect find
find-collect m j [] acc h fresh = fresh
find-collect m j (k ∷ ks) acc h fresh = elim (Bool-cases (equal j k)) [
  | inl b ↦ cc (rw b at h)
  | inr b ↦ find-collect m j ks ((k, get k m) ∷ acc) (rw b at h) (rw b fresh)
]

find-collect-tag_key : (m : Params) → find tag_key (collect m (other_keys m) []) ≡ none
unfolding find
find-collect-tag_key m =
    find-collect m tag_key (other_keys m) []
      (sort_strings-any (equal tag_key) (select is_other (keys_of m)) ∙ no_tag_key (keys_of m)) refl

-- The parameters of the field are the tags that were written, and the folded value of the signature.
pub parse_header_params-field :
    (m : Params) (c : ℕ) (v : Bytes)
    → AreTags m (other_keys m) []
    → All (λ d. (d == b';') ≡ false) (c ∷ folded v)
    → parse_header_params (parse_header_field (format_signature (put tag_key (c ∷ v) m))).1
      ≡ params ((tag_key, trim_space (c ∷ folded v)) ∷ collect m (other_keys m) [])
unfolding parse_header_params trim_space
parse_header_params-field m c v tags text =
    let tail = crlf ++ (codes " b=" ++ (c ∷ folded v)) in
    ap parse_header_params (field_value m c v)
    ∙ (parse_header_params-trim_space (rest_tags m ++ tail)
        ∙ (ReadsAs-rest_tags m tags tail
            ∙ add_pairs-last_tag (crlf ++ codes " ") tag_key (c ∷ folded v)
                (trim_space (c ∷ folded v)) (collect m (other_keys m) []) (refl, (refl, (refl, tt)))
                tag_b text refl (find-collect-tag_key m)))

get-collect :
    (m : Params) (j : Bytes) (ks : List Bytes) (acc : Params)
    → get j (collect m ks acc) ≡ (if any (equal j) ks then get j m else get j acc)
unfolding collect get find
get-collect m j [] acc = refl
get-collect m j (k ∷ ks) acc =
    ground (arith, equal_iff j k, get-collect m j ks ((k, get k m) ∷ acc))

-- A tag but that of the signature is read as it was written.
pub get-collect_tag :
    (m : Params) (j w : Bytes)
    → equal j tag_key ≡ false
    → any (equal j) (other_keys m) ≡ true
    → get j ((tag_key, w) ∷ collect m (other_keys m) []) ≡ get j m
unfolding get find
get-collect_tag m j w other listed = rw other (get-collect m j (other_keys m) [] ∙ rw listed refl)
