-- ===== src/Envelope/Headers/Forgotten.antt =====
-- Which errors `Headers` (envelope/mail.go) reports.
use smtpx.Base.{
  Bool, true, false, List, [], ◌∷◌, ◌++◌, Bytes, ◌≡◌, refl, ap, ◌∙◌, arith, split, split-some,
  length, ◌<◌,
}
use smtpx.Envelope.Headers.{
  Header, Mime, Failed, fine, failed, DecodingConfig, default_config, decode_parts, decode_words,
  decode_values, decode_all, is_quoted, headers,
}
use smtpx.Envelope.Mail.{Mail}

-- No word of a header fails to be decoded.
abbrev pub Decodes : Mime → Type 0
Decodes m = (w : Bytes) → (m.decode_header w).1 ≡ fine

decode_parts-fine :
    (m : Mime) (specials : Bytes) (parts : List Bytes) (err : Failed)
    → Decodes m
    → (err ≡ fine → (decode_parts m specials parts err).1 ≡ fine)
      × (0 < length parts → (decode_parts m specials parts err).1 ≡ fine)
unfolding decode_parts
decode_parts-fine m specials [] err d = ((λ q. q), (λ h. absurd (omega arith)))
decode_parts-fine m specials (p ∷ parts) err d =
    let rest = (decode_parts-fine m specials parts (m.decode_header p).1 d).0 (d p) in
    ((λ q. rest), (λ h. rest))

decode_words-fine :
    (m : Mime) (specials v : Bytes) (quote : Bool) (err : Failed)
    → Decodes m
    → (err ≡ fine → (decode_words m specials v quote err).1 ≡ fine)
      × (quote ≡ true → (decode_words m specials v quote err).1 ≡ fine)
unfolding decode_words
decode_words-fine m specials v false err d = ((λ q. q), (λ h. ground arith))
decode_words-fine m specials v true err d =
    let all = (decode_parts-fine m specials (split v b' ') err d).1 (split-some v b' ') in
    ((λ q. all), (λ h. all))

decode_values-fine :
    (m : Mime) (specials : Bytes) (quote : Bool) (vv : List Bytes) (err : Failed)
    → Decodes m
    → (err ≡ fine → (decode_values m specials quote vv err).1 ≡ fine)
      × (quote ≡ true → 0 < length vv → (decode_values m specials quote vv err).1 ≡ fine)
unfolding decode_values
decode_values-fine m specials quote [] err d = ((λ q. q), (λ h lt. absurd (omega arith)))
decode_values-fine m specials quote (v ∷ vv) err d =
    let one = decode_words-fine m specials v quote err d in
    let err1 = (decode_words m specials v quote err).1 in
    let rest = (decode_values-fine m specials quote vv err1 d).0 in
    ((λ q. rest (one.0 q)), (λ h lt. rest (one.1 h)))

decode_all-fine :
    (m : Mime) (cfg : DecodingConfig) (h : Header) → Decodes m → (decode_all m cfg h fine).1 ≡ fine
unfolding decode_all
decode_all-fine m cfg [] d = refl
decode_all-fine m cfg ((k, vv) ∷ h) d =
    let quote = is_quoted cfg k in
    let one = (decode_values-fine m cfg.specials quote vv fine d).0 refl in
    ap (λ e. (decode_all m cfg h e).1) one ∙ decode_all-fine m cfg h d

decode_all-forgets :
    (m : Mime) (cfg : DecodingConfig) (h1 h2 : Header) (k v : Bytes) (vv : List Bytes)
    (err : Failed)
    → Decodes m
    → is_quoted cfg k ≡ true
    → (decode_all m cfg (h1 ++ ((k, v ∷ vv) ∷ h2)) err).1 ≡ fine
unfolding decode_all
decode_all-forgets m cfg [] h2 k v vv err d q =
    let one =
      (decode_values-fine m cfg.specials (is_quoted cfg k) (v ∷ vv) err d).1 q (omega arith) in
    ap (λ e. (decode_all m cfg h2 e).1) one ∙ decode_all-fine m cfg h2 d
decode_all-forgets m cfg ((j, ws) ∷ h1) h2 k v vv err d q =
    decode_all-forgets m cfg h1 h2 k v vv (decode_values m cfg.specials (is_quoted cfg j) ws err).1
      d q

-- A header that could not be read to its end is reported as read without an error once it has an
-- address field with a value, in a mail that is not marked as UTF-8, if every word can be decoded:
-- the decoding of the words assigns the variable that holds the error.
pub read_error_forgotten :
    (m : Mime) (mail : Mail) (h1 h2 : Header) (k v : Bytes) (vv : List Bytes)
    → Decodes m
    → mail.utf8 ≡ false
    → is_quoted default_config k ≡ true
    → m.read_mime_header mail.raw_headers ≡ (h1 ++ ((k, v ∷ vv) ∷ h2), failed)
    → (headers m mail []).1 ≡ fine
unfolding headers
read_error_forgotten m mail h1 h2 k v vv d not_utf8 quoted read =
    rw (read, not_utf8) (decode_all-forgets m default_config h1 h2 k v vv failed d quoted)
