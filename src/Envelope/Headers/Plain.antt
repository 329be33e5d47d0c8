-- ===== src/Envelope/Headers/Plain.antt =====
-- `Headers` (envelope/mail.go) on a header without encoded words.
use smtpx.Base.{
  All, ◌==◌, ℕ, Bool, true, false, not, ◌&&◌, List, [], ◌∷◌, Bytes, codes, equal_refl, split,
  split-cases, join-split, has_prefix, ◌≡◌, refl, ◌∙◌, arith, Bool-cases, inl, inr, cut_on, is_some,
  if◌then◌else◌,
}
use smtpx.Envelope.Headers.{
  Header, Mime, fine, DecodingConfig, DecodingOption, default_config, configure, quote_word,
  decode_parts, decode_words, decode_values, decode_all, is_quoted, headers,
}
use smtpx.Envelope.Mail.{Mail}

-- A text without the start of an encoded word.
abbrev pub IsPlain : Bytes → Type 0
IsPlain w = is_some (cut_on w (codes "=?")) ≡ false

-- What `DecodeHeader` is documented to do: a text without an encoded word is left as it is.
abbrev pub LeavesPlain : Mime → Type 0
LeavesPlain m = (w : Bytes) → IsPlain w → m.decode_header w ≡ (w, fine)

-- Every value of the header is plain.
abbrev pub ArePlain : Header → Type 0
ArePlain h = All (λ f. All IsPlain (f.1)) h

-- What the parts of a plain text are: plain, and the first begins with a question mark only if the
-- text does.
abbrev PlainParts : Bytes → ℕ → Type 0
PlainParts s sep =
    (p : Bytes) × (ps : List Bytes) × (split s sep ≡ p ∷ ps)
    × IsPlain p
    × All IsPlain ps
    × (has_prefix p (codes "?") ≡ true → has_prefix s (codes "?") ≡ true)

IsPlain-tail :
    (c : ℕ) (s : Bytes) → IsPlain (c ∷ s) → (has_prefix (c ∷ s) (codes "=?") ≡ false) × IsPlain s
unfolding cut_on
IsPlain-tail c s plain = ground arith

IsPlain-cons :
    (c : ℕ) (s : Bytes) → has_prefix (c ∷ s) (codes "=?") ≡ false → IsPlain s → IsPlain (c ∷ s)
unfolding cut_on
IsPlain-cons c s front plain = ground arith

split-PlainParts : (s : Bytes) (sep : ℕ) → IsPlain s → PlainParts s sep
unfolding split cut_on has_prefix
split-PlainParts [] sep plain = ([], [], refl, refl, tt, (λ h. h))
split-PlainParts (c ∷ s) sep plain =
    let (front, rest) = IsPlain-tail c s plain in
    let (p, ps, parts, p_plain, ps_plain, first) = split-PlainParts s sep rest in
    elim (Bool-cases (c == sep)) [
      | inl same ↦ (
        [],
        p ∷ ps,
        split-cases c sep s p ps parts ∙ rw same refl,
        refl,
        (p_plain, ps_plain),
        (λ h. absurd (ground arith)),
      )
      | inr other ↦ (
        c ∷ p,
        ps,
        split-cases c sep s p ps parts ∙ rw other refl,
        IsPlain-cons c p (ground (arith, front, first)) p_plain,
        ps_plain,
        (λ h. ground arith),
      )
    ]

-- Both branches of a test give `c`.
either {ℓ} : {A : Type ℓ} {c : A} (t : Bool) (a b : A) → a ≡ c → b ≡ c → (if t then a else b) ≡ c
either true a b p q = p
either false a b p q = q

quote_word-same : (specials w : Bytes) → quote_word specials w w ≡ w
unfolding quote_word
quote_word-same specials w = rw (equal_refl w) refl

module _ (m : Mime) (leaves : LeavesPlain m) (specials : Bytes) where
  decode_parts-same :
      (parts : List Bytes) → All IsPlain parts → decode_parts m specials parts fine ≡ (parts, fine)
  unfolding decode_parts
  decode_parts-same [] plain = refl
  decode_parts-same (p ∷ parts) (here, plain) =
      rw (leaves p here, decode_parts-same parts plain, quote_word-same specials p) refl

  decode_words-same :
      (v : Bytes) (quote : Bool)
      → IsPlain v
      → decode_words m specials v quote fine ≡ ((v, fine), fine)
  unfolding decode_words
  decode_words-same v false plain = rw (leaves v plain) refl
  decode_words-same v true plain =
      let (p, ps, parts, here, rest, first) = split-PlainParts v b' ' plain in
      let same : decode_parts m specials (split v b' ') fine ≡ (split v b' ', fine) =
        rw parts (decode_parts-same (p ∷ ps) (here, rest)) in
      rw (same, join-split v b' ') refl

  decode_values-same :
      (quote : Bool) (vv : List Bytes)
      → All IsPlain vv
      → decode_values m specials quote vv fine ≡ (vv, fine)
  unfolding decode_values
  decode_values-same quote [] plain = refl
  decode_values-same quote (v ∷ vv) (here, plain) =
      rw (decode_words-same v quote here, decode_values-same quote vv plain) refl

decode_all-same :
    (m : Mime) (cfg : DecodingConfig) (h : Header)
    → LeavesPlain m
    → ArePlain h
    → decode_all m cfg h fine ≡ (h, fine)
unfolding decode_all
decode_all-same m cfg [] leaves plain = refl
decode_all-same m cfg ((k, vv) ∷ h) leaves (here, plain) =
    rw
      (
        decode_values-same m leaves cfg.specials (is_quoted cfg k) vv here,
        decode_all-same m cfg h leaves plain,
      )
      refl

-- A header without encoded words is returned as it was read, with no error, whatever the options: the
-- fields that hold addresses come out of their division into words and back unchanged.
pub headers_unchanged :
    (m : Mime) (mail : Mail) (options : List DecodingOption) (h : Header)
    → LeavesPlain m
    → ArePlain h
    → m.read_mime_header mail.raw_headers ≡ (h, fine)
    → headers m mail options ≡ (h, fine)
unfolding headers
headers_unchanged m mail options h leaves plain read =
    let cfg = configure options default_config in
    rw (read, decode_all-same m cfg h leaves plain)
      (either cfg.literal_headers _ _ refl
        (either (mail.utf8 && not (is_some (cut_on mail.raw_headers (codes "=?")))) _ _ refl refl))
