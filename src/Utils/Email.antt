-- ===== src/Utils/Email.antt =====
-- utils/email.go
use smtpx.Base.{
  ℕ, List, [], ◌∷◌, Option, none, some, Bytes, ◌≡◌, refl, ap, sym, ◌∙◌, true, false, any, ◌==◌,
  if◌then◌else◌, Bool-cases, inl, inr, split-cases, ap₂, arith, split, to_lower, lower_byte,
}
use smtpx.Envelope.Message.{Address}

last_part : List Bytes → Bytes
last_part [] = []
last_part (p ∷ []) = p
last_part (p ∷ q ∷ ps) = last_part (q ∷ ps)

-- `DomainOfEmail`
unfoldable pub domain_of_email : Option Address → Bytes
unfolding last_part split to_lower
domain_of_email none = []
domain_of_email (some email) = to_lower (last_part (split email.address b'@'))

-- What stands behind the last separator of a text, or the whole of a text without one.
abbrev pub after_last : ℕ → Bytes → Bytes
after_last sep [] = []
after_last sep (c ∷ s) =
    let later = after_last sep s in
    if any (λ d. d == sep) s then later else if c == sep then s else c ∷ s

split-one : (sep : ℕ) (s : Bytes) → any (λ d. d == sep) s ≡ false → split s sep ≡ s ∷ []
split-one sep [] h = unfold split in refl
split-one sep (c ∷ s) h = elim (Bool-cases (c == sep)) [
  | inl same ↦ cc (rw same at h)
  | inr other ↦ split-cases c sep s s [] (split-one sep s (rw other at h)) ∙ rw other refl
]

split-some_more :
    (sep : ℕ) (s : Bytes)
    → any (λ d. d == sep) s ≡ true
    → (p : Bytes) × (q : Bytes) × (ps : List Bytes) × (split s sep ≡ p ∷ q ∷ ps)
split-some_more sep [] h = cc
split-some_more sep (c ∷ s) h = elim (Bool-cases (c == sep)) [
  | inl same ↦ elim (Bool-cases (any (λ d. d == sep) s)) [
    | inl more ↦
        let (p, q, ps, e) = split-some_more sep s more in
        ([], p, q ∷ ps, split-cases c sep s p (q ∷ ps) e ∙ rw same refl)
    | inr none_left ↦
        ([], s, [], split-cases c sep s s [] (split-one sep s none_left) ∙ rw same refl)
  ]
  | inr other ↦
      let (p, q, ps, e) = split-some_more sep s (rw other at h) in
      (c ∷ p, q, ps, split-cases c sep s p (q ∷ ps) e ∙ rw other refl)
]

last_part-split : (sep : ℕ) (s : Bytes) → last_part (split s sep) ≡ after_last sep s
unfolding last_part split
last_part-split sep [] = refl
last_part-split sep (c ∷ s) = elim (Bool-cases (any (λ d. d == sep) s)) [
  | inl more ↦
      let (p, q, ps, e) = split-some_more sep s more in
      let rest : last_part (q ∷ ps) ≡ after_last sep s =
        ap last_part (sym e) ∙ last_part-split sep s in
      rw more (
        ap last_part (split-cases c sep s p (q ∷ ps) e)
        ∙ (elim (Bool-cases (c == sep)) [ inl same ↦ rw same rest | inr other ↦ rw other rest ]))
  | inr none_left ↦
      rw none_left
        (ap last_part (split-cases c sep s s [] (split-one sep s none_left)) ∙ ground arith)
]

pub domain_of_email-after_last :
    (email : Address) → domain_of_email (some email) ≡ to_lower (after_last b'@' email.address)
unfolding domain_of_email
domain_of_email-after_last email = ap to_lower (last_part-split b'@' email.address)

lower_byte_twice : (c : ℕ) → lower_byte (lower_byte c) ≡ lower_byte c
lower_byte_twice c = ground arith

pub to_lower_twice : (s : Bytes) → to_lower (to_lower s) ≡ to_lower s
unfolding to_lower
to_lower_twice [] = refl
to_lower_twice (c ∷ s) = ap₂ ◌∷◌ (lower_byte_twice c) (to_lower_twice s)

-- A domain is in lower case already: the calls of `strings.ToLower` on it change nothing.
pub to_lower-domain :
    (email : Option Address) → to_lower (domain_of_email email) ≡ domain_of_email email
unfolding domain_of_email
to_lower-domain none = refl
to_lower-domain (some email) = to_lower_twice (last_part (split email.address b'@'))
