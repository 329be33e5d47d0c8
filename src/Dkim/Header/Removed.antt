-- ===== src/Dkim/Header/Removed.antt =====
-- middleware/authres/dkim/verify.go: what `removeSignature` leaves of a field, and where it finds no
-- match of its regular expression.
use smtpx.Base.{
  ℕ, suc, ◌+◌, Bool, true, false, [], ◌∷◌, ◌++◌, Option, none, some, Bytes, ◌≡◌, refl, ap, ◌∙◌, ◌≢◌,
  ◌==◌, if◌then◌else◌, ◌>>=◌, length, length-append, All, arith,
}
use smtpx.Dkim.Header.{
  is_regexp_space, equals_sign, until_semicolon, tag_b, remove_from, remove_signature,
}

-- A text is read with the state "behind a `b` and white space"; an equals sign is refused in that
-- state, where a match may begin. The result is the state at the end.
unfoldable pub scan : Bool → Bytes → Option Bool
unfolding is_regexp_space
scan st [] = some st
scan st (c ∷ s) =
    if c == b'='
    then (if st then none else scan false s)
    else scan (if c == b'b' then true else if is_regexp_space c then st else false) s

pub scan-append : (st : Bool) (s t : Bytes) → scan st (s ++ t) ≡ (scan st s >>= λ st'. scan st' t)
unfolding scan
scan-append st [] t = refl
scan-append true (c ∷ s) t = ground (arith, scan-append true s t, scan-append false s t)
scan-append false (c ∷ s) t = ground (arith, scan-append true s t, scan-append false s t)

equals_sign-none : (s t : Bytes) → scan true s ≡ some false → equals_sign (s ++ t) ≡ none
unfolding scan equals_sign
equals_sign-none [] t h = ground arith
equals_sign-none (c ∷ s) t h = ground (arith, equals_sign-none s t)

scan-weaken : (s : Bytes) → scan true s ≡ some false → scan false s ≡ some false
unfolding scan
scan-weaken [] h = ground arith
scan-weaken (c ∷ s) h = ground (arith, scan-weaken s)

tag_b-none : (c : ℕ) (s t : Bytes) → scan false (c ∷ s) ≡ some false → tag_b c (s ++ t) ≡ none
unfolding scan tag_b
tag_b-none c s t h = ground (arith, equals_sign-none s t)

scan-tail : (c : ℕ) (s : Bytes) → scan false (c ∷ s) ≡ some false → scan false s ≡ some false
unfolding scan
scan-tail c s h = ground (arith, scan-weaken s)

remove_from-append :
    (f : ℕ) (s t : Bytes)
    → scan false s ≡ some false
    → remove_from (length s + f) (s ++ t) ≡ s ++ remove_from f t
unfolding remove_from
remove_from-append f [] t h = let none_more : 0 + f ≡ f = omega arith in rw none_more refl
remove_from-append f (c ∷ s) t h =
    let one_more : suc (length s) + f ≡ suc (length s + f) = omega arith in
    rw one_more (
      rw (tag_b-none c s t h, remove_from)
        (ap (λ l. c ∷ l) (remove_from-append f s t (scan-tail c s h))))

until_semicolon-nil : (s : Bytes) → All (λ c. c ≢ b';') s → until_semicolon s ≡ []
unfolding until_semicolon
until_semicolon-nil [] h = refl
until_semicolon-nil (c ∷ s) h = ground (arith, until_semicolon-nil s h.1)

remove_from-tag :
    (c : ℕ) (r : Bytes)
    → c ≢ b';'
    → All (λ d. d ≢ b';') r
    → remove_from (length (b'b' ∷ b'=' ∷ c ∷ r)) (b'b' ∷ b'=' ∷ c ∷ r) ≡ b'b' ∷ b'=' ∷ []
unfolding remove_from
remove_from-tag c r hc hr = ground (arith, until_semicolon-nil r hr)

-- Where nothing before the tag is taken for it, a signature with its tag at the end is cut off
-- behind `b=`, with all that follows.
pub remove_signature-tag :
    (s r : Bytes) (c : ℕ)
    → scan false s ≡ some false
    → c ≢ b';'
    → All (λ d. d ≢ b';') r
    → remove_signature (s ++ (b'b' ∷ b'=' ∷ c ∷ r)) ≡ s ++ (b'b' ∷ b'=' ∷ [])
unfolding remove_signature
remove_signature-tag s r c h hc hr = rw (length-append s (b'b' ∷ b'=' ∷ c ∷ r)) (
    remove_from-append (length (b'b' ∷ b'=' ∷ c ∷ r)) s (b'b' ∷ b'=' ∷ c ∷ r) h
    ∙ ap (λ t. s ++ t) (remove_from-tag c r hc hr))
