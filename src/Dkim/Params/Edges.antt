-- ===== src/Dkim/Params/Edges.antt =====
-- middleware/authres/dkim/header.go: white space around a list of tags does not change its parameters.
use smtpx.Base.{
  ℕ, ◌<◌, true, false, List, [], ◌∷◌, ◌++◌, none, Bytes, ◌≡◌, refl, sym, ap, ◌∙◌, inl, inr,
  append_assoc, append-nil, is_space, trim_space, trim_left, trim_right, cut, cut-append, split,
  split-some, split-cases, length, ◌==◌, Bool-cases, Option-cases, trim_space-snoc, append_to_last,
  split-snoc, trim_right-rest, All, arith,
}
use smtpx.Dkim.Params.{Params, ParamsResult, params, bad, add_pair, add_pairs, parse_header_params}

pub not_equals : (c : ℕ) → is_space c ≡ true → (c == b'=') ≡ false
not_equals c h = ground arith

pub not_semicolon : (c : ℕ) → is_space c ≡ true → (c == b';') ≡ false
not_semicolon c h = ground arith

pub trim_space-cons : (c : ℕ) (s : Bytes) → is_space c ≡ true → trim_space (c ∷ s) ≡ trim_space s
unfolding trim_space trim_left
trim_space-cons c s h = rw (h, trim_left) refl

add_pair-front :
    (c : ℕ) (p : Bytes) (m : Params)
    → is_space c ≡ true
    → add_pair (c ∷ p) (cut (c ∷ p) b'=') m ≡ add_pair p (cut p b'=') m
unfolding add_pair cut
add_pair-front c p m h = elim (Option-cases (cut p b'=')) [
  | inl e ↦ rw (not_equals c h) (rw (e) (rw (trim_space-cons c p h) refl))
  | inr ((a, b), e) ↦ rw (not_equals c h) (rw (e) (rw (trim_space-cons c a h) refl))
]

-- The rest of the loop, behind one pair.
abbrev pub pairs_rest : List Bytes → ParamsResult → ParamsResult
pairs_rest ps (params m) = add_pairs ps m
pairs_rest ps (bad e) = bad e

pub add_pairs-cons :
    (p : Bytes) (ps : List Bytes) (m : Params)
    → add_pairs (p ∷ ps) m ≡ pairs_rest ps (add_pair p (cut p b'=') m)
unfolding add_pairs
add_pairs-cons p ps m = go (add_pair p (cut p b'=') m) refl
  where
    go : (r : ParamsResult) → add_pair p (cut p b'=') m ≡ r → add_pairs (p ∷ ps) m ≡ pairs_rest ps r
    go (params m') e = rw (e, add_pairs) refl
    go (bad err) e = rw (e, add_pairs) refl

pairs_rest-ext :
    (ps qs : List Bytes) (r : ParamsResult)
    → ((m : Params) → add_pairs ps m ≡ add_pairs qs m)
    → pairs_rest ps r ≡ pairs_rest qs r
pairs_rest-ext ps qs (params m) h = h m
pairs_rest-ext ps qs (bad e) h = refl

add_pairs-front :
    (c : ℕ) (s : Bytes) (m : Params)
    → is_space c ≡ true
    → add_pairs (split (c ∷ s) b';') m ≡ add_pairs (split s b';') m
add_pairs-front c s m h = by_parts (split s b';') refl (split-some s b';')
  where
    by_parts :
        (ps : List Bytes)
        → split s b';' ≡ ps
        → 0 < length ps
        → add_pairs (split (c ∷ s) b';') m ≡ add_pairs (split s b';') m
    by_parts [] e long = absurd (omega arith)
    by_parts (p ∷ ps) e long =
        let longer : split (c ∷ s) b';' ≡ (c ∷ p) ∷ ps =
          split-cases c b';' s p ps e ∙ rw (not_semicolon c h) refl in
        ap (λ l. add_pairs l m) longer
        ∙ (add_pairs-cons (c ∷ p) ps m
            ∙ (ap (pairs_rest ps) (add_pair-front c p m h)
                ∙ (sym (add_pairs-cons p ps m) ∙ ap (λ l. add_pairs l m) (sym e))))

cut-none :
    (s : Bytes) (c sep : ℕ) → cut s sep ≡ none → (c == sep) ≡ false → cut (s ++ c ∷ []) sep ≡ none
unfolding cut
cut-none [] c sep h g = rw g refl
cut-none (d ∷ s) c sep h g = elim (Option-cases (cut s sep)) [
  | inl e ↦ ground (arith, cut-none s c sep e g)
  | inr ((a, b), e) ↦ absurd (ground arith)
]

add_pair-back :
    (p : Bytes) (c : ℕ) (m : Params)
    → is_space c ≡ true
    → add_pair (p ++ c ∷ []) (cut (p ++ c ∷ []) b'=') m ≡ add_pair p (cut p b'=') m
unfolding add_pair
add_pair-back p c m h = elim (Option-cases (cut p b'=')) [
  | inl e ↦ rw (cut-none p c b'=' e (not_equals c h), e, trim_space-snoc p c h) refl
  | inr ((a, b), e) ↦ rw (cut-append p (c ∷ []) a b b'=' e, e, trim_space-snoc b c h) refl
]

add_pairs-last :
    (c : ℕ) (ps : List Bytes) (m : Params)
    → is_space c ≡ true
    → add_pairs (append_to_last c ps) m ≡ add_pairs ps m
add_pairs-last c [] m h = refl
add_pairs-last c (p ∷ []) m h =
    add_pairs-cons (p ++ c ∷ []) [] m
    ∙ (ap (pairs_rest []) (add_pair-back p c m h) ∙ sym (add_pairs-cons p [] m))
add_pairs-last c (p ∷ q ∷ ps) m h =
    let r = add_pair p (cut p b'=') m in
    add_pairs-cons p (append_to_last c (q ∷ ps)) m
    ∙ (pairs_rest-ext (append_to_last c (q ∷ ps)) (q ∷ ps) r (λ m'. add_pairs-last c (q ∷ ps) m' h)
        ∙ sym (add_pairs-cons p (q ∷ ps) m))

add_pairs-back :
    (s : Bytes) (c : ℕ) (m : Params)
    → is_space c ≡ true
    → add_pairs (split (s ++ c ∷ []) b';') m ≡ add_pairs (split s b';') m
add_pairs-back s c m h =
    ap (λ l. add_pairs l m) (split-snoc b';' c s (not_semicolon c h))
    ∙ add_pairs-last c (split s b';') m h

add_pairs-spaces :
    (w s : Bytes) (m : Params)
    → All (λ c. is_space c ≡ true) w
    → add_pairs (split (s ++ w) b';') m ≡ add_pairs (split s b';') m
add_pairs-spaces [] s m h = ap (λ t. add_pairs (split t b';') m) (append-nil s)
add_pairs-spaces (c ∷ w) s m (hc, h) =
    ap (λ t. add_pairs (split t b';') m) (sym (append_assoc s (c ∷ []) w))
    ∙ (add_pairs-spaces w (s ++ c ∷ []) m h ∙ add_pairs-back s c m hc)

add_pairs-trim_left :
    (s : Bytes) (m : Params) → add_pairs (split (trim_left s) b';') m ≡ add_pairs (split s b';') m
unfolding trim_left
add_pairs-trim_left [] m = refl
add_pairs-trim_left (c ∷ s) m = elim (Bool-cases (is_space c)) [
  | inl b ↦ rw (b, trim_left) (add_pairs-trim_left s m ∙ sym (add_pairs-front c s m b))
  | inr b ↦
      let kept : trim_left (c ∷ s) ≡ c ∷ s = rw b refl in ap (λ t. add_pairs (split t b';') m) kept
]

-- The parameters of a text are those of the text without the white space around it.
pub parse_header_params-trim_space :
    (s : Bytes) → parse_header_params (trim_space s) ≡ parse_header_params s
unfolding parse_header_params trim_space
parse_header_params-trim_space s =
    let (w, whole, spaces) = trim_right-rest (trim_left s) in
    sym (add_pairs-spaces w (trim_right (trim_left s)) [] spaces)
    ∙ (ap (λ t. add_pairs (split t b';') []) (sym whole) ∙ add_pairs-trim_left s [])
