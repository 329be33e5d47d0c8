-- ===== src/Dkim/Format/Fold/Stripped.antt =====
-- middleware/authres/dkim/header.go and verify.go: `stripWhitespace` takes the folds out again.
use smtpx.Base.{
  ℕ, zero, suc, ◌≤◌, true, false, List, [], ◌∷◌, ◌++◌, Bytes, codes, crlf, ◌≡◌, refl, sym, ap, ap₂,
  ◌∙◌, inl, inr, append-nil, is_space, trim_left, trim_right, trim_space, trim_right-rest, take,
  drop, length, Bool-cases, All, arith,
}
use smtpx.Dkim.Format.{chunks}
use smtpx.Dkim.Format.Fold.{
  joined_rest, join-cons, folded_lines, folded, All-take, All-drop, All-chunks,
}
use smtpx.Dkim.Params.{strip_whitespace}

strip-append : (s t : Bytes) → strip_whitespace (s ++ t) ≡ strip_whitespace s ++ strip_whitespace t
unfolding strip_whitespace
strip-append [] t = refl
strip-append (c ∷ s) t = elim (Bool-cases (is_space c)) [
  | inl b ↦ rw b (strip-append s t)
  | inr b ↦ rw b (ap (λ l. c ∷ l) (strip-append s t))
]

abbrev pub IsWord : Bytes → Type 0
IsWord s = All (λ c. is_space c ≡ false) s

pub strip-word : (s : Bytes) → IsWord s → strip_whitespace s ≡ s
unfolding strip_whitespace
strip-word [] h = refl
strip-word (c ∷ s) (hc, h) = rw hc (ap (λ l. c ∷ l) (strip-word s h))

strip-spaces : (w : Bytes) → All (λ c. is_space c ≡ true) w → strip_whitespace w ≡ []
unfolding strip_whitespace
strip-spaces [] h = refl
strip-spaces (c ∷ w) (hc, h) = rw hc (strip-spaces w h)

strip-trim_left : (s : Bytes) → strip_whitespace (trim_left s) ≡ strip_whitespace s
unfolding strip_whitespace trim_left
strip-trim_left [] = refl
strip-trim_left (c ∷ s) = elim (Bool-cases (is_space c)) [
  | inl b ↦ rw b (strip-trim_left s)
  | inr b ↦ let kept : trim_left (c ∷ s) ≡ c ∷ s = rw b refl in ap strip_whitespace kept
]

strip-trim_right : (s : Bytes) → strip_whitespace (trim_right s) ≡ strip_whitespace s
strip-trim_right s =
    let (w, whole, spaces) = trim_right-rest s in
    sym (
      ap strip_whitespace whole
      ∙ (strip-append (trim_right s) w
          ∙ (ap (λ l. strip_whitespace (trim_right s) ++ l) (strip-spaces w spaces)
              ∙ append-nil (strip_whitespace (trim_right s)))))

pub strip-trim_space : (s : Bytes) → strip_whitespace (trim_space s) ≡ strip_whitespace s
unfolding trim_space
strip-trim_space s = strip-trim_right (trim_left s) ∙ strip-trim_left s

concat : List Bytes → Bytes
concat [] = []
concat (p ∷ ps) = p ++ concat ps

take-drop : (n : ℕ) (s : Bytes) → take n s ++ drop n s ≡ s
take-drop zero s = refl
take-drop (suc n) [] = refl
take-drop (suc n) (c ∷ s) = ap (λ l. c ∷ l) (take-drop n s)

length-drop : (n : ℕ) (s : Bytes) → length (drop n s) ≤ length s
length-drop zero s = omega arith
length-drop (suc n) [] = omega arith
length-drop (suc n) (c ∷ s) = omega (arith, length-drop n s)

concat-chunks : (f : ℕ) (s : Bytes) → length s ≤ f → concat (chunks f s) ≡ s
unfolding chunks concat
concat-chunks zero [] h = refl
concat-chunks zero (c ∷ s) h = absurd (omega arith)
concat-chunks (suc f) [] h = refl
concat-chunks (suc f) (c ∷ s) h =
    ap (λ l. take 75 (c ∷ s) ++ l)
      (concat-chunks f (drop 75 (c ∷ s)) (omega (arith, length-drop 74 s)))
    ∙ take-drop 75 (c ∷ s)

strip-joined_rest :
    (ps : List Bytes)
    → All IsWord ps
    → strip_whitespace (joined_rest ps (crlf ++ codes " ")) ≡ concat ps
unfolding joined_rest concat strip_whitespace
strip-joined_rest [] h = refl
strip-joined_rest (p ∷ ps) (hp, h) =
    ap strip_whitespace (join-cons p (crlf ++ codes " ") ps)
    ∙ (strip-append p (joined_rest ps (crlf ++ codes " "))
        ∙ ap₂ (λ a b. a ++ b) (strip-word p hp) (strip-joined_rest ps h))

-- The folded value of a signature without white space, stripped, is the value.
pub strip-folded : (c : ℕ) (v : Bytes) → IsWord (c ∷ v) → strip_whitespace (c ∷ folded v) ≡ c ∷ v
unfolding folded_lines
strip-folded c v (hc, hv) =
    let f = suc (suc (suc (length v))) in
    let rest = drop 71 v in
    let lines = take 71 v ++ joined_rest (chunks f rest) (crlf ++ codes " ") in
    let P = λ (c : ℕ). is_space c ≡ false in
    strip-append (c ∷ []) (lines ++ crlf)
    ∙ (ap₂ (λ a b. a ++ b) (strip-word (c ∷ []) (hc, tt))
        (strip-append lines crlf
          ∙ (ap₂ (λ a b. a ++ b)
                (strip-append (take 71 v) (joined_rest (chunks f rest) (crlf ++ codes " "))
                  ∙ (ap₂ (λ a b. a ++ b) (strip-word (take 71 v) (All-take P 71 v hv))
                        (strip-joined_rest (chunks f rest)
                            (All-chunks P f rest (All-drop P 71 v hv))
                          ∙ concat-chunks f rest (omega (arith, length-drop 71 v)))
                      ∙ take-drop 71 v))
                (strip-spaces crlf (refl, (refl, tt)))
              ∙ append-nil v)))
