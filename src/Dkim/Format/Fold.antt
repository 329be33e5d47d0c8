-- ===== src/Dkim/Format/Fold.antt =====
-- middleware/authres/dkim/header.go: what `foldHeaderField` makes of the tag of a signature.
pub mod Stripped
use smtpx.Base.{
  ℕ, zero, suc, false, some, ◌==◌, List, [], ◌∷◌, ◌++◌, Bytes, codes, crlf, ◌≡◌, refl, ap, ◌∙◌, ◌≢◌,
  append-nil, join, take, drop, length, All, All-append, arith,
}
use smtpx.Dkim.Format.{chunks, fold_header_field}
use smtpx.Dkim.Header.Read.{place, inside, place_step, place-join}

-- What `join` puts behind the first part.
joined_rest : List Bytes → Bytes → Bytes
joined_rest [] sep = []
joined_rest (p ∷ ps) sep = sep ++ join (p ∷ ps) sep

join-cons : (p sep : Bytes) (ps : List Bytes) → join (p ∷ ps) sep ≡ p ++ joined_rest ps sep
unfolding join joined_rest
join-cons p sep [] = rw append-nil
join-cons p sep (q ∷ ps) = refl

module _ {ℓ} (P : ℕ → Type ℓ) where
  All-take : (n : ℕ) (s : Bytes) → All P s → All P (take n s)
  All-take zero s h = tt
  All-take (suc n) [] h = tt
  All-take (suc n) (c ∷ s) (pc, h) = (pc, All-take n s h)

  All-drop : (n : ℕ) (s : Bytes) → All P s → All P (drop n s)
  All-drop zero s h = h
  All-drop (suc n) [] h = tt
  All-drop (suc n) (c ∷ s) (pc, h) = All-drop n s h

  All-chunks : (f : ℕ) (s : Bytes) → All P s → All (All P) (chunks f s)
  unfolding chunks
  All-chunks zero s h = tt
  All-chunks (suc f) [] h = tt
  All-chunks (suc f) (c ∷ s) h =
      (All-take 75 (c ∷ s) h, All-chunks f (drop 75 (c ∷ s)) (All-drop 75 (c ∷ s) h))

  All-joined_rest :
      (ps : List Bytes) (sep : Bytes) → All P sep → All (All P) ps → All P (joined_rest ps sep)
  unfolding joined_rest
  All-joined_rest [] sep hs h = tt
  All-joined_rest (p ∷ ps) sep hs (hp, h) = rw (join-cons p sep ps) (
      All-append P sep (p ++ joined_rest ps sep) hs
        (All-append P p (joined_rest ps sep) hp (All-joined_rest ps sep hs h)))

-- What follows the first byte of the value in the folded tag.
pub folded_lines : Bytes → Bytes
folded_lines v =
    take 71 v ++ joined_rest (chunks (suc (suc (suc (length v)))) (drop 71 v)) (crlf ++ codes " ")

abbrev pub folded : Bytes → Bytes
folded v = folded_lines v ++ crlf

-- The folded tag of a value that is not empty begins as the tag does.
pub fold_header_field-tag :
    (c : ℕ) (v : Bytes) → fold_header_field (codes " b=" ++ c ∷ v) ≡ codes " b=" ++ (c ∷ folded v)
unfolding fold_header_field folded_lines chunks
fold_header_field-tag c v =
    ap (λ t. t ++ crlf)
      (join-cons (take 75 (codes " b=" ++ c ∷ v)) (crlf ++ codes " ")
        (chunks (suc (suc (suc (length v)))) (drop 71 v)))

pub folded-ne-semicolon : (v : Bytes) → All (λ c. c ≢ b';') v → All (λ c. c ≢ b';') (folded v)
unfolding folded_lines
folded-ne-semicolon v h =
    All-append (λ c. c ≢ b';')
      (take 71 v
        ++ joined_rest (chunks (suc (suc (suc (length v)))) (drop 71 v)) (crlf ++ codes " "))
      crlf
      (All-append (λ c. c ≢ b';') (take 71 v)
        (joined_rest (chunks (suc (suc (suc (length v)))) (drop 71 v)) (crlf ++ codes " "))
        (All-take (λ c. c ≢ b';') 71 v h)
        (All-joined_rest (λ c. c ≢ b';') (chunks (suc (suc (suc (length v)))) (drop 71 v))
          (crlf ++ codes " ") (omega arith)
          (All-chunks (λ c. c ≢ b';') (suc (suc (suc (length v)))) (drop 71 v)
            (All-drop (λ c. c ≢ b';') 71 v h))))
      (omega arith)

-- Without a value the tag is a line.
pub fold_header_field-empty : fold_header_field (codes " b=" ++ []) ≡ codes " b=" ++ crlf
unfolding fold_header_field
fold_header_field-empty = refl

-- A text without a line break.
abbrev pub IsLine : Bytes → Type 0
IsLine s = All (λ c. ((c == 13) ≡ false) × ((c == 10) ≡ false)) s

pub IsLine-IsFolded : (s : Bytes) → IsLine s → place inside s ≡ some inside
unfolding place place_step
IsLine-IsFolded [] h = refl
IsLine-IsFolded (c ∷ s) (hc, h) = rw hc.0 (rw hc.1 (IsLine-IsFolded s h))

joined_rest-IsFolded :
    (ps : List Bytes)
    → All IsLine ps
    → place inside (joined_rest ps (crlf ++ codes " ")) ≡ some inside
unfolding place place_step joined_rest join
joined_rest-IsFolded [] h = refl
joined_rest-IsFolded (p ∷ ps) (hp, h) =
    ap (place inside) (join-cons p (crlf ++ codes " ") ps)
    ∙ place-join p (joined_rest ps (crlf ++ codes " ")) (IsLine-IsFolded p hp)
        (joined_rest-IsFolded ps h)

pub folded_lines-IsFolded : (v : Bytes) → IsLine v → place inside (folded_lines v) ≡ some inside
unfolding folded_lines
folded_lines-IsFolded v h =
    let ps = chunks (suc (suc (suc (length v)))) (drop 71 v) in
    place-join (take 71 v) (joined_rest ps (crlf ++ codes " "))
      (IsLine-IsFolded (take 71 v)
        (All-take (λ c. ((c == 13) ≡ false) × ((c == 10) ≡ false)) 71 v h))
      (joined_rest-IsFolded ps (
        All-chunks (λ c. ((c == 13) ≡ false) × ((c == 10) ≡ false)) (suc (suc (suc (length v))))
          (drop 71 v) (All-drop (λ c. ((c == 13) ≡ false) × ((c == 10) ≡ false)) 71 v h)))
