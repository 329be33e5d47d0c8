-- ===== src/Dkim/Header/Read.antt =====
-- middleware/authres/dkim/header.go: `readHeader` of a field with its folded lines in front of a text.
use smtpx.Base.{
  ℕ, zero, suc, ◌<◌, true, false, List, [], ◌∷◌, ◌++◌, Option, none, some, Bytes, crlf, cut,
  cut-part, length, length-append, ◌==◌, if◌then◌else◌, ◌>>=◌, Bool-cases, Option-cases, ◌≡◌, ◌≢◌,
  refl, sym, ap, ◌∙◌, inl, inr, ◌⊎◌, append_assoc, All, All-append, arith,
}
use mathlib.Core.Path.{subst}
use smtpx.Dkim.Header.{is_continuation, append_last, add_line, drop_cr, read_fields, read_header}

cut-shorter : (s a b : Bytes) (sep : ℕ) → cut s sep ≡ some (a, b) → length b < length s
unfolding cut
cut-shorter [] a b sep h = cc
cut-shorter (c ∷ s) a b sep h = elim (Option-cases (cut s sep)) [
  | inl nowhere ↦ ground arith
  | inr ((front, rest), e) ↦ ground (arith, cut-shorter s front rest sep e)
]

read_fields-line :
    (f : ℕ) (s l rest : Bytes) (h : List Bytes)
    → cut s 10 ≡ some (l, rest)
    → (length (drop_cr l) == 0) ≡ false
    → read_fields (suc f) s h ≡ read_fields f rest (add_line h (drop_cr l))
unfolding read_fields
read_fields-line f s l rest h e long = rw (e, read_fields) (rw long refl)

-- More fuel than the text is long makes no difference.
read_fields-fuel :
    (f g : ℕ) (s : Bytes) (h : List Bytes)
    → length s < f
    → length s < g
    → read_fields f s h ≡ read_fields g s h
unfolding read_fields
read_fields-fuel zero g s h lf lg = absurd (omega arith)
read_fields-fuel (suc f) zero s h lf lg = absurd (omega arith)
read_fields-fuel (suc f) (suc g) s h lf lg = elim (Option-cases (cut s 10)) [
  | inl nowhere ↦ rw (nowhere, read_fields) refl
  | inr ((l, rest), e) ↦ elim (Bool-cases (length (drop_cr l) == 0)) [
    | inl b ↦ rw (e, read_fields) (rw b refl)
    | inr b ↦
        let shorter = cut-shorter s l rest 10 e in
        read_fields-line f s l rest h e b
        ∙ (read_fields-fuel f g rest (add_line h (drop_cr l)) (omega arith) (omega arith)
            ∙ sym (read_fields-line g s l rest h e b))
  ]
]

drop_cr-line : (l : Bytes) (d : ℕ) → drop_cr ((d ∷ l) ++ 13 ∷ []) ≡ d ∷ l
unfolding drop_cr
drop_cr-line [] d = refl
drop_cr-line (c ∷ l) d = ap (λ t. d ∷ t) (drop_cr-line l c)

abbrev NoLf : Bytes → Type 0
NoLf s = All (λ c. (c == 10) ≡ false) s

some_bytes : (l : Bytes) (d : ℕ) → (length (d ∷ l) == 0) ≡ false
some_bytes l d = ground arith

-- One line of a header.
read_line :
    (f d : ℕ) (l rest : Bytes) (h : List Bytes)
    → NoLf (d ∷ l)
    → read_fields (suc f) ((d ∷ l) ++ (13 ∷ 10 ∷ rest)) h ≡ read_fields f rest (add_line h (d ∷ l))
read_line f d l rest h hl =
    let line = (d ∷ l) ++ 13 ∷ [] in
    let whole : cut ((d ∷ l) ++ (13 ∷ 10 ∷ rest)) 10 ≡ some (line, rest) =
      ap (λ s. cut s 10) (sym (append_assoc (d ∷ l) (13 ∷ []) (10 ∷ rest)))
      ∙ cut-part 10 line rest
          (All-append (λ c. (c == 10) ≡ false) (d ∷ l) (13 ∷ []) hl (refl, tt)) in
    let dropped = drop_cr-line l d in
    read_fields-line f ((d ∷ l) ++ (13 ∷ 10 ∷ rest)) line rest h whole
      (ap (λ t. length t == 0) dropped ∙ some_bytes l d)
    ∙ ap (λ t. read_fields f rest (add_line h t)) dropped

-- Where the text of a field is: within a line, behind a carriage return, and behind a line break.
pub data Place : Type 0 where
  inside after_cr after_lf : Place

unfoldable pub place_step : Place → ℕ → Option Place
place_step inside c = if c == 13 then some after_cr else if c == 10 then none else some inside
place_step after_cr c = if c == 10 then some after_lf else none
place_step after_lf c = if c == 32 then some inside else none

-- Each line break of the text is followed by a space.
unfoldable pub place : Place → Bytes → Option Place
place p [] = some p
place p (c ∷ s) = place_step p c >>= λ q. place q s

pub place-append : (p : Place) (s t : Bytes) → place p (s ++ t) ≡ (place p s >>= λ q. place q t)
unfolding place
place-append p [] t = refl
place-append p (c ∷ s) t = elim (Option-cases (place_step p c)) [
  | inl refused ↦ rw refused refl
  | inr (q, e) ↦ rw e (place-append q s t)
]

abbrev pub IsFolded : Bytes → Type 0
IsFolded s = place inside s ≡ some inside

pub place-join : (s t : Bytes) → IsFolded s → IsFolded t → IsFolded (s ++ t)
place-join s t h g = place-append inside s t ∙ (ap (λ o. o >>= λ p. place p t) h ∙ g)

pub place-byte :
    (c : ℕ) (s : Bytes)
    → (c == 13) ≡ false
    → place inside (c ∷ s) ≡ some inside
    → ((c == 10) ≡ false) × (place inside s ≡ some inside)
unfolding place place_step
place-byte c s h e = (ground arith, ground arith)

place-break :
    (c d e : ℕ) (s : Bytes)
    → (c == 13) ≡ true
    → place inside (c ∷ d ∷ e ∷ s) ≡ some inside
    → (c ≡ 13) × (d ≡ 10) × (e ≡ 32) × (place inside s ≡ some inside)
unfolding place place_step
place-break c d e s h g = (ground arith, ground arith, ground arith, ground arith)

place-short :
    (c d : ℕ)
    → (c == 13) ≡ true
    → (place inside (c ∷ []) ≢ some inside) × (place inside (c ∷ d ∷ []) ≢ some inside)
unfolding place place_step
place-short c d h = (λ e. ground arith, λ e. ground arith)

-- The field as far as it has been read.
abbrev begun : Option Bytes → List Bytes
begun none = []
begun (some f) = f ∷ []

abbrev before : Option Bytes → Bytes
before none = []
before (some f) = f

add_line-begun :
    (o : Option Bytes) (d : ℕ) (l : Bytes)
    → (o ≡ none) ⊎ (d ≡ 32)
    → add_line (begun o) (d ∷ l) ≡ (before o ++ ((d ∷ l) ++ crlf)) ∷ []
unfolding add_line is_continuation append_last
add_line-begun none d l ok = refl
add_line-begun (some f) d l (inl e) = cc
add_line-begun (some f) d l (inr e) = rw e refl

NoLf-snoc : (l : Bytes) (c : ℕ) → NoLf l → (c == 10) ≡ false → NoLf (l ++ c ∷ [])
NoLf-snoc l c h hc = All-append (λ c. (c == 10) ≡ false) l (c ∷ []) h (hc, tt)

-- The line `d ∷ l` has been scanned, and the rest of the field is `x`: the field is read as one,
-- whatever it folds, and the reading goes on behind it.
module _ (rest : Bytes) where
  abbrev ReadsField : Option Bytes → ℕ → Bytes → Bytes → Type 0
  ReadsField o d l x =
      (f : ℕ)
      → length ((d ∷ l) ++ (x ++ (crlf ++ rest))) < f
      → read_fields f ((d ∷ l) ++ (x ++ (crlf ++ rest))) (begun o)
        ≡ read_fields (suc (length rest)) rest ((before o ++ ((d ∷ l) ++ (x ++ crlf))) ∷ [])

  read_end :
      (o : Option Bytes) (d : ℕ) (l : Bytes)
      → NoLf (d ∷ l)
      → (o ≡ none) ⊎ (d ≡ 32)
      → ReadsField o d l []
  read_end o d l hl ok zero lt = absurd (omega arith)
  read_end o d l hl ok (suc f) lt =
      read_line f d l rest (begun o) hl
      ∙ (ap (read_fields f rest) (add_line-begun o d l ok)
          ∙ read_fields-fuel f (suc (length rest)) rest ((before o ++ ((d ∷ l) ++ crlf)) ∷ [])
              (omega (arith, length-append {0} (d ∷ l) (crlf ++ rest))) (omega arith))

  read_byte :
      (o : Option Bytes) (d : ℕ) (l x : Bytes) (c : ℕ)
      → ReadsField o d (l ++ c ∷ []) x
      → ReadsField o d l (c ∷ x)
  read_byte o d l x c next f lt =
      let same : (y : Bytes) → d ∷ (l ++ (c ∷ y)) ≡ (d ∷ (l ++ c ∷ [])) ++ y =
        λ y. ap (λ t. d ∷ t) (sym (append_assoc l (c ∷ []) y)) in
      ap (λ t. read_fields f t (begun o)) (same (x ++ (crlf ++ rest)))
      ∙ (next f (subst (λ t. length t < f) (same (x ++ (crlf ++ rest))) lt)
          ∙ ap (λ t. read_fields (suc (length rest)) rest ((before o ++ t) ∷ []))
              (sym (same (x ++ crlf))))

  read_break :
      (o : Option Bytes) (d : ℕ) (l x : Bytes)
      → NoLf (d ∷ l)
      → (o ≡ none) ⊎ (d ≡ 32)
      → ReadsField (some (before o ++ ((d ∷ l) ++ crlf))) 32 [] x
      → ReadsField o d l (13 ∷ 10 ∷ 32 ∷ x)
  read_break o d l x hl ok next zero lt = absurd (omega arith)
  read_break o d l x hl ok next (suc f) lt =
      let later = 32 ∷ (x ++ (crlf ++ rest)) in
      read_line f d l later (begun o) hl
      ∙ (ap (read_fields f later) (add_line-begun o d l ok)
          ∙ (next f (omega (arith, length-append {0} (d ∷ l) (13 ∷ 10 ∷ later)))
              ∙ ap (λ t. read_fields (suc (length rest)) rest (t ∷ []))
                  (append_assoc (before o) ((d ∷ l) ++ crlf) (32 ∷ (x ++ crlf))
                    ∙ ap (λ t. before o ++ t) (append_assoc (d ∷ l) crlf (32 ∷ (x ++ crlf))))))

  read_field :
      (x : Bytes) (o : Option Bytes) (d : ℕ) (l : Bytes)
      → NoLf (d ∷ l)
      → (o ≡ none) ⊎ (d ≡ 32)
      → place inside x ≡ some inside
      → ReadsField o d l x
  read_field [] o d l hl ok h = read_end o d l hl ok
  read_field (c ∷ []) o d l hl ok h = elim (Bool-cases (c == 13)) [
    | inl b ↦ absurd ((place-short c c b).0 h)
    | inr b ↦
        let (no_lf, h') = place-byte c [] b h in
        read_byte o d l [] c (read_field [] o d (l ++ c ∷ []) (NoLf-snoc (d ∷ l) c hl no_lf) ok h')
  ]
  read_field (c ∷ e ∷ []) o d l hl ok h = elim (Bool-cases (c == 13)) [
    | inl b ↦ absurd ((place-short c e b).1 h)
    | inr b ↦
        let (no_lf, h') = place-byte c (e ∷ []) b h in
        read_byte o d l (e ∷ []) c
          (read_field (e ∷ []) o d (l ++ c ∷ []) (NoLf-snoc (d ∷ l) c hl no_lf) ok h')
  ]
  read_field (c ∷ e ∷ g ∷ x) o d l hl ok h = elim (Bool-cases (c == 13)) [
    | inl b ↦
        let (cr, lf, sp, h') = place-break c e g x b h in
        rw (cr, lf, sp)
          (read_break o d l x hl ok
            (read_field x (some (before o ++ ((d ∷ l) ++ crlf))) 32 [] (refl, tt) (inr refl) h'))
    | inr b ↦
        let (no_lf, h') = place-byte c (e ∷ g ∷ x) b h in
        read_byte o d l (e ∷ g ∷ x) c
          (read_field (e ∷ g ∷ x) o d (l ++ c ∷ []) (NoLf-snoc (d ∷ l) c hl no_lf) ok h')
  ]

-- A field in front of what is read.
abbrev pub with_first : Bytes → Option (List Bytes × Bytes) → Option (List Bytes × Bytes)
with_first f none = none
with_first f (some (h, body)) = some (f ∷ h, body)

drop_cr-first :
    (c : ℕ) (l : Bytes)
    → is_continuation (c ∷ l) ≡ false
    → is_continuation (drop_cr (c ∷ l)) ≡ false
unfolding drop_cr is_continuation
drop_cr-first c [] h = ground arith
drop_cr-first c (d ∷ l) h = h

first_line :
    (s l rest : Bytes)
    → cut s 10 ≡ some (l, rest)
    → is_continuation s ≡ false
    → is_continuation (drop_cr l) ≡ false
unfolding cut is_continuation drop_cr
first_line [] l rest e h = cc
first_line (c ∷ s) l rest e h = elim (Bool-cases (c == 10)) [
  | inl b ↦ let empty : l ≡ [] = ground arith in rw empty (refl)
  | inr b ↦ elim (Option-cases (cut s 10)) [
    | inl nowhere ↦ absurd (ground arith)
    | inr ((front, rest'), found) ↦
        let longer : l ≡ c ∷ front = ground arith in rw longer (drop_cr-first c front h)
  ]
]

-- The lines of a header that has a field, or that begins with one, do not reach a field before it.
add_line-first :
    (f g : Bytes) (h : List Bytes) (l : Bytes)
    → (g' : Bytes) × (h' : List Bytes) × (add_line (g ∷ h) l ≡ g' ∷ h')
      × (add_line (f ∷ g ∷ h) l ≡ f ∷ g' ∷ h')
unfolding add_line append_last
add_line-first f g [] l = elim (Bool-cases (is_continuation l)) [
  | inl b ↦ (g ++ (l ++ crlf), [], rw b refl, rw b refl)
  | inr b ↦ (g, (l ++ crlf) ∷ [], rw b refl, rw b refl)
]
add_line-first f g (g2 ∷ h) l = elim (Bool-cases (is_continuation l)) [
  | inl b ↦ (g, append_last (g2 ∷ h) (l ++ crlf), ground arith, ground arith)
  | inr b ↦ (g, (g2 ∷ h) ++ (l ++ crlf) ∷ [], ground arith, ground arith)
]

add_line-next :
    (f l : Bytes) → is_continuation l ≡ false → add_line (f ∷ []) l ≡ f ∷ (l ++ crlf) ∷ []
unfolding add_line
add_line-next f l h = rw h refl

read_fields-first :
    (n : ℕ) (s f g : Bytes) (h : List Bytes)
    → read_fields n s (f ∷ g ∷ h) ≡ with_first f (read_fields n s (g ∷ h))
unfolding read_fields
read_fields-first zero s f g h = refl
read_fields-first (suc n) s f g h = elim (Option-cases (cut s 10)) [
  | inl nowhere ↦ rw (nowhere, read_fields) refl
  | inr ((l, rest), e) ↦ elim (Bool-cases (length (drop_cr l) == 0)) [
    | inl b ↦ rw (e, read_fields) (rw b refl)
    | inr b ↦
        let (g', h', one, two) = add_line-first f g h (drop_cr l) in
        read_fields-line n s l rest (f ∷ g ∷ h) e b
        ∙ (ap (read_fields n rest) two
            ∙ (read_fields-first n rest f g' h'
                ∙ ap (with_first f) (
                    ap (read_fields n rest) (sym one)
                    ∙ sym (read_fields-line n s l rest (g ∷ h) e b))))
  ]
]

-- The first line of what follows is no continuation.
read_fields-next :
    (n : ℕ) (s f : Bytes)
    → is_continuation s ≡ false
    → read_fields n s (f ∷ []) ≡ with_first f (read_fields n s [])
unfolding read_fields
read_fields-next zero s f h = refl
read_fields-next (suc n) s f h = elim (Option-cases (cut s 10)) [
  | inl nowhere ↦ rw (nowhere, read_fields) refl
  | inr ((l, rest), e) ↦ elim (Bool-cases (length (drop_cr l) == 0)) [
    | inl b ↦ rw (e, read_fields) (rw b refl)
    | inr b ↦
        let line = drop_cr l ++ crlf in
        read_fields-line n s l rest (f ∷ []) e b
        ∙ (ap (read_fields n rest) (add_line-next f (drop_cr l) (first_line s l rest e h))
            ∙ (read_fields-first n rest f line []
                ∙ ap (with_first f) (sym (read_fields-line n s l rest [] e b))))
  ]
]

-- A field whose line breaks are folds, in front of a text that does not continue it, is read as the
-- first field, and the text as it is read alone.
pub read_header-field :
    (d : ℕ) (x rest : Bytes)
    → (d == 10) ≡ false
    → place inside x ≡ some inside
    → is_continuation rest ≡ false
    → read_header ((d ∷ x) ++ (crlf ++ rest)) ≡ with_first ((d ∷ x) ++ crlf) (read_header rest)
unfolding read_header
read_header-field d x rest hd hx hr =
    read_field rest x none d [] (hd, tt) (inl refl) hx (suc (length ((d ∷ x) ++ (crlf ++ rest))))
      (omega arith)
    ∙ read_fields-next (suc (length rest)) rest ((d ∷ x) ++ crlf) hr
