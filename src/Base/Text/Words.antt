-- ===== src/Base/Text/Words.antt =====
-- The package `strings`: how texts come apart that were put together from words.
use Prim.Native.Nat.{ℕ, ◌<◌}
use mathlib.Core.Path.{◌≡◌, subst, refl, sym, ap, ◌∙◌}
use mathlib.Core.Logic.{inl, inr}
use mathlib.Core.Bool.{Bool, true, false}
use mathlib.Core.List.{List, [], ◌∷◌, ◌++◌, append_assoc, append-nil}
use mathlib.Core.Option.{some}
use native.Mathlib.Omega.{arith}
use smtpx.Base.Tests.{Bool-cases, ==_iff, ◌==◌, if◌then◌else◌}
use smtpx.Base.Lists.{All, length}
use smtpx.Base.Text.{
  Bytes, is_space, trim_left, trim_right, trim_space, cut, fields_from, fields, split, split_head,
  split-some,
}

module _ (is_sep : ℕ → Bool) where
  fields_from-word :
      (w : Bytes) (d : ℕ) (acc : Bytes)
      → All (λ c. is_sep c ≡ false) w
      → fields_from is_sep w (d ∷ acc) ≡ ((d ∷ acc) ++ w) ∷ []
  unfolding fields_from
  fields_from-word [] d acc h = ap (λ t. (d ∷ t) ∷ []) (sym (append-nil acc))
  fields_from-word (c ∷ w) d acc (hc, h) =
      rw (hc, fields_from)
        (fields_from-word w d (acc ++ c ∷ []) h
          ∙ ap (λ t. (d ∷ t) ∷ []) (append_assoc acc (c ∷ []) w))

  fields_from-snoc :
      (s acc : Bytes) (c d : ℕ) (w : Bytes)
      → is_sep c ≡ true
      → All (λ e. is_sep e ≡ false) (d ∷ w)
      → fields_from is_sep (s ++ (c ∷ d ∷ w)) acc ≡ fields_from is_sep s acc ++ (d ∷ w) ∷ []
  unfolding fields_from
  fields_from-snoc [] [] c d w hc (hd, hw) =
      rw (hc, fields_from) (rw (hd, fields_from) (fields_from-word w d [] hw))
  fields_from-snoc [] (a ∷ acc) c d w hc (hd, hw) =
      rw (hc, fields_from)
        (rw (hd, fields_from) (ap (λ l. (a ∷ acc) ∷ l) (fields_from-word w d [] hw)))
  fields_from-snoc (e ∷ s) [] c d w hc h =
      fields_from-snoc s (if is_sep e then [] else e ∷ []) c d w hc h
  fields_from-snoc (e ∷ s) (a ∷ acc) c d w hc h = elim (Bool-cases (is_sep e)) [
    | inl b ↦ rw (b, fields_from) (ap (λ l. (a ∷ acc) ∷ l) (fields_from-snoc s [] c d w hc h))
    | inr b ↦ rw (b, fields_from) (fields_from-snoc s ((a ∷ acc) ++ e ∷ []) c d w hc h)
  ]

trim_left-fields : (s : Bytes) → fields_from is_space (trim_left s) [] ≡ fields_from is_space s []
unfolding trim_left fields_from
trim_left-fields [] = refl
trim_left-fields (c ∷ s) = elim (Bool-cases (is_space c)) [
  | inl b ↦ rw (b, fields_from) (trim_left-fields s)
  | inr b ↦
      let kept : trim_left (c ∷ s) ≡ c ∷ s = rw b refl in ap (λ t. fields_from is_space t []) kept
]

-- One step of `trim_right`, from what it leaves of the rest.
trim_right_step : ℕ → Bytes → Bytes
trim_right_step c [] = if is_space c then [] else c ∷ []
trim_right_step c (d ∷ t) = c ∷ d ∷ t

trim_right-cons : (c : ℕ) (s : Bytes) → trim_right (c ∷ s) ≡ trim_right_step c (trim_right s)
unfolding trim_right trim_right_step
trim_right-cons c s = go (trim_right s) refl
  where
    go : (t : Bytes) → trim_right s ≡ t → trim_right (c ∷ s) ≡ trim_right_step c t
    go [] e = rw (e, trim_right) refl
    go (d ∷ t) e = rw (e, trim_right) refl

fields_from-cons :
    (c : ℕ) (s t : Bytes)
    → ((acc : Bytes) → fields_from is_space t acc ≡ fields_from is_space s acc)
    → (acc : Bytes) → fields_from is_space (c ∷ t) acc ≡ fields_from is_space (c ∷ s) acc
unfolding fields_from
fields_from-cons c s t same [] = same (if is_space c then [] else c ∷ [])
fields_from-cons c s t same (a ∷ acc) = elim (Bool-cases (is_space c)) [
  | inl b ↦ rw (b, fields_from) (ap (λ l. (a ∷ acc) ∷ l) (same []))
  | inr b ↦ rw (b, fields_from) (same ((a ∷ acc) ++ c ∷ []))
]

fields_from-space :
    (c : ℕ) (acc : Bytes)
    → is_space c ≡ true
    → fields_from is_space [] acc ≡ fields_from is_space (c ∷ []) acc
unfolding fields_from
fields_from-space c [] h = rw (h, fields_from) refl
fields_from-space c (a ∷ acc) h = rw (h, fields_from) refl

fields_from-trimmed :
    (c : ℕ) (s t : Bytes)
    → ((acc : Bytes) → fields_from is_space t acc ≡ fields_from is_space s acc)
    → (acc : Bytes)
    → fields_from is_space (trim_right_step c t) acc ≡ fields_from is_space (c ∷ s) acc
unfolding trim_right_step
fields_from-trimmed c s [] same acc = elim (Bool-cases (is_space c)) [
  | inl b ↦ rw b (fields_from-space c acc b ∙ fields_from-cons c s [] same acc)
  | inr b ↦ rw b (fields_from-cons c s [] same acc)
]
fields_from-trimmed c s (d ∷ t) same acc = fields_from-cons c s (d ∷ t) same acc

trim_right-fields :
    (s acc : Bytes) → fields_from is_space (trim_right s) acc ≡ fields_from is_space s acc
unfolding trim_right fields_from
trim_right-fields [] acc = refl
trim_right-fields (c ∷ s) acc =
    ap (λ t. fields_from is_space t acc) (trim_right-cons c s)
    ∙ fields_from-trimmed c s (trim_right s) (trim_right-fields s) acc

-- `strings.Fields` does not see the white space that `strings.TrimSpace` takes off.
pub fields-trim_space : (s : Bytes) → fields (trim_space s) ≡ fields s
unfolding fields trim_space
fields-trim_space s = trim_right-fields (trim_left s) [] ∙ trim_left-fields s

-- A word behind a space is the last field.
pub fields-snoc :
    (s w : Bytes) (d : ℕ)
    → All (λ e. is_space e ≡ false) (d ∷ w)
    → fields (s ++ (32 ∷ d ∷ w)) ≡ fields s ++ (d ∷ w) ∷ []
unfolding fields
fields-snoc s w d h = fields_from-snoc is_space s [] 32 d w refl h

pub fields-snoc_word :
    (s w : Bytes)
    → 0 < length w
    → All (λ e. is_space e ≡ false) w
    → fields (s ++ (32 ∷ w)) ≡ fields s ++ w ∷ []
fields-snoc_word s [] some_byte h = absurd (omega arith)
fields-snoc_word s (d ∷ w) some_byte h = fields-snoc s w d h

-- A text is split behind a part that does not hold the separator.
pub split-part :
    (sep : ℕ) (a b : Bytes)
    → All (λ c. (c == sep) ≡ false) a
    → split (a ++ (sep ∷ b)) sep ≡ a ∷ split b sep
unfolding split split_head
split-part sep [] b h = rw ((==_iff sep sep).1 refl) refl
split-part sep (c ∷ a) b (hc, h) = rw (hc, split) (ap (split_head c) (split-part sep a b h))

pub split-whole : (sep : ℕ) (a : Bytes) → All (λ c. (c == sep) ≡ false) a → split a sep ≡ a ∷ []
unfolding split split_head
split-whole sep [] h = refl
split-whole sep (c ∷ a) (hc, h) = rw (hc, split) (ap (split_head c) (split-whole sep a h))

pub cut-part :
    (sep : ℕ) (a b : Bytes)
    → All (λ c. (c == sep) ≡ false) a
    → cut (a ++ (sep ∷ b)) sep ≡ some (a, b)
unfolding cut
cut-part sep [] b h = rw ((==_iff sep sep).1 refl) refl
cut-part sep (c ∷ a) b (hc, h) = rw (hc, cut) (rw (cut-part sep a b h) refl)

trim_right-word : (s : Bytes) → All (λ c. is_space c ≡ false) s → trim_right s ≡ s
unfolding trim_right
trim_right-word [] h = refl
trim_right-word (c ∷ []) (hc, h) = rw (hc, trim_right) refl
trim_right-word (c ∷ d ∷ s) (hc, h) = rw (trim_right-word (d ∷ s) h, trim_right) refl

pub trim_space-word : (s : Bytes) → All (λ c. is_space c ≡ false) s → trim_space s ≡ s
unfolding trim_space trim_left
trim_space-word [] h = refl
trim_space-word (c ∷ s) (hc, h) = rw (hc, trim_left) (trim_right-word (c ∷ s) (hc, h))

trim_right-snoc : (s : Bytes) (c : ℕ) → is_space c ≡ true → trim_right (s ++ c ∷ []) ≡ trim_right s
unfolding trim_right
trim_right-snoc [] c h = rw (h, trim_right) refl
trim_right-snoc (d ∷ s) c h = rw (trim_right-snoc s c h, trim_right) refl

-- White space at the end is taken off.
pub trim_space-snoc :
    (s : Bytes) (c : ℕ) → is_space c ≡ true → trim_space (s ++ c ∷ []) ≡ trim_space s
unfolding trim_space trim_left
trim_space-snoc [] c h = rw (h, trim_left) refl
trim_space-snoc (d ∷ s) c h = elim (Bool-cases (is_space d)) [
  | inl b ↦ rw (b, trim_left) (trim_space-snoc s c h)
  | inr b ↦ rw (b, trim_left) (trim_right-snoc (d ∷ s) c h)
]

-- What `trim_right` takes off is white space.
pub trim_right-rest :
    (s : Bytes) → (w : Bytes) × (s ≡ trim_right s ++ w) × All (λ c. is_space c ≡ true) w
unfolding trim_right
trim_right-rest [] = ([], refl, tt)
trim_right-rest (c ∷ s) =
    let (w, e, h) = trim_right-rest s in trim_rest c s (trim_right s) w refl e h
  where
    trim_rest :
        (c : ℕ) (s t w : Bytes)
        → trim_right s ≡ t
        → s ≡ t ++ w
        → All (λ c. is_space c ≡ true) w
        → (w' : Bytes) × (c ∷ s ≡ trim_right (c ∷ s) ++ w') × All (λ c. is_space c ≡ true) w'
    trim_rest c s [] w e whole h =
        let spaces = subst (λ t. All (λ c. is_space c ≡ true) t) (sym whole) h in
        elim (Bool-cases (is_space c)) [
          | inl b ↦ (c ∷ s, rw (e, trim_right) (rw b refl), (b, spaces))
          | inr b ↦ (s, rw (e, trim_right) (rw b refl), spaces)
        ]
    trim_rest c s (d ∷ t) w e whole h = (w, rw (e, trim_right) (ap (λ t. c ∷ t) whole), h)

-- A byte at the end of the last part.
abbrev pub append_to_last : ℕ → List Bytes → List Bytes
append_to_last c [] = []
append_to_last c (p ∷ []) = (p ++ c ∷ []) ∷ []
append_to_last c (p ∷ q ∷ ps) = p ∷ append_to_last c (q ∷ ps)

append_to_last-cons :
    (c : ℕ) (p : Bytes) (ps : List Bytes)
    → 0 < length ps
    → append_to_last c (p ∷ ps) ≡ p ∷ append_to_last c ps
append_to_last-cons c p [] h = absurd (omega arith)
append_to_last-cons c p (q ∷ ps) h = refl

append_to_last-split_head :
    (c d : ℕ) (ps : List Bytes)
    → 0 < length ps
    → split_head d (append_to_last c ps) ≡ append_to_last c (split_head d ps)
unfolding split_head
append_to_last-split_head c d [] h = absurd (omega arith)
append_to_last-split_head c d (p ∷ []) h = refl
append_to_last-split_head c d (p ∷ q ∷ ps) h = refl

-- A byte that is no separator at the end of a text stands at the end of its last part.
pub split-snoc :
    (sep c : ℕ) (s : Bytes)
    → (c == sep) ≡ false
    → split (s ++ c ∷ []) sep ≡ append_to_last c (split s sep)
unfolding split
split-snoc sep c [] h = rw (h, split) (unfold split_head in refl)
split-snoc sep c (d ∷ s) h = elim (Bool-cases (d == sep)) [
  | inl b ↦
      rw (b, split)
        (ap (λ l. [] ∷ l) (split-snoc sep c s h)
          ∙ sym (append_to_last-cons c [] (split s sep) (split-some s sep)))
  | inr b ↦
      rw (b, split)
        (ap (split_head d) (split-snoc sep c s h)
          ∙ append_to_last-split_head c d (split s sep) (split-some s sep))
]
