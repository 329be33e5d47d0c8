-- ===== src/Dkim/Canonical/Relaxed.antt =====
-- The relaxed body canonicalizer (dkim/canonical.go) does not see how its input is cut into writes.
use smtpx.Base.{
  ℕ, ◌≤◌, Bool, true, false, ◌||◌, [], ◌∷◌, ◌++◌, append_assoc, Bytes, crlf, ◌≡◌, ◌≢◌, ◌⊎◌, inl,
  inr, refl, ap, sym, ap₂, append-nil, Bool-cases, ◌∙◌, arith, length, length-append, ltb, ◌==◌,
  if◌then◌else◌,
}
use smtpx.Dkim.Canonical.{
  fix, RelaxedBody, new_relaxed, relaxed_byte, relaxed_bytes, relaxed_write, relaxed_close,
}

pub fix-append :
    (a b : Bytes) (cr : Bool) → (fix cr (a ++ b)).0 ≡ (fix cr a).0 ++ (fix (fix cr a).1 b).0
unfolding fix
fix-append [] b cr = refl
fix-append (c ∷ a) b cr = ground (arith, fix-append a b (c == 13))

pub fix_cr-append : (a b : Bytes) (cr : Bool) → (fix cr (a ++ b)).1 ≡ (fix (fix cr a).1 b).1
unfolding fix
fix_cr-append [] b cr = refl
fix_cr-append (c ∷ a) b cr = fix_cr-append a b (c == 13)

relaxed_bytes-append :
    (c : RelaxedBody) (a b : Bytes) → relaxed_bytes c (a ++ b) ≡ relaxed_bytes (relaxed_bytes c a) b
unfolding relaxed_bytes
relaxed_bytes-append c [] b = refl
relaxed_bytes-append c (ch ∷ a) b = relaxed_bytes-append (relaxed_byte c ch) a b

relaxed_byte-flags :
    (c : RelaxedBody) (w r : Bool) (ch : ℕ)
    → relaxed_byte (record c { written = w; cr = r }) ch
      ≡ record (relaxed_byte c ch) { written = w; cr = r }
unfolding relaxed_byte
relaxed_byte-flags c w r ch = ground arith

-- The flags `cr` and `written` are not read in the loop.
relaxed_bytes-flags :
    (c : RelaxedBody) (w r : Bool) (b : Bytes)
    → relaxed_bytes (record c { written = w; cr = r }) b
      ≡ record (relaxed_bytes c b) { written = w; cr = r }
unfolding relaxed_bytes
relaxed_bytes-flags c w r [] = refl
relaxed_bytes-flags c w r (ch ∷ b) =
    ap (λ q. relaxed_bytes q b) (relaxed_byte-flags c w r ch)
    ∙ relaxed_bytes-flags (relaxed_byte c ch) w r b

relaxed_byte-grows : (c : RelaxedBody) (ch : ℕ) → length c.out ≤ length (relaxed_byte c ch).out
unfolding relaxed_byte
relaxed_byte-grows c ch = grind (arith, length-append)

relaxed_bytes-grows : (c : RelaxedBody) (b : Bytes) → length c.out ≤ length (relaxed_bytes c b).out
unfolding relaxed_bytes
relaxed_bytes-grows c [] = omega arith
relaxed_bytes-grows c (ch ∷ b) =
    omega (arith, relaxed_byte-grows c ch, relaxed_bytes-grows (relaxed_byte c ch) b)

written_twice :
    (w : Bool) (k m n : ℕ) → k ≤ m → m ≤ n → ((w || ltb k m) || ltb m n) ≡ (w || ltb k n)
written_twice w k m n p q = ground arith

-- What `Write` leaves behind the loop.
abbrev finish : RelaxedBody → RelaxedBody → Bool → RelaxedBody
finish c q cr' = record q { cr = cr'; written = c.written || ltb (length c.out) (length q.out) }

-- Two writes are one write of the two inputs joined, in every state of the canonicalizer: the bytes
-- that are hashed do not depend on how the reader cuts the body.
pub relaxed_write-append :
    (c : RelaxedBody) (a b : Bytes) → relaxed_write (relaxed_write c a) b ≡ relaxed_write c (a ++ b)
unfolding relaxed_write
relaxed_write-append c a b =
    let fa = (fix c.cr a).0 in
    let cra = (fix c.cr a).1 in
    let fb = (fix cra b).0 in
    let crb = (fix cra b).1 in
    let d = relaxed_bytes c fa in
    let e = relaxed_bytes d fb in
    let c1 = finish c d cra in
    ap (λ q. finish c1 q crb) (relaxed_bytes-flags d c1.written cra fb)
    ∙ ap (λ t. record e { cr = crb; written = t })
        (written_twice c.written (length c.out) (length d.out) (length e.out)
          (relaxed_bytes-grows c fa) (relaxed_bytes-grows d fb))
    ∙ sym (
        ap₂ (λ f r. finish c (relaxed_bytes c f) r) (fix-append a b c.cr) (fix_cr-append a b c.cr)
        ∙ ap (λ q. finish c q crb) (relaxed_bytes-append c fa fb))

-- Nothing is handed on yet, or what is ends in a byte that is neither white space nor a line break.
abbrev pub EndsInText : Bytes → Type 0
EndsInText out =
    (out ≡ [])
    ⊎ ((front : Bytes) × (ch : ℕ) × (out ≡ front ++ (ch ∷ []))
        × (ch ≢ 32)
        × (ch ≢ 9)
        × (ch ≢ 13)
        × (ch ≢ 10))

spaced :
    (out : Bytes) (w : Bool) (ch : ℕ)
    → out ++ (if w then 32 ∷ ch ∷ [] else ch ∷ [])
      ≡ (out ++ (if w then 32 ∷ [] else [])) ++ (ch ∷ [])
spaced out true ch = sym (append_assoc out (32 ∷ []) (ch ∷ []))
spaced out false ch = ap (λ o. o ++ (ch ∷ [])) (sym (append-nil out))

relaxed_byte-EndsInText :
    (c : RelaxedBody) (ch : ℕ) → EndsInText c.out → EndsInText (relaxed_byte c ch).out
unfolding relaxed_byte
relaxed_byte-EndsInText c ch h = elim (Bool-cases (ch == 32 || ch == 9)) [
  | inl blank ↦ rw blank h
  | inr dark ↦ rw dark (elim (Bool-cases (ch == 13 || ch == 10)) [
    | inl ending ↦ rw ending h
    | inr text ↦ rw text (
        inr (
          (c.out ++ c.crlf_buf) ++ (if c.wsp then 32 ∷ [] else []),
          ch,
          spaced (c.out ++ c.crlf_buf) c.wsp ch,
          ground arith,
          ground arith,
          ground arith,
          ground arith,
        ))
  ])
]

relaxed_bytes-EndsInText :
    (c : RelaxedBody) (b : Bytes) → EndsInText c.out → EndsInText (relaxed_bytes c b).out
unfolding relaxed_bytes
relaxed_bytes-EndsInText c [] h = h
relaxed_bytes-EndsInText c (ch ∷ b) h =
    relaxed_bytes-EndsInText (relaxed_byte c ch) b (relaxed_byte-EndsInText c ch h)

-- White space and line breaks at the end of a body never reach the hash: what a write hands on is
-- nothing, and then the closed body is empty, or it ends in another byte, and then one CRLF follows.
pub relaxed_body_end :
    (b : Bytes)
    → let c = relaxed_write new_relaxed b in
      EndsInText c.out
      × (c.out ≡ [] → (relaxed_close c).out ≡ [])
      × (c.out ≢ [] → (relaxed_close c).out ≡ c.out ++ crlf)
unfolding relaxed_write relaxed_close
relaxed_body_end b = (
  relaxed_bytes-EndsInText new_relaxed (fix false b).0 (inl refl),
  (λ h. ground arith),
  (λ h. ground arith),
)
