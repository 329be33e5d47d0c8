-- ===== src/Dkim/Params/Named.antt =====
-- middleware/authres/dkim/header.go and verify.go: what the names of canonicalizations, the tag c= and
-- a test on a list of names stand for, written without the code's functions.
use mathlib.Core.List.{Mem, mem-cons_self, mem-cons_of_mem}
use mathlib.Core.Path.{subst}
use smtpx.Base.{
  ℕ, true, List, [], ◌∷◌, ◌++◌, some, Bytes, codes, ◌≡◌, ◌⊎◌, inl, inr, refl, sym, any, equal,
  equal_iff, cut, length, ◌==◌, ==_iff, if◌then◌else◌, Bool-cases, Option-cases, arith,
}
use smtpx.Dkim.Params.{
  Canonicalization, simple, relaxed, canonicalization, parse_canonicalization, strip_whitespace,
}

abbrev pub IsNamed : Bytes → Canonicalization → Type 0
IsNamed s simple = s ≡ codes "simple"
IsNamed s relaxed = s ≡ codes "relaxed"

-- A name may be left out for `simple`.
abbrev pub IsNamedOrEmpty : Bytes → Canonicalization → Type 0
IsNamedOrEmpty s can = ((s ≡ []) × (can ≡ simple)) ⊎ IsNamed s can

-- `header/body`, or the name for the header alone.
abbrev pub AreNamed : Bytes → Canonicalization × Canonicalization → Type 0
AreNamed t can =
    (IsNamedOrEmpty t can.0 × (can.1 ≡ simple))
    ⊎ ((h : Bytes) × (b : Bytes) × (t ≡ h ++ (b'/' ∷ b)) × IsNamedOrEmpty h can.0 × IsNamed b can.1)

pub canonicalization-IsNamed :
    (s : Bytes) (can : Canonicalization) → canonicalization s ≡ some can → IsNamed s can
unfolding canonicalization
canonicalization-IsNamed s simple h =
    ground (arith, equal_iff s (codes "simple"), equal_iff s (codes "relaxed"))
canonicalization-IsNamed s relaxed h =
    ground (arith, equal_iff s (codes "simple"), equal_iff s (codes "relaxed"))

pub IsNamed-canonicalization :
    (s : Bytes) (can : Canonicalization) → IsNamed s can → canonicalization s ≡ some can
unfolding canonicalization equal
IsNamed-canonicalization s simple h = rw h refl
IsNamed-canonicalization s relaxed h = rw h refl

or_simple-IsNamedOrEmpty :
    (s : Bytes) (can : Canonicalization)
    → canonicalization (if length s == 0 then codes "simple" else s) ≡ some can
    → IsNamedOrEmpty s can
unfolding canonicalization equal
or_simple-IsNamedOrEmpty [] simple h = inl (refl, refl)
or_simple-IsNamedOrEmpty [] relaxed h = cc
or_simple-IsNamedOrEmpty (c ∷ s) can h = inr (canonicalization-IsNamed (c ∷ s) can (ground arith))

simple_only : (can : Canonicalization) → canonicalization (codes "simple") ≡ some can → can ≡ simple
unfolding canonicalization equal
simple_only simple h = refl
simple_only relaxed h = cc

cut-whole : (s a b : Bytes) (sep : ℕ) → cut s sep ≡ some (a, b) → s ≡ a ++ (sep ∷ b)
unfolding cut
cut-whole [] a b sep h = cc
cut-whole (c ∷ s) a b sep h = elim (Bool-cases (c == sep)) [
  | inl here ↦ ground (arith, ==_iff c sep)
  | inr later ↦ elim (Option-cases (cut s sep)) [
    | inl nowhere ↦ ground arith
    | inr ((front, rest), e) ↦ ground (arith, cut-whole s front rest sep e)
  ]
]

pub parse_canonicalization-AreNamed :
    (s : Bytes) (h b : Canonicalization)
    → canonicalization (parse_canonicalization s).0 ≡ some h
    → canonicalization (parse_canonicalization s).1 ≡ some b
    → AreNamed (strip_whitespace s) (h, b)
unfolding parse_canonicalization
parse_canonicalization-AreNamed s h b eh eb = elim (Option-cases (cut (strip_whitespace s) b'/')) [
  | inl whole ↦ inl (
    or_simple-IsNamedOrEmpty (strip_whitespace s) h (rw whole at eh),
    simple_only b (rw whole at eb),
  )
  | inr ((x, y), e) ↦ inr (
    x,
    y,
    cut-whole (strip_whitespace s) x y b'/' e,
    or_simple-IsNamedOrEmpty x h (rw e at eh),
    canonicalization-IsNamed y b (rw e at eb),
  )
]

-- What a test for a name has found in a list.
pub any-Mem : (s : Bytes) (l : List Bytes) → any (λ t. equal t s) l ≡ true → Mem s l
any-Mem s [] h = cc
any-Mem s (t ∷ l) h = elim (Bool-cases (equal t s)) [
  | inl here ↦ subst (λ x. Mem s (x ∷ l)) (sym ((equal_iff t s).0 here)) mem-cons_self
  | inr later ↦ mem-cons_of_mem t (any-Mem s l (rw later at h))
]
