-- ===== src/Dkim/Canonical/Simple.antt =====
-- The limited writer of dkim/canonical.go.
use smtpx.Base.{ℕ, zero, suc, ◌+◌, ◌<◌, [], ◌∷◌, Bytes, ◌≡◌, ◌≤◌, refl, ap, arith, length, take}
use smtpx.Dkim.Canonical.{limited_write}

length-take : (n : ℕ) (b : Bytes) → n < length b → length (take n b) ≡ n
length-take zero b h = refl
length-take (suc n) [] h = absurd (omega arith)
length-take (suc n) (c ∷ b) h = omega (arith, length-take n b)

take-all : (n : ℕ) (b : Bytes) → length b ≤ n → take n b ≡ b
take-all zero [] h = refl
take-all zero (c ∷ b) h = absurd (omega arith)
take-all (suc n) [] h = refl
take-all (suc n) (c ∷ b) h = ap (λ l. c ∷ l) (take-all n b (omega arith))

limited_write-take : (n : ℕ) (b : Bytes) → (limited_write n b).1 ≡ take n b
unfolding limited_write
limited_write-take zero b = ground arith
limited_write-take (suc n) b = ground (arith, take-all (suc n) b)

-- The limited writer hands on the first bytes of its argument, as many as its limit leaves, and takes
-- them off the limit.
-- When it cuts its argument it returns the length of what it handed on, which is less than the
-- length of the argument: the bytes that it skips are not counted, as they are once nothing is left.
pub limited_write_short :
    (n : ℕ) (b : Bytes)
    → ((limited_write n b).0 + length (limited_write n b).1 ≡ n)
      × ((limited_write n b).1 ≡ take n b)
      × (0 < n
          → n < length b
          → ((limited_write n b).2 ≡ length (limited_write n b).1)
            × ((limited_write n b).2 < length b))
      × ((limited_write 0 b).2 ≡ length b)
unfolding limited_write
limited_write_short n b = (
  ground (arith, length-take n b),
  limited_write-take n b,
  (λ p q. ground (arith, length-take n b q)),
  ground arith,
)
