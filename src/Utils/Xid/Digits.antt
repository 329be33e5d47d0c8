-- ===== src/Utils/Xid/Digits.antt =====
-- The text of an identifier (utils/id.go) as a number.
use Prim.Native.Nat.{bit_or}
use smtpx.Base.{
  ℕ, zero, suc, ◌+◌, ◌*◌, ◌/◌, ◌%◌, ◌<◌, Bool, true, ◌&&◌, List, [], ◌∷◌, ◌++◌, length, Bytes, ◌==◌,
  All, if◌then◌else◌, leb, ◌-◌, ◌≡◌, refl, ap, ap₂, ◌∙◌, arith,
}
use smtpx.Utils.Xid.{Identifier, indices, letter, letters, encode, shl, shr, five}

module _ (f g : ℕ → ℕ) where
  agree_below : ℕ → Bool
  agree_below zero = true
  agree_below (suc n) = f n == g n && agree_below n

  agree_below→eq : (n : ℕ) → agree_below n ≡ true → (i : ℕ) → i < n → f i ≡ g i
  unfolding agree_below
  agree_below→eq zero e i h = absurd (omega arith)
  agree_below→eq (suc n) e i h = ground (arith, agree_below→eq n (ground arith) i)

five-mod : (x : ℕ) → x < 256 → five x ≡ x % 32
unfolding agree_below
five-mod = agree_below→eq _ _ 256 refl

-- `|` of numbers whose bits do not meet.
or_1 : (i : ℕ) → i < 32 → bit_or (i % 2) (i / 2 * 2) ≡ i
unfolding agree_below
or_1 = agree_below→eq _ _ 32 refl

or_2 : (i : ℕ) → i < 32 → bit_or (i % 4) (i / 4 * 4) ≡ i
unfolding agree_below
or_2 = agree_below→eq _ _ 32 refl

or_3 : (i : ℕ) → i < 32 → bit_or (i % 8) (i / 8 * 8) ≡ i
unfolding agree_below
or_3 = agree_below→eq _ _ 32 refl

or_4 : (i : ℕ) → i < 32 → bit_or (i % 16) (i / 16 * 16) ≡ i
unfolding agree_below
or_4 = agree_below→eq _ _ 32 refl

-- The index of a digit of base 32 with the letters up to `v`.
abbrev pub digit_value : ℕ → ℕ
digit_value c = if leb b'a' c then c - 87 else c - 48

digit_value-letter : (i : ℕ) → i < 32 → digit_value (letter i) ≡ i
unfolding agree_below letter
digit_value-letter = agree_below→eq _ _ 32 refl

-- A digit of base 32 that holds the low bits of a byte `p` and the high bits of the next, `n`.
seam_6 : (n p : ℕ) → n < 256 → p < 256 → bit_or (shr n 6) (five (shl p 2)) ≡ n / 64 + p % 8 * 4
seam_6 n p hn hp =
    let i = n / 64 + p % 8 * 4 in
    ap₂ bit_or {x = n / 64} {y = i % 4} (omega arith)
      (five-mod (shl p 2) (omega arith) ∙ omega arith)
    ∙ or_2 i (omega arith)

seam_4 : (n p : ℕ) → n < 256 → p < 256 → bit_or (shr n 4) (five (shl p 4)) ≡ n / 16 + p % 2 * 16
seam_4 n p hn hp =
    let i = n / 16 + p % 2 * 16 in
    ap₂ bit_or {x = n / 16} {y = i % 16} (omega arith)
      (five-mod (shl p 4) (omega arith) ∙ omega arith)
    ∙ or_4 i (omega arith)

seam_7 : (n p : ℕ) → n < 256 → p < 256 → bit_or (shr n 7) (five (shl p 1)) ≡ n / 128 + p % 16 * 2
seam_7 n p hn hp =
    let i = n / 128 + p % 16 * 2 in
    ap₂ bit_or {x = n / 128} {y = i % 2} (omega arith)
      (five-mod (shl p 1) (omega arith) ∙ omega arith)
    ∙ or_1 i (omega arith)

seam_5 : (n p : ℕ) → n < 256 → p < 256 → bit_or (shr n 5) (five (shl p 3)) ≡ n / 32 + p % 4 * 8
seam_5 n p hn hp =
    let i = n / 32 + p % 4 * 8 in
    ap₂ bit_or {x = n / 32} {y = i % 8} (omega arith)
      (five-mod (shl p 3) (omega arith) ∙ omega arith)
    ∙ or_3 i (omega arith)

last_bit : (n : ℕ) → five (shl n 4) ≡ n % 2 * 16
last_bit n = five-mod (shl n 4) (omega arith) ∙ omega arith

-- A number by its digits, behind the digits of `acc`.
abbrev pub number : ℕ → List ℕ → ℕ → ℕ
number base [] acc = acc
number base (d ∷ ds) acc = number base ds (acc * base + d)

-- The eight digits of base 32 of five bytes, and the four of the last two.
abbrev eight : ℕ → ℕ → ℕ → ℕ → ℕ → List ℕ
eight a b c d e =
    (a / 8)
    ∷ (b / 64 + a % 8 * 4)
    ∷ (b / 2 % 32)
    ∷ (c / 16 + b % 2 * 16)
    ∷ (d / 128 + c % 16 * 2)
    ∷ (d / 4 % 32)
    ∷ (e / 32 + d % 4 * 8)
    ∷ (e % 32)
    ∷ []

abbrev four : ℕ → ℕ → List ℕ
four a b = (a / 8) ∷ (b / 64 + a % 8 * 4) ∷ (b / 2 % 32) ∷ (b % 2 * 16) ∷ []

number-eight :
    (a b c d e acc : ℕ) → number 32 (eight a b c d e) acc ≡ number 256 (a ∷ b ∷ c ∷ d ∷ e ∷ []) acc
number-eight a b c d e acc = omega arith

number-four : (a b acc : ℕ) → number 32 (four a b) acc ≡ number 256 (a ∷ b ∷ []) acc * 16
number-four a b acc = omega arith

-- The bytes of an identifier, in their order.
abbrev pub id_bytes : Identifier → List ℕ
id_bytes r =
    r.id0 ∷ r.id1 ∷ r.id2 ∷ r.id3 ∷ r.id4 ∷ r.id5 ∷ r.id6 ∷ r.id7 ∷ r.id8 ∷ r.id9 ∷ r.id10 ∷ r.id11
    ∷ []

abbrev pub AreBytes : List ℕ → Type 0
AreBytes bs = All (λ b. b < 256) bs

abbrev digits_of : Identifier → List ℕ
digits_of r =
    eight r.id0 r.id1 r.id2 r.id3 r.id4
    ++ (eight r.id5 r.id6 r.id7 r.id8 r.id9 ++ four r.id10 r.id11)

abbrev AreDigits : List ℕ → Type 0
AreDigits ds = All (λ d. d < 32) ds

digits_of-AreDigits : (r : Identifier) → AreBytes (id_bytes r) → AreDigits (digits_of r)
digits_of-AreDigits r (h0, (h1, (h2, (h3, (h4, (h5, (h6, (h7, (h8, (h9, (h10, (h11, u)))))))))))) =
    ground arith

indices-digits : (r : Identifier) → AreBytes (id_bytes r) → indices r ≡ digits_of r
unfolding indices
indices-digits r (h0, (h1, (h2, (h3, (h4, (h5, (h6, (h7, (h8, (h9, (h10, (h11, u)))))))))))) =
    rw
      (
        seam_6 r.id1 r.id0 h1 h0,
        five-mod (shr r.id1 1) (omega arith),
        seam_4 r.id2 r.id1 h2 h1,
        seam_7 r.id3 r.id2 h3 h2,
        five-mod (shr r.id3 2) (omega arith),
        seam_5 r.id4 r.id3 h4 h3,
        five-mod r.id4 h4,
        seam_6 r.id6 r.id5 h6 h5,
        five-mod (shr r.id6 1) (omega arith),
        seam_4 r.id7 r.id6 h7 h6,
        seam_7 r.id8 r.id7 h8 h7,
        five-mod (shr r.id8 2) (omega arith),
        seam_5 r.id9 r.id8 h9 h8,
        five-mod r.id9 h9,
        seam_6 r.id11 r.id10 h11 h10,
        five-mod (shr r.id11 1) (omega arith),
        last_bit r.id11,
      )
      refl

-- The digits that a text stands for.
abbrev pub values : Bytes → List ℕ
values [] = []
values (c ∷ s) = digit_value c ∷ values s

values-letters : (ds : List ℕ) → AreDigits ds → values (letters ds) ≡ ds
unfolding letters
values-letters [] h = refl
values-letters (d ∷ ds) (hd, h) = ap₂ ◌∷◌ (digit_value-letter d hd) (values-letters ds h)

number-digits : (r : Identifier) → number 32 (digits_of r) 0 ≡ number 256 (id_bytes r) 0 * 16
number-digits r =
    ap (λ n. number 32 (four r.id10 r.id11) (number 32 (eight r.id5 r.id6 r.id7 r.id8 r.id9) n))
      (number-eight r.id0 r.id1 r.id2 r.id3 r.id4 0)
    ∙ ap (number 32 (four r.id10 r.id11)) (
        number-eight r.id5 r.id6 r.id7 r.id8 r.id9
          (number 256 (r.id0 ∷ r.id1 ∷ r.id2 ∷ r.id3 ∷ r.id4 ∷ []) 0))
    ∙ number-four r.id10 r.id11 _

-- The text of an identifier of twelve bytes is its number in base 32, in 20 digits whose last four
-- bits are zero.
pub encode-number :
    (r : Identifier)
    → AreBytes (id_bytes r)
    → (number 32 (values (encode r)) 0 ≡ number 256 (id_bytes r) 0 * 16) × (length (encode r) ≡ 20)
unfolding encode
encode-number r h =
    let same = indices-digits r h in
    (
      ap (λ ds. number 32 (values (letters ds)) 0) same
          ∙ ap (λ ds. number 32 ds 0) (values-letters (digits_of r) (digits_of-AreDigits r h))
          ∙ number-digits r,
      refl,
    )
