-- ===== src/Dkim/Message/Every.antt =====
-- What the verifications of a message (dkim/verify.go) say of it.
use smtpx.Base.{
  ℕ, zero, suc, ◌<◌, ◌↔◌, Bool, false, true, inl, inr, Bool-cases, select, take, equal_fold, codes,
  List, [], ◌∷◌, Option, none, some, Bytes, length, ◌≡◌, refl, sym, ap, arith, not, ◌&&◌, ltb, ◌==◌,
}
use smtpx.Dkim.Header.{read_header}
use smtpx.Dkim.Message.{signatures, kept, verify_each, verify_message, verify_with_options}
use smtpx.Dkim.Params.{parse_header_field}
use smtpx.Dkim.Query.{Checked, pass, Crypto}
use smtpx.Dkim.Verify.{Verification, verify}
use smtpx.Dkim.Verify.Sound.{IsVerified, verify_sound}

positive : (n : ℕ) → 0 < n → (n == 0) ≡ false
positive n h = ground arith

-- A field with the name of a signature.
abbrev pub is_signature : Bytes → Bool
is_signature field = equal_fold (parse_header_field field).0 (codes "DKIM-Signature")

-- The fields have these results, in their order, and a field whose result is a success is verified.
abbrev pub Answers :
    Crypto → List Bytes → Bytes → List Bytes → List (Verification × Checked (Unit {0})) → Type 0
Answers c h body [] [] = Unit
Answers c h body [] (p ∷ ps) = ⊥
Answers c h body (f ∷ fs) [] = ⊥
Answers c h body (f ∷ fs) (p ∷ ps) =
    (p.1 ≡ pass tt → IsVerified c h body f (parse_header_field f).1) × Answers c h body fs ps

with_values : List Bytes → List (Bytes × Bytes)
with_values [] = []
with_values (f ∷ fs) = (f, (parse_header_field f).1) ∷ with_values fs

signatures-select : (h : List Bytes) → signatures h ≡ with_values (select is_signature h)
unfolding signatures with_values
signatures-select [] = refl
signatures-select (f ∷ h) = elim (Bool-cases (is_signature f)) [
  | inl b ↦ rw b (ap (λ l. (f, (parse_header_field f).1) ∷ l) (signatures-select h))
  | inr b ↦ rw b (signatures-select h)
]

take-with_values : (n : ℕ) (fs : List Bytes) → take n (with_values fs) ≡ with_values (take n fs)
unfolding with_values
take-with_values zero fs = refl
take-with_values (suc n) [] = refl
take-with_values (suc n) (f ∷ fs) =
    ap (λ l. (f, (parse_header_field f).1) ∷ l) (take-with_values n fs)

length-with_values : (fs : List Bytes) → length (with_values fs) ≡ length fs
unfolding with_values
length-with_values [] = refl
length-with_values (f ∷ fs) = ap suc (length-with_values fs)

verify_each-Answers :
    (c : Crypto) (h : List Bytes) (body : Bytes) (fs : List Bytes)
    → Answers c h body fs (verify_each c h body (with_values fs))
unfolding verify_each with_values
verify_each-Answers c h body [] = tt
verify_each-Answers c h body (f ∷ fs) =
    let v = (parse_header_field f).1 in
    (
      λ q. verify_sound c h body f v (ap (λ r. ((verify c h body f v).0, r)) q),
      verify_each-Answers c h body fs,
    )

-- What holds of the results `vs` of a message with this header and body.
abbrev pub EachAnswered :
    Crypto → ℕ → List (Verification × Checked (Unit {0})) → Bool → List Bytes → Bytes → Type 0
EachAnswered c max vs many h body =
    (max ≡ 0 → Answers c h body (select is_signature h) vs × (many ≡ false))
    × (0 < max
        → Answers c h body (take max (select is_signature h)) vs
          × ((many ≡ true) ↔ (max < length (select is_signature h))))

EachAnswered-kept :
    (c : Crypto) (max : ℕ) (h : List Bytes) (body : Bytes)
    → EachAnswered c max
        (verify_each c h body (kept max (signatures h)))
        (not (max == 0) && ltb max (length (signatures h)))
        h
        body
unfolding kept
EachAnswered-kept c max h body =
    let fs = select is_signature h in
    rw (signatures-select h, length-with_values fs)
      (
        λ e. (rw e (verify_each-Answers c h body fs), ground arith),
        λ p. (
          rw (positive max p, take-with_values max fs) (verify_each-Answers c h body (take max fs)),
          ground arith,
        ),
      )

verify_message-EachAnswered :
    (c : Crypto) (max : ℕ) (o : Option (List Bytes × Bytes))
    {vs : List (Verification × Checked (Unit {0}))} {many : Bool}
    → verify_message c max o ≡ some (vs, many)
    → (h : List Bytes) × (body : Bytes) × (o ≡ some (h, body)) × EachAnswered c max vs many h body
unfolding verify_message
verify_message-EachAnswered c max none q = ground arith
verify_message-EachAnswered c max (some (h, body)) {vs} {many} q =
    let same : verify_each c h body (kept max (signatures h)) ≡ vs = cc in
    let flag : (not (max == 0) && ltb max (length (signatures h))) ≡ many = cc in
    (h, body, refl, rw (sym same, sym flag) (EachAnswered-kept c max h body))

-- The verification of a message that has a header gives one result for each field with the name of a
-- signature, in their order, or, with a maximum, for the first ones up to it, and says whether there
-- were more; and each result that is a success is that of a field whose tags, key and signature have
-- passed all steps of the verification over this header and this body.
pub verify_with_options_sound :
    (c : Crypto) (max : ℕ) (message : Bytes) {vs : List (Verification × Checked (Unit {0}))}
    {many : Bool}
    → verify_with_options c max message ≡ some (vs, many)
    → (h : List Bytes) × (body : Bytes) × (read_header message ≡ some (h, body))
      × EachAnswered c max vs many h body
unfolding verify_with_options
verify_with_options_sound c max message q =
    verify_message-EachAnswered c max (read_header message) q
