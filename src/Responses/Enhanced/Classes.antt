-- ===== src/Responses/Enhanced/Classes.antt =====
-- The codes of a canned response and its class (responses/enhanced.go).
use smtpx.Base.{
  ℕ, ◌*◌, ◌/◌, List, [], ◌∷◌, Option, none, some, ◌≡◌, refl, arith, All, Bool-cases, inl, inr,
}
use smtpx.Responses.Codes.{EnhancedStatusCode, same_code, find_code, code_map}
use smtpx.Responses.Enhanced.{
  CannedResponse, code_or, get_basic_status_code, status_code, string_of,
}

-- The basic codes of a table are of the class of their key.
abbrev HasClass : EnhancedStatusCode × ℕ → Type 0
HasClass (k, n) = n / 100 ≡ k.class

find_code-HasClass :
    (e : EnhancedStatusCode) (l : List (EnhancedStatusCode × ℕ)) (n : ℕ)
    → All HasClass l
    → find_code e l ≡ some n
    → n / 100 ≡ e.class
unfolding find_code
find_code-HasClass e [] n h q = ground arith
find_code-HasClass e ((k, v) ∷ l) n (hk, hl) q = elim (Bool-cases (same_code e k)) [
  | inl same ↦ ground arith
  | inr other ↦ find_code-HasClass e l n hl (ground arith)
]

code_map-HasClass : All HasClass code_map
unfolding code_map
code_map-HasClass = ground arith

code_or-class :
    (e : EnhancedStatusCode) (o : Option ℕ)
    → ((n : ℕ) → o ≡ some n → n / 100 ≡ e.class)
    → code_or o (e.class * 100) / 100 ≡ e.class
unfolding code_or
code_or-class e none h = omega arith
code_or-class e (some n) h = h n refl

string_of-twice :
    (r : CannedResponse)
    → ((string_of (string_of r).0).1 ≡ (string_of r).1)
      × ((status_code (string_of r).0).1 ≡ (status_code r).1)
      × ((string_of r).0.class ≡ r.class)
unfolding string_of
string_of-twice r = (ground arith, ground arith, ground arith)

-- The basic code that is looked up for an enhanced code is always of its class, in the table and
-- where the table has none; and a response that has been asked for its text once gives the same
-- text, code and class from then on.
pub basic_code_class :
    (e : EnhancedStatusCode) (r : CannedResponse)
    → (get_basic_status_code e / 100 ≡ e.class)
      × ((string_of (string_of r).0).1 ≡ (string_of r).1)
      × ((status_code (string_of r).0).1 ≡ (status_code r).1)
      × ((string_of r).0.class ≡ r.class)
unfolding get_basic_status_code
basic_code_class e r =
    let (text, code, class) = string_of-twice r in
    let found = find_code-HasClass e code_map in
    (code_or-class e (find_code e code_map) (λ n q. found n code_map-HasClass q), text, code, class)
