-- ===== src/Dkim/Message.antt =====
-- middleware/authres/dkim/verify.go: the verification of every signature of a message. A verification
-- of one signature gets the whole body through a pipe of its own and its result has a place of its
-- own, so the order in which the goroutines run is left out.
pub mod Every
use smtpx.Base.{
  ℕ, Bool, true, false, not, ◌&&◌, List, [], ◌∷◌, Option, none, some, Bytes, codes, equal_fold,
  length, take, ltb, ◌==◌, if◌then◌else◌,
}
use smtpx.Dkim.Header.{read_header}
use smtpx.Dkim.Params.{parse_header_field}
use smtpx.Dkim.Query.{Checked, Crypto}
use smtpx.Dkim.Verify.{Verification, verify}

-- The fields that are signatures, each with its value.
unfoldable pub signatures : List Bytes → List (Bytes × Bytes)
unfolding parse_header_field equal_fold
signatures [] = []
signatures (kv ∷ h) =
    let (k, v) = parse_header_field kv in
    if equal_fold k (codes "DKIM-Signature") then (kv, v) ∷ signatures h else signatures h

-- `MaxVerifications`, where zero is no maximum.
unfoldable pub kept : ℕ → List (Bytes × Bytes) → List (Bytes × Bytes)
kept max sigs = if max == 0 then sigs else take max sigs

unfoldable pub verify_each :
    Crypto → List Bytes → Bytes → List (Bytes × Bytes) → List (Verification × Checked (Unit {0}))
unfolding verify
verify_each c h body [] = []
verify_each c h body ((kv, v) ∷ sigs) = verify c h body kv v ∷ verify_each c h body sigs

verify_message :
    Crypto
    → ℕ
    → Option (List Bytes × Bytes)
    → Option (List (Verification × Checked (Unit {0})) × Bool)
unfolding signatures kept verify_each
verify_message c max none = none
verify_message c max (some (h, body)) =
    let sigs = signatures h in
    some (verify_each c h body (kept max sigs), not (max == 0) && ltb max (length sigs))

-- `VerifyWithOptions`; the flag is `ErrTooManySignatures`.
unfoldable pub verify_with_options :
    Crypto → ℕ → Bytes → Option (List (Verification × Checked (Unit {0})) × Bool)
unfolding verify_message read_header
verify_with_options c max message = verify_message c max (read_header message)
