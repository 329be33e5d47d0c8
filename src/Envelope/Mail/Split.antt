-- ===== src/Envelope/Mail/Split.antt =====
-- A header put in front of a message (envelope/envelope.go) leaves its body alone.
use smtpx.Base.{
  ℕ, Bool, false, [], ◌∷◌, ◌++◌, append_assoc, none, some, Bytes, ◌≡◌, ◌≢◌, refl, ap, ◌∙◌, arith,
  cut_on, All, All-append, has_prefix,
}
use smtpx.Envelope.Data.Contents.{bytes-prepend}
use smtpx.Envelope.Data.{bytes}
use smtpx.Envelope.Message.{Envelope, prepend_header, header_line, canonical_key}
use smtpx.Envelope.Mail.{mail_or, new_mail, open_mail}

abbrev break : Bytes
break = 13 ∷ 10 ∷ 13 ∷ 10 ∷ []

-- No byte is a carriage return.
abbrev pub LacksCr : Bytes → Type 0
LacksCr = All (λ c. c ≢ 13)

cut_on-step :
    (c : ℕ) (s : Bytes) {a b : Bytes}
    → has_prefix (c ∷ s) break ≡ false
    → cut_on s break ≡ some (a, b)
    → cut_on (c ∷ s) break ≡ some (c ∷ a, b)
unfolding cut_on
cut_on-step c s differs found = ground arith

cut_on-LacksCr :
    (w s : Bytes) {a b : Bytes}
    → LacksCr w
    → cut_on s break ≡ some (a, b)
    → cut_on (w ++ s) break ≡ some (w ++ a, b)
cut_on-LacksCr [] s h found = found
cut_on-LacksCr (c ∷ w) s (hc, hw) found =
    cut_on-step c (w ++ s) (unfold has_prefix in ground arith) (cut_on-LacksCr w s hw found)

-- A line in front of a message whose first byte is no carriage return.
cut_on_line :
    (w : Bytes) (d : ℕ) (s : Bytes) {a b : Bytes}
    → LacksCr w
    → d ≢ 13
    → cut_on (d ∷ s) break ≡ some (a, b)
    → cut_on (w ++ (13 ∷ 10 ∷ d ∷ s)) break ≡ some (w ++ (13 ∷ 10 ∷ a), b)
cut_on_line w d s hw hd found = cut_on-LacksCr w (13 ∷ 10 ∷ d ∷ s) hw (
    cut_on-step 13 (10 ∷ d ∷ s) (unfold has_prefix in ground arith)
      (cut_on-step 10 (d ∷ s) (unfold has_prefix in ground arith) found))

header_line-append :
    (key value rest : Bytes)
    → header_line key value ++ rest
      ≡ (canonical_key key ++ (b':' ∷ b' ' ∷ value)) ++ (13 ∷ 10 ∷ rest)
unfolding header_line
header_line-append key value rest = simp append_assoc

LacksCr-line : (k value : Bytes) → LacksCr k → LacksCr value → LacksCr (k ++ (b':' ∷ b' ' ∷ value))
LacksCr-line k value hk hv =
    All-append (λ c. c ≢ 13) k (b':' ∷ b' ' ∷ value) hk
      ((λ e. omega arith), ((λ e. omega arith), hv))

new_mail-found :
    (m : Bytes) (utf8 : Bool) {a b : Bytes}
    → cut_on m break ≡ some (a, b)
    → new_mail m utf8 ≡ some (record { utf8 = utf8; raw_headers = a; raw_body = b })
unfolding new_mail
new_mail-found m utf8 {a} {b} found =
    ap (λ o. mail_or utf8 o (mail_or utf8 (cut_on m (10 ∷ 10 ∷ [])) none)) found

open_mail-bytes : (e : Envelope) (m : Bytes) → bytes e.body ≡ m → open_mail e ≡ new_mail m e.utf8
unfolding open_mail
open_mail-bytes e m p = ap (λ q. new_mail q e.utf8) p

bytes-prepend_header :
    (e : Envelope) (key value : Bytes)
    → bytes (prepend_header e key value).body ≡ header_line key value ++ bytes e.body
unfolding prepend_header
bytes-prepend_header e key value = bytes-prepend e.body (header_line key value)

utf8-prepend_header :
    (e : Envelope) (key value : Bytes) → (prepend_header e key value).utf8 ≡ e.utf8
unfolding prepend_header
utf8-prepend_header e key value = refl

new_mail-line :
    (key value : Bytes) (utf8 : Bool) (d : ℕ) (s : Bytes) {a b : Bytes}
    → d ≢ 13
    → cut_on (d ∷ s) break ≡ some (a, b)
    → LacksCr (canonical_key key)
    → LacksCr value
    → new_mail (header_line key value ++ (d ∷ s)) utf8
      ≡ some (record { utf8 = utf8; raw_headers = header_line key value ++ a; raw_body = b })
new_mail-line key value utf8 d s {a} first found hk hv =
    let w = canonical_key key ++ (b':' ∷ b' ' ∷ value) in
    rw (header_line-append key value (d ∷ s), header_line-append key value a)
      (new_mail-found (w ++ (13 ∷ 10 ∷ d ∷ s)) utf8
        (cut_on_line w d s (LacksCr-line (canonical_key key) value hk hv) first found))

-- A header that `PrependHeader` puts in front of a message becomes the first line of its header, and
-- the rest of the header and the body are as before, if the message has an empty line ended by CRLF
-- and does not begin with a carriage return, and neither key nor value holds one.
pub open_mail-prepend_header :
    (e : Envelope) (key value : Bytes) (d : ℕ) (s : Bytes) (a b : Bytes)
    → bytes e.body ≡ d ∷ s
    → d ≢ 13
    → cut_on (d ∷ s) break ≡ some (a, b)
    → LacksCr (canonical_key key)
    → LacksCr value
    → (open_mail e ≡ some (record { utf8 = e.utf8; raw_headers = a; raw_body = b }))
      × (open_mail (prepend_header e key value)
          ≡ some (record { utf8 = e.utf8; raw_headers = header_line key value ++ a; raw_body = b }))
open_mail-prepend_header e key value d s a b whole first found hk hv =
    let e' = prepend_header e key value in
    let front = header_line key value in
    (
      open_mail-bytes e (d ∷ s) whole ∙ new_mail-found (d ∷ s) e.utf8 found,
      open_mail-bytes e' (front ++ (d ∷ s))
            (bytes-prepend_header e key value ∙ ap (λ m. front ++ m) whole)
          ∙ ap (new_mail (front ++ (d ∷ s))) (utf8-prepend_header e key value)
          ∙ new_mail-line key value e.utf8 d s first found hk hv,
    )
