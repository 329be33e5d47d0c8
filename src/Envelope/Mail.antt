-- ===== src/Envelope/Mail.antt =====
-- envelope/mail.go: the split of a message into header and body.
pub mod Split
use smtpx.Base.{ℕ, Bool, [], ◌∷◌, Option, none, some, Bytes, crlf, ◌++◌, cut_on}
use smtpx.Envelope.Data.{bytes}
use smtpx.Envelope.Message.{Envelope}

pub record Mail : Type 0 where
  pub utf8 : Bool
  pub raw_headers : Bytes
  pub raw_body : Bytes

mail_or : Bool → Option (Bytes × Bytes) → Option Mail → Option Mail
mail_or utf8 none other = other
mail_or utf8 (some (header, body)) other =
    some (record { utf8 = utf8; raw_headers = header; raw_body = body })

-- `NewMail`; `none` is the error "could not find body".
unfoldable pub new_mail : Bytes → Bool → Option Mail
unfolding mail_or cut_on
new_mail message utf8 =
    mail_or utf8 (cut_on message (13 ∷ 10 ∷ 13 ∷ 10 ∷ []))
      (mail_or utf8 (cut_on message (10 ∷ 10 ∷ [])) none)

-- `(*Envelope).Mail`
unfoldable pub open_mail : Envelope → Option Mail
open_mail e = new_mail (bytes e.body) e.utf8
