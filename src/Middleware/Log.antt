-- ===== src/Middleware/Log.antt =====
-- middleware/log.go: the middleware that logs. What a log line says is gathered, since that can panic, and
-- then dropped. The fields of an answer cannot panic and are not read; the identifiers and the duration of a
-- line are left out.
pub mod Transparent
use smtpx.Base.{
  ℕ, Bool, true, false, List, [], ◌∷◌, ◌++◌, Option, none, some, Bytes, codes, if◌then◌else◌,
}
use smtpx.Envelope.Data.{len}
use smtpx.Envelope.Message.{Address, Envelope, context}
use smtpx.Handler.{HandlerFunc, Wrapper, Outcome, reply, panic}
use smtpx.Response.{Response}

-- The values of fields.
pub data Value : Type 0 where
  text : Bytes → Value
  texts : List Bytes → Value
  flag : Bool → Value
  number : ℕ → Value

-- `none` is a panic.
abbrev pub PreField : Type 0
PreField = Envelope → Option (Bytes × Value)

abbrev pub PostField : Type 0
PostField = Envelope → Option Response → Bytes × Value

abbrev pub Skipper : Type 0
Skipper = Envelope → Bool

pub record LoggerSettings : Type 0 where
  pub skip : Option Skipper
  pub pre_fields : List PreField
  pub post_fields : List PostField

abbrev pub LoggerOption : Type 0
LoggerOption = LoggerSettings → LoggerSettings

-- `WithSkipper`
unfoldable pub with_skipper : Skipper → LoggerOption
with_skipper s settings = record settings { skip = some s }

addresses : List Address → List Bytes
addresses [] = []
addresses (t ∷ tos) = t.address ∷ addresses tos

mail_field : Option Address → Option (Bytes × Value)
mail_field none = none
mail_field (some from) = some (codes "MAIL", text from.address)

-- The fields of a request, which `Logger` sets before the options run.
unfoldable pub default_pre_fields : List PreField
unfolding addresses mail_field len
default_pre_fields =
    (λ e. some (codes "HELO", text e.helo))
    ∷ (λ e. some (codes "remote-ip", text e.remote_addr))
    ∷ (λ e. mail_field e.mail_from)
    ∷ (λ e. some (codes "RCPT", texts (addresses e.rcpt_to)))
    ∷ (λ e. some (codes "TLS", flag e.tls))
    ∷ (λ e. some (codes "ESMTP", flag e.esmtp))
    ∷ (λ e. some (codes "UTF8", flag e.utf8))
    ∷ (λ e. some (codes "size", number (len e.body)))
    ∷ []

code_of : Option Response → ℕ
code_of none = 250
code_of (some res) = res.status

string_of : Option Response → Bytes
string_of none = []
string_of (some res) = res.string

-- The fields of an answer.
unfoldable pub default_post_fields : List PostField
unfolding code_of string_of len
default_post_fields =
    (λ e res. (codes "code", number (code_of res)))
    ∷ (λ e res. (codes "response", text (string_of res)))
    ∷ (λ e res. (codes "size", number (len e.body)))
    ∷ []

abbrev default_settings : LoggerSettings
default_settings = record {
  skip = none;
  pre_fields = default_pre_fields;
  post_fields = default_post_fields;
}

-- The options in their order; a nil option is skipped.
unfoldable pub apply_options : List (Option LoggerOption) → LoggerSettings → LoggerSettings
apply_options [] settings = settings
apply_options (none ∷ opts) settings = apply_options opts settings
apply_options (some o ∷ opts) settings = apply_options opts (o settings)

abbrev and_field :
    Option (Bytes × Value) → Option (List (Bytes × Value)) → Option (List (Bytes × Value))
and_field none rest = none
and_field (some field) none = none
and_field (some field) (some args) = some (field ∷ args)

-- The loop over the fields of a request.
unfoldable pub request_args : List PreField → Envelope → Option (List (Bytes × Value))
request_args [] e = some []
request_args (f ∷ fs) e = and_field (f e) (request_args fs e)

-- What follows the call of the next handler: `GetError` and `Context` store a context if there is none.
unfoldable pub answered : Envelope × Outcome → Envelope × Outcome
unfolding context
answered (e, reply res) = ((context e).0, reply res)
answered (e, panic s) = (e, panic s)

logged : HandlerFunc → Envelope → Option (List (Bytes × Value)) → Envelope × Outcome
unfolding answered
logged next e none = (e, panic (codes "invalid memory address or nil pointer dereference"))
logged next e (some args) = answered (next e)

skips : Option Skipper → Envelope → Bool
skips none e = false
skips (some s) e = s e

unfoldable pub log_with : LoggerSettings → Wrapper
unfolding logged skips request_args context
log_with settings next e =
    if skips settings.skip e
    then next e
    else (let e1 = (context e).0 in logged next e1 (request_args settings.pre_fields e1))

-- `Logger`; the flag says that there is a `*slog.Logger`.
unfoldable pub logger : Bool → List (Option LoggerOption) → Wrapper
unfolding log_with apply_options default_pre_fields default_post_fields
logger false opts next e = next e
logger true opts next e = log_with (apply_options opts default_settings) next e
