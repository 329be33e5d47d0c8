-- ===== src/Middleware/Log/Transparent.antt =====
-- What `Logger` (middleware/log.go) changes in the chain of handlers.
use smtpx.Base.{
  Bool, true, false, List, [], ◌∷◌, Option, none, some, Bytes, codes, ◌≡◌, refl, ap, arith,
  if◌then◌else◌, is_some,
}
use smtpx.Envelope.Message.{Address, Envelope, Context, context}
use smtpx.Handler.{HandlerFunc, Outcome, reply, panic}
use smtpx.Middleware.Log.{
  LoggerSettings, LoggerOption, Skipper, with_skipper, apply_options, default_pre_fields,
  request_args, answered, log_with, logger,
}

-- Options that only say which envelopes are skipped.
abbrev pub skippers : List Skipper → List (Option LoggerOption)
skippers [] = []
skippers (s ∷ ss) = some (with_skipper s) ∷ skippers ss

-- The answer of the next handler, on an envelope that has a context.
abbrev pub Keeps : HandlerFunc → Type 0
Keeps next =
    (e : Envelope) → is_some (Envelope.ctx e) ≡ true → is_some (Envelope.ctx (next e).0) ≡ true

skippers-pre_fields :
    (ss : List Skipper) (settings : LoggerSettings)
    → (apply_options (skippers ss) settings).pre_fields ≡ settings.pre_fields
unfolding apply_options with_skipper
skippers-pre_fields [] settings = refl
skippers-pre_fields (s ∷ ss) settings = skippers-pre_fields ss (with_skipper s settings)

context-same_at :
    (e : Envelope) (o : Option Context)
    → is_some o ≡ true
    → (context (record e { ctx = o })).0 ≡ record e { ctx = o }
unfolding context
context-same_at e none h = absurd (ground arith)
context-same_at e (some c) h = refl

context-same : (e : Envelope) → is_some e.ctx ≡ true → (context e).0 ≡ e
context-same e h = context-same_at e e.ctx h

answered-same : (p : Envelope × Outcome) → is_some (Envelope.ctx p.0) ≡ true → answered p ≡ p
unfolding answered
answered-same (e, reply res) h = ap (λ e1. (e1, reply res)) (context-same e h)
answered-same (e, panic s) h = refl

either : {A : Type 0} (b : Bool) (a : A) → (if b then a else a) ≡ a
either true a = refl
either false a = refl

-- The fields of an envelope with a sender are gathered.
logged_with_sender :
    (settings : LoggerSettings) (next : HandlerFunc) (e : Envelope) (from : Address)
    → settings.pre_fields ≡ default_pre_fields
    → Keeps next
    → e.mail_from ≡ some from
    → is_some e.ctx ≡ true
    → log_with settings next e ≡ next e
unfolding log_with default_pre_fields request_args
logged_with_sender settings next e from fields keeps sent has_context =
    let e1 = record e { mail_from = some from } in
    rw (context-same e has_context, fields, sent, answered-same (next e1) (keeps e1 has_context))
      (either _ (next e1))

-- `Logger` with options that only skip envelopes changes nothing for an envelope with a sender and a
-- context, if the next handler leaves a context in every envelope that it gets with one.
pub logger_transparent :
    (enabled : Bool) (ss : List Skipper) (next : HandlerFunc) (e : Envelope) (from : Address)
    → Keeps next
    → e.mail_from ≡ some from
    → is_some e.ctx ≡ true
    → logger enabled (skippers ss) next e ≡ next e
unfolding logger
logger_transparent false ss next e from keeps sent has_context = refl
logger_transparent true ss next e from keeps sent has_context =
    logged_with_sender (apply_options (skippers ss) _) next e from (skippers-pre_fields ss _) keeps
      sent has_context

-- Without a sender, `Logger` panics and the next handler is not called.
pub logger_without_sender :
    (next : HandlerFunc) (e : Envelope)
    → e.mail_from ≡ none
    → is_some e.ctx ≡ true
    → (text : Bytes) × (logger true [] next e ≡ (e, panic text))
unfolding logger log_with default_pre_fields request_args apply_options
logger_without_sender next e absent has_context = (
  codes "invalid memory address or nil pointer dereference",
  rw (context-same e has_context, absent) refl,
)
