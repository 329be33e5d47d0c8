-- ===== src/Handler.antt =====
-- backend.go and the part of server.go that builds the chain of middlewares. A handler gets a
-- pointer to the envelope: it returns the envelope as it leaves it. A panic is an outcome, of a
-- handler or of the call of a middleware.
pub mod Chain
use smtpx.Base.{List, [], ◌∷◌, ◌++◌, Bytes, codes, Option, none, some}
use smtpx.Envelope.Message.{Envelope}
use smtpx.Response.{Response, canned}
use smtpx.Responses.Canned.{success_message_accepted}

-- `reply none` is a nil response.
pub data Outcome : Type 0 where
  reply : Option Response → Outcome
  panic : Bytes → Outcome

abbrev pub HandlerFunc : Type 0
HandlerFunc = Envelope → Envelope × Outcome

-- What the call of a middleware comes to.
pub data Applied : Type 0 where
  wrapped : HandlerFunc → Applied
  panics : Bytes → Applied

abbrev pub Middleware : Type 0
Middleware = HandlerFunc → Applied

-- A middleware that can be called with every handler.
abbrev pub Wrapper : Type 0
Wrapper = HandlerFunc → HandlerFunc

abbrev pub applies : Wrapper → Middleware
applies m next = wrapped (m next)

unfoldable pub accepted : Response
accepted = canned success_message_accepted

abbrev pub nil_to_success : Outcome → Outcome
nil_to_success (reply none) = reply (some accepted)
nil_to_success (reply (some r)) = reply (some r)
nil_to_success (panic s) = panic s

-- `nil2success`
unfoldable pub nil2success : HandlerFunc → HandlerFunc
nil2success h e = let (e', o) = h e in (e', nil_to_success o)

abbrev pub nil2success_applied : Applied → Applied
nil2success_applied (wrapped h) = wrapped (nil2success h)
nil2success_applied (panics text) = panics text

abbrev pub around : Middleware → Applied → Applied
around m (wrapped start) = nil2success_applied (m start)
around m (panics text) = panics text

-- One round of the loop over the reversed middlewares; a nil middleware is skipped.
unfoldable pub wrap : Applied → Option Middleware → Applied
wrap start none = start
wrap start (some m) = around m start

unfoldable pub wrap_all : Applied → List (Option Middleware) → Applied
unfolding wrap
wrap_all start [] = start
wrap_all start (m ∷ ms) = wrap_all (wrap start m) ms

-- `slices.Reverse` of a copy
unfoldable pub reversed : List (Option Middleware) → List (Option Middleware)
reversed [] = []
reversed (m ∷ ms) = reversed ms ++ (m ∷ [])

-- `nil2success(s.Handler.Data)`, which panics for a nil `Handler`.
abbrev pub first_handler : Option HandlerFunc → Applied
first_handler none = panics (codes "invalid memory address or nil pointer dereference")
first_handler (some handler) = wrapped (nil2success handler)

unfoldable pub build_chain : List (Option Middleware) → Option HandlerFunc → Applied
unfolding wrap_all reversed
build_chain middlewares handler = wrap_all (first_handler handler) (reversed middlewares)

-- The call `start(conn.Envelope)`, if there has been no panic before it.
unfoldable pub call : Applied → HandlerFunc
call (wrapped start) e = start e
call (panics text) e = (e, panic text)
