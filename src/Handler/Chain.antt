-- ===== src/Handler/Chain.antt =====
-- The order of the middlewares (server.go, `handleConn`), and what their chain returns.
use smtpx.Base.{List, [], ◌∷◌, ◌++◌, Option, none, some, All, ◌≡◌, ◌≢◌, refl, arith}
use smtpx.Envelope.Message.{Envelope}
use smtpx.Handler.{
  HandlerFunc, Middleware, Applied, wrapped, panics, call, first_handler, around, reply,
  nil2success, nil2success_applied, wrap, wrap_all, reversed, build_chain,
}

-- The chain that `Server.Middlewares` documents: the first middleware is outermost.
abbrev pub nest : List (Option Middleware) → Option HandlerFunc → Applied
nest [] handler = first_handler handler
nest (none ∷ ms) handler = nest ms handler
nest (some m ∷ ms) handler = around m (nest ms handler)

wrap_all-append :
    (xs ys : List (Option Middleware)) (start : Applied)
    → wrap_all start (xs ++ ys) ≡ wrap_all (wrap_all start xs) ys
unfolding wrap_all
wrap_all-append [] ys start = refl
wrap_all-append (x ∷ xs) ys start = wrap_all-append xs ys (wrap start x)

wrap_all-reversed :
    (ms : List (Option Middleware)) (handler : Option HandlerFunc)
    → wrap_all (first_handler handler) (reversed ms) ≡ nest ms handler
unfolding reversed
wrap_all-reversed [] handler = unfold wrap_all in refl
wrap_all-reversed (none ∷ ms) handler =
    rw (wrap_all-append, wrap_all-reversed ms handler) (unfold wrap_all wrap in refl)
wrap_all-reversed (some m ∷ ms) handler =
    rw (wrap_all-append, wrap_all-reversed ms handler) (unfold wrap_all wrap in refl)

pub build_chain-nest :
    (ms : List (Option Middleware)) (handler : Option HandlerFunc)
    → build_chain ms handler ≡ nest ms handler
unfolding build_chain
build_chain-nest ms handler = wrap_all-reversed ms handler

-- A middleware that does not panic when it is called.
abbrev pub CanApply : Option Middleware → Type 0
CanApply none = Unit
CanApply (some m) = (next : HandlerFunc) → (h : HandlerFunc) × (m next ≡ wrapped h)

around-wrapped :
    (m : Middleware) (a : Applied) (start : HandlerFunc)
    → CanApply (some m)
    → a ≡ wrapped start
    → (h : HandlerFunc) × (around m a ≡ wrapped h)
around-wrapped m a start can e = let (h, same) = can start in (nil2success h, rw (e, same) refl)

-- With a handler and middlewares that can be called there is a chain.
pub nest-wrapped :
    (ms : List (Option Middleware)) (handler : HandlerFunc)
    → All CanApply ms
    → (start : HandlerFunc) × (nest ms (some handler) ≡ wrapped start)
nest-wrapped [] handler h = (nil2success handler, refl)
nest-wrapped (none ∷ ms) handler (tt, h) = nest-wrapped ms handler h
nest-wrapped (some m ∷ ms) handler (can, h) =
    let (start, e) = nest-wrapped ms handler h in
    around-wrapped m (nest ms (some handler)) start can e

IsNotNil : Applied → Type 0
IsNotNil a = (e : Envelope) → (call a e).1 ≢ reply none

nil2success-IsNotNil : (a : Applied) → IsNotNil (nil2success_applied a)
unfolding IsNotNil call nil2success
nil2success-IsNotNil (wrapped h) e = ground arith
nil2success-IsNotNil (panics text) e = ground arith

around-IsNotNil : (m : Middleware) (a : Applied) → IsNotNil (around m a)
around-IsNotNil m (wrapped start) = nil2success-IsNotNil (m start)
around-IsNotNil m (panics text) = nil2success-IsNotNil (panics text)

nest-IsNotNil :
    (ms : List (Option Middleware)) (handler : Option HandlerFunc) → IsNotNil (nest ms handler)
nest-IsNotNil [] none = nil2success-IsNotNil (panics _)
nest-IsNotNil [] (some handler) = nil2success-IsNotNil (wrapped handler)
nest-IsNotNil (none ∷ ms) handler = nest-IsNotNil ms handler
nest-IsNotNil (some m ∷ ms) handler = around-IsNotNil m (nest ms handler)

-- The chain never answers with a nil response, whatever the handler and the middlewares return.
pub build_chain-ne-none :
    (ms : List (Option Middleware)) (handler : Option HandlerFunc) (e : Envelope)
    → (call (build_chain ms handler) e).1 ≢ reply none
unfolding IsNotNil
build_chain-ne-none ms handler e = rw build_chain-nest (nest-IsNotNil ms handler e)
