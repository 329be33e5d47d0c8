-- ===== src/Lib.antt =====
-- A model of smtpx, an SMTP server library with middlewares, and what holds of it.
--
-- The program. `handleConn` (server.go) runs one connection as a loop over the states greeting,
-- command, data, TLS handshake and shutdown. A command changes the connection (connection.go) and
-- its envelope (envelope/envelope.go), a message is read into the envelope's buffers
-- (envelope/data.go) through a reader with a limit (reader.go), and the envelope then goes through a
-- chain of middlewares (backend.go, middleware/) to a handler, whose response (response.go,
-- responses/) is written back. Middlewares filter by domain, put headers in front, recover from
-- panics, and check DKIM signatures and DMARC records (middleware/authres).
--
-- The files.
--   Base: numbers, tests and lists, and Go's functions on strings (Base/Text).
--   Responses: responses/consts.go (Codes), enhanced.go (Enhanced) and canned.go (Canned).
--   Response: response.go.  Reader: reader.go.  Handler: backend.go and the chain of server.go.
--   Envelope: envelope/data.go (Data), envelope.go (Message), charsets.go (Charset) and mail.go: the
--     split (Mail), the method Headers (Headers), the tree of parts with Body, Walk and Flatten
--     (Content), and Decode and the names and kinds of parts (Content/Parts).
--   Connection: connection.go, one function for each method.
--   Server: server.go. Config has the configuration and its defaults, Command the commands and the
--     switch that recognises them, Session the local state of handleConn, Commands one function
--     on_x for each case of the switch, and Turn one function turn_x for each state, the loop (run)
--     and the whole of handleConn (handle_conn). Invariant, Exchange, Delivery, Forgotten and Ending
--     are proofs.
--     Lifecycle has ListenAndServe, Shutdown and the goroutines, as steps that interleave.
--   Middleware: middleware/domains.go and email.go (Domains), middleware.go (Headers), recover.go
--     (Recover) and log.go (Log).  Utils: utils/email.go (Email) and id.go (Xid).
--   Dkim: middleware/authres/dkim: canonical.go (Canonical), header.go (Header and Params), query.go
--     (Query), and verify.go: the function verify (Verify) and VerifyWithOptions (Message); the text of
--     a field from its parameters (Format), and sign.go (Sign).
--   Authres: middleware/authres: parse.go (Results and Parse) and format.go (Format).
--   Dmarc: middleware/authres/dmarc.
--   Authentication: middleware/authentication.go: DKIM, the alignment and the result of DMARC, and the
--     checks of SPF and DMARC with the middleware (Check).
--   Examples: concrete runs, and the theorems at concrete arguments.
--
-- How the code is modelled. A string or a slice of bytes is a list of numbers; case folding and white
-- space are those of ASCII. Numbers that are never negative are natural numbers. A method on a
-- pointer is a function that returns the object it leaves. A handler returns the envelope as it
-- leaves it with its outcome, a response or a panic. A Go map is an association list whose later
-- entries hide earlier ones. A turn of the loop gets what it reads from the network, how its write
-- and its handshake end, the flag of the shutdown and the next identifier as a record Input, so a
-- list of inputs is one interleaving of the connection with its outside, and the theorems hold for
-- all of them. Parsing of addresses (Externals), the clock, the resolver, encodings and cryptography
-- (Crypto), strconv.Atoi, the parsers of MIME (Mime, Parsers), the library for SPF (Checks), and a
-- signer's key and encodings (Tools) are parameters. The goroutines of a server share a Host, and a
-- step of theirs is one action of one of them.
--
-- Fuel. remove_signature and read_header take a byte at least in each round, so the length of the
-- text is enough, and so it is for the pieces of a folded field; decimal divides by ten, so the
-- number is. parse_content has the length of the body and one, since each part is shorter than the
-- body it stands in. All other loops are structural.
--
-- Not modelled: log output, sockets, TLS and deadlines; the goroutines and pipes through which the
-- signatures of a message are made and verified; what the decoders of character sets do; the example
-- program and the mocks of the tests.
pub mod Authentication
pub mod Authres
pub mod Base
pub mod Connection
pub mod Dkim
pub mod Dmarc
pub mod Envelope
pub mod Examples
pub mod Handler
pub mod Middleware
pub mod Reader
pub mod Response
pub mod Responses
pub mod Server
pub mod Utils
