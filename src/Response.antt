-- ===== src/Response.antt =====
-- response.go: the interface `Response` as the values that its three methods return, with the text of
-- the error that a response may be too, and its implementations `result` and, in the package `responses`, `response`.
use smtpx.Base.{
  Option, none, some, ℕ, ◌/◌, [], ◌∷◌, ◌++◌, Bytes, codes, decimal, ◌==◌, if◌then◌else◌,
}
use smtpx.Responses.Enhanced.{CannedResponse, status_code, string_of}

pub record Response : Type 0 where
  pub string : Bytes
  pub status : ℕ
  pub class : ℕ
  pub error : Option Bytes

-- What `sendResponse` writes of a response: the text of its error, if it is one.
unfoldable pub written_text : Response → Bytes
written_text r = elim r.error [ none ↦ r.string | some text ↦ text ]

-- `result`
pub record Result : Type 0 where
  pub code : ℕ
  pub str : Bytes

class_name : ℕ → Bytes
class_name c =
    if c == 2
    then codes "OK"
    else if c == 4
    then codes "Temporary failure"
    else if c == 5
    then codes "Permanent failure"
    else []

-- `result.String`
unfoldable pub result_string : Result → Bytes
unfolding class_name decimal
result_string r = decimal r.code ++ (b' ' ∷ (class_name (r.code / 100) ++ (b':' ∷ b' ' ∷ r.str)))

unfoldable pub result_class : Result → ℕ
result_class r = r.code / 100

-- `NewResponse`
unfoldable pub new_response : ℕ → Bytes → Response
unfolding result_string result_class
new_response code comment =
    let r : Result = record { code = code; str = comment } in
    record { string = result_string r; status = code; class = result_class r; error = none }

-- `WrapResponse`: a `resultErr` has the methods of the response, and the text of the error.
unfoldable pub wrap_response : Response → Bytes → Response
wrap_response res err = record res { error = some err }

-- A canned response seen through the interface.
unfoldable pub canned : CannedResponse → Response
unfolding status_code string_of
canned r = record {
  string = (string_of r).1;
  status = (status_code r).1;
  class = r.class;
  error = none;
}
