-- ===== src/Responses/Enhanced.antt =====
-- responses/enhanced.go: how a canned response turns into a line of text. `StatusCode` stores the
-- basic code that it looks up, so the methods return the response that they leave behind.
pub mod Classes
use smtpx.Base.{
  ℕ, ◌*◌, [], ◌∷◌, ◌++◌, Bytes, codes, decimal, length, Option, none, some, ◌==◌, if◌then◌else◌,
}
use smtpx.Responses.Codes.{EnhancedStatusCode, enhanced, find_code, default_texts, code_map}

-- `response`
pub record CannedResponse : Type 0 where
  pub enhanced_code : Bytes
  pub basic_code : ℕ
  pub class : ℕ
  pub comment : Bytes

-- `EnhancedStatusCode.String`
pub enhanced_string : EnhancedStatusCode → Bytes
unfolding decimal
enhanced_string e = decimal e.class ++ e.subject_detail_code

code_or : Option ℕ → ℕ → ℕ
code_or none d = d
code_or (some n) d = n

unfoldable pub get_basic_status_code : EnhancedStatusCode → ℕ
unfolding code_or find_code code_map
get_basic_status_code e = code_or (find_code e code_map) (e.class * 100)

-- `(*response).StatusCode`
unfoldable pub status_code : CannedResponse → CannedResponse × ℕ
unfolding get_basic_status_code
status_code r =
    let found = get_basic_status_code (enhanced r.class r.enhanced_code) in
    if r.basic_code == 0 then (record r { basic_code = found }, found) else (r, r.basic_code)

text_or : Option Bytes → Bytes
text_or none = []
text_or (some s) = s

-- The comment of the reply: its own, the default text of its code, or that of its class.
unfoldable pub comment_of : CannedResponse → Bytes
unfolding text_or find_code default_texts
comment_of r =
    let default = text_or (find_code (enhanced r.class r.enhanced_code) default_texts) in
    let text = if length r.comment == 0 then default else r.comment in
    if length text == 0
    then (if r.class == 2
        then codes "OK"
        else if r.class == 4
        then codes "Temporary failure."
        else if r.class == 5
        then codes "Permanent failure."
        else text)
    else text

-- `(*response).String`
unfoldable pub string_of : CannedResponse → CannedResponse × Bytes
unfolding status_code comment_of enhanced_string
string_of r =
    let (r', code) = status_code r in
    let enhanced_text = enhanced_string (enhanced r.class r.enhanced_code) in
    if length r.enhanced_code == 0
    then (r, r.comment)
    else (r', decimal code ++ (b' ' ∷ (enhanced_text ++ (b' ' ∷ comment_of r))))
