-- ===== src/Authres/Parse.antt =====
-- middleware/authres/parse.go: reading the field Authentication-Results. White space is that of ASCII.
pub mod Round
pub mod Kinds
pub mod Whole
use smtpx.Authres.Results.{Result, Method, method_of, parse_as}
use smtpx.Base.{
  Bool, true, false, List, [], ◌∷◌, ◌++◌, Option, none, some, Bytes, codes, cut, equal, fields,
  is_space, length, split, to_lower, trim_space, ◌==◌, if◌then◌else◌,
}
use smtpx.Base.Int.{ℤ}
use smtpx.Dkim.Params.{Params, put}

pub data ParseError : Type 0 where
  unsupported_version malformed_param bad_oldest_pass : ParseError

-- `parseParam`; none is its error.
unfoldable pub parse_param : Bytes → Option (Bytes × Bytes)
unfolding cut to_lower trim_space
parse_param s = elim (cut s b'=') [
  | none ↦ none
  | some (k, v) ↦ some (to_lower (trim_space k), trim_space v)
]

-- The loop of `parseResult`; a part that is malformed is skipped.
unfoldable pub read_params : List Bytes → Params → Params
unfolding parse_param put
read_params [] m = m
read_params (p ∷ ps) m =
    read_params ps (elim (parse_param p) [ none ↦ m | some (k, v) ↦ put k v m ])

pub data ParsedResult : Type 0 where
  no_result : ParsedResult
  one_result : Result → ParsedResult
  failed : ParseError → ParsedResult

unfoldable pub found : Option Result → ParsedResult
found none = failed bad_oldest_pass
found (some r) = one_result r

with_method : (Bytes → Option ℤ) → List Bytes → Option (Bytes × Bytes) → ParsedResult
unfolding found method_of parse_as read_params to_lower
with_method atoi parts none = failed malformed_param
with_method atoi parts (some (k, v)) =
    found (parse_as atoi (method_of k) k (to_lower v) (read_params parts []))

parse_fields : (Bytes → Option ℤ) → List Bytes → ParsedResult
unfolding with_method parse_param equal
parse_fields atoi [] = no_result
parse_fields atoi (p ∷ ps) =
    if equal p (codes "none") then no_result else with_method atoi ps (parse_param p)

-- `parseResult`
unfoldable pub parse_result : (Bytes → Option ℤ) → Bytes → ParsedResult
unfolding parse_fields fields
parse_result atoi s = parse_fields atoi (fields s)

-- What `Parse` returns: the identifier, the results, and its error.
pub record Parsed : Type 0 where
  pub identifier : Bytes
  pub results : List Result
  pub error : Option ParseError

-- The loop of `Parse` over the parts behind the identifier.
unfoldable pub parse_results : (Bytes → Option ℤ) → Bytes → List Bytes → List Result → Parsed
unfolding parse_result trim_space
parse_results atoi identifier [] rs = record { identifier = identifier; results = rs; error = none }
parse_results atoi identifier (p ∷ ps) rs = elim (length (trim_space p) == 0) [
  | true ↦ parse_results atoi identifier ps rs
  | false ↦ elim (parse_result atoi (trim_space p)) [
    | no_result ↦ parse_results atoi identifier ps rs
    | one_result r ↦ parse_results atoi identifier ps (rs ++ r ∷ [])
    | failed e ↦ record { identifier = identifier; results = rs; error = some e }
  ]
]

-- The text up to the first white space, and from there on.
cut_at_space : Bytes → Bytes × Bytes
cut_at_space [] = ([], [])
cut_at_space (c ∷ s) = elim (is_space c) [
  | true ↦ ([], c ∷ s)
  | false ↦ let (a, b) = cut_at_space s in (c ∷ a, b)
]

-- An identifier and its version; white space at the front is no end of an identifier.
identified : Bytes → Bytes × Bytes → Option Bytes
unfolding trim_space equal
identified s (a, b) =
    if length a == 0
    then some s
    else if length b == 0
    then some s
    else if equal (trim_space b) (codes "1")
    then some a
    else none

unfoldable pub parse_from : (Bytes → Option ℤ) → List Bytes → Option Bytes → Parsed
unfolding parse_results
parse_from atoi ps none = record { identifier = []; results = []; error = some unsupported_version }
parse_from atoi ps (some identifier) = parse_results atoi identifier ps []

unfoldable pub parse_all : (Bytes → Option ℤ) → List Bytes → Parsed
unfolding parse_from identified cut_at_space trim_space
parse_all atoi [] = parse_from atoi [] (some [])
parse_all atoi (p ∷ ps) =
    let identifier = trim_space p in
    parse_from atoi ps (identified identifier (cut_at_space identifier))

-- `Parse`; a split has a part at least.
unfoldable pub parse : (Bytes → Option ℤ) → Bytes → Parsed
unfolding parse_all split
parse atoi v = parse_all atoi (split v b';')
