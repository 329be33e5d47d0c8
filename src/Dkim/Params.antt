-- ===== src/Dkim/Params.antt =====
-- middleware/authres/dkim/header.go and verify.go: the parsers of tags and fields. A Go map is an association
-- list: a later entry of a key hides an earlier one.
pub mod Edges
pub mod Named
pub mod Listed
pub mod Written
use smtpx.Base.{
  not, List, [], ◌∷◌, Option, none, some, Bytes, codes, equal, cut, split, trim_space, is_space,
  select, length, is_some, ◌==◌, if◌then◌else◌,
}

abbrev pub Params : Type 0
Params = List (Bytes × Bytes)

unfoldable pub find : Bytes → Params → Option Bytes
unfolding equal
find k [] = none
find k ((j, v) ∷ m) = if equal k j then some v else find k m

text_or : Option Bytes → Bytes
text_or none = []
text_or (some s) = s

-- `params[k]`, the empty string for a missing key.
unfoldable pub get : Bytes → Params → Bytes
unfolding find text_or
get k m = text_or (find k m)

-- `params[k] = v`
unfoldable pub put : Bytes → Bytes → Params → Params
unfolding equal
put k v [] = (k, v) ∷ []
put k v ((j, w) ∷ m) = if equal k j then (j, v) ∷ m else (j, w) ∷ put k v m

pub data ParamsError : Type 0 where
  malformed duplicate : ParamsError

pub data ParamsResult : Type 0 where
  params : Params → ParamsResult
  bad : ParamsError → ParamsResult

pub add_pair : Bytes → Option (Bytes × Bytes) → Params → ParamsResult
unfolding trim_space find
add_pair s none m = if length (trim_space s) == 0 then params m else bad malformed
add_pair s (some (key, value)) m =
    if is_some (find (trim_space key) m)
    then bad duplicate
    else params ((trim_space key, trim_space value) ∷ m)

pub add_pairs : List Bytes → Params → ParamsResult
unfolding add_pair cut
add_pairs [] m = params m
add_pairs (s ∷ pairs) m = elim (add_pair s (cut s b'=') m) [
  | params m' ↦ add_pairs pairs m'
  | bad e ↦ bad e
]

-- `parseHeaderParams`
unfoldable pub parse_header_params : Bytes → ParamsResult
unfolding add_pairs split
parse_header_params s = add_pairs (split s b';') []

field_parts : Bytes → Option (Bytes × Bytes) → Bytes × Bytes
unfolding trim_space
field_parts s none = (trim_space s, [])
field_parts s (some (key, value)) = (trim_space key, trim_space value)

-- `parseHeaderField`
unfoldable pub parse_header_field : Bytes → Bytes × Bytes
unfolding field_parts cut
parse_header_field s = field_parts s (cut s b':')

-- `stripWhitespace`
unfoldable pub strip_whitespace : Bytes → Bytes
strip_whitespace s = select (λ c. not (is_space c)) s

strip_all : List Bytes → List Bytes
unfolding strip_whitespace
strip_all [] = []
strip_all (t ∷ ts) = strip_whitespace t ∷ strip_all ts

-- `parseTagList`
unfoldable pub parse_tag_list : Bytes → List Bytes
unfolding strip_all split
parse_tag_list s = strip_all (split s b':')

pub data Canonicalization : Type 0 where
  simple relaxed : Canonicalization

-- A name that is a key of `canonicalizers`.
unfoldable pub canonicalization : Bytes → Option Canonicalization
unfolding equal
canonicalization s =
    if equal s (codes "simple")
    then some simple
    else if equal s (codes "relaxed")
    then some relaxed
    else none

can_names : Bytes → Option (Bytes × Bytes) → Bytes × Bytes
can_names s none = (if length s == 0 then codes "simple" else s, codes "simple")
can_names s (some (h, b)) = (if length h == 0 then codes "simple" else h, b)

-- `parseCanonicalization`: the names for the header and for the body.
unfoldable pub parse_canonicalization : Bytes → Bytes × Bytes
unfolding can_names cut strip_whitespace
parse_canonicalization s = let t = strip_whitespace s in can_names t (cut t b'/')
