-- ===== src/Dkim/Format.antt =====
-- middleware/authres/dkim/header.go: the text of a signature field from its parameters. A Go map is an
-- association list; what `range` gives of it is the list of its keys, in any order.
pub mod Fold
pub mod Tagged
pub mod Ordered
use smtpx.Base.{
  ℕ, zero, suc, ◌+◌, Bool, true, false, not, ◌&&◌, List, [], ◌∷◌, ◌++◌, Bytes, codes, crlf, equal,
  join, select, length, take, drop, ltb, is_some, sort_strings, ◌==◌, if◌then◌else◌,
}
use smtpx.Dkim.Params.{Params, find, get}

-- The reads of `foldHeaderField`, each of 75 bytes at most. A read takes a byte at least, so the
-- length is fuel enough.
chunks : ℕ → Bytes → List Bytes
chunks zero s = []
chunks (suc f) [] = []
chunks (suc f) (c ∷ s) = take 75 (c ∷ s) ∷ chunks f (drop 75 (c ∷ s))

-- `foldHeaderField`
unfoldable pub fold_header_field : Bytes → Bytes
unfolding chunks join
fold_header_field kv = join (chunks (length kv) kv) (crlf ++ codes " ") ++ crlf

abbrev pub tag_key : Bytes
tag_key = codes "b"

unfoldable pub keys_of : Params → List Bytes
keys_of [] = []
keys_of ((k, v) ∷ m) = k ∷ keys_of m

abbrev pub is_other : Bytes → Bool
is_other k = not (equal k tag_key)

-- `sortParams`: the sorted keys but `b`, the value of `b`, and whether there is one.
unfoldable pub sort_params : Params → List Bytes × Bytes × Bool
unfolding keys_of sort_strings equal find get
sort_params m =
    (sort_strings (select is_other (keys_of m)), get tag_key m, is_some (find tag_key m))

-- ` k=v;`
abbrev pub param_text : Bytes → Bytes → Bytes
param_text k v = codes " " ++ (k ++ (codes "=" ++ (v ++ codes ";")))

-- One round of the loop of `formatHeaderParams`: what is written, and the line that is begun.
unfoldable pub add_param : Bytes → Bytes → Bytes × Bytes → Bytes × Bytes
add_param k v (s, line) =
    if ltb 75 (3 + length line + length v + length k)
    then (s ++ (line ++ crlf), param_text k v)
    else (s, line ++ param_text k v)

unfoldable pub add_params : Params → List Bytes → Bytes × Bytes → Bytes × Bytes
unfolding add_param get
add_params m [] w = w
add_params m (k ∷ ks) w = add_params m ks (add_param k (get k m) w)

unfoldable pub format_with : Bytes → Params → List Bytes × Bytes × Bool → Bytes
unfolding add_params fold_header_field
format_with name m (keys, bvalue, bfound) =
    let (s, line) = add_params m keys (name ++ codes ":", []) in
    if bfound then (s ++ line) ++ (crlf ++ fold_header_field (codes " b=" ++ bvalue)) else s ++ line

-- `formatHeaderParams`
unfoldable pub format_header_params : Bytes → Params → Bytes
unfolding format_with sort_params
format_header_params name m = format_with name m (sort_params m)

-- `formatSignature`
unfoldable pub format_signature : Params → Bytes
unfolding format_header_params
format_signature m = format_header_params (codes "DKIM-Signature") m
