-- ===== src/Dkim/Header.antt =====
-- middleware/authres/dkim/header.go and `removeSignature` of verify.go: reading, writing and picking
-- header fields.
pub mod Removed
pub mod Prepended
pub mod Read
use smtpx.Base.{
  ℕ, zero, suc, Bool, true, false, not, ◌&&◌, ◌||◌, List, [], ◌∷◌, ◌++◌, Option, none, some, Bytes,
  equal, equal_fold, crlf, cut, to_lower, length, ◌==◌, if◌then◌else◌,
}
use mathlib.Core.List.{reverse}
use smtpx.Dkim.Params.{parse_header_field}

-- `headerPicker`: the header and how often each key was picked. Keys are in lower case.
pub record HeaderPicker : Type 0 where
  pub h : List Bytes
  pub picked : List Bytes

-- `p.picked[key]`
count_picked : Bytes → List Bytes → ℕ
unfolding equal
count_picked key [] = 0
count_picked key (k ∷ ks) = if equal k key then suc (count_picked key ks) else count_picked key ks

-- The loop from the last field to the first, which skips `skip` fields of the key.
pick_from : List Bytes → Bytes → ℕ → Option Bytes
unfolding parse_header_field equal_fold
pick_from [] key skip = none
pick_from (kv ∷ kvs) key zero =
    let rest = pick_from kvs key zero in
    if equal_fold (parse_header_field kv).0 key then some kv else rest
pick_from (kv ∷ kvs) key (suc skip) =
    pick_from kvs key (if equal_fold (parse_header_field kv).0 key then skip else suc skip)

picked_with : HeaderPicker → Bytes → Option Bytes → HeaderPicker × Bytes
picked_with p key none = (p, [])
picked_with p key (some kv) = (record p { picked = key ∷ p.picked }, kv)

-- `Pick`; no field is the empty string.
unfoldable pub pick : HeaderPicker → Bytes → HeaderPicker × Bytes
unfolding count_picked pick_from picked_with to_lower
pick p key =
    let k = to_lower key in picked_with p k (pick_from (reverse p.h) k (count_picked k p.picked))

unfoldable pub is_continuation : Bytes → Bool
is_continuation [] = false
is_continuation (c ∷ l) = c == b' ' || c == 9

append_last : List Bytes → Bytes → List Bytes
append_last [] l = []
append_last (f ∷ []) l = (f ++ l) ∷ []
append_last (f ∷ g ∷ fs) l = f ∷ append_last (g ∷ fs) l

add_line : List Bytes → Bytes → List Bytes
unfolding is_continuation append_last
add_line h l =
    if not (length h == 0) && is_continuation l
    then append_last h (l ++ crlf)
    else h ++ ((l ++ crlf) ∷ [])

-- A line without the carriage return at its end.
drop_cr : Bytes → Bytes
drop_cr [] = []
drop_cr (c ∷ []) = if c == 13 then [] else c ∷ []
drop_cr (c ∷ d ∷ s) = c ∷ drop_cr (d ∷ s)

read_fields : ℕ → Bytes → List Bytes → Option (List Bytes × Bytes)
unfolding add_line drop_cr cut
read_fields zero s h = none
read_fields (suc f) s h = elim (cut s 10) [
  | none ↦ none
  | some (l, rest) ↦ elim (length (drop_cr l) == 0) [
    | true ↦ some (h, rest)
    | false ↦ read_fields f rest (add_line h (drop_cr l))
  ]
]

-- `readHeader`: fields with their continuation lines, up to an empty line, and what is left to read;
-- a text that ends before that is an error. Each line takes a byte at least, so the length is fuel
-- enough.
unfoldable pub read_header : Bytes → Option (List Bytes × Bytes)
unfolding read_fields
read_header s = read_fields (suc (length s)) s []

-- `writeHeader`
unfoldable pub write_header : List Bytes → Bytes
write_header [] = crlf
write_header (kv ∷ h) = kv ++ write_header h

-- `removeSignature`: each match of `(b\s*=)[^;]+` is cut down to its first group.
is_regexp_space : ℕ → Bool
is_regexp_space c = c == 32 || c == 9 || c == 10 || c == 12 || c == 13

-- Behind a `b`: white space and `=`, with the bytes that follow them.
equals_sign : Bytes → Option (Bytes × Bytes)
equals_sign [] = none
equals_sign (c ∷ s) =
    if is_regexp_space c
    then elim (equals_sign s) [ none ↦ none | some (g, r) ↦ some (c ∷ g, r) ]
    else if c == b'='
    then some (c ∷ [], s)
    else none

until_semicolon : Bytes → Bytes
until_semicolon [] = []
until_semicolon (c ∷ s) = if c == b';' then c ∷ s else until_semicolon s

-- A match wants at least one byte of a value.
tag_b : ℕ → Bytes → Option (Bytes × Bytes)
unfolding equals_sign until_semicolon is_regexp_space
tag_b c s =
    if c == b'b'
    then elim (equals_sign s) [
      | none ↦ none
      | some (g, []) ↦ none
      | some (g, v ∷ r) ↦ if v == b';' then none else some (c ∷ g, until_semicolon r)
    ]
    else none

remove_from : ℕ → Bytes → Bytes
unfolding tag_b
remove_from zero s = s
remove_from (suc f) [] = []
remove_from (suc f) (c ∷ s) = elim (tag_b c s) [
  | none ↦ c ∷ remove_from f s
  | some (g, r) ↦ g ++ remove_from f r
]

-- Each round takes a byte at least, so the length is fuel enough.
unfoldable pub remove_signature : Bytes → Bytes
unfolding remove_from
remove_signature s = remove_from (length s) s
