-- ===== src/Dkim/Format/Ordered.antt =====
-- middleware/authres/dkim/header.go: the text of a field and the order in which Go ranges over a map.
use mathlib.Core.List.{Perm}
use smtpx.Base.{
  Bool, if◌then◌else◌, crlf, List, [], ◌∷◌, ◌++◌, Bytes, codes, ◌≡◌, ap, ◌∙◌, is_some,
  sort_strings-select-perm, All,
}
use smtpx.Dkim.Format.{
  keys_of, is_other, tag_key, sort_params, fold_header_field, format_with, format_header_params,
}
use smtpx.Dkim.Format.Tagged.{add_params-ext}
use smtpx.Dkim.Params.{Params, find, get}

-- Two lists that stand for one map: the same keys, in any order, and the same value for each.
pub record IsSameMap (m m' : Params) : Type 0 where
  pub keys : Perm (keys_of m) (keys_of m')
  pub values : (k : Bytes) → find k m ≡ find k m'

get-eq : {m m' : Params} → IsSameMap m m' → (k : Bytes) → get k m ≡ get k m'
unfolding get
get-eq same k = rw (same.values k)

All-get : {m m' : Params} → IsSameMap m m' → (ks : List Bytes) → All (λ k. get k m ≡ get k m') ks
All-get same [] = tt
All-get same (k ∷ ks) = (get-eq same k, All-get same ks)

sort_params-eq : {m m' : Params} → IsSameMap m m' → sort_params m ≡ sort_params m'
unfolding sort_params
sort_params-eq {m} {m'} same i = (
  sort_strings-select-perm is_other (keys_of m) (keys_of m') same.keys i,
  get-eq same tag_key i,
  is_some (same.values tag_key i),
)

format_with-eq :
    (name : Bytes) {m m' : Params} (p : List Bytes × Bytes × Bool)
    → IsSameMap m m'
    → format_with name m p ≡ format_with name m' p
unfolding format_with
format_with-eq name {m} {m'} (keys, bvalue, bfound) same =
    ap
      (λ (w : Bytes × Bytes).
        if bfound
        then (w.0 ++ w.1) ++ (crlf ++ fold_header_field (codes " b=" ++ bvalue))
        else w.0 ++ w.1)
      (add_params-ext m m' keys (name ++ codes ":", []) (All-get same keys))

-- The text of a field depends on nothing but the map: not on the order in which it is ranged over.
pub format_header_params-order :
    (name : Bytes) (m m' : Params)
    → IsSameMap m m'
    → format_header_params name m ≡ format_header_params name m'
unfolding format_header_params
format_header_params-order name m m' same =
    ap (format_with name m) (sort_params-eq same) ∙ format_with-eq name (sort_params m') same
