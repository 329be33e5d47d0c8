-- ===== src/Envelope/Charset/Resolved.antt =====
-- Which names of character sets are resolved (envelope/charsets.go).
use smtpx.Base.{
  true, ◌||◌, List, [], ◌∷◌, none, some, Bytes, equal, to_lower, is_some, All, ◌≡◌, refl, ap, ◌∙◌,
  arith, Bool-cases, Option-cases, inl, inr, sym,
}
use smtpx.Envelope.Charset.{find_name, charset_encodings, charset_aliases, resolve, charset_reader}
use smtpx.Utils.Email.{to_lower_twice}

-- A pair whose second name is one of an encoding.
abbrev IsNamed : Bytes × Bytes → Type 0
IsNamed (k, name) = is_some (find_name name charset_encodings) ≡ true

find_name-IsNamed :
    (k : Bytes) (l : List (Bytes × Bytes)) (t : Bytes)
    → All IsNamed l
    → find_name k l ≡ some t
    → is_some (find_name t charset_encodings) ≡ true
unfolding find_name
find_name-IsNamed k [] t h q = ground arith
find_name-IsNamed k ((name, b) ∷ l) t (hb, hl) q = elim (Bool-cases (equal k name)) [
  | inl same ↦
      let here : b ≡ t = ground arith in
      ap (λ n. is_some (find_name n charset_encodings)) (sym here) ∙ hb
  | inr other ↦ find_name-IsNamed k l t hl (ground arith)
]

charset_aliases-IsNamed : All IsNamed charset_aliases
unfolding charset_aliases charset_encodings find_name
charset_aliases-IsNamed = ground arith

no_empty_name : find_name [] charset_encodings ≡ none
unfolding charset_encodings find_name
no_empty_name = refl

resolve-known :
    (n : Bytes)
    → is_some (resolve n)
      ≡ (is_some (find_name n charset_encodings) || is_some (find_name n charset_aliases))
unfolding resolve
resolve-known n = elim (Option-cases (find_name n charset_encodings)) [
  | inr (e, own) ↦ ground arith
  | inl other ↦ elim (Option-cases (find_name n charset_aliases)) [
    | inl unknown ↦ ground (arith, no_empty_name)
    | inr (t, alias) ↦
        ground (arith, find_name-IsNamed n charset_aliases t charset_aliases-IsNamed alias)
  ]
]

-- A name of a character set is resolved, whatever its case, exactly if it is in one of the two
-- tables: every alias leads to an encoding.
pub charset_reader-known :
    (n : Bytes)
    → (is_some (charset_reader n) ≡ (
        is_some (find_name (to_lower n) charset_encodings)
        || is_some (find_name (to_lower n) charset_aliases)))
      × (charset_reader (to_lower n) ≡ charset_reader n)
unfolding charset_reader
charset_reader-known n = (resolve-known (to_lower n), ap resolve (to_lower_twice n))
