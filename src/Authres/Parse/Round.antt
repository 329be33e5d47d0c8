-- ===== src/Authres/Parse/Round.antt =====
-- middleware/authres/parse.go and format.go: what Parse reads of the text that Format writes.
use smtpx.Authres.Format.{text_of, reason_key, ordered_keys, format_params}
use smtpx.Authres.Format.Words.{
  IsPlain, IsQuiet, IsAddressLike, words, format_params-fields, text_of-reason, text_of-other,
  IsPlain-append, IsPart, IsPart-append, IsPlain-IsPart, format_params-IsPart, All_false,
  IsPlain-any, is_break, IsQuiet-IsPlain, IsAddressLike-IsPlain,
}
use smtpx.Authres.Results.{method_of, parse_as}
use smtpx.Authres.Parse.{parse_param, read_params, found, with_method, parse_fields, parse_result}
use smtpx.Base.{
  ◌<◌, Bool, true, false, not, List, [], ◌∷◌, ◌++◌, Option, some, Bytes, codes, crlf, any, cut-part,
  equal, equal_iff, fields, fields-snoc_word, fields-trim_space, is_space, length, select,
  sort_strings, to_lower, trim_space, trim_space-word, ◌==◌, if◌then◌else◌, Bool-cases, ◌≡◌, refl,
  sym, ap, ◌∙◌, inl, inr, append_assoc, All, ◌&&◌, arith,
}
use smtpx.Base.Int.{ℤ}
use smtpx.Dkim.Format.{keys_of}
use smtpx.Dkim.Params.{Params, get, put}

-- A key that is read as it is written.
abbrev pub IsKey : Bytes → Type 0
IsKey k = (any is_break k ≡ false) × (to_lower k ≡ k) × (any (λ c. c == b'=') k ≡ false)

-- The text of a parameter has no white space and no semicolon, and is read as the parameter.
abbrev pub IsReadable : Bytes → Bytes → Type 0
IsReadable k v = IsPlain (text_of k v) × (parse_param (text_of k v) ≡ some (k, v))

pub IsPlain-spaces : (s : Bytes) → IsPlain s → All (λ c. is_space c ≡ false) s
IsPlain-spaces [] h = tt
IsPlain-spaces (c ∷ s) (hc, h) = (hc.0, IsPlain-spaces s h)

parse_param-pair :
    (k v : Bytes) → IsKey k → IsPlain v → parse_param (k ++ (codes "=" ++ v)) ≡ some (k, v)
unfolding parse_param
parse_param-pair k v (plain, lower, single) hv =
    rw (cut-part b'=' k v (All_false (λ c. c == b'=') k single), parse_param)
      (rw
        (
          trim_space-word k (IsPlain-spaces k (IsPlain-any k plain)),
          trim_space-word v (IsPlain-spaces v hv),
          lower,
        )
        refl)

pub IsReadable-reason : (v : Bytes) → IsQuiet v → IsReadable reason_key v
unfolding to_lower
IsReadable-reason v h = rw (text_of-reason v h) (
  IsPlain-append (reason_key ++ codes "=") v (IsPlain-any (reason_key ++ codes "=") refl)
      (IsQuiet-IsPlain v h),
  parse_param-pair reason_key v (refl, refl, refl) (IsQuiet-IsPlain v h),
)

pub IsReadable-other :
    (k v : Bytes) → equal k reason_key ≡ false → IsKey k → IsAddressLike v → IsReadable k v
IsReadable-other k v other key h =
    let plain = IsAddressLike-IsPlain v h in
    rw (text_of-other k v other h) (
      IsPlain-append k (codes "=" ++ v) (IsPlain-any k key.0)
          (IsPlain-append (codes "=") v (IsPlain-any (codes "=") refl) plain),
      parse_param-pair k v key plain,
    )

-- The map that is read: the parameters that are not empty.
pub puts : Params → List Bytes → Params → Params
puts m [] acc = acc
puts m (k ∷ ks) acc = puts m ks (if length (get k m) == 0 then acc else put k (get k m) acc)

read_params-words :
    (m : Params) (ks : List Bytes) (acc : Params)
    → All (λ k. IsReadable k (get k m)) ks
    → read_params (words m ks) acc ≡ puts m ks acc
unfolding read_params words puts
read_params-words m [] acc h = refl
read_params-words m (k ∷ ks) acc (hk, h) = elim (Bool-cases (length (get k m) == 0)) [
  | inl b ↦ rw b (read_params-words m ks acc h)
  | inr b ↦ rw (b, read_params) (rw (hk.1) (read_params-words m ks (put k (get k m) acc) h))
]

get-put : (k j v : Bytes) (m : Params) → get j (put k v m) ≡ (if equal j k then v else get j m)
unfolding get put
get-put k j v [] = ground arith
get-put k j v ((i, w) ∷ m) =
    ground (arith, equal_iff k i, equal_iff j i, equal_iff j k, get-put k j v m)

get-puts :
    (m : Params) (j : Bytes) (ks : List Bytes) (acc : Params)
    → get j (puts m ks acc)
      ≡ (if any (equal j) ks && not (length (get j m) == 0) then get j m else get j acc)
unfolding puts
get-puts m j [] acc = refl
get-puts m j (k ∷ ks) acc = ground (
  arith,
  equal_iff j k,
  get-puts m j ks acc,
  get-puts m j ks (put k (get k m) acc),
  get-put k j (get k m) acc,
)

kept_or_empty : (s : Bytes) (b : Bool) → b ≡ true → (if b && not (length s == 0) then s else []) ≡ s
kept_or_empty [] b h = ground arith
kept_or_empty (c ∷ s) b h = ground arith

any-ordered_keys :
    (m : Params) (j : Bytes)
    → any (equal j) (sort_strings (select (λ k. not (equal k reason_key)) (keys_of m))) ≡ true
    → any (equal j) (ordered_keys m) ≡ true
unfolding ordered_keys
any-ordered_keys m j h = elim (Bool-cases (length (get reason_key m) == 0)) [
  | inl b ↦ rw b h
  | inr b ↦ rw b (elim (Bool-cases (equal j reason_key)) [ inl e ↦ rw e refl | inr e ↦ rw e h ])
]

-- A parameter that is read is the one that was written.
pub get-read :
    (m : Params) (j : Bytes)
    → any (equal j) (sort_strings (select (λ k. not (equal k reason_key)) (keys_of m))) ≡ true
    → get j (puts m (ordered_keys m) []) ≡ get j m
unfolding get
get-read m j h =
    get-puts m j (ordered_keys m) []
    ∙ kept_or_empty (get j m) (any (equal j) (ordered_keys m)) (any-ordered_keys m j h)

reason_first :
    (s : Bytes) (ks : List Bytes)
    → (if any (equal reason_key) (if length s == 0 then ks else reason_key ∷ ks)
          && not (length s == 0)
        then s
        else [])
      ≡ s
unfolding equal
reason_first [] ks = ground arith
reason_first (c ∷ s) ks = ground arith

pair-some : (n v : Bytes) → 0 < length (n ++ (codes "=" ++ v))
pair-some [] v = omega arith
pair-some (c ∷ n) v = omega arith

reason_kept :
    (m : Params)
    → (if any (equal reason_key) (ordered_keys m) && not (length (get reason_key m) == 0)
        then get reason_key m
        else [])
      ≡ get reason_key m
unfolding ordered_keys
reason_kept m =
    reason_first (get reason_key m)
      (sort_strings (select (λ k. not (equal k reason_key)) (keys_of m)))

pub get-read_reason : (m : Params) → get reason_key (puts m (ordered_keys m) []) ≡ get reason_key m
unfolding get
get-read_reason m = get-puts m reason_key (ordered_keys m) [] ∙ reason_kept m

-- What stands in front of a result, behind its semicolon.
abbrev pub margin : Bytes
margin = crlf ++ codes "  "

All-words :
    (m : Params) (ks : List Bytes)
    → All (λ k. IsReadable k (get k m)) ks
    → All (λ k. IsPlain (text_of k (get k m))) ks
All-words m [] h = tt
All-words m (k ∷ ks) (hk, h) = (hk.0, All-words m ks h)

fields-result :
    (n value : Bytes) (m : Params)
    → IsPlain (n ++ (codes "=" ++ value))
    → All (λ k. IsReadable k (get k m)) (ordered_keys m)
    → fields
        (trim_space (margin ++ (n ++ (codes "=" ++ (value ++ (codes " " ++ format_params m))))))
      ≡ (n ++ (codes "=" ++ value)) ∷ words m (ordered_keys m)
unfolding fields
fields-result n value m plain h =
    let w = n ++ (codes "=" ++ value) in
    let t = margin ++ (n ++ (codes "=" ++ (value ++ (codes " " ++ format_params m)))) in
    fields-trim_space t
    ∙ (ap (λ s. fields (margin ++ s))
          (sym (append_assoc n (codes "=" ++ value) (32 ∷ format_params m)))
        ∙ (format_params-fields (margin ++ w) m (All-words m (ordered_keys m) h)
            ∙ ap (λ l. l ++ words m (ordered_keys m))
                (fields-snoc_word (crlf ++ codes " ") w (pair-some n value)
                  (IsPlain-spaces w plain))))

-- The text of a result is read as the type of its method reads its value and its parameters.
pub parse_result-text :
    (atoi : Bytes → Option ℤ) (n value : Bytes) (m : Params)
    → IsKey n
    → equal (n ++ (codes "=" ++ value)) (codes "none") ≡ false
    → IsPlain value
    → to_lower value ≡ value
    → All (λ k. IsReadable k (get k m)) (ordered_keys m)
    → parse_result atoi
        (trim_space (margin ++ (n ++ (codes "=" ++ (value ++ (codes " " ++ format_params m))))))
      ≡ found (parse_as atoi (method_of n) n value (puts m (ordered_keys m) []))
unfolding parse_result parse_fields with_method
parse_result-text atoi n value m key some_method plain lower h =
    let w = n ++ (codes "=" ++ value) in
    ap (parse_fields atoi) (
      fields-result n value m
        (IsPlain-append n (codes "=" ++ value) (IsPlain-any n key.0)
          (IsPlain-append (codes "=") value (IsPlain-any (codes "=") refl) plain))
        h)
    ∙ rw some_method (
        rw (parse_param-pair n value key plain)
          (rw (lower, read_params-words m (ordered_keys m) [] h) refl))

-- The text of a result holds no semicolon.
pub IsPart-text :
    (n value : Bytes) (m : Params)
    → IsKey n
    → IsPlain value
    → All (λ k. IsReadable k (get k m)) (ordered_keys m)
    → IsPart (margin ++ (n ++ (codes "=" ++ (value ++ (codes " " ++ format_params m)))))
IsPart-text n value m key plain h =
    IsPart-append margin (n ++ (codes "=" ++ (value ++ (codes " " ++ format_params m))))
      (refl, (refl, (refl, (refl, tt))))
      (IsPart-append n (codes "=" ++ (value ++ (codes " " ++ format_params m)))
        (IsPlain-IsPart n (IsPlain-any n key.0))
        (
          refl,
          IsPart-append value (codes " " ++ format_params m) (IsPlain-IsPart value plain)
              (refl, format_params-IsPart m (All-words m (ordered_keys m) h)),
        ))
