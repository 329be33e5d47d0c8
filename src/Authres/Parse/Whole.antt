-- ===== src/Authres/Parse/Whole.antt =====
-- middleware/authres/parse.go and format.go: the whole field.
use smtpx.Authres.Format.{next_result, result_text, add_results, format}
use smtpx.Authres.Format.Words.{IsPart, IsPlain, IsPlain-IsPart}
use smtpx.Authres.Parse.{
  parse_result, parse_results, one_result, identified, cut_at_space, parse_from, parse_all, parse,
}
use smtpx.Authres.Parse.Kinds.{IsWritable, parse_result-Reads}
use smtpx.Authres.Parse.Round.{margin, IsPlain-spaces}
use smtpx.Authres.Results.{Result}
use smtpx.Base.{
  false, List, [], ◌∷◌, ◌++◌, Option, none, some, Bytes, codes, equal, length, is_space, split,
  split-part, split-whole, trim_space, trim_space-word, fields, ◌==◌, ◌≡◌, refl, sym, ap, ◌∙◌,
  append_assoc, append-nil, All, arith,
}
use smtpx.Base.Int.{ℤ}

-- The text of the results behind the identifier.
later : List Result → Bytes
later [] = []
later (r ∷ rs) = b';' ∷ ((margin ++ result_text r) ++ later rs)

add_results-later : (s : Bytes) (rs : List Result) → add_results s rs ≡ s ++ later rs
unfolding add_results later
add_results-later s [] = sym (append-nil s)
add_results-later s (r ∷ rs) =
    add_results-later (s ++ (next_result ++ result_text r)) rs
    ∙ append_assoc s (next_result ++ result_text r) (later rs)

result_texts : List Result → List Bytes
result_texts [] = []
result_texts (r ∷ rs) = (margin ++ result_text r) ∷ result_texts rs

split-later :
    (s : Bytes) (rs : List Result)
    → IsPart s
    → All (λ r. IsPart (margin ++ result_text r)) rs
    → split (s ++ later rs) b';' ≡ s ∷ result_texts rs
unfolding later result_texts
split-later s [] h hs = ap (λ t. split t b';') (append-nil s) ∙ split-whole b';' s h
split-later s (r ∷ rs) h (hr, hs) =
    split-part b';' s ((margin ++ result_text r) ++ later rs) h
    ∙ ap (λ l. s ∷ l) (split-later (margin ++ result_text r) rs hr hs)

some_text :
    (atoi : Bytes → Option ℤ) (t : Bytes) (r : Result)
    → parse_result atoi t ≡ one_result r
    → (length t == 0) ≡ false
unfolding parse_result fields
some_text atoi [] r h = cc
some_text atoi (c ∷ t) r h = ground arith

parse_results-one :
    (atoi : Bytes → Option ℤ) (identity p : Bytes) (ps : List Bytes) (done : List Result)
    (r : Result)
    → (length (trim_space p) == 0) ≡ false
    → parse_result atoi (trim_space p) ≡ one_result r
    → parse_results atoi identity (p ∷ ps) done ≡ parse_results atoi identity ps (done ++ r ∷ [])
unfolding parse_results
parse_results-one atoi identity p ps done r some_byte read =
    rw (some_byte, parse_results) (rw (read, parse_results) refl)

parse_results-read :
    (atoi : Bytes → Option ℤ) (identity : Bytes) (done rs : List Result)
    → All IsWritable rs
    → parse_results atoi identity (result_texts rs) done
      ≡ record { identifier = identity; results = done ++ rs; error = none }
unfolding parse_results result_texts
parse_results-read atoi identity done [] h =
    ap (λ l. record { identifier = identity; results = l; error = none }) (sym (append-nil done))
parse_results-read atoi identity done (r ∷ rs) (hr, h) =
    let read = (parse_result-Reads atoi r hr).0 in
    let p = margin ++ result_text r in
    parse_results-one atoi identity p (result_texts rs) done r
      (some_text atoi (trim_space p) r read) read
    ∙ (parse_results-read atoi identity (done ++ r ∷ []) rs h
        ∙ ap (λ l. record { identifier = identity; results = l; error = none })
            (append_assoc done (r ∷ []) rs))

cut_at_space-word : (s : Bytes) → All (λ c. is_space c ≡ false) s → cut_at_space s ≡ (s, [])
unfolding cut_at_space
cut_at_space-word [] h = refl
cut_at_space-word (c ∷ s) (hc, h) =
    rw (hc, cut_at_space) (ap (λ (p : Bytes × Bytes). (c ∷ p.0, p.1)) (cut_at_space-word s h))

identified-word : (s : Bytes) → identified s (s, []) ≡ some s
unfolding identified
identified-word [] = refl
identified-word (c ∷ s) = ground arith

parse_all-plain :
    (atoi : Bytes → Option ℤ) (identity : Bytes) (ps : List Bytes)
    → IsPlain identity
    → parse_all atoi (identity ∷ ps) ≡ parse_results atoi identity ps []
unfolding parse_all parse_from
parse_all-plain atoi identity ps h =
    let word = IsPlain-spaces identity h in
    ap (λ t. parse_from atoi ps (identified t (cut_at_space t))) (trim_space-word identity word)
    ∙ (ap (λ p. parse_from atoi ps (identified identity p)) (cut_at_space-word identity word)
        ∙ ap (parse_from atoi ps) (identified-word identity))

parse_results-none :
    (atoi : Bytes → Option ℤ) (identity : Bytes)
    → parse_results atoi identity ((margin ++ codes "none") ∷ []) []
      ≡ record { identifier = identity; results = []; error = none }
unfolding parse_results parse_result trim_space fields equal
parse_results-none atoi identity = refl

split-none : split (margin ++ codes "none") b';' ≡ (margin ++ codes "none") ∷ []
unfolding split
split-none = refl

All-IsPart :
    (atoi : Bytes → Option ℤ) (rs : List Result)
    → All IsWritable rs
    → All (λ r. IsPart (margin ++ result_text r)) rs
All-IsPart atoi [] h = tt
All-IsPart atoi (r ∷ rs) (hr, h) = ((parse_result-Reads atoi r hr).1, All-IsPart atoi rs h)

-- Parse of the field that Format writes gives the identifier and the results, and no error: if the
-- identifier has no white space and no semicolon, and the results are such as can be written: of one
-- of six types, with texts that need no quotes, the value in lower case, and without a reason in an
-- AuthResult.
pub parse-format :
    (atoi : Bytes → Option ℤ) (identity : Bytes) (rs : List Result)
    → IsPlain identity
    → All IsWritable rs
    → parse atoi (format identity rs) ≡ record { identifier = identity; results = rs; error = none }
unfolding parse format
parse-format atoi identity [] plain h =
    let part = IsPlain-IsPart identity plain in
    ap (parse_all atoi)
      (split-part b';' identity (margin ++ codes "none") part ∙ ap (λ l. identity ∷ l) (split-none))
    ∙ (parse_all-plain atoi identity ((margin ++ codes "none") ∷ []) plain
        ∙ parse_results-none atoi identity)
parse-format atoi identity (r ∷ rs) plain h =
    ap (λ t. parse_all atoi (split t b';')) (add_results-later identity (r ∷ rs))
    ∙ (ap (parse_all atoi) (
          split-later identity (r ∷ rs) (IsPlain-IsPart identity plain)
            (All-IsPart atoi (r ∷ rs) h))
        ∙ (parse_all-plain atoi identity (result_texts (r ∷ rs)) plain
            ∙ parse_results-read atoi identity [] (r ∷ rs) h))
