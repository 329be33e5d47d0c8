-- ===== src/Authres/Format.antt =====
-- middleware/authres/format.go: the text of the field Authentication-Results. Letters and digits are
-- those of ASCII.
pub mod Words
use smtpx.Authres.Results.{
  Result, auth, dkim, domain_keys, ip_rev, sender_id, spf, dmarc, arc, generic, format_of,
}
use smtpx.Base.{
  ℕ, zero, suc, Bool, true, false, not, ◌&&◌, ◌||◌, List, [], ◌∷◌, ◌++◌, Bytes, codes, crlf, any,
  equal, leb, length, ltb, select, sort_strings, ◌==◌, if◌then◌else◌,
}
use smtpx.Dkim.Format.{keys_of}
use smtpx.Dkim.Params.{Params, get}

-- `resultMethod`; its switch has no case for the result of ARC.
unfoldable pub result_method : Result → Bytes
result_method (auth value reason a) = codes "auth"
result_method (dkim value reason d i s b) = codes "dkim"
result_method (domain_keys value reason d from sender) = codes "domainkeys"
result_method (ip_rev value reason ip) = codes "iprev"
result_method (sender_id value reason k v) = codes "sender-id"
result_method (spf value reason from helo) = codes "spf"
result_method (dmarc value reason from) = codes "dmarc"
result_method (arc value ip oldest) = []
result_method (generic name value m) = name

abbrev pub one_of : Bytes → ℕ → Bool
one_of cs c = any (λ d. d == c) cs

-- `tspecials`
abbrev pub tspecials : Bytes
tspecials = codes "()<>@,;:\\\"/[]?="

-- `addressOk`
abbrev pub address_ok : Bytes
address_ok = codes "#$%&'*+,./-@[]\\^_`{|}~"

abbrev pub needs_quotes : ℕ → Bool
needs_quotes c = leb c 32 || one_of tspecials c

-- `strings.Replace(s, `"`, `\"`, -1)`
unfoldable pub escape_quotes : Bytes → Bytes
escape_quotes [] = []
escape_quotes (c ∷ s) = if c == 34 then b'\\' ∷ 34 ∷ escape_quotes s else c ∷ escape_quotes s

-- `formatValue`
unfoldable pub format_value : Bytes → Bytes
unfolding escape_quotes
format_value s = if any needs_quotes s then (34 ∷ escape_quotes s) ++ 34 ∷ [] else s

abbrev pub is_letter : ℕ → Bool
is_letter c = (leb b'a' c && leb c b'z') || (leb b'A' c && leb c b'Z')

abbrev pub is_digit : ℕ → Bool
is_digit c = leb b'0' c && leb c b'9'

abbrev pub is_address_like : ℕ → Bool
is_address_like c = is_letter c || is_digit c || one_of address_ok c

-- `formatPvalue`
unfoldable pub format_pvalue : Bytes → Bytes
unfolding format_value
format_pvalue s = if any (λ c. not (is_address_like c)) s then format_value s else s

abbrev pub reason_key : Bytes
reason_key = codes "reason"

unfoldable pub text_of : Bytes → Bytes → Bytes
unfolding format_pvalue format_value equal
text_of k v = k ++ (codes "=" ++ (if equal k reason_key then format_value v else format_pvalue v))

-- One round of the loop of `formatParams`: the text, and how many parameters it has.
unfoldable pub add_text : Bytes → Bytes → Bytes × ℕ → Bytes × ℕ
unfolding text_of
add_text k v (s, i) =
    if length v == 0 then (s, i) else ((if i == 0 then s else s ++ codes " ") ++ text_of k v, suc i)

unfoldable pub add_texts : Params → List Bytes → Bytes × ℕ → Bytes × ℕ
unfolding add_text get
add_texts m [] w = w
add_texts m (k ∷ ks) w = add_texts m ks (add_text k (get k m) w)

-- The keys in the order of the text: the reason, if there is one, and the others sorted.
unfoldable pub ordered_keys : Params → List Bytes
unfolding keys_of sort_strings get equal
ordered_keys m =
    let ks = sort_strings (select (λ k. not (equal k reason_key)) (keys_of m)) in
    if length (get reason_key m) == 0 then ks else reason_key ∷ ks

-- `formatParams`
unfoldable pub format_params : Params → Bytes
unfolding add_texts ordered_keys
format_params m = (add_texts m (ordered_keys m) ([], 0)).0

unfoldable pub result_text : Result → Bytes
unfolding result_method format_params format_of
result_text r =
    let (value, m) = format_of r in
    result_method r ++ (codes "=" ++ (value ++ (codes " " ++ format_params m)))

abbrev pub next_result : Bytes
next_result = codes ";" ++ (crlf ++ codes "  ")

unfoldable pub add_results : Bytes → List Result → Bytes
unfolding result_text
add_results s [] = s
add_results s (r ∷ rs) = add_results (s ++ (next_result ++ result_text r)) rs

-- `Format`
unfoldable pub format : Bytes → List Result → Bytes
unfolding add_results
format identity [] = identity ++ (next_result ++ codes "none")
format identity (r ∷ rs) = add_results identity (r ∷ rs)
