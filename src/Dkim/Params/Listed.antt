-- ===== src/Dkim/Params/Listed.antt =====
-- middleware/authres/dkim/header.go and sign.go: a list of tags is read as it is written.
use smtpx.Base.{
  false, List, [], ◌∷◌, Bytes, codes, ◌≡◌, ◌≢◌, refl, ap, ap₂, ◌∙◌, is_space, join, split,
  split-part, split-whole, ◌==◌, All,
}
use smtpx.Dkim.Params.{strip_whitespace, strip_all, parse_tag_list}

-- A name without a colon and without white space.
abbrev pub IsKey : Bytes → Type 0
IsKey k = All (λ c. (c == b':') ≡ false) k × All (λ c. is_space c ≡ false) k

abbrev pub AreKeys : List Bytes → Type 0
AreKeys keys = (keys ≢ []) × All IsKey keys

split-join :
    (k : Bytes) (ks : List Bytes)
    → All IsKey (k ∷ ks)
    → split (join (k ∷ ks) (codes ":")) b':' ≡ k ∷ ks
unfolding join
split-join k [] ((colon, word), h) = split-whole b':' k colon
split-join k (j ∷ ks) ((colon, word), h) =
    split-part b':' k (join (j ∷ ks) (codes ":")) colon ∙ ap (λ l. k ∷ l) (split-join j ks h)

strip-key : (k : Bytes) → All (λ c. is_space c ≡ false) k → strip_whitespace k ≡ k
unfolding strip_whitespace
strip-key [] h = refl
strip-key (c ∷ k) (hc, h) = rw hc (ap (λ l. c ∷ l) (strip-key k h))

strip_all-keys : (ks : List Bytes) → All IsKey ks → strip_all ks ≡ ks
unfolding strip_all
strip_all-keys [] h = refl
strip_all-keys (k ∷ ks) ((colon, word), h) = ap₂ ◌∷◌ (strip-key k word) (strip_all-keys ks h)

pub parse_tag_list-join :
    (keys : List Bytes) → AreKeys keys → parse_tag_list (join keys (codes ":")) ≡ keys
unfolding parse_tag_list
parse_tag_list-join [] (some_key, h) = absurd (some_key refl)
parse_tag_list-join (k ∷ ks) (some_key, h) =
    ap strip_all (split-join k ks h) ∙ strip_all-keys (k ∷ ks) h
