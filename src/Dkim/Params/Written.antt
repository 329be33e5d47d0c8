-- ===== src/Dkim/Params/Written.antt =====
-- middleware/authres/dkim/header.go: the parameters of a text of tags.
use smtpx.Base.{
  ℕ, true, false, [], ◌∷◌, ◌++◌, none, some, Bytes, codes, ◌≡◌, refl, sym, ap, ◌∙◌, append_assoc,
  is_space, trim_space, cut, cut-part, split, split-part, split-whole, ◌==◌, All, All-append,
}
use smtpx.Dkim.Params.{Params, params, find, add_pair, add_pairs}
use smtpx.Dkim.Params.Edges.{not_equals, not_semicolon, trim_space-cons, pairs_rest, add_pairs-cons}

-- A key and a value that are read as they are written.
pub record IsTag (k v : Bytes) : Type 0 where
  pub key : All (λ c. (c == b'=') ≡ false) k
  pub key_part : All (λ c. (c == b';') ≡ false) k
  pub key_trimmed : trim_space k ≡ k
  pub value_part : All (λ c. (c == b';') ≡ false) v
  pub value_trimmed : trim_space v ≡ v

abbrev pub IsMargin : Bytes → Type 0
IsMargin u = All (λ c. is_space c ≡ true) u

margin-All :
    (sep : ℕ) (u : Bytes)
    → ((c : ℕ) → is_space c ≡ true → (c == sep) ≡ false)
    → IsMargin u
    → All (λ c. (c == sep) ≡ false) u
margin-All sep [] other h = tt
margin-All sep (c ∷ u) other (hc, h) = (other c hc, margin-All sep u other h)

trim_space-margin : (u k : Bytes) → IsMargin u → trim_space (u ++ k) ≡ trim_space k
trim_space-margin [] k h = refl
trim_space-margin (c ∷ u) k (hc, h) = trim_space-cons c (u ++ k) hc ∙ trim_space-margin u k h

add_pair-fresh :
    (s a b k v : Bytes) (m : Params)
    → trim_space a ≡ k
    → trim_space b ≡ v
    → find k m ≡ none
    → add_pair s (some (a, b)) m ≡ params ((k, v) ∷ m)
unfolding add_pair
add_pair-fresh s a b k v m ka vb fresh = rw (ka, vb) (rw fresh refl)

cut-tag :
    (u k v : Bytes)
    → IsMargin u
    → All (λ c. (c == b'=') ≡ false) k
    → cut (u ++ (k ++ (codes "=" ++ v))) b'=' ≡ some (u ++ k, v)
cut-tag u k v hu hk =
    ap (λ s. cut s b'=') (sym (append_assoc u k (codes "=" ++ v)))
    ∙ cut-part b'=' (u ++ k) v
        (All-append (λ c. (c == b'=') ≡ false) u k (margin-All b'=' u not_equals hu) hk)

add_pair-tag :
    (u k v w : Bytes) (m : Params)
    → IsMargin u
    → All (λ c. (c == b'=') ≡ false) k
    → trim_space k ≡ k
    → trim_space v ≡ w
    → find k m ≡ none
    → add_pair (u ++ (k ++ (codes "=" ++ v))) (cut (u ++ (k ++ (codes "=" ++ v))) b'=') m
      ≡ params ((k, w) ∷ m)
add_pair-tag u k v w m hu hk trimmed value fresh =
    let s = u ++ (k ++ (codes "=" ++ v)) in
    ap (λ o. add_pair s o m) (cut-tag u k v hu hk)
    ∙ add_pair-fresh s (u ++ k) v k w m (trim_space-margin u k hu ∙ trimmed) value fresh

-- A tag and its semicolon are one parameter more.
pub add_pairs-tag :
    (u k v t : Bytes) (m : Params)
    → IsMargin u
    → IsTag k v
    → find k m ≡ none
    → add_pairs (split ((u ++ (k ++ (codes "=" ++ v))) ++ (b';' ∷ t)) b';') m
      ≡ add_pairs (split t b';') ((k, v) ∷ m)
add_pairs-tag u k v t m hu tag fresh =
    let s = u ++ (k ++ (codes "=" ++ v)) in
    ap (λ l. add_pairs l m)
      (split-part b';' s t (
        All-append (λ c. (c == b';') ≡ false) u (k ++ (codes "=" ++ v))
          (margin-All b';' u not_semicolon hu)
          (All-append (λ c. (c == b';') ≡ false) k (codes "=" ++ v) tag.key_part
            (refl, tag.value_part))))
    ∙ (add_pairs-cons s (split t b';') m
        ∙ ap (pairs_rest (split t b';'))
            (add_pair-tag u k v v m hu tag.key tag.key_trimmed tag.value_trimmed fresh))

-- The last tag, without a semicolon.
pub add_pairs-last_tag :
    (u k v w : Bytes) (m : Params)
    → IsMargin u
    → IsTag k []
    → All (λ c. (c == b';') ≡ false) v
    → trim_space v ≡ w
    → find k m ≡ none
    → add_pairs (split (u ++ (k ++ (codes "=" ++ v))) b';') m ≡ params ((k, w) ∷ m)
unfolding add_pairs
add_pairs-last_tag u k v w m hu tag hv value fresh =
    let s = u ++ (k ++ (codes "=" ++ v)) in
    ap (λ l. add_pairs l m)
      (split-whole b';' s (
        All-append (λ c. (c == b';') ≡ false) u (k ++ (codes "=" ++ v))
          (margin-All b';' u not_semicolon hu)
          (All-append (λ c. (c == b';') ≡ false) k (codes "=" ++ v) tag.key_part (refl, hv))))
    ∙ (add_pairs-cons s [] m
        ∙ ap (pairs_rest []) (add_pair-tag u k v w m hu tag.key tag.key_trimmed value fresh))
