-- ===== src/Dkim/Format/Tagged.antt =====
-- middleware/authres/dkim/header.go: the text of a signature field is one text for the other tags,
-- followed by the folded tag of the signature.
pub mod Reparsed
use smtpx.Base.{
  ◌+◌, append-nil, true, false, List, [], ◌∷◌, ◌++◌, some, Bytes, codes, crlf, equal, equal_iff,
  ◌≡◌, refl, sym, ap, ap₂, ◌∙◌, inl, inr, append_assoc, select, length, ltb, sort_strings,
  sort_strings-All, Bool-cases, ◌>>=◌, All, is_some, arith,
}
use smtpx.Dkim.Format.{
  keys_of, is_other, tag_key, param_text, add_param, add_params, fold_header_field, format_with,
  format_signature,
}
use smtpx.Dkim.Header.Read.{IsFolded, place, place_step, inside, place-join}
use smtpx.Dkim.Header.Removed.{scan, scan-append}
use smtpx.Dkim.Params.{Params, find, get, put}

pub get-put_self : (k v : Bytes) (m : Params) → get k (put k v m) ≡ v
unfolding get find put
get-put_self k v [] = ground (arith, equal_iff k k)
get-put_self k v ((j, w) ∷ m) = ground (arith, equal_iff k j, get-put_self k v m)

is_some-find-put : (k v : Bytes) (m : Params) → is_some (find k (put k v m)) ≡ true
unfolding find put
is_some-find-put k v [] = ground (arith, equal_iff k k)
is_some-find-put k v ((j, w) ∷ m) = ground (arith, equal_iff k j, is_some-find-put k v m)

pub get-put_other : (k j v : Bytes) (m : Params) → equal j k ≡ false → get j (put k v m) ≡ get j m
unfolding get find put
get-put_other k j v [] h = ground arith
get-put_other k j v ((i, w) ∷ m) h =
    ground (arith, equal_iff k i, equal_iff j i, equal_iff j k, get-put_other k j v m)

others-put :
    (v : Bytes) (m : Params)
    → select is_other (keys_of (put tag_key v m)) ≡ select is_other (keys_of m)
unfolding keys_of put
others-put v [] = ground (arith, equal_iff tag_key tag_key)
others-put v ((j, w) ∷ m) = ground (arith, equal_iff tag_key j, others-put v m)

others_All : (ks : List Bytes) → All (λ k. equal k tag_key ≡ false) (select is_other ks)
others_All [] = tt
others_All (k ∷ ks) = elim (Bool-cases (equal k tag_key)) [
  | inl b ↦ rw b (others_All ks)
  | inr b ↦ rw b (b, others_All ks)
]

pub add_params-ext :
    (m m' : Params) (ks : List Bytes) (w : Bytes × Bytes)
    → All (λ k. get k m ≡ get k m') ks
    → add_params m ks w ≡ add_params m' ks w
unfolding add_params
add_params-ext m m' [] w h = refl
add_params-ext m m' (k ∷ ks) w (e, h) = rw e (add_params-ext m m' ks (add_param k (get k m') w) h)

All-map {ℓ κ} :
    {P : Bytes → Type ℓ} {Q : Bytes → Type κ} (f : (k : Bytes) → P k → Q k) (ks : List Bytes)
    → All P ks
    → All Q ks
All-map f [] h = tt
All-map f (k ∷ ks) (pk, h) = (f k pk, All-map f ks h)

-- The sorted keys but `b`.
abbrev pub other_keys : Params → List Bytes
other_keys m = sort_strings (select is_other (keys_of m))

-- The text before the tag of the signature.
pub other_tags : Bytes → Params → Bytes
other_tags name m = let w = add_params m (other_keys m) (name ++ codes ":", []) in w.0 ++ w.1

other_tags-put :
    (name v : Bytes) (m : Params) → other_tags name (put tag_key v m) ≡ other_tags name m
unfolding other_tags
other_tags-put name v m =
    ap (λ w. w.0 ++ w.1)
      (ap (λ ks. add_params (put tag_key v m) (sort_strings ks) (name ++ codes ":", []))
          (others-put v m)
        ∙ add_params-ext (put tag_key v m) m (other_keys m) (name ++ codes ":", [])
            (sort_strings-All (λ k. get k (put tag_key v m) ≡ get k m) (select is_other (keys_of m))
              (All-map (λ k. get-put_other tag_key k v m) (select is_other (keys_of m))
                (others_All (keys_of m)))))

pub format_signature-put :
    (v : Bytes) (m : Params)
    → format_signature (put tag_key v m)
      ≡ other_tags (codes "DKIM-Signature") m ++ (crlf ++ fold_header_field (codes " b=" ++ v))
unfolding format_signature other_tags
format_signature-put v m =
    let name : Bytes = codes "DKIM-Signature" in
    let m' = put tag_key v m in
    rw (is_some-find-put tag_key v m, format_with)
      (ap₂ (λ a b. a ++ (crlf ++ fold_header_field (codes " b=" ++ b))) (other_tags-put name v m)
        (get-put_self tag_key v m))

add_param-front :
    (k v a s line : Bytes)
    → (add_param k v (a ++ s, line)
        ≡ (a ++ (add_param k v (s, line)).0, (add_param k v (s, line)).1))
unfolding add_param
add_param-front k v a s line = elim (Bool-cases (ltb 75 (3 + length line + length v + length k))) [
  | inl h ↦ rw h (ap (λ t. (t, param_text k v)) (append_assoc a s (line ++ crlf)))
  | inr h ↦ rw h refl
]

add_params-front :
    (m : Params) (ks : List Bytes) (a s line : Bytes)
    → (add_params m ks (a ++ s, line)
        ≡ (a ++ (add_params m ks (s, line)).0, (add_params m ks (s, line)).1))
unfolding add_params
add_params-front m [] a s line = refl
add_params-front m (k ∷ ks) a s line =
    let w = add_param k (get k m) (s, line) in
    ap (add_params m ks) (add_param-front k (get k m) a s line) ∙ add_params-front m ks a w.0 w.1

-- The text behind the name and its colon.
pub rest_tags : Params → Bytes
rest_tags m = let w = add_params m (other_keys m) ([], []) in w.0 ++ w.1

pub other_tags-rest :
    (name : Bytes) (m : Params) → other_tags name m ≡ name ++ (codes ":" ++ rest_tags m)
unfolding other_tags rest_tags
other_tags-rest name m =
    let w = add_params m (other_keys m) ([], []) in
    ap (λ u. u.0 ++ u.1)
      (ap (λ t. add_params m (other_keys m) (t, [])) (sym (append-nil (name ++ codes ":")))
        ∙ add_params-front m (other_keys m) (name ++ codes ":") [] [])
    ∙ (append_assoc (name ++ codes ":") w.0 w.1 ∙ append_assoc name (codes ":") (w.0 ++ w.1))

-- The text begins with the name of the field.
pub other_tags-name :
    (name : Bytes) (m : Params) → (r : Bytes) × (other_tags name m ≡ name ++ (codes ":" ++ r))
other_tags-name name m = (rest_tags m, other_tags-rest name m)

-- A property of texts that putting two together keeps, and a line break before a tag.
module _ {ℓ} (Good : Bytes → Type ℓ) (good_join : (s t : Bytes) → Good s → Good t → Good (s ++ t))
    (good_next : (k v : Bytes) → Good (param_text k v) → Good (crlf ++ param_text k v)) where
  add_param-Good :
      (k v s line : Bytes)
      → Good (s ++ line)
      → Good (param_text k v)
      → Good ((add_param k v (s, line)).0 ++ (add_param k v (s, line)).1)
  unfolding add_param
  add_param-Good k v s line h hp =
      let broken : (s ++ (line ++ crlf)) ++ param_text k v
          ≡ (s ++ line) ++ (crlf ++ param_text k v) =
        ap (λ t. t ++ param_text k v) (sym (append_assoc s line crlf))
        ∙ append_assoc (s ++ line) crlf (param_text k v) in
      elim (Bool-cases (ltb 75 (3 + length line + length v + length k))) [
        | inl b ↦
            rw b (rw broken (good_join (s ++ line) (crlf ++ param_text k v) h (good_next k v hp)))
        | inr b ↦ rw b (
            rw (← append_assoc s line (param_text k v))
              (good_join (s ++ line) (param_text k v) h hp))
      ]

  add_params-Good :
      (m : Params) (ks : List Bytes) (s line : Bytes)
      → Good (s ++ line)
      → All (λ k. Good (param_text k (get k m))) ks
      → Good ((add_params m ks (s, line)).0 ++ (add_params m ks (s, line)).1)
  unfolding add_params
  add_params-Good m [] s line h hs = h
  add_params-Good m (k ∷ ks) s line h (hk, hs) =
      let w = add_param k (get k m) (s, line) in
      add_params-Good m ks w.0 w.1 (add_param-Good k (get k m) s line h hk) hs

  -- The text before the tag of the signature has it, if the name and each tag have it.
  pub other_tags-Good :
      (name : Bytes) (m : Params)
      → Good ((name ++ codes ":") ++ [])
      → All (λ k. Good (param_text k (get k m))) (select is_other (keys_of m))
      → Good (other_tags name m)
  unfolding other_tags
  other_tags-Good name m hn h =
      add_params-Good m (other_keys m) (name ++ codes ":") [] hn
        (sort_strings-All (λ k. Good (param_text k (get k m))) (select is_other (keys_of m)) h)

abbrev IsQuietText : Bytes → Type 0
IsQuietText s = scan false s ≡ some false

scan-join : (s t : Bytes) → IsQuietText s → IsQuietText t → IsQuietText (s ++ t)
scan-join s t h g = scan-append false s t ∙ (ap (λ o. o >>= λ st. scan st t) h ∙ g)

-- No match of the signature's pattern begins in the text, if none does in a tag.
pub other_tags-scan :
    (m : Params)
    → All (λ k. scan false (param_text k (get k m)) ≡ some false) (select is_other (keys_of m))
    → scan false (other_tags (codes "DKIM-Signature") m) ≡ some false
unfolding scan
other_tags-scan m h =
    other_tags-Good IsQuietText scan-join (λ k v quiet. quiet) (codes "DKIM-Signature") m refl h

-- Each line break of the text is followed by a space, if that holds of each tag.
pub other_tags-place :
    (m : Params)
    → All (λ k. place inside (param_text k (get k m)) ≡ some inside) (select is_other (keys_of m))
    → place inside (other_tags (codes "DKIM-Signature") m) ≡ some inside
unfolding place place_step
other_tags-place m h =
    other_tags-Good IsFolded place-join (λ k v folded. folded) (codes "DKIM-Signature") m refl h
