-- ===== src/Authres/Format/Words.antt =====
-- middleware/authres/format.go: the parameters of a result as the words of its text.
use smtpx.Authres.Format.{
  needs_quotes, is_address_like, format_value, format_pvalue, text_of, reason_key, add_text,
  add_texts, ordered_keys, format_params,
}
use smtpx.Base.{
  ℕ, suc, ◌<◌, Bool, true, false, not, ◌||◌, List, [], ◌∷◌, ◌++◌, Bytes, codes, any, equal, fields,
  fields-snoc_word, fields_by-end, is_space, length, select, sort_strings-All, ◌==◌, if◌then◌else◌,
  Bool-cases, ◌≡◌, refl, sym, ap, ◌∙◌, inl, inr, append_assoc, append-nil, All, All-append, arith,
}
use smtpx.Dkim.Format.{keys_of}
use smtpx.Dkim.Params.{Params, get}

-- A byte that neither ends a word nor a result.
abbrev pub IsPlainByte : ℕ → Type 0
IsPlainByte c = (is_space c ≡ false) × ((c == b';') ≡ false)

address_like-IsPlainByte : (c : ℕ) → is_address_like c ≡ true → IsPlainByte c
address_like-IsPlainByte c h = ground arith

quiet-IsPlainByte : (c : ℕ) → needs_quotes c ≡ false → IsPlainByte c
quiet-IsPlainByte c h = ground arith

-- The words of the parameters that are not empty.
unfoldable pub words : Params → List Bytes → List Bytes
words m [] = []
words m (k ∷ ks) = if length (get k m) == 0 then words m ks else text_of k (get k m) ∷ words m ks

text_of-some : (k v : Bytes) → 0 < length (text_of k v)
unfolding text_of
text_of-some [] v = omega arith
text_of-some (c ∷ k) v = omega arith

abbrev pub IsPlain : Bytes → Type 0
IsPlain s = All IsPlainByte s

All-map {ℓ κ} :
    {P : ℕ → Type ℓ} {Q : ℕ → Type κ} (f : (c : ℕ) → P c → Q c) (s : Bytes) → All P s → All Q s
All-map f [] h = tt
All-map f (c ∷ s) (pc, h) = (f c pc, All-map f s h)

fields-space : (a : Bytes) → fields (a ++ (32 ∷ [])) ≡ fields a
unfolding fields
fields-space a = fields_by-end is_space a 32 refl

IsPlain-word : (w : Bytes) → IsPlain w → All (λ c. is_space c ≡ false) w
IsPlain-word w h = All-map (λ c p. p.0) w h

-- The first word follows the text at once, and each other one a space.
fields-joined :
    (a s w : Bytes) (i : ℕ)
    → ((i == 0) ≡ true → s ≡ [])
    → 0 < length w
    → IsPlain w
    → (fields (a ++ (32 ∷ ((if i == 0 then s else s ++ codes " ") ++ w)))
        ≡ fields (a ++ (32 ∷ s)) ++ w ∷ [])
fields-joined a s w i first long h = elim (Bool-cases (i == 0)) [
  | inl b ↦ rw b (
      rw (first b) (
        fields-snoc_word a w long (IsPlain-word w h)
        ∙ ap (λ l. l ++ w ∷ []) (sym (fields-space a))))
  | inr b ↦ rw b (
      ap (λ t. fields (a ++ (32 ∷ t))) (append_assoc s (codes " ") w)
      ∙ (ap fields (sym (append_assoc a (32 ∷ s) (32 ∷ w)))
          ∙ fields-snoc_word (a ++ (32 ∷ s)) w long (IsPlain-word w h)))
]

abbrev IsStart : Bytes × ℕ → Type 0
IsStart w = (w.1 == 0) ≡ true → w.0 ≡ []

add_text-skipped : (k v : Bytes) (w : Bytes × ℕ) → (length v == 0) ≡ true → add_text k v w ≡ w
unfolding add_text
add_text-skipped k v (s, i) h = rw h refl

add_text-taken :
    (k v s : Bytes) (i : ℕ)
    → (length v == 0) ≡ false
    → (add_text k v (s, i) ≡ ((if i == 0 then s else s ++ codes " ") ++ text_of k v, suc i))
unfolding add_text
add_text-taken k v s i h = rw h refl

words-skipped :
    (m : Params) (k : Bytes) (ks : List Bytes)
    → (length (get k m) == 0) ≡ true
    → words m (k ∷ ks) ≡ words m ks
unfolding words
words-skipped m k ks h = rw h refl

words-taken :
    (m : Params) (k : Bytes) (ks : List Bytes)
    → (length (get k m) == 0) ≡ false
    → words m (k ∷ ks) ≡ text_of k (get k m) ∷ words m ks
unfolding words
words-taken m k ks h = rw h refl

add_texts-fields :
    (a : Bytes) (m : Params) (ks : List Bytes) (s : Bytes) (i : ℕ)
    → ((i == 0) ≡ true → s ≡ [])
    → All (λ k. IsPlain (text_of k (get k m))) ks
    → (fields (a ++ (32 ∷ (add_texts m ks (s, i)).0)) ≡ fields (a ++ (32 ∷ s)) ++ words m ks)
unfolding add_texts words
add_texts-fields a m [] s i first h = sym (append-nil (fields (a ++ (32 ∷ s))))
add_texts-fields a m (k ∷ ks) s i first (hk, h) = elim (Bool-cases (length (get k m) == 0)) [
  | inl b ↦
      ap (λ w. fields (a ++ (32 ∷ (add_texts m ks w).0))) (add_text-skipped k (get k m) (s, i) b)
      ∙ (add_texts-fields a m ks s i first h
          ∙ ap (λ l. fields (a ++ (32 ∷ s)) ++ l) (sym (words-skipped m k ks b)))
  | inr b ↦
      let w = text_of k (get k m) in
      let s' = (if i == 0 then s else s ++ codes " ") ++ w in
      ap (λ w. fields (a ++ (32 ∷ (add_texts m ks w).0))) (add_text-taken k (get k m) s i b)
      ∙ (add_texts-fields a m ks s' (suc i) (λ e. absurd (ground arith)) h
          ∙ (ap (λ l. l ++ words m ks) (fields-joined a s w i first (text_of-some k (get k m)) hk)
              ∙ (append_assoc (fields (a ++ (32 ∷ s))) (w ∷ []) (words m ks)
                  ∙ ap (λ l. fields (a ++ (32 ∷ s)) ++ l) (sym (words-taken m k ks b)))))
]

pub ordered_keys_All {ℓ} :
    (P : Bytes → Type ℓ) (m : Params)
    → P reason_key
    → All P (select (λ k. not (equal k reason_key)) (keys_of m))
    → All P (ordered_keys m)
unfolding ordered_keys
ordered_keys_All P m pr h = elim (Bool-cases (length (get reason_key m) == 0)) [
  | inl b ↦ rw b (sort_strings-All P (select (λ k. not (equal k reason_key)) (keys_of m)) h)
  | inr b ↦ rw b (pr, sort_strings-All P (select (λ k. not (equal k reason_key)) (keys_of m)) h)
]

-- The fields of a text, a space and the parameters are those of the text and the words.
pub format_params-fields :
    (a : Bytes) (m : Params)
    → All (λ k. IsPlain (text_of k (get k m))) (ordered_keys m)
    → fields (a ++ (32 ∷ format_params m)) ≡ fields a ++ words m (ordered_keys m)
unfolding format_params
format_params-fields a m h =
    add_texts-fields a m (ordered_keys m) [] 0 (λ e. refl) h
    ∙ ap (λ l. l ++ words m (ordered_keys m)) (fields-space a)

any-false : (p : ℕ → Bool) (s : Bytes) → All (λ c. p c ≡ false) s → any p s ≡ false
any-false p [] h = refl
any-false p (c ∷ s) (hc, h) = rw hc (any-false p s h)

-- A value that needs no quotes, as a reason.
abbrev pub IsQuiet : Bytes → Type 0
IsQuiet s = All (λ c. needs_quotes c ≡ false) s

-- A value that is written as it is, as any other parameter.
abbrev pub IsAddressLike : Bytes → Type 0
IsAddressLike s = All (λ c. is_address_like c ≡ true) s

pub IsQuiet-IsPlain : (s : Bytes) → IsQuiet s → IsPlain s
IsQuiet-IsPlain s h = All-map quiet-IsPlainByte s h

pub IsAddressLike-IsPlain : (s : Bytes) → IsAddressLike s → IsPlain s
IsAddressLike-IsPlain s h = All-map address_like-IsPlainByte s h

pub text_of-reason : (v : Bytes) → IsQuiet v → text_of reason_key v ≡ reason_key ++ (codes "=" ++ v)
unfolding text_of format_value
text_of-reason v h = rw (any-false needs_quotes v h) refl

pub text_of-other :
    (k v : Bytes)
    → equal k reason_key ≡ false
    → IsAddressLike v
    → text_of k v ≡ k ++ (codes "=" ++ v)
unfolding text_of format_pvalue
text_of-other k v hk h = rw hk (
    rw
      (any-false (λ c. not (is_address_like c)) v
        (All-map (λ c (e : is_address_like c ≡ true). ap not e) v h))
      refl)

pub IsPlain-append : (s t : Bytes) → IsPlain s → IsPlain t → IsPlain (s ++ t)
IsPlain-append s t h g = All-append IsPlainByte s t h g

pub All_false : (p : ℕ → Bool) (s : Bytes) → any p s ≡ false → All (λ c. p c ≡ false) s
All_false p [] h = tt
All_false p (c ∷ s) h = elim (Bool-cases (p c)) [
  | inl b ↦ cc (rw b at h)
  | inr b ↦ (b, All_false p s (rw b at h))
]

-- The test for a byte that ends a word or a result.
abbrev pub is_break : ℕ → Bool
is_break c = is_space c || c == b';'

IsPlainByte-is_break : (c : ℕ) → is_break c ≡ false → IsPlainByte c
IsPlainByte-is_break c h = ground arith

pub IsPlain-any : (s : Bytes) → any is_break s ≡ false → IsPlain s
IsPlain-any s h = All-map IsPlainByte-is_break s (All_false is_break s h)

-- A text without a semicolon.
abbrev pub IsPart : Bytes → Type 0
IsPart s = All (λ c. (c == b';') ≡ false) s

pub IsPlain-IsPart : (s : Bytes) → IsPlain s → IsPart s
IsPlain-IsPart s h = All-map (λ c p. p.1) s h

pub IsPart-append : (s t : Bytes) → IsPart s → IsPart t → IsPart (s ++ t)
IsPart-append s t h g = All-append (λ c. (c == b';') ≡ false) s t h g

add_text-IsPart :
    (k v s : Bytes) (i : ℕ) → IsPlain (text_of k v) → IsPart s → IsPart (add_text k v (s, i)).0
unfolding add_text
add_text-IsPart k v s i hk h =
    let w = IsPlain-IsPart (text_of k v) hk in
    elim (Bool-cases (length v == 0)) [
      | inl b ↦ rw b h
      | inr b ↦ rw b (elim (Bool-cases (i == 0)) [
        | inl e ↦ rw e (IsPart-append s (text_of k v) h w)
        | inr e ↦ rw e (
            IsPart-append (s ++ codes " ") (text_of k v) (IsPart-append s (codes " ") h (refl, tt))
              w)
      ])
    ]

add_texts-IsPart :
    (m : Params) (ks : List Bytes) (w : Bytes × ℕ)
    → IsPart w.0
    → All (λ k. IsPlain (text_of k (get k m))) ks
    → IsPart (add_texts m ks w).0
unfolding add_texts
add_texts-IsPart m [] w h hs = h
add_texts-IsPart m (k ∷ ks) w h (hk, hs) =
    add_texts-IsPart m ks (add_text k (get k m) w) (add_text-IsPart k (get k m) w.0 w.1 hk h) hs

pub format_params-IsPart :
    (m : Params)
    → All (λ k. IsPlain (text_of k (get k m))) (ordered_keys m)
    → IsPart (format_params m)
unfolding format_params
format_params-IsPart m h = add_texts-IsPart m (ordered_keys m) ([], 0) tt h
