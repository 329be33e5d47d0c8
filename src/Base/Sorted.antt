-- ===== src/Base/Sorted.antt =====
-- `sort.Strings` on byte strings, and that it forgets the order it is given.
use mathlib.Core.Path.{◌≡◌, refl, ap, sym, ◌∙◌}
use mathlib.Core.Logic.{inl, inr}
use mathlib.Core.Bool.{Bool, true, false, ◌&&◌, ◌||◌}
use mathlib.Core.List.{List, [], ◌∷◌, Perm, foldr}
use mathlib.Core.List.Perm
use native.Mathlib.Omega.{arith}
use smtpx.Base.Tests.{ltb, ◌==◌, if◌then◌else◌, Bool-cases}
use smtpx.Base.Lists.{any, select, All}
use smtpx.Base.Text.{Bytes}

-- `<` on strings
less : Bytes → Bytes → Bool
less [] [] = false
less [] (d ∷ t) = true
less (c ∷ s) [] = false
less (c ∷ s) (d ∷ t) = ltb c d || (c == d && less s t)

insert_string : Bytes → List Bytes → List Bytes
insert_string k [] = k ∷ []
insert_string k (j ∷ ks) =
    let rest = insert_string k ks in if less j k then j ∷ rest else k ∷ j ∷ ks

unfoldable pub sort_strings : List Bytes → List Bytes
unfolding insert_string less
sort_strings [] = []
sort_strings (k ∷ ks) = insert_string k (sort_strings ks)

less_asym : (s t : Bytes) → less s t ≡ true → less t s ≡ false
unfolding less
less_asym [] [] h = ground arith
less_asym [] (d ∷ t) h = refl
less_asym (c ∷ s) [] h = ground arith
less_asym (c ∷ s) (d ∷ t) h = ground (arith, less_asym s t)

less_total : (s t : Bytes) → less s t ≡ false → less t s ≡ false → s ≡ t
unfolding less
less_total [] [] h g = refl
less_total [] (d ∷ t) h g = ground arith
less_total (c ∷ s) [] h g = ground arith
less_total (c ∷ s) (d ∷ t) h g = ground (arith, less_total s t)

less_trans : (s t u : Bytes) → less s t ≡ true → less t u ≡ true → less s u ≡ true
unfolding less
less_trans [] [] u h g = ground arith
less_trans [] (d ∷ t) [] h g = ground arith
less_trans [] (d ∷ t) (e ∷ u) h g = refl
less_trans (c ∷ s) [] u h g = ground arith
less_trans (c ∷ s) (d ∷ t) [] h g = ground arith
less_trans (c ∷ s) (d ∷ t) (e ∷ u) h g = ground (arith, less_trans s t u)

-- A string that is not above a second one, which is not above a third, is not above that.
not_less_trans : (s t u : Bytes) → less t s ≡ false → less u t ≡ false → less u s ≡ false
not_less_trans s t u h g = elim (Bool-cases (less u s)) [
  | inr below ↦ below
  | inl above ↦ elim (Bool-cases (less s t)) [
    | inl st ↦ cc (less_trans u s t above st)
    | inr ts ↦ rw (less_total s t ts h) g
  ]
]

insert_string-above :
    (k j : Bytes) (ks : List Bytes)
    → less j k ≡ true
    → insert_string k (j ∷ ks) ≡ j ∷ insert_string k ks
unfolding insert_string
insert_string-above k j ks h = rw h refl

insert_string-below :
    (k j : Bytes) (ks : List Bytes) → less j k ≡ false → insert_string k (j ∷ ks) ≡ k ∷ j ∷ ks
unfolding insert_string
insert_string-below k j ks h = rw h refl

insert_string-nil : (k : Bytes) → insert_string k [] ≡ k ∷ []
unfolding insert_string
insert_string-nil k = refl

less_irrefl : (s : Bytes) → less s s ≡ false
less_irrefl s = elim (Bool-cases (less s s)) [ inl h ↦ less_asym s s h | inr h ↦ h ]

insert_string-again :
    (j : Bytes) (ks : List Bytes)
    → insert_string j ks ≡ j ∷ ks
    → insert_string j (insert_string j ks) ≡ j ∷ insert_string j ks
insert_string-again j ks ej =
    ap (insert_string j) ej
    ∙ (insert_string-below j j ks (less_irrefl j) ∙ ap (λ l. j ∷ l) (sym ej))

-- Two strings in front of a list, the smaller one first.
insert_string-pair :
    (k j : Bytes) (ks : List Bytes)
    → less j k ≡ false
    → insert_string j ks ≡ j ∷ ks
    → insert_string k ks ≡ k ∷ ks
    → insert_string k (insert_string j ks) ≡ insert_string j (insert_string k ks)
insert_string-pair k j ks h ej ek =
    ap (insert_string k) ej
    ∙ (insert_string-below k j ks h ∙ (elim (Bool-cases (less k j)) [
      | inl kj ↦
          ap (λ l. k ∷ l) (sym ej)
          ∙ (sym (insert_string-above j k ks kj) ∙ ap (insert_string j) (sym ek))
      | inr jk ↦
          rw (less_total k j jk h) (ap (λ l. j ∷ l) (sym ej) ∙ sym (insert_string-again j ks ej))
    ]))

insert_string-front :
    (k j : Bytes) (ks : List Bytes)
    → insert_string j ks ≡ j ∷ ks
    → insert_string k ks ≡ k ∷ ks
    → insert_string k (insert_string j ks) ≡ insert_string j (insert_string k ks)
insert_string-front k j ks ej ek = elim (Bool-cases (less j k)) [
  | inl jk ↦ sym (insert_string-pair j k ks (less_asym j k jk) ek ej)
  | inr jk ↦ insert_string-pair k j ks jk ej ek
]

-- `j` belongs in front of `i`, and `k` behind it.
insert_string-around :
    (k j i : Bytes) (ks : List Bytes)
    → less i k ≡ true
    → less i j ≡ false
    → insert_string k (insert_string j (i ∷ ks)) ≡ insert_string j (insert_string k (i ∷ ks))
insert_string-around k j i ks ik ij = elim (Bool-cases (less j k)) [
  | inr jk ↦ cc (not_less_trans k j i jk ij)
  | inl jk ↦
      ap (insert_string k) (insert_string-below j i ks ij)
      ∙ (insert_string-above k j (i ∷ ks) jk
          ∙ (ap (λ l. j ∷ l) (insert_string-above k i ks ik)
              ∙ (sym (insert_string-below j i (insert_string k ks) ij)
                  ∙ ap (insert_string j) (sym (insert_string-above k i ks ik)))))
]

insert_string_comm :
    (k j : Bytes) (ks : List Bytes)
    → insert_string k (insert_string j ks) ≡ insert_string j (insert_string k ks)
insert_string_comm k j [] = insert_string-front k j [] (insert_string-nil j) (insert_string-nil k)
insert_string_comm k j (i ∷ ks) = elim (Bool-cases (less i k)) [
  | inl ik ↦ elim (Bool-cases (less i j)) [
    | inl ij ↦
        ap (insert_string k) (insert_string-above j i ks ij)
        ∙ (insert_string-above k i (insert_string j ks) ik
            ∙ (ap (λ l. i ∷ l) (insert_string_comm k j ks)
                ∙ (sym (insert_string-above j i (insert_string k ks) ij)
                    ∙ ap (insert_string j) (sym (insert_string-above k i ks ik)))))
    | inr ij ↦ insert_string-around k j i ks ik ij
  ]
  | inr ik ↦ elim (Bool-cases (less i j)) [
    | inl ij ↦ sym (insert_string-around j k i ks ij ik)
    | inr ij ↦
        insert_string-front k j (i ∷ ks) (insert_string-below j i ks ij)
          (insert_string-below k i ks ik)
  ]
]

strings_set : IsSet (List Bytes)
strings_set = hlevel

abbrev insert_kept : (Bytes → Bool) → Bytes → List Bytes → List Bytes
insert_kept kept k ks = if kept k then insert_string k ks else ks

insert_kept_comm :
    (kept : Bytes → Bool) (k j : Bytes) (ks : List Bytes)
    → insert_kept kept k (insert_kept kept j ks) ≡ insert_kept kept j (insert_kept kept k ks)
insert_kept_comm kept k j ks = ground (arith, insert_string_comm k j ks)

sort_strings-select :
    (kept : Bytes → Bool) (ks : List Bytes)
    → sort_strings (select kept ks) ≡ foldr (insert_kept kept) [] ks
unfolding sort_strings
sort_strings-select kept [] = refl
sort_strings-select kept (k ∷ ks) = elim (Bool-cases (kept k)) [
  | inl h ↦ rw h (ap (insert_string k) (sort_strings-select kept ks))
  | inr h ↦ rw h (sort_strings-select kept ks)
]

-- What a test keeps of some strings, sorted, does not depend on the order of the strings.
pub sort_strings-select-perm :
    (kept : Bytes → Bool) (ks js : List Bytes)
    → Perm ks js
    → sort_strings (select kept ks) ≡ sort_strings (select kept js)
sort_strings-select-perm kept ks js p =
    sort_strings-select kept ks
    ∙ (Perm.foldr-eq strings_set (insert_kept kept) (insert_kept_comm kept) p []
        ∙ sym (sort_strings-select kept js))

module _ {ℓ} (P : Bytes → Type ℓ) where
  insert_string-All : (k : Bytes) (ks : List Bytes) → P k → All P ks → All P (insert_string k ks)
  unfolding insert_string
  insert_string-All k [] pk h = (pk, tt)
  insert_string-All k (j ∷ ks) pk (pj, h) = elim (Bool-cases (less j k)) [
    | inl b ↦ rw b (pj, insert_string-All k ks pk h)
    | inr b ↦ rw b (pk, (pj, h))
  ]

  pub sort_strings-All : (ks : List Bytes) → All P ks → All P (sort_strings ks)
  unfolding sort_strings
  sort_strings-All [] h = tt
  sort_strings-All (k ∷ ks) (pk, h) =
      insert_string-All k (sort_strings ks) pk (sort_strings-All ks h)

insert_string-any :
    (p : Bytes → Bool) (k : Bytes) (ks : List Bytes) → any p (insert_string k ks) ≡ any p (k ∷ ks)
unfolding insert_string
insert_string-any p k [] = refl
insert_string-any p k (j ∷ ks) = ground (arith, insert_string-any p k ks)

-- Sorting keeps what a test finds.
pub sort_strings-any : (p : Bytes → Bool) (ks : List Bytes) → any p (sort_strings ks) ≡ any p ks
unfolding sort_strings
sort_strings-any p [] = refl
sort_strings-any p (k ∷ ks) =
    insert_string-any p k (sort_strings ks)
    ∙ ap (λ b. if p k then true else b) (sort_strings-any p ks)
