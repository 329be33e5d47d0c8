-- ===== src/Dkim/Header/Prepended.antt =====
-- middleware/authres/dkim/header.go: a field in front of a header is picked only by its own name.
use smtpx.Base.{
  ℕ, zero, suc, false, List, [], ◌∷◌, ◌++◌, Option, none, some, Bytes, ◌≡◌, refl, ap, ◌∙◌, inl, inr,
  equal_fold, to_lower, if◌then◌else◌, Bool-cases, arith,
}
use mathlib.Core.List.{reverse, reverse-append}
use smtpx.Dkim.Header.{HeaderPicker, count_picked, pick_from, picked_with, pick}
use smtpx.Dkim.Params.{parse_header_field}

to_lower_idem : (s : Bytes) → to_lower (to_lower s) ≡ to_lower s
unfolding to_lower
to_lower_idem [] = refl
to_lower_idem (c ∷ s) = ground (arith, to_lower_idem s)

pub equal_fold-to_lower : (a b : Bytes) → equal_fold a (to_lower b) ≡ equal_fold a b
unfolding equal_fold
equal_fold-to_lower a b = rw (to_lower_idem b) refl

pick_from-append :
    (f key : Bytes) (kvs : List Bytes) (n : ℕ)
    → equal_fold (parse_header_field f).0 key ≡ false
    → pick_from (kvs ++ f ∷ []) key n ≡ pick_from kvs key n
unfolding pick_from
pick_from-append f key [] zero h = rw h refl
pick_from-append f key [] (suc n) h = refl
pick_from-append f key (kv ∷ kvs) zero h =
    elim (Bool-cases (equal_fold (parse_header_field kv).0 key)) [
      | inl b ↦ rw b refl
      | inr b ↦ rw b (pick_from-append f key kvs zero h)
    ]
pick_from-append f key (kv ∷ kvs) (suc n) h =
    pick_from-append f key kvs (if equal_fold (parse_header_field kv).0 key then n else suc n) h

-- A picker whose header has one more field in front.
abbrev pub with_field : Bytes → HeaderPicker → HeaderPicker
with_field f p = record p { h = f ∷ p.h }

picked_with-field :
    (f k : Bytes) (p : HeaderPicker) (o : Option Bytes)
    → (picked_with (with_field f p) k o
        ≡ (with_field f (picked_with p k o).0, (picked_with p k o).1))
unfolding picked_with
picked_with-field f k p none = refl
picked_with-field f k p (some kv) = refl

pub pick-with_field :
    (f k : Bytes) (p : HeaderPicker)
    → equal_fold (parse_header_field f).0 k ≡ false
    → (pick (with_field f p) k ≡ (with_field f (pick p k).0, (pick p k).1))
unfolding pick
pick-with_field f k p h =
    let key = to_lower k in
    let n = count_picked key p.picked in
    ap (picked_with (with_field f p) key) (
      ap (λ l. pick_from l key n) (reverse-append (f ∷ []) p.h)
      ∙ pick_from-append f key (reverse p.h) n (equal_fold-to_lower (parse_header_field f).0 k ∙ h))
    ∙ picked_with-field f key p (pick_from (reverse p.h) key n)
