-- ===== src/Envelope/Content/Walk.antt =====
-- The order in which `Walk` (envelope/mail.go) visits the parts of a mail, and `Flatten`.
use smtpx.Base.{
  ℕ, ◌+◌, Bool, true, false, List, [], ◌∷◌, ◌++◌, append_assoc, append-nil, Option, none, some, ◌≡◌,
  refl, ap, sym, ◌∙◌, if◌then◌else◌,
}
use smtpx.Envelope.Content.{
  Content, content, Children, end, child, leaf, flatten, flatten_all, MailError, unless_error, walk,
  walk_from, walk_children,
}

-- The parts in the order in which the mail has them, each before the parts it holds, with their levels.
unfoldable mutual
  pub listed : Content → ℕ → List (Content × ℕ)
  listed (content h b cs) level = (content h b cs, level) ∷ listed_all cs level

  pub listed_all : Children → ℕ → List (Content × ℕ)
  listed_all end level = []
  listed_all (child c cs) level = listed c (level + 1) ++ listed_all cs level

-- A loop over a list that stops at the first error.
unfoldable pub visit :
    {S E : Type 0} → (Content → ℕ → S → S × Option E) → List (Content × ℕ) → S → S × Option E
visit fn [] s = (s, none)
visit fn ((c, level) ∷ rest) s = unless_error (fn c level s) (λ s1. visit fn rest s1)

unless_error_assoc :
    {S E : Type 0} (r : S × Option E) (f g : S → S × Option E)
    → unless_error (unless_error r f) g ≡ unless_error r (λ s. unless_error (f s) g)
unless_error_assoc (s, some e) f g = refl
unless_error_assoc (s, none) f g = refl

unless_error_cong :
    {S E : Type 0} (r : S × Option E) (f g : S → S × Option E)
    → ((s : S) → f s ≡ g s)
    → unless_error r f ≡ unless_error r g
unless_error_cong (s, some e) f g same = refl
unless_error_cong (s, none) f g same = same s

module _ {S E : Type 0} (fn : Content → ℕ → S → S × Option E) where
  visit-append :
      (xs ys : List (Content × ℕ)) (s : S)
      → visit fn (xs ++ ys) s ≡ unless_error (visit fn xs s) (λ s1. visit fn ys s1)
  unfolding visit
  visit-append [] ys s = refl
  visit-append ((c, level) ∷ xs) ys s =
      unless_error_cong (fn c level s) _ _ (visit-append xs ys)
      ∙ sym (unless_error_assoc (fn c level s) (λ t. visit fn xs t) (λ t. visit fn ys t))

  mutual
    unfolding walk_from listed visit

    walk_from-visit :
        (c : Content) (level : ℕ) (s : S) → walk_from fn c level s ≡ visit fn (listed c level) s
    walk_from-visit (content h b cs) level s =
        unless_error_cong (fn (content h b cs) level s) _ _ (walk_children-visit cs level)

    walk_children-visit :
        (cs : Children) (level : ℕ) (s : S)
        → walk_children fn cs level s ≡ visit fn (listed_all cs level) s
    walk_children-visit end level s = refl
    walk_children-visit (child c cs) level s =
        ap (λ r. unless_error r (λ t. walk_children fn cs level t))
          (walk_from-visit c (level + 1) s)
        ∙ unless_error_cong (visit fn (listed c (level + 1)) s) _ _ (walk_children-visit cs level)
        ∙ sym (visit-append (listed c (level + 1)) (listed_all cs level) s)

-- A function for `Walk` that gathers the parts for which `Leaf` holds, and returns no error.
abbrev pub gather : Content → ℕ → List Content → List Content × Option MailError
gather c level found = (if leaf c then found ++ (c ∷ []) else found, none)

gather_if :
    (b : Bool) (xs ys : List Content) → (if b then xs ++ ys else xs) ≡ xs ++ (if b then ys else [])
gather_if true xs ys = refl
gather_if false xs ys = sym (append-nil xs)

mutual
  unfolding flatten leaf walk_from

  gather-flatten :
      (c : Content) (level : ℕ) (found : List Content)
      → walk_from gather c level found ≡ (found ++ flatten c, none)
  gather-flatten (content h b end) level found =
      ap (λ l. (l, none)) (gather_if (leaf (content h b end)) found (content h b end ∷ []))
  gather-flatten (content h b (child c cs)) level found =
      gather_all-flatten (child c cs) level found

  gather_all-flatten :
      (cs : Children) (level : ℕ) (found : List Content)
      → walk_children gather cs level found ≡ (found ++ flatten_all cs, none)
  gather_all-flatten end level found = ap (λ l. (l, none)) (sym (append-nil found))
  gather_all-flatten (child c cs) level found =
      ap (λ r. unless_error r (λ t. walk_children gather cs level t))
        (gather-flatten c (level + 1) found)
      ∙ gather_all-flatten cs level (found ++ flatten c)
      ∙ ap (λ l. (l, none)) (append_assoc found (flatten c) (flatten_all cs))

-- `Walk` calls its function on the parts of the mail in the order in which the mail has them, each
-- before the parts it holds and with the number of parts that hold it, and stops at the first error.
-- `Flatten` returns the parts for which `Leaf` holds, in the order in which `Walk` meets them.
pub walk-listed :
    {S E : Type 0} (c : Content) (fn : Content → ℕ → S → S × Option E) (s : S)
    → (walk c fn s ≡ visit fn (listed c 0) s) × (walk c gather [] ≡ (flatten c, none))
walk-listed c fn s = (walk_from-visit fn c 0 s, gather-flatten c 0 [])
