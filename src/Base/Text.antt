-- ===== src/Base/Text.antt =====
-- Go strings and byte slices as lists of bytes, with the functions of the packages `strings` and
-- `bytes` that the program calls. Letters and white space are those of ASCII.
pub mod Words
use Prim.Native.Nat.{ℕ, zero, suc, ◌+◌, ◌-◌, ◌/◌, ◌%◌, ◌<◌}
use Prim.Native.Char.{code}
use Prim.Native.String.{String}
use mathlib.Core.Path.{◌≡◌, refl, sym, ap, ap₂, ◌∙◌}
use mathlib.Core.Logic.{◌↔◌, inl, inr}
use mathlib.Core.Bool.{Bool, true, false, ◌&&◌, ◌||◌}
use mathlib.Core.List.{List, [], ◌∷◌, ◌++◌}
use mathlib.Core.Option.{Option, none, some}
use native.Mathlib.Omega.{arith}
use smtpx.Base.Tests.{Bool-cases, Option-cases, ==_iff, ltb, leb, ◌==◌, if◌then◌else◌}
use smtpx.Base.Lists.{length, drop}

abbrev pub Bytes : Type 0
Bytes = List ℕ

-- The bytes of an ASCII literal.
abbrev pub codes : String → Bytes
codes String.[] = []
codes (String.◌∷◌ c s) = code c ∷ codes s

abbrev pub crlf : Bytes
crlf = 13 ∷ 10 ∷ []

-- `==` on strings
unfoldable pub equal : Bytes → Bytes → Bool
equal [] t = length t == 0
equal (c ∷ s) [] = false
equal (c ∷ s) (d ∷ t) = c == d && equal s t

pub equal_iff : (s t : Bytes) → (equal s t ≡ true) ↔ (s ≡ t)
unfolding equal
equal_iff [] [] = ground arith
equal_iff [] (d ∷ t) = ground arith
equal_iff (c ∷ s) [] = ground arith
equal_iff (c ∷ s) (d ∷ t) = ground (arith, equal_iff s t)

pub equal_refl : (a : Bytes) → equal a a ≡ true
equal_refl a = (equal_iff a a).1 refl

abbrev pub is_space : ℕ → Bool
is_space c = c == 32 || (leb 9 c && leb c 13)

abbrev pub lower_byte : ℕ → ℕ
lower_byte c = if leb b'A' c && leb c b'Z' then c + 32 else c

abbrev pub upper_byte : ℕ → ℕ
upper_byte c = if leb b'a' c && leb c b'z' then c - 32 else c

unfoldable pub to_lower : Bytes → Bytes
to_lower [] = []
to_lower (c ∷ s) = lower_byte c ∷ to_lower s

unfoldable pub to_upper : Bytes → Bytes
to_upper [] = []
to_upper (c ∷ s) = upper_byte c ∷ to_upper s

unfoldable pub equal_fold : Bytes → Bytes → Bool
unfolding equal to_lower
equal_fold a b = equal (to_lower a) (to_lower b)

unfoldable pub has_prefix : Bytes → Bytes → Bool
has_prefix s [] = true
has_prefix [] (p ∷ ps) = false
has_prefix (c ∷ s) (p ∷ ps) = c == p && has_prefix s ps

-- `strings.HasSuffix` compares the last `len(suffix)` bytes.
unfoldable pub has_suffix : Bytes → Bytes → Bool
unfolding equal
has_suffix s t = leb (length t) (length s) && equal (drop (length s - length t) s) t

unfoldable pub trim_left : Bytes → Bytes
trim_left [] = []
trim_left (c ∷ s) = if is_space c then trim_left s else c ∷ s

unfoldable pub trim_right : Bytes → Bytes
trim_right [] = []
trim_right (c ∷ s) = elim (trim_right s) [
  | [] ↦ if is_space c then [] else c ∷ []
  | d ∷ t ↦ c ∷ d ∷ t
]

unfoldable pub trim_space : Bytes → Bytes
unfolding trim_left trim_right
trim_space s = trim_right (trim_left s)

-- `strings.Cut(s, sep)` for a separator of one byte; `none` is `found == false`.
unfoldable pub cut : Bytes → ℕ → Option (Bytes × Bytes)
cut [] sep = none
cut (c ∷ s) sep =
    if c == sep
    then some ([], s)
    else elim (cut s sep) [ none ↦ none | some (a, b) ↦ some (c ∷ a, b) ]

pub cut-append :
    (s t a b : Bytes) (sep : ℕ) → cut s sep ≡ some (a, b) → cut (s ++ t) sep ≡ some (a, b ++ t)
unfolding cut
cut-append [] t a b sep h = cc
cut-append (c ∷ s) t a b sep h = elim (Option-cases (cut s sep)) [
  | inl nowhere ↦ ground arith
  | inr ((front, rest), e) ↦ ground (arith, cut-append s t front rest sep e)
]

-- `bytes.Cut(s, sep)` for a longer separator.
unfoldable pub cut_on : Bytes → Bytes → Option (Bytes × Bytes)
unfolding has_prefix
cut_on [] sep = if has_prefix [] sep then some ([], []) else none
cut_on (c ∷ s) sep =
    if has_prefix (c ∷ s) sep
    then some ([], drop (length sep) (c ∷ s))
    else elim (cut_on s sep) [ none ↦ none | some (a, b) ↦ some (c ∷ a, b) ]

-- `strings.Split(s, sep)` for a separator of one byte: at least one part.
split_head : ℕ → List Bytes → List Bytes
split_head c [] = (c ∷ []) ∷ []
split_head c (p ∷ ps) = (c ∷ p) ∷ ps

unfoldable pub split : Bytes → ℕ → List Bytes
unfolding split_head
split [] sep = [] ∷ []
split (c ∷ s) sep = if c == sep then [] ∷ split s sep else split_head c (split s sep)

split_head-some : (c : ℕ) (parts : List Bytes) → 0 < length (split_head c parts)
unfolding split_head
split_head-some c [] = omega arith
split_head-some c (p ∷ ps) = omega arith

pub split-some : (s : Bytes) (sep : ℕ) → 0 < length (split s sep)
unfolding split
split-some [] sep = omega arith
split-some (c ∷ s) sep = ground (arith, split_head-some c (split s sep))

-- `strings.FieldsFunc`: the runs of bytes that the test does not take for separators.
fields_from : (ℕ → Bool) → Bytes → Bytes → List Bytes
fields_from is_sep [] [] = []
fields_from is_sep [] (w ∷ word) = (w ∷ word) ∷ []
fields_from is_sep (c ∷ s) [] = fields_from is_sep s (if is_sep c then [] else c ∷ [])
fields_from is_sep (c ∷ s) (w ∷ word) = elim (is_sep c) [
  | true ↦ (w ∷ word) ∷ fields_from is_sep s []
  | false ↦ fields_from is_sep s ((w ∷ word) ++ c ∷ [])
]

unfoldable pub fields_by : (ℕ → Bool) → Bytes → List Bytes
unfolding fields_from
fields_by is_sep s = fields_from is_sep s []

fields_from-end :
    (is_sep : ℕ → Bool) (s w : Bytes) (c : ℕ)
    → is_sep c ≡ true
    → fields_from is_sep (s ++ c ∷ []) w ≡ fields_from is_sep s w
unfolding fields_from
fields_from-end is_sep [] [] c h = rw (h, fields_from) refl
fields_from-end is_sep [] (d ∷ w) c h = rw (h, fields_from) refl
fields_from-end is_sep (e ∷ s) [] c h =
    fields_from-end is_sep s (if is_sep e then [] else e ∷ []) c h
fields_from-end is_sep (e ∷ s) (d ∷ w) c h = elim (Bool-cases (is_sep e)) [
  | inl g ↦ rw (g, fields_from) (ap (λ l. (d ∷ w) ∷ l) (fields_from-end is_sep s [] c h))
  | inr g ↦ rw (g, fields_from) (fields_from-end is_sep s ((d ∷ w) ++ e ∷ []) c h)
]

-- A separator at the end ends no other field.
pub fields_by-end :
    (is_sep : ℕ → Bool) (s : Bytes) (c : ℕ)
    → is_sep c ≡ true
    → fields_by is_sep (s ++ c ∷ []) ≡ fields_by is_sep s
unfolding fields_by
fields_by-end is_sep s c h = fields_from-end is_sep s [] c h

-- `strings.Fields`
unfoldable pub fields : Bytes → List Bytes
unfolding fields_by
fields = fields_by is_space

-- `strings.Join(parts, sep)`.
unfoldable pub join : List Bytes → Bytes → Bytes
join [] sep = []
join (p ∷ []) sep = p
join (p ∷ q ∷ ps) sep = p ++ (sep ++ join (q ∷ ps) sep)

-- A split begins a new part at a separator, and otherwise adds to the first part of the rest.
pub split-cases :
    (c sep : ℕ) (s p : Bytes) (ps : List Bytes)
    → split s sep ≡ p ∷ ps
    → split (c ∷ s) sep ≡ (if c == sep then [] ∷ p ∷ ps else (c ∷ p) ∷ ps)
unfolding split split_head
split-cases c sep s p ps parts = rw parts refl

join-split_head :
    (c sep : ℕ) (parts : List Bytes)
    → 0 < length parts
    → join (split_head c parts) (sep ∷ []) ≡ c ∷ join parts (sep ∷ [])
unfolding join split_head
join-split_head c sep [] some_parts = absurd (omega arith)
join-split_head c sep (p ∷ []) some_parts = refl
join-split_head c sep (p ∷ q ∷ ps) some_parts = refl

join-empty :
    (sep : ℕ) (parts : List Bytes)
    → 0 < length parts
    → join ([] ∷ parts) (sep ∷ []) ≡ sep ∷ join parts (sep ∷ [])
unfolding join
join-empty sep [] some_parts = absurd (omega arith)
join-empty sep (p ∷ ps) some_parts = refl

pub join-split : (s : Bytes) (sep : ℕ) → join (split s sep) (sep ∷ []) ≡ s
unfolding split join
join-split [] sep = refl
join-split (c ∷ s) sep = elim (Bool-cases (c == sep)) [
  | inl same ↦
      let c_is_sep : sep ≡ c = sym ((==_iff c sep).0 same) in
      rw same
        (join-empty sep (split s sep) (split-some s sep) ∙ ap₂ ◌∷◌ c_is_sep (join-split s sep))
  | inr other ↦
      rw other (
        join-split_head c sep (split s sep) (split-some s sep) ∙ ap (λ t. c ∷ t) (join-split s sep))
]

abbrev pub digit : ℕ → ℕ
digit n = b'0' + n % 10

-- `%d` of a number, with fuel for its digits.
decimal_fuel : ℕ → ℕ → Bytes
decimal_fuel zero n = digit n ∷ []
decimal_fuel (suc f) n =
    let front = decimal_fuel f (n / 10) in if ltb n 10 then digit n ∷ [] else front ++ digit n ∷ []

unfoldable pub decimal : ℕ → Bytes
unfolding decimal_fuel
decimal n = decimal_fuel n n
