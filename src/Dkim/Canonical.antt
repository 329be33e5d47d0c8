-- ===== src/Dkim/Canonical.antt =====
-- middleware/authres/dkim/canonical.go. A writer is its state with the bytes that it has handed on;
-- the writer below it, a hash, does not fail.
pub mod Simple
pub mod Relaxed
use smtpx.Base.{
  ℕ, ◌+◌, ◌-◌, Bool, true, false, not, ◌&&◌, ◌||◌, List, [], ◌∷◌, ◌++◌, Option, none, some, Bytes,
  codes, crlf, cut, to_lower, trim_space, fields_by, join, length, take, ltb, leb, ◌==◌,
  if◌then◌else◌,
}
use mathlib.Core.List.{reverse}

-- `crlfFixer.Fix`: the bytes, and the field `cr` that it leaves.
unfoldable pub fix : Bool → Bytes → Bytes × Bool
fix cr [] = ([], cr)
fix cr (c ∷ b) =
    let (res, cr') = fix (c == 13) b in (if c == 10 && not cr then 13 ∷ 10 ∷ res else c ∷ res, cr')

pub record SimpleBody : Type 0 where
  pub crlf_buf : Bytes
  pub cr : Bool
  pub out : Bytes

abbrev pub new_simple : SimpleBody
new_simple = record { crlf_buf = []; cr = false; out = [] }

-- The loop `for end >= 2`, on the bytes before `end` in reverse: those before the CRLF pairs, and
-- the bytes of the pairs and of `held`.
drop_pairs : Bytes → Bytes → Bytes × Bytes
drop_pairs (cur ∷ prev ∷ b) held =
    let rest = drop_pairs b (prev ∷ cur ∷ held) in
    if prev == 13 && cur == 10 then rest else (cur ∷ prev ∷ b, held)
drop_pairs b held = (b, held)

-- Where `end` starts: before a last CR.
hold_cr : Bytes → Bytes × Bytes
hold_cr [] = ([], [])
hold_cr (c ∷ b) = if c == 13 then (b, c ∷ []) else (c ∷ b, [])

-- `b[:end]` and `b[end:]`
unfoldable pub split_end : Bytes → Bytes × Bytes
unfolding drop_pairs hold_cr
split_end b =
    let (before, held) = hold_cr (reverse b) in
    let (kept, buf) = drop_pairs before held in (reverse kept, buf)

-- `simpleBodyCanonicalizer.Write`
unfoldable pub simple_write : SimpleBody → Bytes → SimpleBody
unfolding fix split_end
simple_write c b =
    let (fixed, cr') = fix c.cr (c.crlf_buf ++ b) in
    let (front, buf) = split_end fixed in record { crlf_buf = buf; cr = cr'; out = c.out ++ front }

ends_in_cr : Bytes → Bool
ends_in_cr [] = false
ends_in_cr (c ∷ []) = c == 13
ends_in_cr (c ∷ d ∷ b) = ends_in_cr (d ∷ b)

-- `simpleBodyCanonicalizer.Close`
unfoldable pub simple_close : SimpleBody → SimpleBody
unfolding ends_in_cr
simple_close c =
    let flushed = if ends_in_cr c.crlf_buf then c.out ++ c.crlf_buf else c.out in
    record c { crlf_buf = []; out = flushed ++ crlf }

abbrev pub is_fold_space : ℕ → Bool
is_fold_space c = c == 32 || c == 9 || c == 10 || c == 13

relaxed_field : Bytes → Option (Bytes × Bytes) → Bytes
relaxed_field s none = trim_space (to_lower s) ++ (b':' ∷ crlf)
relaxed_field s (some (k, v)) =
    trim_space (to_lower k) ++ (b':' ∷ (join (fields_by is_fold_space v) (codes " ") ++ crlf))

-- `relaxedCanonicalizer.CanonicalizeHeader`; the simple one returns its argument.
unfoldable pub relaxed_header : Bytes → Bytes
unfolding relaxed_field cut trim_space to_lower fields_by join
relaxed_header s = relaxed_field s (cut s b':')

pub record RelaxedBody : Type 0 where
  pub crlf_buf : Bytes
  pub wsp : Bool
  pub written : Bool
  pub cr : Bool
  pub out : Bytes

abbrev pub new_relaxed : RelaxedBody
new_relaxed = record { crlf_buf = []; wsp = false; written = false; cr = false; out = [] }

-- One round of the loop of `Write`; `out` is extended by what is appended to `canonical`.
unfoldable pub relaxed_byte : RelaxedBody → ℕ → RelaxedBody
relaxed_byte c ch =
    if ch == 32 || ch == 9
    then record c { wsp = true }
    else if ch == 13 || ch == 10
    then record c { wsp = false; crlf_buf = c.crlf_buf ++ (ch ∷ []) }
    else record c {
      crlf_buf = [];
      wsp = false;
      out = (c.out ++ c.crlf_buf) ++ (if c.wsp then 32 ∷ ch ∷ [] else ch ∷ []);
    }

unfoldable pub relaxed_bytes : RelaxedBody → Bytes → RelaxedBody
unfolding relaxed_byte
relaxed_bytes c [] = c
relaxed_bytes c (ch ∷ b) = relaxed_bytes (relaxed_byte c ch) b

-- `relaxedBodyCanonicalizer.Write`; `canonical` is empty when no byte was handed on.
unfoldable pub relaxed_write : RelaxedBody → Bytes → RelaxedBody
unfolding fix relaxed_bytes
relaxed_write c b =
    let (fixed, cr') = fix c.cr b in
    let d = relaxed_bytes c fixed in
    record d { cr = cr'; written = c.written || ltb (length c.out) (length d.out) }

-- `relaxedBodyCanonicalizer.Close`
unfoldable pub relaxed_close : RelaxedBody → RelaxedBody
relaxed_close c = if c.written then record c { out = c.out ++ crlf } else c

-- `limitedWriter.Write`: the limit that remains, the bytes handed on, and the number returned, where
-- `skipped` is computed from the length of the shortened slice.
unfoldable pub limited_write : ℕ → Bytes → ℕ × Bytes × ℕ
limited_write n b =
    let b' = if ltb n (length b) then take n b else b in
    let skipped = if ltb n (length b) then length b' - n else 0 in
    if leb n 0 then (n, [], length b) else (n - length b', b', length b' + skipped)
