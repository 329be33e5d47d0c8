-- ===== src/Utils/Xid/Distinct.antt =====
-- Identifiers that a process makes one after the other (utils/id.go).
use Prim.Native.Nat.{◌^◌}
use smtpx.Base.{ℕ, suc, ◌+◌, ◌/◌, ◌%◌, ◌<◌, List, [], ◌∷◌, length, ◌≡◌, ◌≢◌, ap, arith}
use smtpx.Utils.Xid.{Process, new_id, count, xid}
use smtpx.Utils.Xid.Digits.{number, values, id_bytes, AreBytes, encode-number}

-- The variables hold bytes of the host's name, and the counter a `uint32`.
abbrev pub IsProcess : Process → Type 0
IsProcess p =
    (p.machine0 < 256) × ((p.machine1 < 256) × ((p.machine2 < 256) × (p.counter < 2 ^ 32)))

-- The process after calls of `XID` at these times.
unfoldable pub after : List ℕ → Process → Process
unfolding xid
after [] p = p
after (now ∷ times) p = after times (xid p now).0

new_id-AreBytes : (p : Process) (now : ℕ) → IsProcess p → AreBytes (id_bytes (new_id p now))
unfolding new_id
new_id-AreBytes p now h = ground arith

-- The last three bytes are the counter's.
new_id-number :
    (p : Process) (now : ℕ)
    → IsProcess p
    → number 256 (id_bytes (new_id p now)) 0 % 2 ^ 24 ≡ p.counter % 2 ^ 24
unfolding new_id
new_id-number p now (h0, (h1, (h2, h3))) = omega arith

after-IsProcess : (times : List ℕ) (p : Process) → IsProcess p → IsProcess (after times p)
unfolding after xid count
after-IsProcess [] p h = h
after-IsProcess (now ∷ times) p h =
    after-IsProcess times (count p) (h.0, (h.1.0, (h.1.1.0, omega arith)))

after-counter :
    (times : List ℕ) (p : Process)
    → IsProcess p
    → (after times p).counter ≡ (p.counter + length times) % 2 ^ 32
unfolding after xid count
after-counter [] p (h0, (h1, (h2, h3))) = omega arith
after-counter (now ∷ times) p h =
    let rest = after-counter times (count p) (h.0, (h.1.0, (h.1.1.0, omega arith))) in
    omega (arith, rest)

-- The number of the text that a call returns ends in the three low bytes of its counter.
xid-number :
    (p : Process) (now : ℕ)
    → IsProcess p
    → number 32 (values (xid p now).1) 0 / 16 % 2 ^ 24 ≡ (p.counter + 1) % 2 ^ 24
unfolding xid count
xid-number p now h =
    let counted : IsProcess (count p) = (h.0, (h.1.0, (h.1.1.0, omega arith))) in
    let text = (encode-number (new_id (count p) now) (new_id-AreBytes (count p) now counted)).0 in
    let low = new_id-number (count p) now counted in omega (arith, text, low)

-- Two identifiers of a process differ, whatever the clock says, if fewer than 2 ^ 24 calls of `XID`
-- come after the first up to the second.
pub xid_distinct :
    (p : Process) (now later : ℕ) (times : List ℕ)
    → IsProcess p
    → suc (length times) < 2 ^ 24
    → (xid p now).1 ≢ (xid (after (now ∷ times) p) later).1
xid_distinct p now later times h few same =
    let first = xid-number p now h in
    let second = xid-number (after (now ∷ times) p) later (after-IsProcess (now ∷ times) p h) in
    let counter = after-counter (now ∷ times) p h in
    let texts = ap (λ s. number 32 (values s) 0 / 16 % 2 ^ 24) same in
    omega (arith, first, second, counter, texts)
