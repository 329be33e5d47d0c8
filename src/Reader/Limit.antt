-- ===== src/Reader/Limit.antt =====
-- The promise of `limitedReader` (reader.go): never more bytes than the limit.
use smtpx.Base.{ℕ, ◌+◌, ◌≤◌, List, [], ◌∷◌, All, ◌≡◌, arith, length}
use smtpx.Reader.{LimitedReader, RawRead, limit, read}

-- What `io.Reader` documents: at most as many bytes as were asked for.
abbrev pub IsReader : (ℕ → RawRead) → Type 0
IsReader raw = (k : ℕ) → length (raw k).given ≤ k

-- Reads one behind the other, each with the room of its buffer and what the reader below does then,
-- and the number of bytes that they gave.
abbrev pub read_many : LimitedReader → List (ℕ × (ℕ → RawRead)) → LimitedReader × ℕ
read_many l [] = (l, 0)
read_many l ((room, raw) ∷ reads) =
    let (l', got) = read l room raw in
    let (l'', total) = read_many l' reads in (l'', length got.given + total)

read_step :
    (l : LimitedReader) (room : ℕ) (raw : ℕ → RawRead)
    → IsReader raw
    → length (read l room raw).1.given + (read l room raw).0.remaining ≡ l.remaining
unfolding read
read_step l room raw h = ground (arith, h l.remaining, h room)

-- However the reads are cut, and whatever the reader below gives to each of them, if it is never more
-- than was asked for, the bytes that they give and the bytes that remain make up the limit.
pub read_many-remaining :
    (l : LimitedReader) (reads : List (ℕ × (ℕ → RawRead)))
    → All (λ r. IsReader r.1) reads
    → (read_many l reads).1 + (read_many l reads).0.remaining ≡ l.remaining
read_many-remaining l [] h = omega arith
read_many-remaining l ((room, raw) ∷ reads) (h, hs) =
    omega (arith, read_step l room raw h, read_many-remaining (read l room raw).0 reads hs)

-- Once nothing remains, every read is refused with the error of the limit and gives no byte.
pub read_spent :
    (l : LimitedReader) (room : ℕ) (raw : ℕ → RawRead)
    → l.remaining ≡ 0
    → read l room raw ≡ (l, record { given = []; error = limit })
unfolding read
read_spent l room raw h = ground arith
