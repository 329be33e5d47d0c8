-- ===== src/Reader.antt =====
-- reader.go: the reader that stops after a number of bytes. The numbers are `int64` in the source;
-- the model takes the limit of a server, which is not negative.
pub mod Limit
use smtpx.Base.{
  ℕ, ◌-◌, [], ◌∷◌, ◌++◌, Bool, true, false, Bytes, leb, if◌then◌else◌, length, take, min,
}

-- How a read of the underlying connection ends. `limit` stands for `errors.Join(io.EOF, LimitError)`.
pub data ReadError : Type 0 where
  no_error eof limit failed : ReadError

pub record LimitedReader : Type 0 where
  pub remaining : ℕ

pub record SmtpReader : Type 0 where
  pub n : ℕ
  pub limited : LimitedReader

-- What `l.R.Read(p)` does: it fills a part of `p`, and may fail.
pub record RawRead : Type 0 where
  pub given : Bytes
  pub error : ReadError

-- `limitedReader.Read` of a buffer with room for `room` bytes. `raw` is the underlying reader: it is
-- asked for at most the length of the buffer that it is handed.
unfoldable pub read : LimitedReader → ℕ → (ℕ → RawRead) → LimitedReader × RawRead
read l room raw =
    let asked = if leb l.remaining room then l.remaining else room in
    let got = raw asked in
    if leb l.remaining 0
    then (l, record { given = []; error = limit })
    else (record { remaining = l.remaining - length got.given }, got)

-- `NewSMTPReader`
unfoldable pub new_reader : ℕ → SmtpReader
new_reader n = record { n = n; limited = record { remaining = n } }

-- `Limit`
unfoldable pub reader_limit : SmtpReader → ℕ
reader_limit r = r.n

-- `ResetLimit`
unfoldable pub reset_limit : SmtpReader → SmtpReader
reset_limit r = record r { limited = record { remaining = r.n } }
