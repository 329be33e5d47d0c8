-- ===== src/Envelope/Data.antt =====
-- envelope/data.go: the buffers of a message. A `*bytes.Buffer` is the list of its unread bytes; the
-- program writes to the first and the last buffer only, and reads none of them destructively.
pub mod Contents
use smtpx.Base.{ℕ, zero, suc, ◌+◌, List, [], ◌∷◌, ◌++◌, Bytes, length}

pub record Data : Type 0 where
  pub bufs : List Bytes

abbrev pub no_data : Data
no_data = record { bufs = [] }

-- `head` puts a new buffer in front.
unfoldable pub head : Data → Data
head d = record { bufs = [] ∷ d.bufs }

-- A write to the buffer that `head` returns, which is `d.bufs[0]`.
write_first : List Bytes → Bytes → List Bytes
write_first [] p = []
write_first (b ∷ bs) p = (b ++ p) ∷ bs

tail_bufs : List Bytes → List Bytes
tail_bufs [] = [] ∷ []
tail_bufs (b ∷ bs) = b ∷ bs

-- `tail` makes a buffer if there is none.
unfoldable pub tail : Data → Data
unfolding tail_bufs
tail d = record { bufs = tail_bufs d.bufs }

-- A write to the buffer that `tail` returns, which is the last one.
write_last : List Bytes → Bytes → List Bytes
write_last [] p = []
write_last (b ∷ []) p = (b ++ p) ∷ []
write_last (b ∷ c ∷ bs) p = b ∷ write_last (c ∷ bs) p

len_of : List Bytes → ℕ → ℕ
len_of [] total = total
len_of (b ∷ bs) total = len_of bs (total + length b)

unfoldable pub len : Data → ℕ
unfolding len_of
len d = len_of d.bufs 0

zeros : ℕ → Bytes
zeros zero = []
zeros (suc n) = 0 ∷ zeros n

overwrite : Bytes → Bytes → Bytes
overwrite [] s = []
overwrite (x ∷ r) [] = x ∷ r
overwrite (x ∷ r) (c ∷ s) = c ∷ overwrite r s

-- `copy(result[off:], s)`
copy_at : ℕ → Bytes → Bytes → Bytes
unfolding overwrite
copy_at zero r s = overwrite r s
copy_at (suc off) [] s = []
copy_at (suc off) (x ∷ r) s = x ∷ copy_at off r s

copy_all : List Bytes → ℕ → Bytes → Bytes
unfolding copy_at
copy_all [] off result = result
copy_all (b ∷ bs) off result = copy_all bs (off + length b) (copy_at off result b)

-- `Bytes` allocates `Len()` bytes and copies the buffers in, one behind the other.
unfoldable pub bytes : Data → Bytes
unfolding copy_all zeros len
bytes d = copy_all d.bufs 0 (zeros (len d))

-- `Write` and `WriteString`
unfoldable pub write : Data → Bytes → Data
unfolding write_last tail
write d p = record { bufs = write_last (tail d).bufs p }

-- `Prepend` and `PrependString`
unfoldable pub prepend : Data → Bytes → Data
unfolding write_first head
prepend d p = record { bufs = write_first (head d).bufs p }

-- `ReadFrom` appends what the reader gave, also if it then failed.
unfoldable pub read_from : Data → Bytes → Data
unfolding write_last tail
read_from d p = record { bufs = write_last (tail d).bufs p }

-- `Reader`: what the readers of the buffers give, in order.
unfoldable pub read_all : List Bytes → Bytes
read_all [] = []
read_all (b ∷ bs) = b ++ read_all bs
