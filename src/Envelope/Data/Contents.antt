-- ===== src/Envelope/Data/Contents.antt =====
-- The buffers of `Data` (envelope/data.go) stand for one string of bytes.
use smtpx.Base.{
  ℕ, suc, ◌+◌, List, [], ◌∷◌, ◌++◌, append_assoc, append-nil, ◌≡◌, refl, sym, ap, ◌∙◌, arith, Bytes,
  length, length-append,
}
use smtpx.Envelope.Data.{
  Data, tail_bufs, write_last, len_of, len, zeros, overwrite, copy_at, copy_all, bytes, write,
  prepend, read_from, read_all,
}

read_all-write_last :
    (b : Bytes) (bs : List Bytes) (p : Bytes)
    → read_all (write_last (b ∷ bs) p) ≡ read_all (b ∷ bs) ++ p
unfolding read_all write_last
read_all-write_last b [] p = simp append-nil
read_all-write_last b (c ∷ bs) p =
    ap (λ r. b ++ r) (read_all-write_last c bs p) ∙ sym (append_assoc b (c ++ read_all bs) p)

read_all-tail :
    (bs : List Bytes) (p : Bytes) → read_all (write_last (tail_bufs bs) p) ≡ read_all bs ++ p
unfolding tail_bufs
read_all-tail [] p = unfold read_all write_last in append-nil p
read_all-tail (b ∷ bs) p = read_all-write_last b bs p

len_of-read_all : (bs : List Bytes) (n : ℕ) → len_of bs n ≡ n + length (read_all bs)
unfolding len_of read_all
len_of-read_all [] n = omega arith
len_of-read_all (b ∷ bs) n =
    omega (arith, len_of-read_all bs (n + length b), length-append b (read_all bs))

-- The result so far, then zeros for what is still to come.
overwrite-zeros : (s : Bytes) (n : ℕ) → overwrite (zeros (length s + n)) s ≡ s ++ zeros n
unfolding overwrite zeros
overwrite-zeros [] n = rw (zero-plus n) (overwrite-nil (zeros n))
  where
    zero-plus : (k : ℕ) → 0 + k ≡ k
    zero-plus k = omega arith

    overwrite-nil : (r : Bytes) → overwrite r [] ≡ r
    overwrite-nil [] = refl
    overwrite-nil (x ∷ r) = refl
overwrite-zeros (c ∷ s) n = rw (suc-plus (length s) n) (ap (◌∷◌ c) (overwrite-zeros s n))
  where
    suc-plus : (k m : ℕ) → suc k + m ≡ suc (k + m)
    suc-plus k m = omega arith

copy_at-append :
    (front r s : Bytes) → copy_at (length front) (front ++ r) s ≡ front ++ overwrite r s
unfolding copy_at
copy_at-append [] r s = refl
copy_at-append (x ∷ front) r s = ap (◌∷◌ x) (copy_at-append front r s)

copy_all-read_all :
    (bs : List Bytes) (front : Bytes)
    → copy_all bs (length front) (front ++ zeros (length (read_all bs))) ≡ front ++ read_all bs
unfolding copy_all read_all
copy_all-read_all [] front = unfold zeros in refl
copy_all-read_all (b ∷ bs) front =
    rw
      (
        length-append b (read_all bs),
        copy_at-append,
        overwrite-zeros b,
        ← append_assoc,
        ← length-append front b,
      )
      (copy_all-read_all bs (front ++ b) ∙ append_assoc front b (read_all bs))

bytes-read_all : (d : Data) → bytes d ≡ read_all d.bufs
unfolding bytes len
bytes-read_all d =
    rw (len_of-read_all d.bufs 0, zero-plus (length (read_all d.bufs)))
      (copy_all-read_all d.bufs [])
  where
    zero-plus : (k : ℕ) → 0 + k ≡ k
    zero-plus k = omega arith

len-bytes : (d : Data) → len d ≡ length (bytes d)
unfolding len
len-bytes d = rw bytes-read_all (omega (arith, len_of-read_all d.bufs 0))

pub bytes-write : (d : Data) (p : Bytes) → bytes (write d p) ≡ bytes d ++ p
unfolding write
bytes-write d p = rw (bytes-read_all, bytes-read_all) (read_all-tail d.bufs p)

pub bytes-read_from : (d : Data) (p : Bytes) → bytes (read_from d p) ≡ bytes d ++ p
unfolding read_from
bytes-read_from d p = rw (bytes-read_all, bytes-read_all) (read_all-tail d.bufs p)

pub bytes-prepend : (d : Data) (p : Bytes) → bytes (prepend d p) ≡ p ++ bytes d
unfolding prepend
bytes-prepend d p = rw (bytes-read_all, bytes-read_all) (unfold read_all in refl)

-- The buffers behave as one string of bytes: `Bytes` returns what a reader of them gives, `Len` is
-- its length, `Write` and `ReadFrom` append to it, and `Prepend` puts its bytes in front.
pub bytes_contents :
    (d : Data) (p : Bytes)
    → (bytes d ≡ read_all d.bufs)
      × (len d ≡ length (bytes d))
      × (bytes (write d p) ≡ bytes d ++ p)
      × (bytes (read_from d p) ≡ bytes d ++ p)
      × (bytes (prepend d p) ≡ p ++ bytes d)
bytes_contents d p =
    (bytes-read_all d, len-bytes d, bytes-write d p, bytes-read_from d p, bytes-prepend d p)
