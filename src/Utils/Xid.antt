-- ===== src/Utils/Xid.antt =====
-- utils/id.go: the identifiers of envelopes. The clock, the hash of the host's name, the process id and
-- the random start of the counter are values that the model is given.
pub mod Digits
pub mod Distinct
use Prim.Native.Nat.{bit_and, bit_or, ◌^◌}
use smtpx.Base.{ℕ, ◌+◌, ◌*◌, ◌/◌, ◌%◌, List, [], ◌∷◌, Bytes, codes, get_elem?, Option, none, some}

-- The twelve bytes of an identifier.
pub record Identifier : Type 0 where
  pub id0 : ℕ
  pub id1 : ℕ
  pub id2 : ℕ
  pub id3 : ℕ
  pub id4 : ℕ
  pub id5 : ℕ
  pub id6 : ℕ
  pub id7 : ℕ
  pub id8 : ℕ
  pub id9 : ℕ
  pub id10 : ℕ
  pub id11 : ℕ

-- `b << n` for a byte, and `x & 0x1F`
abbrev pub shl : ℕ → ℕ → ℕ
shl b n = (b * 2 ^ n) % 256

abbrev pub shr : ℕ → ℕ → ℕ
shr b n = b / 2 ^ n

abbrev pub five : ℕ → ℕ
five x = bit_and x 0x1f

or_zero : Option ℕ → ℕ
or_zero none = 0
or_zero (some c) = c

-- `encoding[i]`, for an index below 32.
unfoldable pub letter : ℕ → ℕ
unfolding or_zero
letter i = or_zero (get_elem? (codes "0123456789abcdefghijklmnopqrstuv") i)

-- The indices of the letters that `encode` writes.
unfoldable pub indices : Identifier → List ℕ
indices r =
    shr r.id0 3
    ∷ bit_or (shr r.id1 6) (five (shl r.id0 2))
    ∷ five (shr r.id1 1)
    ∷ bit_or (shr r.id2 4) (five (shl r.id1 4))
    ∷ bit_or (shr r.id3 7) (five (shl r.id2 1))
    ∷ five (shr r.id3 2)
    ∷ bit_or (shr r.id4 5) (five (shl r.id3 3))
    ∷ five r.id4
    ∷ shr r.id5 3
    ∷ bit_or (shr r.id6 6) (five (shl r.id5 2))
    ∷ five (shr r.id6 1)
    ∷ bit_or (shr r.id7 4) (five (shl r.id6 4))
    ∷ bit_or (shr r.id8 7) (five (shl r.id7 1))
    ∷ five (shr r.id8 2)
    ∷ bit_or (shr r.id9 5) (five (shl r.id8 3))
    ∷ five r.id9
    ∷ shr r.id10 3
    ∷ bit_or (shr r.id11 6) (five (shl r.id10 2))
    ∷ five (shr r.id11 1)
    ∷ five (shl r.id11 4)
    ∷ []

unfoldable pub letters : List ℕ → Bytes
unfolding letter
letters [] = []
letters (i ∷ is) = letter i ∷ letters is

-- `encode`
unfoldable pub encode : Identifier → Bytes
unfolding letters indices
encode r = letters (indices r)

-- The package's variables: the first three bytes of the hash of the host's name, the process id and
-- the counter, a `uint32`.
pub record Process : Type 0 where
  pub machine0 : ℕ
  pub machine1 : ℕ
  pub machine2 : ℕ
  pub pid : ℕ
  pub counter : ℕ

-- The bytes that `XID` fills in, with the counter that `atomic.AddUint32` returned.
unfoldable pub new_id : Process → ℕ → Identifier
new_id p now = record {
  id0 = (now % 2 ^ 32) / 2 ^ 24;
  id1 = ((now % 2 ^ 32) / 2 ^ 16) % 256;
  id2 = ((now % 2 ^ 32) / 2 ^ 8) % 256;
  id3 = (now % 2 ^ 32) % 256;
  id4 = p.machine0;
  id5 = p.machine1;
  id6 = p.machine2;
  id7 = (p.pid / 2 ^ 8) % 256;
  id8 = p.pid % 256;
  id9 = (p.counter / 2 ^ 16) % 256;
  id10 = (p.counter / 2 ^ 8) % 256;
  id11 = p.counter % 256;
}

-- `atomic.AddUint32(&counter, 1)`
unfoldable pub count : Process → Process
count p = record p { counter = (p.counter + 1) % 2 ^ 32 }

-- `XID`, at this Unix time
unfoldable pub xid : Process → ℕ → Process × Bytes
unfolding count encode new_id
xid p now = (count p, encode (new_id (count p) now))
