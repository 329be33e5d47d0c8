-- ===== src/Dmarc.antt =====
-- middleware/authres/dmarc: the DMARC record of a domain.
pub mod Bounds
use Prim.Native.Nat.{bit_or, ◌^◌}
use smtpx.Base.{
  ℕ, ◌+◌, ◌*◌, ◌%◌, true, false, List, [], ◌∷◌, ◌++◌, Option, none, some, Bytes, codes, equal, cut,
  split, trim_space, length, ltb, ◌==◌, if◌then◌else◌,
}
use smtpx.Base.Int.{ℤ, pos, negsuc}
use smtpx.Dkim.Params.{Params, find, get}

pub data AlignmentMode : Type 0 where
  strict relaxed : AlignmentMode

pub data Policy : Type 0 where
  no_policy quarantine reject : Policy

-- `Record`. The only report format is "afrf", so `report_format` counts how often it is given; the
-- interval is the 64-bit pattern of a `time.Duration` in nanoseconds.
pub record Record : Type 0 where
  pub dkim_alignment : AlignmentMode
  pub spf_alignment : AlignmentMode
  pub failure_options : ℕ
  pub policy : Policy
  pub percent : Option ℕ
  pub report_format : ℕ
  pub report_interval : ℕ
  pub report_uri_aggregate : List Bytes
  pub report_uri_failure : List Bytes
  pub subdomain_policy : Option Policy

-- The errors of `Parse`, by the parameter that is wrong.
pub data DmarcError : Type 0 where
  malformed version missing_policy bad_policy bad_alignment bad_option bad_percent : DmarcError
  bad_format bad_interval no_record unavailable failed : DmarcError

pub data Parsed {ℓ} (A : Type ℓ) : Type ℓ where
  ok : A → Parsed A
  err : DmarcError → Parsed A

infixl 5 ◌>>=◌
abbrev pub ◌>>=◌ {ℓ κ} : {A : Type ℓ} {B : Type κ} → Parsed A → (A → Parsed B) → Parsed B
ok a >>= f = f a
err e >>= f = err e

add_param : Bytes → Option (Bytes × Bytes) → Params → Parsed Params
unfolding trim_space
add_param s none m = if length (trim_space s) == 0 then ok m else err malformed
add_param s (some (key, value)) m = ok ((trim_space key, trim_space value) ∷ m)

add_params : List Bytes → Params → Parsed Params
unfolding add_param cut
add_params [] m = ok m
add_params (s ∷ pairs) m = do m' ← add_param s (cut s b'=') m; add_params pairs m'

-- `parseParams`
unfoldable pub parse_params : Bytes → Parsed Params
unfolding add_params split
parse_params s = add_params (split s b';') []

-- `parsePolicy`
unfoldable pub parse_policy : Bytes → Parsed Policy
unfolding equal
parse_policy s =
    if equal s (codes "none")
    then ok no_policy
    else if equal s (codes "quarantine")
    then ok quarantine
    else if equal s (codes "reject")
    then ok reject
    else err bad_policy

-- `parseAlignmentMode`
unfoldable pub parse_alignment_mode : Bytes → Parsed AlignmentMode
unfolding equal
parse_alignment_mode s =
    if equal s (codes "r")
    then ok relaxed
    else if equal s (codes "s")
    then ok strict
    else err bad_alignment

failure_option : Bytes → Parsed ℕ
unfolding equal
failure_option o =
    if equal o (codes "0")
    then ok 1
    else if equal o (codes "1")
    then ok 2
    else if equal o (codes "d")
    then ok 4
    else if equal o (codes "s")
    then ok 8
    else err bad_option

unfoldable pub failure_options_of : List Bytes → ℕ → Parsed ℕ
unfolding failure_option trim_space
failure_options_of [] opts = ok opts
failure_options_of (o ∷ l) opts = do
  bit ← failure_option (trim_space o)
  failure_options_of l (bit_or opts bit)

-- `parseFailureOptions`
unfoldable pub parse_failure_options : Bytes → Parsed ℕ
unfolding failure_options_of split
parse_failure_options s = failure_options_of (split s b':') 0

trim_all : List Bytes → List Bytes
unfolding trim_space
trim_all [] = []
trim_all (u ∷ l) = trim_space u ∷ trim_all l

-- `parseURIList`
unfoldable pub parse_uri_list : Bytes → List Bytes
unfolding trim_all split
parse_uri_list s = trim_all (split s b',')

-- An optional parameter: its value if it is given, and `default` if it is not.
unfoldable pub optional {ℓ} : {A : Type ℓ} → Option Bytes → A → (Bytes → Parsed A) → Parsed A
optional none default parse = ok default
optional (some s) default parse = parse s

unfoldable pub percent_of : Option ℤ → Parsed (Option ℕ)
percent_of none = err bad_percent
percent_of (some (negsuc n)) = err bad_percent
percent_of (some (pos n)) = if ltb 100 n then err bad_percent else ok (some n)

unfoldable pub interval_of : Option ℤ → Parsed ℕ
interval_of none = err bad_interval
interval_of (some (negsuc n)) = err bad_interval
interval_of (some (pos n)) = if n == 0 then err bad_interval else ok ((n * 1_000_000_000) % 2 ^ 64)

unfoldable pub formats_of : List Bytes → ℕ → Parsed ℕ
unfolding equal
formats_of [] n = ok n
formats_of (f ∷ l) n = elim (equal f (codes "afrf")) [
  | true ↦ formats_of l (n + 1)
  | false ↦ err bad_format
]

unfoldable pub some_policy : Bytes → Parsed (Option Policy)
unfolding parse_policy
some_policy s = do p ← parse_policy s; ok (some p)

unfoldable pub required_policy : Option Bytes → Parsed Policy
unfolding parse_policy
required_policy none = err missing_policy
required_policy (some p) = parse_policy p

unfoldable pub check_version : Bytes → Parsed (Unit {0})
unfolding equal
check_version v = if equal v (codes "DMARC1") then ok tt else err version

-- `Parse`; the first argument is `strconv.Atoi`, `none` for an error.
unfoldable pub parse : (Bytes → Option ℤ) → Bytes → Parsed Record
parse atoi txt = do
  m ← parse_params txt
  u ← check_version (get (codes "v") m)
  p ← required_policy (find (codes "p") m)
  adkim ← optional (find (codes "adkim") m) relaxed parse_alignment_mode
  aspf ← optional (find (codes "aspf") m) relaxed parse_alignment_mode
  fo ← optional (find (codes "fo") m) 0 parse_failure_options
  pct ← optional (find (codes "pct") m) none (λ s. percent_of (atoi s))
  rf ← optional (find (codes "rf") m) 0 (λ s. formats_of (split s b':') 0)
  ri ← optional (find (codes "ri") m) 0 (λ s. interval_of (atoi s))
  rua ← optional (find (codes "rua") m) [] (λ s. ok (parse_uri_list s))
  ruf ← optional (find (codes "ruf") m) [] (λ s. ok (parse_uri_list s))
  sp ← optional (find (codes "sp") m) none some_policy
  ok (record {
    dkim_alignment = adkim;
    spf_alignment = aspf;
    failure_options = fo;
    policy = p;
    percent = pct;
    report_format = rf;
    report_interval = ri;
    report_uri_aggregate = rua;
    report_uri_failure = ruf;
    subdomain_policy = sp;
  })

-- What the resolver answers for `_dmarc.<domain>`.
pub data TxtAnswer : Type 0 where
  records : List Bytes → TxtAnswer
  temporary not_found broken : TxtAnswer

concat : List Bytes → Bytes
concat [] = []
concat (t ∷ ts) = t ++ concat ts

answer_to : (Bytes → Option ℤ) → TxtAnswer → Parsed Record
unfolding concat
answer_to atoi temporary = err unavailable
answer_to atoi not_found = err no_record
answer_to atoi broken = err failed
answer_to atoi (records []) = err no_record
answer_to atoi (records (t ∷ ts)) = parse atoi (concat (t ∷ ts))

-- `LookupWithOptions`
unfoldable pub lookup_with : (Bytes → Option ℤ) → (Bytes → TxtAnswer) → Bytes → Parsed Record
unfolding answer_to
lookup_with atoi lookup_txt domain = answer_to atoi (lookup_txt (codes "_dmarc." ++ domain))
