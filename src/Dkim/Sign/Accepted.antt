-- ===== src/Dkim/Sign/Accepted.antt =====
-- middleware/authres/dkim/sign.go: the options that `NewSigner` accepts.
use smtpx.Base.{
  true, false, Option, none, some, Bytes, codes, List, [], ◌∷◌, ◌≢◌, any, equal, equal_iff,
  equal_fold, to_lower, Bool-cases, Bool, ap, ◌∙◌, ◌≡◌, ◌↔◌, ◌⊎◌, inl, inr, refl, is_some,
  Option-cases, arith,
}
use mathlib.Core.Path.{subst, sym}
use mathlib.Core.List.{Mem, mem-cons_self, mem-cons_of_mem, not-mem-nil, eq-or-mem_of_mem-cons}
use mathlib.Core.Logic.Or
use smtpx.Dkim.Params.{canonicalization}
use smtpx.Dkim.Sign.{
  KeySigner, PublicKind, rsa_kind, ed25519_kind, other_kind, Hash, no_hash, sha256_hash, sha1_hash,
  other_hash, SignOptions, Signer, done, is_empty, or_simple, key_name, hash_name, covers_from,
  new_signer,
}

abbrev IsKnownKey : Option KeySigner → Type 0
IsKnownKey none = ⊥
IsKnownKey (some k) = (k.kind ≡ rsa_kind) ⊎ (k.kind ≡ ed25519_kind)

-- The tests of the options.
record IsTested (o : SignOptions) : Type 0 where
  domain : is_empty o.domain ≡ false
  selector : is_empty o.selector ≡ false
  signer : IsKnownKey o.signer
  header_can : is_some (canonicalization (or_simple o.header_can)) ≡ true
  body_can : is_some (canonicalization (or_simple o.body_can)) ≡ true
  hash : (o.hash ≡ no_hash) ⊎ (o.hash ≡ sha256_hash)
  from : covers_from o.header_keys ≡ true

abbrev IsKnownCan : Bytes → Type 0
IsKnownCan s = (s ≡ []) ⊎ ((s ≡ codes "simple") ⊎ (s ≡ codes "relaxed"))

-- Where keys are listed, one of them is From, in upper or lower case.
abbrev ListsFrom : Option (List Bytes) → Type 0
ListsFrom none = Unit
ListsFrom (some keys) = (k : Bytes) × Mem k keys × (to_lower k ≡ codes "from")

-- Options with a domain, a selector, an RSA or Ed25519 key, canonicalizations that are simple, relaxed
-- or left out, SHA-256 or no hash, and, where keys are listed, the key From among them.
pub record IsAcceptable (o : SignOptions) : Type 0 where
  pub domain : o.domain ≢ []
  pub selector : o.selector ≢ []
  pub signer : IsKnownKey o.signer
  pub header_can : IsKnownCan o.header_can
  pub body_can : IsKnownCan o.body_can
  pub hash : (o.hash ≡ no_hash) ⊎ (o.hash ≡ sha256_hash)
  pub from : ListsFrom o.header_keys

any_prop : (p : Bytes → Bool) (l : List Bytes) → IsProp (any p l ≡ true)
any_prop p l = hlevel

any-here : (p : Bytes → Bool) (k : Bytes) (l : List Bytes) → p k ≡ true → any p (k ∷ l) ≡ true
any-here p k l h = rw h refl

any-later : (p : Bytes → Bool) (k : Bytes) (l : List Bytes) → any p l ≡ true → any p (k ∷ l) ≡ true
any-later p k l h = ground arith

Mem-any : (p : Bytes → Bool) (j : Bytes) (l : List Bytes) → Mem j l → p j ≡ true → any p l ≡ true
Mem-any p j [] m h = absurd (not-mem-nil m)
Mem-any p j (k ∷ l) m h =
    Or.elim (any_prop p (k ∷ l)) (eq-or-mem_of_mem-cons m) (λ e. any-here p k l (ap p (sym e) ∙ h))
      (λ rest. any-later p k l (Mem-any p j l rest h))

is_empty-false : (s : Bytes) → (is_empty s ≡ false) ↔ (s ≢ [])
is_empty-false [] = ((λ h. cc), (λ h. absurd (h refl)))
is_empty-false (c ∷ s) = ((λ h e. cc), (λ h. ground arith))

known_can : (s : Bytes) → (is_some (canonicalization (or_simple s)) ≡ true) ↔ IsKnownCan s
unfolding canonicalization equal
known_can [] = ((λ h. inl refl), (λ h. refl))
known_can (c ∷ s) = (
  λ h. ground (arith, equal_iff (c ∷ s) (codes "simple"), equal_iff (c ∷ s) (codes "relaxed")),
  λ h. ground (arith, equal_iff (c ∷ s) (codes "simple"), equal_iff (c ∷ s) (codes "relaxed")),
)

from_test : (k : Bytes) → (equal_fold k (codes "From") ≡ true) ↔ (to_lower k ≡ codes "from")
unfolding equal_fold to_lower
from_test k = equal_iff (to_lower k) (codes "from")

any-from :
    (keys : List Bytes) → any (λ k. equal_fold k (codes "From")) keys ≡ true → ListsFrom (some keys)
any-from [] h = cc
any-from (k ∷ keys) h = elim (Bool-cases (equal_fold k (codes "From"))) [
  | inl here ↦ (k, mem-cons_self, (from_test k).0 here)
  | inr later ↦ let (j, at, same) = any-from keys (rw later at h) in (j, mem-cons_of_mem k at, same)
]

from-any :
    (keys : List Bytes) (j : Bytes)
    → Mem j keys
    → to_lower j ≡ codes "from"
    → any (λ k. equal_fold k (codes "From")) keys ≡ true
from-any keys j at same =
    Mem-any (λ k. equal_fold k (codes "From")) j keys at ((from_test j).1 same)

covers : (keys : Option (List Bytes)) → (covers_from keys ≡ true) ↔ ListsFrom keys
unfolding covers_from
covers none = ((λ h. tt), (λ h. refl))
covers (some keys) = (λ h. any-from keys h, λ (j, at, same). from-any keys j at same)

IsTested-IsAcceptable : (o : SignOptions) → IsTested o ↔ IsAcceptable o
IsTested-IsAcceptable o = (
  λ t. record {
    domain = (is_empty-false o.domain).0 t.domain;
    selector = (is_empty-false o.selector).0 t.selector;
    signer = t.signer;
    header_can = (known_can o.header_can).0 t.header_can;
    body_can = (known_can o.body_can).0 t.body_can;
    hash = t.hash;
    from = (covers o.header_keys).0 t.from;
  },
  λ a. record {
    domain = (is_empty-false o.domain).1 a.domain;
    selector = (is_empty-false o.selector).1 a.selector;
    signer = a.signer;
    header_can = (known_can o.header_can).1 a.header_can;
    body_can = (known_can o.body_can).1 a.body_can;
    hash = a.hash;
    from = (covers o.header_keys).1 a.from;
  },
)

known_key :
    (k : Option KeySigner)
    → IsKnownKey k
    → (key : KeySigner) × (a : Bytes) × (k ≡ some key) × (key_name key.kind ≡ done a)
unfolding key_name
known_key none h = absurd h
known_key (some k) (inl e) = (k, codes "rsa", refl, rw e refl)
known_key (some k) (inr e) = (k, codes "ed25519", refl, rw e refl)

known_hash : (h : Hash) → (h ≡ no_hash) ⊎ (h ≡ sha256_hash) → hash_name h ≡ done (codes "sha256")
unfolding hash_name
known_hash h (inl e) = rw e refl
known_hash h (inr e) = rw e refl

is_some-some : {A : Type 0} (x : Option A) → is_some x ≡ true → (a : A) × (x ≡ some a)
is_some-some none h = cc
is_some-some (some a) h = (a, refl)

accepted : (o : SignOptions) → IsTested o → (s : Signer) × (new_signer o ≡ done s)
unfolding new_signer
accepted o ok =
    let (key, algo, is_key, named) = known_key o.signer ok.signer in
    let (h, is_h) = is_some-some (canonicalization (or_simple o.header_can)) ok.header_can in
    let (b, is_b) = is_some-some (canonicalization (or_simple o.body_can)) ok.body_can in
    (
      record {
        options = o;
        key = key;
        header_can = h;
        body_can = b;
        key_algo = algo;
        hash_algo = codes "sha256";
      },
      rw (ok.domain, new_signer)
          (rw (ok.selector, is_key)
            (rw (is_h, is_b) (rw named (rw (known_hash o.hash ok.hash) (rw ok.from refl))))),
    )

kind-cases : (k : PublicKind) → ((k ≡ rsa_kind) ⊎ (k ≡ ed25519_kind)) ⊎ (k ≡ other_kind)
kind-cases rsa_kind = inl (inl refl)
kind-cases ed25519_kind = inl (inr refl)
kind-cases other_kind = inr refl

hash-cases : (h : Hash) → ((h ≡ no_hash) ⊎ (h ≡ sha256_hash)) ⊎ ((h ≡ sha1_hash) ⊎ (h ≡ other_hash))
hash-cases no_hash = inl (inl refl)
hash-cases sha256_hash = inl (inr refl)
hash-cases sha1_hash = inr (inl refl)
hash-cases other_hash = inr (inr refl)

module _ (o : SignOptions) (s : Signer) (e : new_signer o ≡ done s) where
  accepted_signer : IsKnownKey o.signer
  unfolding new_signer
  accepted_signer = elim (Option-cases o.signer) [
    | inl missing ↦ absurd (ground arith)
    | inr (k, found) ↦
        subst IsKnownKey (sym found)
          (elim (kind-cases k.kind) [ inl known ↦ known | inr other ↦ absurd (ground arith) ])
  ]

  accepted_hash : (o.hash ≡ no_hash) ⊎ (o.hash ≡ sha256_hash)
  unfolding new_signer
  accepted_hash = elim (hash-cases o.hash) [
    | inl known ↦ known
    | inr (inl weak) ↦ absurd (ground arith)
    | inr (inr other) ↦ absurd (ground arith)
  ]

  acceptable : IsTested o
  unfolding new_signer
  acceptable = record {
    domain = ground arith;
    selector = ground arith;
    signer = accepted_signer;
    header_can = ground arith;
    body_can = ground arith;
    hash = accepted_hash;
    from = ground arith;
  }

-- NewSigner succeeds exactly with options that have a domain, a selector, an RSA or Ed25519 key,
-- canonicalizations that are simple, relaxed or left out, SHA-256 or no hash, and, where keys are
-- listed, the key From among them, in upper or lower case.
pub new_signer_iff : (o : SignOptions) → ((s : Signer) × (new_signer o ≡ done s)) ↔ IsAcceptable o
new_signer_iff o = (
  λ (s, e). (IsTested-IsAcceptable o).0 (acceptable o s e),
  λ ok. accepted o ((IsTested-IsAcceptable o).1 ok),
)
