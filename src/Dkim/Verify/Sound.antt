-- ===== src/Dkim/Verify/Sound.antt =====
-- What a signature that verifies (dkim/verify.go) has gone through.
use smtpx.Base.{
  true, false, List, Option, none, some, Bytes, codes, equal, equal_fold, any, is_some, cut,
  equal_iff, Option-cases, inl, inr, ◌≡◌, refl, arith,
}
use mathlib.Core.List.{Mem}
use mathlib.Core.Path.{subst}
use smtpx.Dkim.Params.Named.{AreNamed, parse_canonicalization-AreNamed, any-Mem}
use smtpx.Dkim.Params.{
  canonicalization, parse_canonicalization, Params, ParamsResult, params, bad, find, get,
  parse_header_params, strip_whitespace, parse_tag_list, Canonicalization,
}
use smtpx.Dkim.Query.{
  Checked, pass, stop, Seconds, is_after, Crypto, QueryResult, query_dns_txt, verifies,
}
use smtpx.Dkim.Verify.{
  Verification, new_verification, params_or_stop, M, continue, ◌>>=◌, ◌>>◌, has_all, required_tags,
  check_tags, check_identity, check_times, fetch_key, check_algorithms, check_canonicalization,
  canonical_body, signed_data, check_hashes, belongs, verify, listed,
}

-- A list of a key that is left out allows everything.
abbrev pub IsListed : Option (List Bytes) → Bytes → Type 0
IsListed none s = Unit
IsListed (some l) s = Mem s l

-- A chain that passes has passed at its first step.
continue-pass :
    {A B : Type 0} (p : Verification × Checked A) (f : A → M B) {v : Verification} {b : B}
    → continue f p ≡ (v, pass b)
    → (w : Verification) × (a : A) × (p ≡ (w, pass a)) × (f a w ≡ (v, pass b))
continue-pass (w, pass a) f h = (w, a, refl, h)
continue-pass (w, stop e) f h = cc

check_tags-pass :
    (m : Params) (v : Verification) {w : Verification} {u : Unit {0}}
    → check_tags m v ≡ (w, pass u)
    → (equal (get (codes "v") m) (codes "1") ≡ true)
      × (has_all required_tags m ≡ true)
      × (w.domain ≡ strip_whitespace (get (codes "d") m))
unfolding check_tags
check_tags-pass m v h = ground arith

check_identity-pass :
    (m : Params) (v : Verification) {w : Verification} {keys : List Bytes}
    → check_identity m v ≡ (w, pass keys)
    → (keys ≡ parse_tag_list (get (codes "h") m))
      × (any (λ k. equal_fold k (codes "from")) keys ≡ true)
      × (w.domain ≡ v.domain)
      × ((i : Bytes) → find (codes "i") m ≡ some i → belongs (strip_whitespace i) v.domain ≡ true)
unfolding check_identity
check_identity-pass m v h = (ground arith, ground arith, ground arith, (λ i e. ground arith))

check_times-pass :
    (c : Crypto) (m : Params) (v : Verification) {w : Verification} {u : Unit {0}}
    → check_times c m v ≡ (w, pass u)
    → (w.domain ≡ v.domain)
      × ((x : Bytes) (t : Seconds)
          → find (codes "x") m ≡ some x
          → c.parse_int (strip_whitespace x) ≡ some t
          → is_after c.now c.now_nanos t ≡ false)
unfolding check_times
check_times-pass c m v h = (ground arith, (λ x t e p. ground arith))

fetch_key-pass :
    (c : Crypto) (m : Params) (v : Verification) {w : Verification} {q : QueryResult}
    → fetch_key c m v ≡ (w, pass q)
    → query_dns_txt c v.domain (strip_whitespace (get (codes "s") m)) ≡ pass q
unfolding fetch_key
fetch_key-pass c m v h = ground arith

check_algorithms-pass :
    (q : QueryResult) (m : Params) (v : Verification) {w : Verification} {u : Unit {0}}
    → check_algorithms q m v ≡ (w, pass u)
    → (cut (strip_whitespace (get (codes "a") m)) b'-' ≡ some (q.key_algo, codes "sha256"))
      × (listed q.hash_algos (codes "sha256") ≡ true)
      × (listed q.services (codes "email") ≡ true)
unfolding check_algorithms
check_algorithms-pass q m v h =
    elim (Option-cases (cut (strip_whitespace (get (codes "a") m)) b'-')) [
      | inl e ↦ absurd (ground arith)
      | inr (algo, e) ↦
          ground (arith, equal_iff q.key_algo algo.0, equal_iff algo.1 (codes "sha256"))
    ]

check_canonicalization-pass :
    (m : Params) (v : Verification) {w : Verification} {can : Canonicalization × Canonicalization}
    → check_canonicalization m v ≡ (w, pass can)
    → (is_some (find (codes "l") m) ≡ false) × AreNamed (strip_whitespace (get (codes "c") m)) can
unfolding check_canonicalization
check_canonicalization-pass m v {w} {can} h =
    let names = parse_canonicalization (get (codes "c") m) in
    elim (Option-cases (canonicalization names.0)) [
      | inl e ↦ absurd (ground arith)
      | inr (a, ea) ↦ elim (Option-cases (canonicalization names.1)) [
        | inl e ↦ absurd (ground arith)
        | inr (b, eb) ↦
            let same : (a, b) ≡ can = ground arith in
            (
              ground arith,
              subst (AreNamed (strip_whitespace (get (codes "c") m))) same
                  (parse_canonicalization-AreNamed (get (codes "c") m) a b ea eb),
            )
      ]
    ]

listed-IsListed : (l : Option (List Bytes)) (s : Bytes) → listed l s ≡ true → IsListed l s
listed-IsListed none s h = tt
listed-IsListed (some l) s h = any-Mem s l h

check_hashes-pass :
    (c : Crypto) (q : QueryResult) (m : Params) (can : Canonicalization × Canonicalization)
    (h : List Bytes) (body : Bytes) (keys : List Bytes) (f : Bytes) (v : Verification)
    {w : Verification} {u : Unit {0}}
    → check_hashes c q m can h body keys f v ≡ (w, pass u)
    → (c.decode_base64 (strip_whitespace (get (codes "bh") m))
        ≡ some (c.sha256 (canonical_body can.1 body)))
      × ((sig : Bytes) × (c.decode_base64 (strip_whitespace (get (codes "b") m)) ≡ some sig)
          × (verifies c q.verifier (c.sha256 (signed_data can.0 h keys f)) sig ≡ true))
unfolding check_hashes
check_hashes-pass c q m can h body keys f v p =
    elim (Option-cases (c.decode_base64 (strip_whitespace (get (codes "bh") m)))) [
      | inl e ↦ absurd (ground arith)
      | inr (bh, e) ↦ elim (Option-cases (c.decode_base64 (strip_whitespace (get (codes "b") m)))) [
        | inl e' ↦ absurd (ground arith)
        | inr (sig, e') ↦ (
          ground (arith, equal_iff (c.sha256 (canonical_body can.1 body)) bh),
          (sig, e', ground arith),
        )
      ]
    ]

-- What the success of `verify` says of the tags of the signature and of the message.
pub record IsVerified (c : Crypto) (h : List Bytes) (body sig_field sig_value : Bytes)
    : Type 0 where
  pub tags : Params
  pub parsed : parse_header_params sig_value ≡ params tags
  pub version : equal (get (codes "v") tags) (codes "1") ≡ true
  pub complete : has_all required_tags tags ≡ true
  pub from_signed :
      any (λ k. equal_fold k (codes "from")) (parse_tag_list (get (codes "h") tags)) ≡ true
  pub own_identifier :
      (i : Bytes)
      → find (codes "i") tags ≡ some i
      → belongs (strip_whitespace i) (strip_whitespace (get (codes "d") tags)) ≡ true
  pub in_time :
      (x : Bytes) (t : Seconds)
      → find (codes "x") tags ≡ some x
      → c.parse_int (strip_whitespace x) ≡ some t
      → is_after c.now c.now_nanos t ≡ false
  pub no_length : is_some (find (codes "l") tags) ≡ false
  pub key : QueryResult
  pub published :
      query_dns_txt c
        (strip_whitespace (get (codes "d") tags))
        (strip_whitespace (get (codes "s") tags))
      ≡ pass key
  pub algorithm :
      cut (strip_whitespace (get (codes "a") tags)) b'-' ≡ some (key.key_algo, codes "sha256")
  pub hash_allowed : IsListed key.hash_algos (codes "sha256")
  pub service_allowed : IsListed key.services (codes "email")
  pub can : Canonicalization × Canonicalization
  pub named : AreNamed (strip_whitespace (get (codes "c") tags)) can
  pub body_hash :
      c.decode_base64 (strip_whitespace (get (codes "bh") tags))
      ≡ some (c.sha256 (canonical_body can.1 body))
  pub signature : Bytes
  pub decoded : c.decode_base64 (strip_whitespace (get (codes "b") tags)) ≡ some signature
  pub signed :
      verifies c key.verifier
        (c.sha256 (signed_data can.0 h (parse_tag_list (get (codes "h") tags)) sig_field))
        signature
      ≡ true

params_or_stop-pass :
    (r : ParamsResult) (v : Verification) {w : Verification} {m : Params}
    → params_or_stop r v ≡ (w, pass m)
    → (r ≡ params m) × (w ≡ v)
params_or_stop-pass (params m) v h = ground arith
params_or_stop-pass (bad e) v h = ground arith

-- A signature verifies only if its tags parse with version 1 and every required tag, the From field
-- is among the signed ones, the identifier belongs to the domain, the signature has not expired and
-- has no body length, the domain publishes a key for its algorithm with SHA-256 that allows this hash
-- and mail, the tag c= names the canonicalizations of header and body, with simple for one that is
-- left out, the body hash is that of the body in its canonicalization, and the key verifies the
-- signature over the fields that h= lists, in theirs.
pub verify_sound :
    (c : Crypto) (h : List Bytes) (body sig_field sig_value : Bytes) {v : Verification}
    {u : Unit {0}}
    → verify c h body sig_field sig_value ≡ (v, pass u)
    → IsVerified c h body sig_field sig_value
unfolding verify
verify_sound c h body f s ok =
    let s6 : Params → List Bytes → QueryResult → M (Unit {0}) =
      λ m keys q. check_canonicalization m >>= λ can. check_hashes c q m can h body keys f in
    let s5 : Params → List Bytes → QueryResult → M (Unit {0}) =
      λ m keys q. check_algorithms q m >> s6 m keys q in
    let s4 : Params → List Bytes → M (Unit {0}) = λ m keys. fetch_key c m >>= s5 m keys in
    let s3 : Params → List Bytes → M (Unit {0}) = λ m keys. check_times c m >> s4 m keys in
    let s2 : Params → M (Unit {0}) = λ m. check_identity m >>= s3 m in
    let s1 : Params → M (Unit {0}) = λ m. check_tags m >> s2 m in
    let start = params_or_stop (parse_header_params s) new_verification in
    let (v0, m, p0, r0) = continue-pass start s1 ok in
    let (v1, u1, p1, r1) = continue-pass (check_tags m v0) (λ u. s2 m) r0 in
    let (v2, keys, p2, r2) = continue-pass (check_identity m v1) (s3 m) r1 in
    let (v3, u3, p3, r3) = continue-pass (check_times c m v2) (λ u. s4 m keys) r2 in
    let (v4, q, p4, r4) = continue-pass (fetch_key c m v3) (s5 m keys) r3 in
    let (v5, u5, p5, r5) = continue-pass (check_algorithms q m v4) (λ u. s6 m keys q) r4 in
    let (v6, can, p6, r6) =
      continue-pass (check_canonicalization m v5) (λ can. check_hashes c q m can h body keys f)
        r5 in
    let t1 = check_tags-pass m v0 {w = v1} p1 in
    let t2 = check_identity-pass m v1 {w = v2} {keys = keys} p2 in
    let t3 = check_times-pass c m v2 {w = v3} p3 in
    let t5 = check_algorithms-pass q m v4 {w = v5} p5 in
    let t6 = check_canonicalization-pass m v5 {w = v6} {can = can} p6 in
    let t7 = check_hashes-pass c q m can h body keys f v6 r6 in
    record {
      tags = m;
      parsed = (params_or_stop-pass (parse_header_params s) new_verification p0).0;
      version = t1.0;
      complete = t1.1;
      from_signed = rw (← t2.0) t2.1;
      own_identifier = λ i e. rw (← t1.2) (t2.3 i e);
      in_time = t3.1;
      no_length = t6.0;
      key = q;
      published = rw (← t1.2, ← t2.2, ← t3.0) (fetch_key-pass c m v3 {w = v4} {q = q} p4);
      algorithm = t5.0;
      hash_allowed = listed-IsListed q.hash_algos (codes "sha256") t5.1;
      service_allowed = listed-IsListed q.services (codes "email") t5.2;
      can = can;
      named = t6.1;
      body_hash = t7.0;
      signature = t7.1.0;
      decoded = t7.1.1;
      signed = rw (← t2.0) t7.1.2;
    }
