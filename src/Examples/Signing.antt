-- ===== src/Examples/Signing.antt =====
-- A signer, a message and a field of results, and the theorems of signing and of the field at them.
use mathlib.Core.List.Perm
use smtpx.Authres.Format.Words.{IsAddressLike, IsPlain-any, All_false}
use smtpx.Authres.Format.{format, is_address_like, needs_quotes}
use smtpx.Authres.Parse.Whole.{parse-format}
use smtpx.Authres.Parse.{parse}
use smtpx.Authres.Results.{Result, spf, dmarc}
use smtpx.Base.{
  is_space, ℕ, ◌+◌, ◌-◌, Option, equal, ap, ap₂, trim_space, sort_strings, ◌==◌, Bool, true, false,
  not, List, [], ◌∷◌, ◌++◌, none, some, Bytes, codes, crlf, any, take, equal_iff, equal_fold,
  Bool-cases, ◌≡◌, ◌≢◌, ◌↔◌, refl, inl, inr, All, arith, to_lower,
}
use smtpx.Dkim.Canonical.{simple_close, simple_write, relaxed_header}
use smtpx.Dkim.Format.Fold.{IsLine}
use smtpx.Dkim.Format.Ordered.{IsSameMap, format_header_params-order}
use smtpx.Dkim.Format.{format_header_params, keys_of}
use smtpx.Dkim.Header.Read.{place, place_step}
use smtpx.Dkim.Header.Removed.{scan}
use smtpx.Dkim.Header.{pick, read_header, is_continuation}
use smtpx.Dkim.Params.{Params, find, get, simple, relaxed}
use smtpx.Dkim.Format.Fold.Stripped.{IsWord}
use smtpx.Dkim.Format.Tagged.{other_keys}
use smtpx.Dkim.Format.Tagged.Reparsed.{AreTags}
use smtpx.Dkim.Params.Written.{IsTag}
use smtpx.Dkim.Sign.Verified.{AreMatching}
use smtpx.Dkim.Verify.{new_verification}
use smtpx.Dkim.Query.{since, missing, Crypto, QueryResult, rsa_verifier, verifies}
use smtpx.Dkim.Sign.Checked.{IsRight, sign-IsRight}
use smtpx.Dkim.Params.Listed.{AreKeys}
use smtpx.Dkim.Sign.Accepted.{IsAcceptable, new_signer_iff}
use smtpx.Dkim.Sign.Signed.{IsSafe}
use smtpx.Dkim.Sign.{
  rsa_kind, sha256_hash, KeySigner, SignOptions, Tools, Signer, done, new_signer, sign, sign_params,
  signed_keys, hashed_data, told_hash,
}

abbrev shifted : Bytes → Bytes
shifted [] = []
shifted (c ∷ s) = (128 + c) ∷ shifted s

abbrev shifted_back : Bytes → Bytes
shifted_back [] = []
shifted_back (c ∷ s) = (c - 128) ∷ shifted_back s

abbrev decoded : Bytes → Option Bytes
decoded [] = none
decoded (c ∷ s) = some (shifted_back s)

-- Bytes that are not ASCII; an encoding needs no more here.
abbrev tools : Tools
tools = record { now = since 100; sha256 = λ s. take 4 s; encode_base64 = λ s. b'Q' ∷ shifted s }

abbrev key : KeySigner
key = record { kind = rsa_kind; sign = λ hashed f. some hashed }

abbrev options : SignOptions
options = record {
  domain = codes "example.org";
  selector = codes "mail";
  identifier = codes "ann@example.org";
  signer = some key;
  hash = sha256_hash;
  header_can = codes "relaxed";
  body_can = [];
  header_keys = none;
  expiration = none;
  query_methods = none;
}

abbrev signer : Signer
signer = record {
  options = options;
  key = key;
  header_can = relaxed;
  body_can = simple;
  key_algo = codes "rsa";
  hash_algo = codes "sha256";
}

abbrev first_field : Bytes
first_field = codes "From: ann@example.org" ++ crlf

abbrev body : Bytes
body = codes "Hello" ++ crlf

abbrev message : Bytes
message = first_field ++ (crlf ++ body)

message_header : read_header message ≡ some (first_field ∷ [], body)
unfolding read_header
message_header = refl

signer_new : new_signer options ≡ done signer
unfolding new_signer
signer_new = refl

shifted-text : (s : Bytes) → All (λ d. d ≢ b';') (shifted s) × IsLine (shifted s)
shifted-text [] = (tt, tt)
shifted-text (c ∷ s) =
    let (no_semicolon, line) = shifted-text s in
    ((omega arith, no_semicolon), ((ground arith, ground arith), line))

shifted-IsWord : (s : Bytes) → IsWord (shifted s)
shifted-IsWord [] = tt
shifted-IsWord (c ∷ s) = (ground arith, shifted-IsWord s)

shifted_back-shifted : (s : Bytes) → shifted_back (shifted s) ≡ s
shifted_back-shifted [] = refl
shifted_back-shifted (c ∷ s) = ap₂ (λ d l. d ∷ l) (omega arith) (shifted_back-shifted s)

signer-IsSafe : IsSafe tools signer (first_field ∷ []) body
unfolding sign_params signed_keys scan place place_step get keys_of equal_fold simple_close
    simple_write
signer-IsSafe = record {
  plain_tags = (refl, (refl, (refl, (refl, (refl, (refl, (refl, (refl, (refl, tt)))))))));
  one_line_tags = (refl, (refl, (refl, (refl, (refl, (refl, (refl, (refl, (refl, tt)))))))));
  other_keys = (refl, tt);
  text =
      λ hashed sig e. ((omega arith, (shifted-text sig).0), ((refl, refl), (shifted-text sig).1));
}

signed_data_bytes :
    key.sign
      (tools.sha256 (
        hashed_data relaxed
          (first_field ∷ [])
          (signed_keys none (first_field ∷ []))
          (sign_params tools signer (first_field ∷ []) body)))
      (told_hash rsa_kind)
    ≡ some (codes "from")
unfolding hashed_data sign_params signed_keys pick relaxed_header
signed_data_bytes = refl

abbrev verifier_tools : Crypto
verifier_tools = record {
  now = since 100;
  now_nanos = 500;
  parse_int = λ s. none;
  decode_base64 = decoded;
  sha256 = λ s. take 4 s;
  lookup_txt = λ s. missing;
  parse_pkix = λ s. none;
  parse_pkcs1 = λ s. none;
  key_size = λ k. 2048;
  verify_rsa = λ k hashed sig. equal hashed sig;
  verify_ed25519 = λ k hashed sig. false;
}

abbrev query_result : QueryResult
query_result = record {
  verifier = rsa_verifier [];
  key_algo = codes "rsa";
  hash_algos = none;
  services = none;
  notes = [];
  flags = none;
}

tools-AreMatching : AreMatching tools signer verifier_tools query_result
unfolding verifies
tools-AreMatching = record {
  hash = λ x. refl;
  base64 = λ x. ap some (shifted_back-shifted x);
  words = λ x. (refl, shifted-IsWord x);
  key = λ hashed sig e. ground (arith, equal_iff hashed sig);
}

tag-IsTag :
    (k v : Bytes)
    → any (λ c. c == b'=') k ≡ false
    → any (λ c. c == b';') k ≡ false
    → trim_space k ≡ k
    → any (λ c. c == b';') v ≡ false
    → trim_space v ≡ v
    → IsTag k v
tag-IsTag k v e p kt vp vt = record {
  key = All_false (λ c. c == b'=') k e;
  key_part = All_false (λ c. c == b';') k p;
  key_trimmed = kt;
  value_part = All_false (λ c. c == b';') v vp;
  value_trimmed = vt;
}

signer-AreTags :
    AreTags
      (sign_params tools signer (first_field ∷ []) body)
      (other_keys (sign_params tools signer (first_field ∷ []) body))
      []
unfolding sign_params sort_strings keys_of find get trim_space equal simple_close simple_write
signer-AreTags = (
  refl,
  tag-IsTag _ _ refl refl refl refl refl,
  (
    refl,
    tag-IsTag _ _ refl refl refl refl refl,
    (
      refl,
      tag-IsTag _ _ refl refl refl refl refl,
      (
        refl,
        tag-IsTag _ _ refl refl refl refl refl,
        (
          refl,
          tag-IsTag _ _ refl refl refl refl refl,
          (
            refl,
            tag-IsTag _ _ refl refl refl refl refl,
            (
              refl,
              tag-IsTag _ _ refl refl refl refl refl,
              (
                refl,
                tag-IsTag _ _ refl refl refl refl refl,
                (refl, tag-IsTag _ _ refl refl refl refl refl, tt),
              ),
            ),
          ),
        ),
      ),
    ),
  ),
)

first_key : AreKeys (signed_keys none (first_field ∷ []))
unfolding signed_keys
first_key = (
  (λ e. cc),
  ((All_false (λ c. c == b':') (codes "From") refl, All_false is_space (codes "From") refl), tt),
)

sign-IsRight_example :
    (out : Bytes) × (sign tools (some options) message ≡ done out)
    × IsRight (first_field ∷ []) body message out verifier_tools query_result new_verification
unfolding is_continuation
sign-IsRight_example =
    sign-IsRight tools options signer (first_field ∷ []) body message (codes "from") verifier_tools
      query_result new_verification signer_new message_header refl signer-IsSafe signer-AreTags
      first_key tools-AreMatching signed_data_bytes

new_signer_iff_example : ((s : Signer) × (new_signer options ≡ done s)) ↔ IsAcceptable options
new_signer_iff_example = new_signer_iff options

abbrev tags : Params
tags = (codes "v", codes "1") ∷ (codes "b", codes "QUJD") ∷ []

abbrev tags' : Params
tags' = (codes "b", codes "QUJD") ∷ (codes "v", codes "1") ∷ []

tags-IsSameMap : IsSameMap tags tags'
unfolding find keys_of
tags-IsSameMap = record {
  keys = Perm.swap (codes "b") (codes "v") [];
  values = λ k. ground (arith, equal_iff k (codes "v"), equal_iff k (codes "b"));
}

format_header_params-order_example :
    format_header_params (codes "DKIM-Signature") tags
    ≡ format_header_params (codes "DKIM-Signature") tags'
format_header_params-order_example =
    format_header_params-order (codes "DKIM-Signature") tags tags' tags-IsSameMap

All_true : (p : ℕ → Bool) (s : Bytes) → any (λ c. not (p c)) s ≡ false → All (λ c. p c ≡ true) s
All_true p [] h = tt
All_true p (c ∷ s) h = elim (Bool-cases (p c)) [
  | inl b ↦ (b, All_true p s (rw b at h))
  | inr b ↦ cc (rw b at h)
]

address_like : (s : Bytes) → any (λ c. not (is_address_like c)) s ≡ false → IsAddressLike s
address_like s h = All_true is_address_like s h

abbrev reported : List Result
reported =
    spf (codes "pass") [] (codes "ann@example.org") (codes "mx.example.org")
    ∷ dmarc (codes "fail") (codes "rejected") (codes "example.com")
    ∷ []

parse-format_example :
    parse (λ s. none) (format (codes "mx.example.net") reported)
    ≡ record { identifier = codes "mx.example.net"; results = reported; error = none }
unfolding to_lower
parse-format_example =
    parse-format (λ s. none) (codes "mx.example.net") reported
      (IsPlain-any (codes "mx.example.net") refl)
      (
        (
          (address_like (codes "pass") refl, refl),
          tt,
          address_like (codes "ann@example.org") refl,
          address_like (codes "mx.example.org") refl,
        ),
        (
          (
            (address_like (codes "fail") refl, refl),
            All_false needs_quotes (codes "rejected") refl,
            address_like (codes "example.com") refl,
          ),
          tt,
        ),
      )
