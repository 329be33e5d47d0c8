-- ===== src/Examples/Signatures.antt =====
-- DKIM.
use smtpx.Base.{
  ◌+◌, ◌<◌, false, List, [], ◌∷◌, ◌++◌, none, some, ◌≡◌, refl, Bytes, codes, crlf, length, take,
  equal, equal_fold, cut, fields_by, has_suffix, join, split, to_lower, trim_left, trim_right,
  trim_space,
}
use smtpx.Dkim.Canonical.{
  new_relaxed, limited_write, fix, relaxed_byte, relaxed_bytes, relaxed_close, relaxed_header,
  relaxed_write, simple_close, simple_write, split_end,
}
use smtpx.Dkim.Canonical.Relaxed.{relaxed_write-append}
use smtpx.Dkim.Canonical.Simple.{limited_write_short}
use smtpx.Dkim.Header.{pick, remove_signature}
use smtpx.Dkim.Params.{
  canonicalization, parse_canonicalization, find, get, parse_header_field, parse_header_params,
  parse_tag_list, strip_whitespace,
}
use smtpx.Dkim.Query.{
  is_after, parse_public_key, query_dns_txt, verifies, Crypto, pass, since, records, rsa_public,
}
use smtpx.Dkim.Verify.{
  Verification, verify, verify_steps, canonical_header, canonical_body, signed_data, signed_fields,
  trim_crlf, check_tags, has_all, check_identity, check_times, fetch_key, check_algorithms,
  check_canonicalization, check_hashes,
}
use smtpx.Dkim.Verify.Sound.{IsVerified, verify_sound}
use smtpx.Base.{◌≤◌, if◌then◌else◌, Option, ℕ, false, List, none, some}
use smtpx.Dkim.Query.{Checked}
use smtpx.Base.Int.{ℤ, pos}
use smtpx.Dmarc.{
  AlignmentMode, reject, Record, ok, parse, parse_params, check_version, required_policy, optional,
  percent_of, parse_policy,
}
use smtpx.Dmarc.Bounds.{parse_ok}
use smtpx.Dkim.Params.{Params}
use smtpx.Authentication.{SpfResult, result_pass, result_fail, dmarc_result, dkim_results}
use smtpx.Dkim.Header.{read_header}
use smtpx.Dkim.Message.{verify_with_options, verify_each, kept, signatures}
use smtpx.Dkim.Message.Every.{EachAnswered, verify_with_options_sound}

relaxed_write-append_example :
    relaxed_write (relaxed_write new_relaxed (codes "a ")) (codes " b")
    ≡ relaxed_write new_relaxed (codes "a  b")
relaxed_write-append_example = relaxed_write-append new_relaxed (codes "a ") (codes " b")

limited_write_short_example :
    ((limited_write 3 (codes "abcde")).0 + length (limited_write 3 (codes "abcde")).1 ≡ 3)
    × ((limited_write 3 (codes "abcde")).1 ≡ codes "abc")
    × (0 < 3
        → 3 < 5
        → ((limited_write 3 (codes "abcde")).2 ≡ length (limited_write 3 (codes "abcde")).1)
          × ((limited_write 3 (codes "abcde")).2 < 5))
    × ((limited_write 0 (codes "abcde")).2 ≡ 5)
limited_write_short_example = limited_write_short 3 (codes "abcde")

-- A resolver that publishes one RSA key, and a key that verifies the signature `sig` only.
abbrev toy : Crypto
toy = record {
  now = since 100;
  now_nanos = 500;
  parse_int = λ s. some (since (length s));
  decode_base64 = some;
  sha256 = take 4;
  lookup_txt = λ d. records (codes "v=DKIM1; p=key" ∷ []);
  parse_pkix = λ b. some (rsa_public b);
  parse_pkcs1 = λ b. none;
  key_size = λ k. 256;
  verify_rsa = λ k hashed sig. equal sig (codes "sig");
  verify_ed25519 = λ k hashed sig. false;
}

abbrev signature : Bytes
signature = codes "v=1; a=rsa-sha256; d=example.com; s=k1; h=From; bh=Hey!; b=sig"

abbrev header : List Bytes
header = (codes "From: alice@example.com" ++ crlf) ∷ []

abbrev hey : Bytes
hey = codes "Hey! Bob" ++ crlf

abbrev filled_in : Verification
filled_in = record {
  domain = codes "example.com";
  selector = codes "k1";
  signature = codes "sig";
  identifier = codes "@example.com";
  header_keys = codes "From" ∷ [];
  time = none;
  expiration = none;
}

toy_verifies :
    verify toy header hey (codes "DKIM-Signature: " ++ signature) signature ≡ (filled_in, pass tt)
unfolding equal equal_fold cut fields_by has_suffix join split to_lower trim_left trim_right
    trim_space fix relaxed_byte relaxed_bytes relaxed_close relaxed_header relaxed_write
    simple_close simple_write split_end pick remove_signature canonicalization
    parse_canonicalization find get parse_header_field parse_header_params parse_tag_list
    strip_whitespace is_after parse_public_key query_dns_txt verifies verify verify_steps
    canonical_header canonical_body signed_data signed_fields trim_crlf check_tags has_all
    check_identity check_times fetch_key check_algorithms check_canonicalization check_hashes
toy_verifies = refl

verify_sound_example : IsVerified toy header hey (codes "DKIM-Signature: " ++ signature) signature
verify_sound_example =
    verify_sound toy header hey (codes "DKIM-Signature: " ++ signature) signature toy_verifies

-- `strconv.Atoi`, for the one number that is needed here.
abbrev reads_fifty : Bytes → Option ℤ
reads_fifty s = if equal s (codes "50") then some (pos 50) else none

abbrev published : Bytes
published = codes "v=DMARC1; p=reject; pct=50"

abbrev published_params : Params
published_params =
    (codes "pct", codes "50") ∷ (codes "p", codes "reject") ∷ (codes "v", codes "DMARC1") ∷ []

abbrev half_reject : Record
half_reject = record {
  dkim_alignment = AlignmentMode.relaxed;
  spf_alignment = AlignmentMode.relaxed;
  failure_options = 0;
  policy = reject;
  percent = some 50;
  report_format = 0;
  report_interval = 0;
  report_uri_aggregate = [];
  report_uri_failure = [];
  subdomain_policy = none;
}

published_params_parse : parse_params published ≡ ok published_params
unfolding parse_params
published_params_parse = refl

published_parses : parse reads_fifty published ≡ ok half_reject
unfolding parse parse_params check_version required_policy optional percent_of parse_policy find get
    equal
published_parses = refl

parse_ok_example :
    (get (codes "v") published_params ≡ codes "DMARC1")
    × ((p : Bytes) × (find (codes "p") published_params ≡ some p)
        × (parse_policy p ≡ ok half_reject.policy))
    × ((n : ℕ) → half_reject.percent ≡ some n → n ≤ 100)
    × (find (codes "adkim") published_params ≡ none
        → half_reject.dkim_alignment ≡ AlignmentMode.relaxed)
    × (find (codes "aspf") published_params ≡ none
        → half_reject.spf_alignment ≡ AlignmentMode.relaxed)
parse_ok_example =
    parse_ok reads_fifty published published_params half_reject published_params_parse
      published_parses

-- Every domain is its own organizational domain.
abbrev own_org : Bytes → Option Bytes
own_org d = some d

abbrev spf_failed : SpfResult
spf_failed = record { value = result_fail; reason = []; from = []; helo = [] }

abbrev spf_passed : SpfResult
spf_passed = record { value = result_pass; reason = []; from = []; helo = [] }

abbrev one_signature : List (Verification × Checked (Unit {0}))
one_signature = (filled_in, pass tt) ∷ []

signature_aligned :
    let r =
      dmarc_result own_org spf_failed
        (dkim_results one_signature)
        half_reject
        []
        (codes "example.com") in
    r.value ≡ result_pass
unfolding dmarc_result dkim_results
signature_aligned = refl

-- A whole message with the signature in its header.
abbrev signed_message : Bytes
signed_message =
    codes "DKIM-Signature: "
    ++ (signature ++ (crlf ++ (codes "From: alice@example.com" ++ (crlf ++ (crlf ++ hey)))))

abbrev signed_header : List Bytes
signed_header = (codes "DKIM-Signature: " ++ (signature ++ crlf)) ∷ header

signed_message_reads : read_header signed_message ≡ some (signed_header, hey)
unfolding read_header cut
signed_message_reads = refl

signed_message_result :
    verify_with_options toy 0 signed_message
    ≡ some (verify_each toy signed_header hey (kept 0 (signatures signed_header)), false)
unfolding verify_with_options read_header cut
signed_message_result = refl

verify_with_options_sound_example :
    (h : List Bytes) × (body : Bytes) × (read_header signed_message ≡ some (h, body))
    × EachAnswered toy 0
        (verify_each toy signed_header hey (kept 0 (signatures signed_header)))
        false
        h
        body
verify_with_options_sound_example =
    verify_with_options_sound toy 0 signed_message signed_message_result
