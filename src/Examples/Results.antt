-- ===== src/Examples/Results.antt =====
-- The results of SPF and DMARC, the log and the identifiers.
use smtpx.Base.{◌*◌, false, [], ◌∷◌, ◌++◌, none, some, codes, crlf, length, ◌≡◌, ◌≢◌, refl, arith}
use smtpx.Authentication.{SpfResult, result_pass, dkim_check}
use smtpx.Authentication.Check.{Checks, spf_pass, dmarc_check}
use smtpx.Authentication.Check.Passed.{PassReasons, dmarc_check-pass}
use smtpx.Dkim.Query.{Crypto, missing, since}
use smtpx.Dmarc.{records, parse, parse_params, check_version, required_policy, optional}
use smtpx.Envelope.Data.{bytes}
use smtpx.Envelope.Headers.{fine}
use smtpx.Envelope.Message.{Envelope, new_envelope}
use smtpx.Envelope.Mail.{new_mail}
use smtpx.Dkim.Params.{get}
use smtpx.Examples.Data.{addressed}
use smtpx.Utils.Xid.{Process, new_id, xid, encode}
use smtpx.Utils.Xid.Digits.{number, values, id_bytes, encode-number}
use smtpx.Utils.Xid.Distinct.{after, xid_distinct}

abbrev process : Process
process = record { machine0 = 1; machine1 = 2; machine2 = 3; pid = 4_000; counter = 16_777_214 }

encode-number_example :
    (number 32 (values (encode (new_id process 1_700_000_000))) 0
      ≡ number 256 (id_bytes (new_id process 1_700_000_000)) 0 * 16)
    × (length (encode (new_id process 1_700_000_000)) ≡ 20)
unfolding new_id
encode-number_example = encode-number (new_id process 1_700_000_000) (ground arith)

xid_distinct_example :
    (xid process 1_700_000_000).1
    ≢ (xid (after (1_700_000_000 ∷ 1_699_999_999 ∷ []) process) 1_700_000_000).1
xid_distinct_example =
    xid_distinct process 1_700_000_000 1_700_000_000 (1_699_999_999 ∷ []) (ground arith)
      (omega arith)

abbrev no_keys : Crypto
no_keys = record {
  now = since 100;
  now_nanos = 500;
  parse_int = λ s. some (since (length s));
  decode_base64 = some;
  sha256 = λ s. s;
  lookup_txt = λ d. missing;
  parse_pkix = λ b. none;
  parse_pkcs1 = λ b. none;
  key_size = λ k. 0;
  verify_rsa = λ k hashed sig. false;
  verify_ed25519 = λ k hashed sig. false;
}

-- Every address passes SPF, and every domain rejects what fails.
abbrev checks : Checks
checks = record {
  crypto = no_keys;
  mime = record {
    read_mime_header = λ s. ((codes "From", codes "alice@example.com" ∷ []) ∷ [], fine);
    decode_header = λ w. (w, fine);
  };
  parse_ip = some;
  check_host = λ ip helo from. (spf_pass, none);
  parse_address = λ s. some (record { name = []; address = s });
  org = some;
  atoi = λ s. none;
  lookup_txt = λ d. records (codes "v=DMARC1; p=reject" ∷ []);
}

abbrev letter_from_alice : Envelope
letter_from_alice = record addressed {
  body = record {
    bufs = (codes "From: alice@example.com" ++ (crlf ++ (crlf ++ codes "hey"))) ∷ [];
  };
}

abbrev spf_passed : SpfResult
spf_passed = record { value = result_pass; reason = []; from = codes "bob@example.com"; helo = [] }

alice_passes :
    (dmarc_check checks letter_from_alice spf_passed (dkim_check no_keys letter_from_alice)).value
    ≡ result_pass
unfolding dmarc_check new_mail bytes new_envelope parse parse_params check_version get
    required_policy optional
alice_passes = refl

dmarc_check-pass_example : PassReasons checks letter_from_alice spf_passed
dmarc_check-pass_example = dmarc_check-pass checks letter_from_alice spf_passed alice_passes
