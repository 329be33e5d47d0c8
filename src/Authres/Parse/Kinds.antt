-- ===== src/Authres/Parse/Kinds.antt =====
-- middleware/authres/parse.go: the types of results that are read as they were written.
use smtpx.Authres.Format.{result_text}
use smtpx.Authres.Format.Words.{
  IsPart, IsQuiet, IsAddressLike, IsAddressLike-IsPlain, ordered_keys_All,
}
use smtpx.Authres.Parse.{one_result, parse_result, found}
use smtpx.Authres.Parse.Round.{
  IsReadable, IsReadable-reason, IsReadable-other, get-read, get-read_reason, margin,
  parse_result-text, IsPart-text,
}
use smtpx.Authres.Results.{
  Result, auth, dkim, domain_keys, ip_rev, sender_id, spf, dmarc, arc, generic, method_of, parse_as,
}
use smtpx.Base.{
  [], ◌∷◌, ◌++◌, Option, Bytes, codes, equal, sort_strings, to_lower, trim_space, ◌≡◌, refl, sym,
  ◌∙◌,
}
use smtpx.Base.Int.{ℤ}
use smtpx.Dkim.Format.{keys_of}
use smtpx.Dkim.Params.{Params, get}

abbrev pub IsValue : Bytes → Type 0
IsValue v = IsAddressLike v × (to_lower v ≡ v)

-- A result whose texts need no quotes, and of which the text keeps all: that of an AuthResult has no
-- place for the reason. The types whose parameters have no fixed keys, and the result of ARC, are
-- left out.
abbrev pub IsWritable : Result → Type 0
IsWritable (auth v r a) = IsValue v × (r ≡ []) × IsAddressLike a
IsWritable (dkim v r d i s b) =
    IsValue v × IsQuiet r × IsAddressLike d × IsAddressLike i × IsAddressLike s × IsAddressLike b
IsWritable (domain_keys v r d f s) =
    IsValue v × IsQuiet r × IsAddressLike d × IsAddressLike f × IsAddressLike s
IsWritable (ip_rev v r ip) = IsValue v × IsQuiet r × IsAddressLike ip
IsWritable (sender_id v r k w) = ⊥
IsWritable (spf v r f h) = IsValue v × IsQuiet r × IsAddressLike f × IsAddressLike h
IsWritable (dmarc v r f) = IsValue v × IsQuiet r × IsAddressLike f
IsWritable (arc v ip n) = ⊥
IsWritable (generic n v m) = ⊥

abbrev pub Reads : (Bytes → Option ℤ) → Result → Type 0
Reads atoi r =
    (parse_result atoi (trim_space (margin ++ result_text r)) ≡ one_result r)
    × IsPart (margin ++ result_text r)

Reads-auth :
    (atoi : Bytes → Option ℤ) (v r a : Bytes) → IsWritable (auth v r a) → Reads atoi (auth v r a)
unfolding result_text equal to_lower get keys_of sort_strings found parse_as method_of
Reads-auth atoi v r a (hv, hr, ha) =
    let m : Params = (codes "smtp.auth", a) ∷ [] in
    let keys =
      (ordered_keys_All (λ k. IsReadable k (get k m)) m (IsReadable-reason [] tt)
        (IsReadable-other (codes "smtp.auth") a refl (refl, refl, refl) ha, tt)) in
    let plain = IsAddressLike-IsPlain v hv.0 in
    (
      parse_result-text atoi (codes "auth") v m (refl, refl, refl) refl plain hv.1 keys ∙ (λ i.
          one_result
            (auth v ((get-read_reason m ∙ sym hr) i) (get-read m (codes "smtp.auth") refl i))),
      IsPart-text (codes "auth") v m (refl, refl, refl) plain keys,
    )

Reads-dkim :
    (atoi : Bytes → Option ℤ) (v r d i s b : Bytes)
    → IsWritable (dkim v r d i s b)
    → Reads atoi (dkim v r d i s b)
unfolding result_text equal to_lower get keys_of sort_strings found parse_as method_of
Reads-dkim atoi v r d i s b (hv, hr, hd, hi, hs, hb) =
    let m : Params =
      (codes "reason", r)
      ∷ (codes "header.d", d)
      ∷ (codes "header.i", i)
      ∷ (codes "header.s", s)
      ∷ (codes "header.b", b)
      ∷ [] in
    let keys =
      (ordered_keys_All (λ k. IsReadable k (get k m)) m (IsReadable-reason r hr)
        (
          IsReadable-other (codes "header.d") d refl (refl, refl, refl) hd,
          (
            IsReadable-other (codes "header.i") i refl (refl, refl, refl) hi,
            (
              IsReadable-other (codes "header.s") s refl (refl, refl, refl) hs,
              (IsReadable-other (codes "header.b") b refl (refl, refl, refl) hb, tt),
            ),
          ),
        )) in
    let plain = IsAddressLike-IsPlain v hv.0 in
    (
      parse_result-text atoi (codes "dkim") v m (refl, refl, refl) refl plain hv.1 keys ∙ (λ t.
          one_result (
            dkim v (get-read_reason m t) (get-read m (codes "header.d") refl t)
              (get-read m (codes "header.i") refl t) (get-read m (codes "header.s") refl t)
              (get-read m (codes "header.b") refl t))),
      IsPart-text (codes "dkim") v m (refl, refl, refl) plain keys,
    )

Reads-domain_keys :
    (atoi : Bytes → Option ℤ) (v r d f s : Bytes)
    → IsWritable (domain_keys v r d f s)
    → Reads atoi (domain_keys v r d f s)
unfolding result_text equal to_lower get keys_of sort_strings found parse_as method_of
Reads-domain_keys atoi v r d f s (hv, hr, hd, hf, hs) =
    let m : Params =
      (codes "reason", r)
      ∷ (codes "header.d", d)
      ∷ (codes "header.from", f)
      ∷ (codes "header.sender", s)
      ∷ [] in
    let keys =
      (ordered_keys_All (λ k. IsReadable k (get k m)) m (IsReadable-reason r hr)
        (
          IsReadable-other (codes "header.d") d refl (refl, refl, refl) hd,
          (
            IsReadable-other (codes "header.from") f refl (refl, refl, refl) hf,
            (IsReadable-other (codes "header.sender") s refl (refl, refl, refl) hs, tt),
          ),
        )) in
    let plain = IsAddressLike-IsPlain v hv.0 in
    (
      parse_result-text atoi (codes "domainkeys") v m (refl, refl, refl) refl plain hv.1 keys
          ∙ (λ i. one_result (
              domain_keys v (get-read_reason m i) (get-read m (codes "header.d") refl i)
                (get-read m (codes "header.from") refl i)
                (get-read m (codes "header.sender") refl i))),
      IsPart-text (codes "domainkeys") v m (refl, refl, refl) plain keys,
    )

Reads-ip_rev :
    (atoi : Bytes → Option ℤ) (v r ip : Bytes)
    → IsWritable (ip_rev v r ip)
    → Reads atoi (ip_rev v r ip)
unfolding result_text equal to_lower get keys_of sort_strings found parse_as method_of
Reads-ip_rev atoi v r ip (hv, hr, hip) =
    let m : Params = (codes "reason", r) ∷ (codes "policy.iprev", ip) ∷ [] in
    let keys =
      (ordered_keys_All (λ k. IsReadable k (get k m)) m (IsReadable-reason r hr)
        (IsReadable-other (codes "policy.iprev") ip refl (refl, refl, refl) hip, tt)) in
    let plain = IsAddressLike-IsPlain v hv.0 in
    (
      parse_result-text atoi (codes "iprev") v m (refl, refl, refl) refl plain hv.1 keys ∙ (λ i.
          one_result (ip_rev v (get-read_reason m i) (get-read m (codes "policy.iprev") refl i))),
      IsPart-text (codes "iprev") v m (refl, refl, refl) plain keys,
    )

Reads-spf :
    (atoi : Bytes → Option ℤ) (v r f h : Bytes)
    → IsWritable (spf v r f h)
    → Reads atoi (spf v r f h)
unfolding result_text equal to_lower get keys_of sort_strings found parse_as method_of
Reads-spf atoi v r f h (hv, hr, hf, hh) =
    let m : Params =
      (codes "reason", r) ∷ (codes "smtp.mailfrom", f) ∷ (codes "smtp.helo", h) ∷ [] in
    let keys =
      (ordered_keys_All (λ k. IsReadable k (get k m)) m (IsReadable-reason r hr)
        (
          IsReadable-other (codes "smtp.mailfrom") f refl (refl, refl, refl) hf,
          (IsReadable-other (codes "smtp.helo") h refl (refl, refl, refl) hh, tt),
        )) in
    let plain = IsAddressLike-IsPlain v hv.0 in
    (
      parse_result-text atoi (codes "spf") v m (refl, refl, refl) refl plain hv.1 keys ∙ (λ i.
          one_result (
            spf v (get-read_reason m i) (get-read m (codes "smtp.mailfrom") refl i)
              (get-read m (codes "smtp.helo") refl i))),
      IsPart-text (codes "spf") v m (refl, refl, refl) plain keys,
    )

Reads-dmarc :
    (atoi : Bytes → Option ℤ) (v r f : Bytes) → IsWritable (dmarc v r f) → Reads atoi (dmarc v r f)
unfolding result_text equal to_lower get keys_of sort_strings found parse_as method_of
Reads-dmarc atoi v r f (hv, hr, hf) =
    let m : Params = (codes "reason", r) ∷ (codes "header.from", f) ∷ [] in
    let keys =
      (ordered_keys_All (λ k. IsReadable k (get k m)) m (IsReadable-reason r hr)
        (IsReadable-other (codes "header.from") f refl (refl, refl, refl) hf, tt)) in
    let plain = IsAddressLike-IsPlain v hv.0 in
    (
      parse_result-text atoi (codes "dmarc") v m (refl, refl, refl) refl plain hv.1 keys ∙ (λ i.
          one_result (dmarc v (get-read_reason m i) (get-read m (codes "header.from") refl i))),
      IsPart-text (codes "dmarc") v m (refl, refl, refl) plain keys,
    )

pub parse_result-Reads : (atoi : Bytes → Option ℤ) (r : Result) → IsWritable r → Reads atoi r
parse_result-Reads atoi (auth v r a) h = Reads-auth atoi v r a h
parse_result-Reads atoi (dkim v r d i s b) h = Reads-dkim atoi v r d i s b h
parse_result-Reads atoi (domain_keys v r d f s) h = Reads-domain_keys atoi v r d f s h
parse_result-Reads atoi (ip_rev v r ip) h = Reads-ip_rev atoi v r ip h
parse_result-Reads atoi (spf v r f t) h = Reads-spf atoi v r f t h
parse_result-Reads atoi (dmarc v r f) h = Reads-dmarc atoi v r f h
parse_result-Reads atoi (sender_id v r k w) h = absurd h
parse_result-Reads atoi (arc v ip n) h = absurd h
parse_result-Reads atoi (generic n v m) h = absurd h
