-- ===== src/Authentication/Alignment.antt =====
-- What a DMARC result of "pass" rests on (middleware/authentication.go).
use smtpx.Base.{
  Bool, true, false, List, [], ◌∷◌, Option, none, some, Bytes, ◌≡◌, ◌≢◌, refl, arith, ◌⊎◌, inl, inr,
  Bool-cases, equal_iff, has_suffix, ap,
}
use smtpx.Authentication.{
  SpfResult, is_pass, result_pass, check_spf_alignment, check_dkim_alignment,
  determine_dmarc_result, dmarc_result, same_org, spf_matches, dkim_matches, dkim_results,
  same_text,
}
use smtpx.Dmarc.{Record, AlignmentMode, strict, relaxed, no_policy}
use smtpx.Dkim.Query.{Checked, pass, stop}
use smtpx.Dkim.Verify.{Verification}
use mathlib.Core.List.{Mem, mem-cons_self, mem-cons_of_mem}

abbrev pub SameOrg : (Bytes → Option Bytes) → Bytes → Bytes → Type 0
SameOrg org a b = (o : Bytes) × (org a ≡ some o) × (org b ≡ some o)

-- What the record asks of the domain of a signature.
abbrev pub DkimAligned : (Bytes → Option Bytes) → AlignmentMode → Bytes → Bytes → Type 0
DkimAligned org strict a b = a ≡ b
DkimAligned org relaxed a b = SameOrg org a b

-- What the record asks of the domain of SPF.
abbrev pub SpfAligned : (Bytes → Option Bytes) → AlignmentMode → Bytes → Bytes → Type 0
SpfAligned org strict a b = a ≡ b
SpfAligned org relaxed a b = (has_suffix a b ≡ true) ⊎ SameOrg org a b

same_text-some :
    (x y : Option Bytes) → same_text x y ≡ true → (o : Bytes) × (x ≡ some o) × (y ≡ some o)
unfolding same_text
same_text-some none y h = ground arith
same_text-some (some a) none h = ground arith
same_text-some (some a) (some b) h = (b, ap some ((equal_iff a b).0 h), refl)

same_org-SameOrg :
    (org : Bytes → Option Bytes) (a b : Bytes) → same_org org a b ≡ true → SameOrg org a b
unfolding same_org
same_org-SameOrg org a b h = same_text-some (org a) (org b) h

dkim_matches-DkimAligned :
    (org : Bytes → Option Bytes) (m : AlignmentMode) (a b : Bytes)
    → dkim_matches org m a b ≡ true
    → DkimAligned org m a b
unfolding dkim_matches
dkim_matches-DkimAligned org strict a b h = (equal_iff a b).0 h
dkim_matches-DkimAligned org relaxed a b h = same_org-SameOrg org a b h

spf_matches-SpfAligned :
    (org : Bytes → Option Bytes) (m : AlignmentMode) (a b : Bytes)
    → spf_matches org m a b ≡ true
    → SpfAligned org m a b
unfolding spf_matches
spf_matches-SpfAligned org strict a b h = (equal_iff a b).0 h
spf_matches-SpfAligned org relaxed a b h = elim (Bool-cases (has_suffix a b)) [
  | inl suffix ↦ inl suffix
  | inr other ↦ inr (same_org-SameOrg org a b (ground arith))
]

check_spf_alignment-SpfAligned :
    (org : Bytes → Option Bytes) (spf : SpfResult) (r : Record) (a b : Bytes)
    → check_spf_alignment org spf r a b ≡ true
    → (is_pass spf.value ≡ true) × SpfAligned org r.spf_alignment a b
unfolding check_spf_alignment
check_spf_alignment-SpfAligned org spf r a b h =
    let matches : spf_matches org r.spf_alignment a b ≡ true = ground arith in
    (ground arith, spf_matches-SpfAligned org r.spf_alignment a b matches)

-- Of one verification: it succeeded, and its domain is aligned.
abbrev pub Aligns :
    (Bytes → Option Bytes) → Record → Bytes → Verification × Checked (Unit {0}) → Type 0
Aligns org r b (v, c) = (c ≡ pass tt) × DkimAligned org r.dkim_alignment v.domain b

check_dkim_alignment-Aligns :
    (org : Bytes → Option Bytes) (vs : List (Verification × Checked (Unit {0}))) (r : Record)
    (b : Bytes)
    → check_dkim_alignment org (dkim_results vs) r b ≡ true
    → (v : Verification × Checked (Unit {0})) × Mem v vs × Aligns org r b v
unfolding check_dkim_alignment dkim_results
check_dkim_alignment-Aligns org [] r b h = ground arith
check_dkim_alignment-Aligns org ((v, stop e) ∷ vs) r b h =
    let (w, at, aligned) = check_dkim_alignment-Aligns org vs r b h in
    (w, mem-cons_of_mem (v, stop e) at, aligned)
check_dkim_alignment-Aligns org ((v, pass u) ∷ vs) r b h =
    elim (Bool-cases (dkim_matches org r.dkim_alignment v.domain b)) [
      | inl same ↦
          let aligned = dkim_matches-DkimAligned org r.dkim_alignment v.domain b same in
          ((v, pass u), mem-cons_self, (refl, aligned))
      | inr other ↦
          let rest : check_dkim_alignment org (dkim_results vs) r b ≡ true = ground arith in
          let (w, at, aligned) = check_dkim_alignment-Aligns org vs r b rest in
          (w, mem-cons_of_mem (v, pass u) at, aligned)
    ]

determine-pass :
    (s d : Bool) (spf : SpfResult) (r : Record)
    → (determine_dmarc_result s d spf r).value ≡ result_pass
    → (r.policy ≢ no_policy) × ((s ≡ true) ⊎ (d ≡ true))
unfolding determine_dmarc_result
determine-pass true d spf r h = (ground arith, inl refl)
determine-pass false true spf r h = (ground arith, inr refl)
determine-pass false false spf r h = ground arith

-- DMARC passes only for a record whose policy is not "none", and then SPF has passed for a domain
-- that is aligned with the one of the From field, or the message has a signature that verified for
-- an aligned domain: equal to it if the record asks for that, otherwise of the same organizational
-- domain, where for SPF a domain that ends in the one of the From field is taken too.
pub dmarc_pass_sound :
    (org : Bytes → Option Bytes) (spf : SpfResult) (vs : List (Verification × Checked (Unit {0})))
    (r : Record) (spf_domain from_domain : Bytes)
    → (dmarc_result org spf (dkim_results vs) r spf_domain from_domain).value ≡ result_pass
    → (r.policy ≢ no_policy)
      × (((is_pass spf.value ≡ true) × SpfAligned org r.spf_alignment spf_domain from_domain)
          ⊎ ((v : Verification × Checked (Unit {0})) × Mem v vs × Aligns org r from_domain v))
unfolding dmarc_result
dmarc_pass_sound org spf vs r a b h =
    let s = check_spf_alignment org spf r a b in
    let d = check_dkim_alignment org (dkim_results vs) r b in
    let (policy, which) = determine-pass s d spf r h in
    (
      policy,
      elim which [
        | inl p ↦ inl (check_spf_alignment-SpfAligned org spf r a b p)
        | inr p ↦ inr (check_dkim_alignment-Aligns org vs r b p)
      ],
    )
