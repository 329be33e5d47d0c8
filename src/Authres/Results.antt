-- ===== src/Authres/Results.antt =====
-- middleware/authres/parse.go: the types of results, and what each of them makes of its parameters
-- and into which it turns again. The value of a result is its text. A Go map is an association list.
use smtpx.Base.{
  zero, suc, true, false, [], ◌∷◌, ◌++◌, Option, none, some, Bytes, codes, decimal, drop, equal,
  has_prefix, to_lower, if◌then◌else◌,
}
use smtpx.Base.Int.{ℤ, pos, negsuc}
use smtpx.Dkim.Params.{Params, find, get}

-- The types that implement `Result`, with their fields in the order of the source.
pub data Result : Type 0 where
  auth : Bytes → Bytes → Bytes → Result
  dkim : Bytes → Bytes → Bytes → Bytes → Bytes → Bytes → Result
  domain_keys : Bytes → Bytes → Bytes → Bytes → Bytes → Result
  ip_rev : Bytes → Bytes → Bytes → Result
  sender_id : Bytes → Bytes → Bytes → Bytes → Result
  spf : Bytes → Bytes → Bytes → Bytes → Result
  dmarc : Bytes → Bytes → Bytes → Result
  arc : Bytes → Bytes → ℤ → Result
  generic : Bytes → Bytes → Params → Result

abbrev pub prefix_header : Bytes
prefix_header = codes "header."

-- The loop of `SenderIDResult.parse`: the first parameter of a header field, in the order of the list.
unfoldable pub header_param : Params → Bytes × Bytes
unfolding has_prefix
header_param [] = ([], [])
header_param ((k, v) ∷ m) = elim (has_prefix k prefix_header) [
  | true ↦ (drop 7 k, v)
  | false ↦ header_param m
]

oldest_of : Option ℤ → Option ℤ
oldest_of none = none
oldest_of (some (pos zero)) = none
oldest_of (some (pos (suc n))) = some (pos (suc n))
oldest_of (some (negsuc n)) = none

-- `header.oldest-pass`, 0 where there is none; no result is an error. `atoi` is `strconv.Atoi`.
oldest_pass : (Bytes → Option ℤ) → Option Bytes → Option ℤ
unfolding oldest_of
oldest_pass atoi none = some (pos 0)
oldest_pass atoi (some s) = oldest_of (atoi s)

-- The types of the table `results`, and the one for a method that it does not have.
pub data Method : Type 0 where
  arc_method auth_method dkim_method domain_keys_method ip_rev_method : Method
  sender_id_method spf_method dmarc_method other_method : Method

unfoldable pub method_of : Bytes → Method
unfolding equal
method_of s =
    if equal s (codes "arc")
    then arc_method
    else if equal s (codes "auth")
    then auth_method
    else if equal s (codes "dkim")
    then dkim_method
    else if equal s (codes "domainkeys")
    then domain_keys_method
    else if equal s (codes "iprev")
    then ip_rev_method
    else if equal s (codes "sender-id")
    then sender_id_method
    else if equal s (codes "spf")
    then spf_method
    else if equal s (codes "dmarc")
    then dmarc_method
    else other_method

arc_result : Bytes → Params → Option ℤ → Option Result
arc_result value m none = none
arc_result value m (some n) = some (arc value (get (codes "smtp.remote-ip") m) n)

-- `parse` of each type; no result is an error.
parse_auth : Bytes → Params → Result
parse_auth value m = auth value (get (codes "reason") m) (get (codes "smtp.auth") m)

parse_dkim : Bytes → Params → Result
parse_dkim value m =
    dkim value (get (codes "reason") m) (get (codes "header.d") m) (get (codes "header.i") m)
      (get (codes "header.s") m) (get (codes "header.b") m)

parse_domain_keys : Bytes → Params → Result
parse_domain_keys value m =
    domain_keys value (get (codes "reason") m) (get (codes "header.d") m)
      (get (codes "header.from") m) (get (codes "header.sender") m)

parse_ip_rev : Bytes → Params → Result
parse_ip_rev value m = ip_rev value (get (codes "reason") m) (get (codes "policy.iprev") m)

parse_sender_id : Bytes → Params → Result
unfolding header_param
parse_sender_id value m =
    let (k, v) = header_param m in sender_id value (get (codes "reason") m) k v

parse_spf : Bytes → Params → Result
parse_spf value m =
    spf value (get (codes "reason") m) (get (codes "smtp.mailfrom") m) (get (codes "smtp.helo") m)

parse_dmarc : Bytes → Params → Result
parse_dmarc value m = dmarc value (get (codes "reason") m) (get (codes "header.from") m)

parse_arc : (Bytes → Option ℤ) → Bytes → Params → Option Result
unfolding oldest_pass arc_result find
parse_arc atoi value m = arc_result value m (oldest_pass atoi (find (codes "header.oldest-pass") m))

parse_generic : Bytes → Bytes → Params → Result
parse_generic name value m = generic name value m

-- `parse` of the new result of a method.
unfoldable pub parse_as : (Bytes → Option ℤ) → Method → Bytes → Bytes → Params → Option Result
unfolding parse_auth parse_dkim parse_domain_keys parse_ip_rev parse_sender_id parse_spf parse_dmarc
    parse_arc parse_generic get
parse_as atoi arc_method name value m = parse_arc atoi value m
parse_as atoi auth_method name value m = some (parse_auth value m)
parse_as atoi dkim_method name value m = some (parse_dkim value m)
parse_as atoi domain_keys_method name value m = some (parse_domain_keys value m)
parse_as atoi ip_rev_method name value m = some (parse_ip_rev value m)
parse_as atoi sender_id_method name value m = some (parse_sender_id value m)
parse_as atoi spf_method name value m = some (parse_spf value m)
parse_as atoi dmarc_method name value m = some (parse_dmarc value m)
parse_as atoi other_method name value m = some (parse_generic name value m)

oldest_text : ℤ → Bytes
unfolding decimal
oldest_text (pos zero) = []
oldest_text (pos (suc n)) = decimal (suc n)
oldest_text (negsuc n) = []

-- The parameters of `format` of each type.
auth_params : Bytes → Params
auth_params a = (codes "smtp.auth", a) ∷ []

dkim_params : Bytes → Bytes → Bytes → Bytes → Bytes → Params
dkim_params reason d i s b =
    (codes "reason", reason)
    ∷ (codes "header.d", d)
    ∷ (codes "header.i", i)
    ∷ (codes "header.s", s)
    ∷ (codes "header.b", b)
    ∷ []

domain_keys_params : Bytes → Bytes → Bytes → Bytes → Params
domain_keys_params reason d from sender =
    (codes "reason", reason)
    ∷ (codes "header.d", d)
    ∷ (codes "header.from", from)
    ∷ (codes "header.sender", sender)
    ∷ []

ip_rev_params : Bytes → Bytes → Params
ip_rev_params reason ip = (codes "reason", reason) ∷ (codes "policy.iprev", ip) ∷ []

sender_id_params : Bytes → Bytes → Bytes → Params
unfolding to_lower
sender_id_params reason k v = (codes "reason", reason) ∷ (prefix_header ++ to_lower k, v) ∷ []

spf_params : Bytes → Bytes → Bytes → Params
spf_params reason from helo =
    (codes "reason", reason) ∷ (codes "smtp.mailfrom", from) ∷ (codes "smtp.helo", helo) ∷ []

dmarc_params : Bytes → Bytes → Params
dmarc_params reason from = (codes "reason", reason) ∷ (codes "header.from", from) ∷ []

arc_params : Bytes → ℤ → Params
unfolding oldest_text
arc_params ip oldest =
    (codes "smtp.remote-ip", ip) ∷ (codes "header.oldest-pass", oldest_text oldest) ∷ []

-- `format`: the value and the parameters.
unfoldable pub format_of : Result → Bytes × Params
unfolding auth_params dkim_params domain_keys_params ip_rev_params sender_id_params spf_params
    dmarc_params arc_params
format_of (auth value reason a) = (value, auth_params a)
format_of (dkim value reason d i s b) = (value, dkim_params reason d i s b)
format_of (domain_keys value reason d from sender) =
    (value, domain_keys_params reason d from sender)
format_of (ip_rev value reason ip) = (value, ip_rev_params reason ip)
format_of (sender_id value reason k v) = (value, sender_id_params reason k v)
format_of (spf value reason from helo) = (value, spf_params reason from helo)
format_of (dmarc value reason from) = (value, dmarc_params reason from)
format_of (arc value ip oldest) = (value, arc_params ip oldest)
format_of (generic name value m) = (value, m)
